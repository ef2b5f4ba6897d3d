-- ===== src/Sim/SearchStats.antt =====
-- crates/sim/src/search_stats.rs: the counters of the two searches, kept while the environment asks for
-- them. The statics are a state that is passed on; `enabled` is what the environment says.
use prop_amm_challenge.Prelude.{ℕ, ◌+◌, ◌%◌, Bool, Option, none, some, if◌then◌else◌}
use prop_amm_challenge.Words.{u64_mod}

pub record SearchStatsSnapshot : Type 0 where
  pub arb_bracket_calls : ℕ
  pub arb_bracket_evals : ℕ
  pub arb_golden_calls : ℕ
  pub arb_golden_iters : ℕ
  pub arb_golden_evals : ℕ
  pub arb_early_stop_amount_tol : ℕ
  pub router_calls : ℕ
  pub router_golden_iters : ℕ
  pub router_evals : ℕ
  pub router_early_stop_rel_gap : ℕ

pub record SearchStats : Type 0 where
  pub enabled : Bool
  pub counters : SearchStatsSnapshot

-- `if enabled() { counter.fetch_add(1) }`, which wraps.
unfoldable pub fetch_add_if : Bool → ℕ → ℕ
fetch_add_if enabled n = if enabled then (n + 1) % u64_mod else n

unfoldable pub reset : SearchStats → SearchStats
reset s = record s {
  counters = record {
    arb_bracket_calls = 0;
    arb_bracket_evals = 0;
    arb_golden_calls = 0;
    arb_golden_iters = 0;
    arb_golden_evals = 0;
    arb_early_stop_amount_tol = 0;
    router_calls = 0;
    router_golden_iters = 0;
    router_evals = 0;
    router_early_stop_rel_gap = 0;
  };
}

unfoldable pub snapshot_if_enabled : SearchStats → Option SearchStatsSnapshot
snapshot_if_enabled s = if s.enabled then some s.counters else none

unfoldable pub inc_arb_bracket_call : SearchStats → SearchStats
inc_arb_bracket_call s = record s {
  counters = record s.counters {
    arb_bracket_calls = fetch_add_if s.enabled s.counters.arb_bracket_calls;
  };
}

unfoldable pub inc_arb_bracket_eval : SearchStats → SearchStats
inc_arb_bracket_eval s = record s {
  counters = record s.counters {
    arb_bracket_evals = fetch_add_if s.enabled s.counters.arb_bracket_evals;
  };
}

unfoldable pub inc_arb_golden_call : SearchStats → SearchStats
inc_arb_golden_call s = record s {
  counters = record s.counters {
    arb_golden_calls = fetch_add_if s.enabled s.counters.arb_golden_calls;
  };
}

unfoldable pub inc_arb_golden_iter : SearchStats → SearchStats
inc_arb_golden_iter s = record s {
  counters = record s.counters {
    arb_golden_iters = fetch_add_if s.enabled s.counters.arb_golden_iters;
  };
}

unfoldable pub inc_arb_golden_eval : SearchStats → SearchStats
inc_arb_golden_eval s = record s {
  counters = record s.counters {
    arb_golden_evals = fetch_add_if s.enabled s.counters.arb_golden_evals;
  };
}

unfoldable pub inc_arb_early_stop_amount_tol : SearchStats → SearchStats
inc_arb_early_stop_amount_tol s = record s {
  counters = record s.counters {
    arb_early_stop_amount_tol = fetch_add_if s.enabled s.counters.arb_early_stop_amount_tol;
  };
}

unfoldable pub inc_router_call : SearchStats → SearchStats
inc_router_call s = record s {
  counters = record s.counters { router_calls = fetch_add_if s.enabled s.counters.router_calls };
}

unfoldable pub inc_router_iter : SearchStats → SearchStats
inc_router_iter s = record s {
  counters = record s.counters {
    router_golden_iters = fetch_add_if s.enabled s.counters.router_golden_iters;
  };
}

unfoldable pub inc_router_eval : SearchStats → SearchStats
inc_router_eval s = record s {
  counters = record s.counters { router_evals = fetch_add_if s.enabled s.counters.router_evals };
}

unfoldable pub inc_router_early_stop_rel_gap : SearchStats → SearchStats
inc_router_early_stop_rel_gap s = record s {
  counters = record s.counters {
    router_early_stop_rel_gap = fetch_add_if s.enabled s.counters.router_early_stop_rel_gap;
  };
}
