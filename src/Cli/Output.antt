-- ===== src/Cli/Output.antt =====
-- crates/cli/src/output.rs: the numbers that `print_results` prints. The durations are not here.
use prop_amm_challenge.Prelude.{ℕ, min, max, List, foldl, Option, none, some}
use prop_amm_challenge.Float.{Float, ◌⊘◌}
use prop_amm_challenge.Shared.Result.{SimResult, BatchResult, n_sims, avg_edge}
use prop_amm_challenge.Sim.SearchStats.{SearchStats, SearchStatsSnapshot, snapshot_if_enabled}

-- The least and the greatest seed so far, and one more.
unfoldable pub widen : Option (ℕ × ℕ) → ℕ → Option (ℕ × ℕ)
widen none seed = some (seed, seed)
widen (some (lo, hi)) seed = some (min lo seed, max hi seed)

-- A count per call.
abbrev pub per_call : (F : Type 0) ⦃f : Float F⦄ → ℕ → ℕ → F
per_call F ⦃f⦄ n calls = f.of_u64 n ⊘ f.of_u64 (max calls 1)

-- The lines on the searches: the counters, and their averages in the order of the lines.
pub record SearchReport (F : Type 0) : Type 0 where
  pub counters : SearchStatsSnapshot
  pub golden_iters_per_call : F
  pub golden_evals_per_call : F
  pub bracket_evals_per_call : F
  pub router_iters_per_call : F
  pub router_evals_per_call : F

pub record Report (F : Type 0) : Type 0 where
  pub simulations : ℕ
  pub seed_range : Option (ℕ × ℕ)
  pub avg_edge : F
  pub total_edge : F
  pub search : Option (SearchReport F)

module _ {F : Type 0} ⦃f : Float F⦄ where
  unfoldable pub seed_range_of : List (SimResult F) → Option (ℕ × ℕ)
  seed_range_of results = foldl (λ acc r. widen acc r.seed) none results

  unfoldable pub search_report : SearchStatsSnapshot → SearchReport F
  search_report stats = record {
    counters = stats;
    golden_iters_per_call = per_call F stats.arb_golden_iters stats.arb_golden_calls;
    golden_evals_per_call = per_call F stats.arb_golden_evals stats.arb_golden_calls;
    bracket_evals_per_call = per_call F stats.arb_bracket_evals stats.arb_bracket_calls;
    router_iters_per_call = per_call F stats.router_golden_iters stats.router_calls;
    router_evals_per_call = per_call F stats.router_evals stats.router_calls;
  }

  unfoldable pub print_results : BatchResult F → SearchStats → Report F
  print_results result stats = record {
    simulations = n_sims result;
    seed_range = seed_range_of result.results;
    avg_edge = avg_edge result;
    total_edge = result.total_edge;
    search = elim (snapshot_if_enabled stats) [ none ↦ none | some s ↦ some (search_report s) ];
  }
