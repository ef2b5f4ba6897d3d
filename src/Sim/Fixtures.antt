-- ===== src/Sim/Fixtures.antt =====
-- What the runs of the simulator share: a random source that is a counter, and counters that are on.
use prop_amm_challenge.Prelude.{◌+◌, ℕ, true, some}
use prop_amm_challenge.Float.{nought}
use prop_amm_challenge.Float.Fixed.{Fixed, fixed_float, fixed}
use prop_amm_challenge.Random.{Random}
use prop_amm_challenge.Sim.SearchStats.{SearchStats}

-- Every draw is a constant, and counts.
instance abbrev pub counting : Random Fixed
counting = record {
  Pcg64 = ℕ;
  LogNormal = Fixed × Fixed;
  Poisson = Fixed;
  seed_from_u64 = λ seed. seed;
  standard_normal = λ r. (nought, r + 1);
  log_normal = λ mu sigma. some (mu, sigma);
  sample_log_normal = λ d r. (fixed 20, r + 1);
  poisson = λ lambda. some lambda;
  sample_poisson = λ lambda r. (fixed 1, r + 1);
  gen = λ r. (fixed 0, r + 1);
  gen_range = λ low high r. some (low, r + 1);
  gen_range_inclusive = λ low high r. some (low, r + 1);
}

abbrev pub no_stats : SearchStats
no_stats = record {
  enabled = true;
  counters = record {
    arb_bracket_calls = 0;
    arb_bracket_evals = 0;
    arb_golden_calls = 0;
    arb_golden_iters = 0;
    arb_golden_evals = 0;
    arb_early_stop_amount_tol = 0;
    router_calls = 0;
    router_golden_iters = 0;
    router_evals = 0;
    router_early_stop_rel_gap = 0;
  };
}
