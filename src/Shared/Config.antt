-- ===== src/Shared/Config.antt =====
-- crates/shared/src/config.rs: the configuration of a simulation, and the random variation of it.
use prop_amm_challenge.Prelude.{ℕ, zero, suc, ◌+◌, List, [], ◌∷◌, Option, some, ◌>>=◌}
use prop_amm_challenge.Float.{Float}
use prop_amm_challenge.Random.{Random}

pub record SimulationConfig (F : Type 0) : Type 0 where
  pub n_steps : ℕ
  pub initial_price : F
  pub initial_x : F
  pub initial_y : F
  pub gbm_mu : F
  pub gbm_sigma : F
  pub gbm_dt : F
  pub retail_arrival_rate : F
  pub retail_mean_size : F
  pub retail_size_sigma : F
  pub retail_buy_prob : F
  pub min_arb_profit : F
  pub seed : ℕ
  pub norm_fee_bps : ℕ
  pub norm_liquidity_mult : F

pub record HyperparameterVariance (F : Type 0) : Type 0 where
  pub gbm_sigma_min : F
  pub gbm_sigma_max : F
  pub retail_arrival_rate_min : F
  pub retail_arrival_rate_max : F
  pub retail_mean_size_min : F
  pub retail_mean_size_max : F
  pub norm_fee_bps_min : ℕ
  pub norm_fee_bps_max : ℕ
  pub norm_liquidity_mult_min : F
  pub norm_liquidity_mult_max : F

abbrev pub baseline_steps : ℕ
baseline_steps = 10_000

module _ {F : Type 0} ⦃f : Float F⦄ where
  -- `SimulationConfig::default()`
  unfoldable pub default_config : SimulationConfig F
  default_config = record {
    n_steps = baseline_steps;
    initial_price = f.literal 100 0;
    initial_x = f.literal 100 0;
    initial_y = f.literal 10000 0;
    gbm_mu = f.literal 0 0;
    gbm_sigma = f.literal 945 6;
    gbm_dt = f.literal 1 0;
    retail_arrival_rate = f.literal 8 1;
    retail_mean_size = f.literal 20 0;
    retail_size_sigma = f.literal 12 1;
    retail_buy_prob = f.literal 5 1;
    min_arb_profit = f.literal 1 2;
    seed = 0;
    norm_fee_bps = 30;
    norm_liquidity_mult = f.literal 1 0;
  }

  -- `HyperparameterVariance::default()`
  unfoldable pub default_variance : HyperparameterVariance F
  default_variance = record {
    gbm_sigma_min = f.literal 1 4;
    gbm_sigma_max = f.literal 7 3;
    retail_arrival_rate_min = f.literal 4 1;
    retail_arrival_rate_max = f.literal 12 1;
    retail_mean_size_min = f.literal 12 0;
    retail_mean_size_max = f.literal 28 0;
    norm_fee_bps_min = 30;
    norm_fee_bps_max = 80;
    norm_liquidity_mult_min = f.literal 4 1;
    norm_liquidity_mult_max = f.literal 2 0;
  }

  module _ ⦃rand : Random F⦄ where
    -- `none` is the panic of `gen_range` on an empty range.
    unfoldable pub apply :
        HyperparameterVariance F → SimulationConfig F → ℕ → Option (SimulationConfig F)
    apply v base seed =
        rand.gen_range v.gbm_sigma_min v.gbm_sigma_max (rand.seed_from_u64 seed)
        >>= λ (gbm_sigma, rng1).
            rand.gen_range v.retail_arrival_rate_min v.retail_arrival_rate_max rng1
            >>= λ (retail_arrival_rate, rng2).
                rand.gen_range v.retail_mean_size_min v.retail_mean_size_max rng2
                >>= λ (retail_mean_size, rng3).
                    rand.gen_range_inclusive v.norm_fee_bps_min v.norm_fee_bps_max rng3
                    >>= λ (norm_fee_bps, rng4).
                        rand.gen_range v.norm_liquidity_mult_min v.norm_liquidity_mult_max rng4
                        >>= λ (norm_liquidity_mult, _). some (record base {
                          gbm_sigma = gbm_sigma;
                          retail_arrival_rate = retail_arrival_rate;
                          retail_mean_size = retail_mean_size;
                          norm_fee_bps = norm_fee_bps;
                          norm_liquidity_mult = norm_liquidity_mult;
                          seed = seed;
                        })

    -- The configurations for the seeds `seed_of i`, for `n` numbers `i` from the given one on.
    unfoldable pub apply_each :
        HyperparameterVariance F
        → SimulationConfig F
        → (ℕ → ℕ)
        → ℕ
        → ℕ
        → Option (List (SimulationConfig F))
    apply_each v base seed_of zero i = some []
    apply_each v base seed_of (suc n) i = apply v base (seed_of i) >>= λ config.
        apply_each v base seed_of n (i + 1) >>= λ configs. some (config ∷ configs)

    unfoldable pub generate_configs :
        HyperparameterVariance F → ℕ → Option (List (SimulationConfig F))
    generate_configs v n = apply_each v default_config (λ i. i) n 0
