-- ===== src/Random.antt =====
-- The random source of the simulator, as the interface that it uses of the crates rand, rand_pcg and
-- rand_distr: the generator `Pcg64` and what is drawn from it, each draw with the generator after it.
use prop_amm_challenge.Prelude.{ℕ, Option}

pub record Random (F : Type 0) : Type 1 where
  pub Pcg64 : Type 0
  pub LogNormal : Type 0
  pub Poisson : Type 0
  pub seed_from_u64 : ℕ → Pcg64
  -- `StandardNormal.sample(&mut rng)`
  pub standard_normal : Pcg64 → F × Pcg64
  -- `LogNormal::new(mu, sigma)` and `Poisson::new(lambda)`, `none` on an error
  pub log_normal : F → F → Option LogNormal
  pub sample_log_normal : LogNormal → Pcg64 → F × Pcg64
  pub poisson : F → Option Poisson
  pub sample_poisson : Poisson → Pcg64 → F × Pcg64
  -- `rng.gen::<f64>()`
  pub gen : Pcg64 → F × Pcg64
  -- `rng.gen_range(low..high)` of two floats and `rng.gen_range(low..=high)` of two integers, `none`
  -- for the panic on an empty range
  pub gen_range : F → F → Pcg64 → Option (F × Pcg64)
  pub gen_range_inclusive : ℕ → ℕ → Pcg64 → Option (ℕ × Pcg64)
