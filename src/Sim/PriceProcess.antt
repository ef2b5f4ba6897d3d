-- ===== src/Sim/PriceProcess.antt =====
-- crates/sim/src/price_process.rs: the fair price as a geometric Brownian motion.
use prop_amm_challenge.Prelude.{ℕ}
use prop_amm_challenge.Float.{Float, ◌⊕◌, ◌⊖◌, ◌⊗◌}
use prop_amm_challenge.Random.{Random}

pub record GbmPriceProcess (F : Type 0) ⦃rand : Random F⦄ : Type 0 where
  pub current_price : F
  pub drift_term : F
  pub vol_term : F
  pub rng : rand.Pcg64

module _ {F : Type 0} ⦃f : Float F⦄ ⦃rand : Random F⦄ where
  unfoldable pub create : F → F → F → F → ℕ → GbmPriceProcess F
  create initial_price mu sigma dt seed = record {
    current_price = initial_price;
    drift_term = (mu ⊖ f.literal 5 1 ⊗ sigma ⊗ sigma) ⊗ dt;
    vol_term = sigma ⊗ f.sqrt dt;
    rng = rand.seed_from_u64 seed;
  }

  unfoldable pub step : GbmPriceProcess F → F × GbmPriceProcess F
  step p =
      let (z, rng) = rand.standard_normal p.rng in
      let price = p.current_price ⊗ f.exp (p.drift_term ⊕ p.vol_term ⊗ z) in
      (price, record p { current_price = price; rng = rng })
