-- ===== src/Sim/Retail.antt =====
-- crates/sim/src/retail.rs: the retail orders of a step.
use prop_amm_challenge.Prelude.{ℕ, zero, suc, Bool, List, [], ◌∷◌, Option, some, ◌>>=◌}
use prop_amm_challenge.Float.{Float, ◌⊖◌, ◌⊗◌, lt, fmax}
use prop_amm_challenge.Random.{Random}

pub record RetailOrder (F : Type 0) : Type 0 where
  pub is_buy : Bool
  pub size : F

pub record RetailTrader (F : Type 0) ⦃rand : Random F⦄ : Type 0 where
  pub buy_prob : F
  pub rng : rand.Pcg64
  pub poisson : rand.Poisson
  pub lognormal : rand.LogNormal

module _ {F : Type 0} ⦃f : Float F⦄ ⦃rand : Random F⦄ where
  -- `none` is a panic of `unwrap`.
  unfoldable pub create : F → F → F → F → ℕ → Option (RetailTrader F)
  create arrival_rate mean_size size_sigma buy_prob seed =
      let sigma = fmax size_sigma (f.literal 1 2) in
      let mu_ln = f.ln (fmax mean_size (f.literal 1 2)) ⊖ f.literal 5 1 ⊗ sigma ⊗ sigma in
      rand.poisson (fmax arrival_rate (f.literal 1 2)) >>= λ poisson.
      rand.log_normal mu_ln sigma >>= λ lognormal. some (record {
        buy_prob = buy_prob;
        rng = rand.seed_from_u64 seed;
        poisson = poisson;
        lognormal = lognormal;
      })

  -- One order, and the trader after its two draws.
  unfoldable pub draw_order : RetailTrader F → RetailOrder F × RetailTrader F
  draw_order t =
      let (size, rng1) = rand.sample_log_normal t.lognormal t.rng in
      let (u, rng2) = rand.gen rng1 in
      (record { is_buy = lt u t.buy_prob; size = size }, record t { rng = rng2 })

  unfoldable pub draw_orders : ℕ → RetailTrader F → List (RetailOrder F) × RetailTrader F
  draw_orders zero t = ([], t)
  draw_orders (suc n) t =
      let (order, t') = draw_order t in
      let (orders, t'') = draw_orders n t' in (order ∷ orders, t'')

  unfoldable pub generate_orders : RetailTrader F → List (RetailOrder F) × RetailTrader F
  generate_orders t =
      let (n, rng) = rand.sample_poisson t.poisson t.rng in
      draw_orders (f.to_u64 n) (record t { rng = rng })
