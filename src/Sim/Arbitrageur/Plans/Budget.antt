-- ===== src/Sim/Arbitrageur/Plans/Budget.antt =====
-- crates/sim/src/arbitrageur.rs: how many points `sampled_curve` gets.
use prop_amm_challenge.Prelude.{
  ℕ, suc, ◌+◌, ◌≤◌, ◌≡◌, refl, true, false, arith, length, length-append, [], Option, some,
}
use prop_amm_challenge.Float.{Float, IsFloat, lt, le, fmax, clamp, clamp_to}
use prop_amm_challenge.Sim.SearchStats.{SearchStats}
use prop_amm_challenge.Sim.Amm.{BpfAmm}
use prop_amm_challenge.Sim.Arbitrageur.{min_input, max_input_amount}
use prop_amm_challenge.Sim.Arbitrageur.Search.{bracket_maximum, bracket_from}
use prop_amm_challenge.Sim.Arbitrageur.Search.Loop.{bracket_from_spends, golden_section_max_spends}
use prop_amm_challenge.Sim.Arbitrageur.Plans.{Sampling, buy_objective, sell_objective, search_input}

module _ {F : Type 0} ⦃f : Float F⦄ where
  -- A search that returns, with between 2 and 42 points on its curve.
  unfoldable pub SamplesFew : Option (F × SearchStats × Sampling F) → Type 0
  SamplesFew found =
      (result : F × SearchStats × Sampling F) × (found ≡ some result)
      × (2 ≤ length result.2.1)
      × (length result.2.1 ≤ 42)

  module _ (laws : IsFloat F) where
    fmax_number : (a b : F) → f.is_nan b ≡ false → f.is_nan (fmax a b) ≡ false
    unfolding fmax
    fmax_number a b h = ground arith

    fmax_bound : (a b : F) → f.is_nan b ≡ false → lt (fmax a b) b ≡ false
    unfolding fmax
    fmax_bound a b h =
        let irrefl = laws.lt_irrefl b in let asymm = laws.lt_asymm a b in ground arith

    -- The bounds of a search are in order.
    pub bounds_le :
        (smallest : F)
        → let least = fmax smallest min_input in le least (fmax max_input_amount least) ≡ true
    bounds_le smallest =
        let least = fmax smallest min_input in
        let number = fmax_number smallest min_input (laws.literal_number 1 3) in
        let e =
          laws.le-eq-not-lt least (fmax max_input_amount least) number
            (fmax_number max_input_amount least number) in
        let h = fmax_bound max_input_amount least number in ground arith

    module _ (objective : F → Sampling F → F × Sampling F)
        (appends : (x : F) (w : Sampling F) → length (objective x w).1.1 ≡ length w.1 + 1) where
      -- With `n` evaluations left of `total`.
      Left : ℕ → ℕ → Sampling F → Type 0
      Left total n w = length w.1 + n ≡ total

      spend :
          (total n : ℕ) (x : F) (w : Sampling F)
          → Left total (suc n) w
          → Left total n (objective x w).1
      unfolding Left
      spend total n x w h = let e = appends x w in omega arith

      search_input-SamplesFew :
          (start smallest : F) (stats : SearchStats) (amm : BpfAmm F)
          → SamplesFew (search_input objective start smallest stats amm)
      unfolding search_input bracket_maximum clamp SamplesFew Left
      search_input-SamplesFew start smallest stats amm =
          let least = fmax smallest min_input in
          let most = fmax max_input_amount least in
          let mid = clamp_to start least most in
          let found = bracket_from objective least mid most stats (amm, []) in
          let (n, few, e) =
            bracket_from_spends objective (Left 26) (spend 26) least mid most stats (amm, [])
              (omega arith) in
          let drawn = length found.2.1 in
          let (m, few', e') =
            golden_section_max_spends objective (Left (drawn + 16)) (spend (drawn + 16)) found.0.0
              found.0.1 found.1 found.2 (omega arith) in
          rw (bounds_le smallest) (_, refl, omega arith, omega arith)

    -- Under the order laws of IEEE numbers, the two searches of an arbitrage plan return without a
    -- panic, for any start, least input, price and pool and on both sides, and leave between 2 and
    -- 42 points on the sampled curve, which fits its capacity of 44.
    pub sampled_curve_budget :
        (fair_price start smallest : F) (stats : SearchStats) (amm : BpfAmm F)
        → SamplesFew (search_input (buy_objective fair_price) start smallest stats amm)
          × SamplesFew (search_input (sell_objective fair_price) start smallest stats amm)
    unfolding buy_objective sell_objective
    sampled_curve_budget fair_price start smallest stats amm = (
      search_input-SamplesFew (buy_objective fair_price) (λ x w. length-append w.1 _) start smallest
          stats amm,
      search_input-SamplesFew (sell_objective fair_price) (λ x w. length-append w.1 _) start
          smallest stats amm,
    )
