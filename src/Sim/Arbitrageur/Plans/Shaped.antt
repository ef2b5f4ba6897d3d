-- ===== src/Sim/Arbitrageur/Plans/Shaped.antt =====
-- crates/sim/src/arbitrageur.rs: when `execute_arb` returns on a pool whose plans are found by search.
use Prim.Native.String.{String}
use text.Mathlib.Text.{◌==◌}
use prop_amm_challenge.Prelude.{
  ℕ, ◌≡◌, refl, true, false, not, ◌||◌, Bool-cases, inl, inr, [], All, All-append, some, Option,
  ◌>>=◌,
}
use prop_amm_challenge.Float.{Float, IsFloat, lt, le, nought, is_finite, fmax, clamp, clamp_to}
use prop_amm_challenge.Random.{Random}
use prop_amm_challenge.Shared.Nano.{f64_to_nano}
use prop_amm_challenge.Sim.SearchStats.{SearchStats}
use prop_amm_challenge.Sim.Amm.{BpfAmm, quote_buy_x, quote_sell_x}
use prop_amm_challenge.Sim.CurveChecks.{is_usable, enforce_submission_monotonic_concave}
use prop_amm_challenge.Sim.CurveChecks.Cleaning.{Monotone}
use prop_amm_challenge.Sim.CurveChecks.Concave.{Near, Concave, enforce-Near}
use prop_amm_challenge.Sim.Router.Shaped.{usable-All}
use prop_amm_challenge.Sim.Arbitrageur.{
  ArbCandidate, ArbResult, min_input, max_input_amount, min_buy_input_y, min_sell_input_x,
}
use prop_amm_challenge.Sim.Arbitrageur.Search.{bracket_maximum, bracket_from}
use prop_amm_challenge.Sim.Arbitrageur.Search.Loop.{bracket_from_spends, golden_section_max_spends}
use prop_amm_challenge.Sim.Arbitrageur.Plans.{
  Arbitrageur, Sampling, buy_objective, sell_objective, search_input, plan_arb_buy_x,
  plan_arb_sell_x, best_searched_plan, best_plan, execute_arb, sample_retail_size_y,
}
use prop_amm_challenge.Sim.Arbitrageur.Plans.Budget.{bounds_le}

-- There is a result, and it has the property.
abbrev Returns {ℓ} : {A : Type ℓ} → (A → Type 0) → Option A → Type ℓ
Returns P o = (r : _) × (o ≡ some r) × P r

Returns-bind :
    {A B : Type 0} (P : A → Type 0) (Q : B → Type 0) (o : Option A) (k : A → Option B)
    → Returns P o
    → ((r : A) → P r → Returns Q (k r))
    → Returns Q (o >>= k)
Returns-bind P Q o k (r, e, p) next = rw e (next r p)

module _ {F : Type 0} ⦃f : Float F⦄ (R : BpfAmm F → Type 0) where
  -- In the states `R`, which the quotes keep, every usable quote is near the curve.
  abbrev pub QuotesNear : (BpfAmm F → F → F × BpfAmm F) → F → ℕ → (ℕ → ℕ) → Type 0
  QuotesNear quote least e g =
      (x : F) (b : BpfAmm F)
      → R b
      → let (out, b') = quote b x in
        (is_usable least (x, out) ≡ true → Near e g (f64_to_nano x, f64_to_nano out)) × R b'

  -- The curve of a plan so far, whose usable points are near `g`.
  abbrev Sampled : F → ℕ → (ℕ → ℕ) → Sampling F → Type 0
  Sampled least e g (amm, curve) =
      R amm
      × All (λ p. is_usable least p ≡ true → Near e g (f64_to_nano p.0, f64_to_nano p.1)) curve

module _ {F : Type 0} ⦃f : Float F⦄ (laws : IsFloat F) (R : BpfAmm F → Type 0) where
  -- A search whose objective keeps a property of the pool and the curve ends with it.
  search_input-Returns :
      (objective : F → Sampling F → F × Sampling F) (Good : Sampling F → Type 0)
      → ((x : F) (w : Sampling F) → Good w → Good (objective x w).1)
      → (start smallest : F) (stats : SearchStats) (amm : BpfAmm F) → Good (amm, [])
      → Returns (λ (_, _, w). Good w) (search_input objective start smallest stats amm)
  unfolding search_input bracket_maximum clamp
  search_input-Returns objective Good keep start smallest stats amm good =
      let least = fmax smallest min_input in
      let most = fmax max_input_amount least in
      let mid = clamp_to start least most in
      let found = bracket_from objective least mid most stats (amm, []) in
      let (_, _, kept) =
        bracket_from_spends objective (λ _. Good) (λ _. keep) least mid most stats (amm, []) good in
      let (_, _, kept') =
        golden_section_max_spends objective (λ _. Good) (λ _. keep) found.0.0 found.0.1 found.1
          found.2 kept in
      rw (bounds_le laws smallest) (_, refl, kept')

  module _ (e : ℕ) (buy_curve sell_curve : ℕ → ℕ) (buy_mono : Monotone buy_curve)
      (buy_concave : Concave e buy_curve) (sell_mono : Monotone sell_curve)
      (sell_concave : Concave e sell_curve) where
    check_passes :
        (g : ℕ → ℕ) (least : F) (name : String) (w : Sampling F)
        → Monotone g
        → Concave e g
        → Sampled R least e g w
        → enforce_submission_monotonic_concave name w.1 least ≡ some tt
    check_passes g least name (amm, curve) mono concave (_, near) =
        enforce-Near laws e g name curve least mono concave (usable-All (Near e g) least curve near)

    -- The pool that a plan leaves.
    abbrev Left : Option (ArbCandidate F) × SearchStats × BpfAmm F → Type 0
    Left (_, _, b) = R b

    plan_arb_buy_x-Returns :
        (floor least : F) (amm : BpfAmm F) (fair_price start : F) (stats : SearchStats)
        → QuotesNear R quote_buy_x least e buy_curve
        → R amm
        → Returns Left (plan_arb_buy_x floor amm fair_price start least stats)
    unfolding plan_arb_buy_x buy_objective
    plan_arb_buy_x-Returns floor least amm fair_price start stats near kept =
        Returns-bind (λ (_, _, w). Sampled R least e buy_curve w) Left _ _
          (search_input-Returns (buy_objective fair_price) (Sampled R least e buy_curve)
            (λ x (b, curve) (r, good).
              let (h, r') = near x b r in (r', All-append _ curve _ good (h, tt)))
            start least stats amm (kept, tt))
          (λ (y, stats', (amm', curve)) good.
            rw (check_passes buy_curve least amm'.name (amm', curve) buy_mono buy_concave good)
              (elim (Bool-cases (lt y least)) [
                | inl h ↦ rw h (_, refl, good.0)
                | inr h ↦ rw h (_, refl, (near y amm' good.0).1)
              ]))

    plan_arb_sell_x-Returns :
        (floor least : F) (amm : BpfAmm F) (fair_price start : F) (stats : SearchStats)
        → QuotesNear R quote_sell_x least e sell_curve
        → R amm
        → Returns Left (plan_arb_sell_x floor amm fair_price start least stats)
    unfolding plan_arb_sell_x sell_objective
    plan_arb_sell_x-Returns floor least amm fair_price start stats near kept =
        Returns-bind (λ (_, _, w). Sampled R least e sell_curve w) Left _ _
          (search_input-Returns (sell_objective fair_price) (Sampled R least e sell_curve)
            (λ x (b, curve) (r, good).
              let (h, r') = near x b r in (r', All-append _ curve _ good (h, tt)))
            start least stats amm (kept, tt))
          (λ (x, stats', (amm', curve)) good.
            rw (check_passes sell_curve least amm'.name (amm', curve) sell_mono sell_concave good)
              (elim (Bool-cases (lt x least)) [
                | inl h ↦ rw h (_, refl, good.0)
                | inr h ↦ rw h (_, refl, (near x amm' good.0).1)
              ]))

    best_searched_plan-Returns :
        (floor : F) (amm : BpfAmm F) (fair_price size : F) (stats : SearchStats)
        → QuotesNear R quote_buy_x min_buy_input_y e buy_curve
        → QuotesNear R quote_sell_x (min_sell_input_x fair_price) e sell_curve
        → R amm
        → Returns Left (best_searched_plan floor amm fair_price size stats)
    unfolding best_searched_plan
    best_searched_plan-Returns floor amm fair_price size stats buys sells kept =
        Returns-bind Left Left _ _
          (plan_arb_buy_x-Returns floor min_buy_input_y amm fair_price _ stats buys kept)
          (λ (buy, stats', amm') kept'.
            Returns-bind Left Left _ _
              (plan_arb_sell_x-Returns floor (min_sell_input_x fair_price) amm' fair_price _ stats'
                sells kept')
              (λ (sell, stats'', amm'') kept''. (_, refl, kept'')))

    module _ ⦃rand : Random F⦄ where
      -- Let two curves, one for each side, not fall and have slopes that do not rise, where `e`
      -- nanos are forgiven in each rise. When, in a set of states of a pool that its quotes keep,
      -- every usable quote for buying X is near the one curve and every usable quote for selling X
      -- near the other, that is, not below it and at most `4 - e` nanos above it, also 4 nanos
      -- back, `execute_arb` returns a result on the pool, whose name is not "normalizer", for every
      -- price and random state: neither the two searches nor the shape checks of the two plans
      -- panic. The floats meet the laws of `IsFloat`.
      pub execute_arb_near :
          (arb : Arbitrageur F) (amm : BpfAmm F) (fair_price : F) (stats : SearchStats)
          → (amm.name == "normalizer") ≡ false
          → QuotesNear R quote_buy_x min_buy_input_y e buy_curve
          → QuotesNear R quote_sell_x (min_sell_input_x fair_price) e sell_curve
          → R amm
          → (result : Option (ArbResult F) × Arbitrageur F × SearchStats × BpfAmm F) × (execute_arb
                arb amm fair_price stats
              ≡ some result)
      unfolding execute_arb best_plan
      execute_arb_near arb amm fair_price stats other buys sells kept =
          let (size, _) = sample_retail_size_y arb in
          let (plan, e, _) =
            best_searched_plan-Returns arb.min_arb_profit amm fair_price size stats buys sells
              kept in
          elim (Bool-cases (not (is_finite fair_price) || le fair_price nought)) [
            | inl h ↦ rw h (_, refl)
            | inr h ↦ rw (h, other, e) (_, refl)
          ]
