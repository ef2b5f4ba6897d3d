-- ===== src/Sim/Arbitrageur/Plans/Closed.antt =====
-- crates/sim/src/arbitrageur.rs: the plans in closed form, on the normalizer's pool.
use prop_amm_challenge.Prelude.{
  ◌≡◌, inl, inr, false, not, ◌||◌, none, Option, Bool-cases, arith, either_way, Holds, Holds-bind,
}
use prop_amm_challenge.Float.{Float, IsFloat, ◌⊖◌, ◌⊗◌, ◌⊘◌, lt, le, clamp, clamp_to, is_finite}
use prop_amm_challenge.Sim.Amm.{BpfAmm, quote_buy_x, quote_sell_x}
use prop_amm_challenge.Sim.Arbitrageur.{
  buy_x, sell_x, ArbCandidate, max_input_amount, min_buy_input_y, min_sell_input_x, candidate,
  plan_normalizer_buy_x, plan_normalizer_sell_x, unplannable, gamma_of,
}
use prop_amm_challenge.Sim.Arbitrageur.Plans.{best_normalizer_plan}
use prop_amm_challenge.Sim.Arbitrageur.Plans.Planned.{
  least_input, quoted, gain, here, asked_buy, asked_sale, Asked-trans, Planned, candidate-IsPlan,
  IsPlan-Asked, best_candidate-IsPlan,
}

module _ {F : Type 0} ⦃f : Float F⦄ where
  -- What a plan in closed form leaves.
  unfoldable pub Closed : F → F → BpfAmm F → Option (ArbCandidate F) × BpfAmm F → Type 0
  Closed floor fair_price a (c, b) = Planned floor fair_price a c b

  module _ (laws : IsFloat F) where
    clamp_bound : (x lo hi : F) → Holds (λ y. lt y lo ≡ false) (clamp x lo hi)
    unfolding clamp clamp_to
    clamp_bound x lo hi = elim (Bool-cases (le lo hi)) [
      | inr e ↦ rw e tt
      | inl e ↦
          let (n, m) = laws.le_numbers lo hi e in
          let order = laws.le-eq-not-lt lo hi n m in
          let irrefl = laws.lt_irrefl lo in
          let ordered : lt hi lo ≡ false = ground arith in
          rw e (elim (Bool-cases (lt x lo)) [
            | inl k ↦ rw k irrefl
            | inr k ↦ elim (Bool-cases (lt hi x)) [
              | inl g ↦ rw (k, g) ordered
              | inr g ↦ rw (k, g) k
            ]
          ])
    ]

    plan_normalizer_buy_x-Closed :
        (floor : F) (amm : BpfAmm F) (fair_price : F)
        → Holds (Closed floor fair_price amm) (plan_normalizer_buy_x floor amm fair_price)
    unfolding plan_normalizer_buy_x Closed least_input quoted gain
    plan_normalizer_buy_x-Closed floor amm fair_price =
        let P = Holds (Closed floor fair_price amm) in
        let unplanned : Closed floor fair_price amm (none, amm) = (here, tt) in
        let target = f.sqrt (fair_price ⊗ amm.reserve_x ⊗ gamma_of amm ⊗ amm.reserve_y) in
        let quoted : (y : F)
            → lt y min_buy_input_y ≡ false
            → let (out, amm') = quote_buy_x amm y in
              Closed floor fair_price amm
                (candidate floor buy_x y out (out ⊗ fair_price ⊖ y), amm') =
          λ y h. (asked_buy here y, candidate-IsPlan floor fair_price buy_x y here h) in
        either_way P (unplannable amm) (λ _. unplanned)
          (λ _.
            either_way P (not (is_finite target) || le target amm.reserve_y) (λ _. unplanned)
              (λ _.
                Holds-bind (λ y. lt y min_buy_input_y ≡ false) (Closed floor fair_price amm) _ _
                  (clamp_bound _ min_buy_input_y max_input_amount) quoted))

    plan_normalizer_sell_x-Closed :
        (floor : F) (amm : BpfAmm F) (fair_price : F)
        → Holds (Closed floor fair_price amm) (plan_normalizer_sell_x floor amm fair_price)
    unfolding plan_normalizer_sell_x Closed least_input quoted gain
    plan_normalizer_sell_x-Closed floor amm fair_price =
        let P = Holds (Closed floor fair_price amm) in
        let least = min_sell_input_x fair_price in
        let unplanned : Closed floor fair_price amm (none, amm) = (here, tt) in
        let target = f.sqrt (amm.reserve_y ⊗ amm.reserve_x ⊗ gamma_of amm ⊘ fair_price) in
        let quoted : (x : F)
            → lt x least ≡ false
            → let (out, amm') = quote_sell_x amm x in
              Closed floor fair_price amm
                (candidate floor sell_x x out (out ⊖ x ⊗ fair_price), amm') =
          λ x h. (asked_sale here x, candidate-IsPlan floor fair_price sell_x x here h) in
        either_way P (unplannable amm) (λ _. unplanned)
          (λ _.
            either_way P (not (is_finite target) || le target amm.reserve_x) (λ _. unplanned)
              (λ _.
                Holds-bind (λ x. lt x least ≡ false) (Closed floor fair_price amm) _ _
                  (clamp_bound _ least max_input_amount) quoted))

    pub best_normalizer_plan-Closed :
        (floor : F) (amm : BpfAmm F) (fair_price : F)
        → Holds (Closed floor fair_price amm) (best_normalizer_plan floor amm fair_price)
    unfolding best_normalizer_plan Closed
    best_normalizer_plan-Closed floor amm fair_price =
        Holds-bind (Closed floor fair_price amm) (Closed floor fair_price amm) _ _
          (plan_normalizer_buy_x-Closed floor amm fair_price)
          (λ (buy, amm') (kept, plan).
            Holds-bind (Closed floor fair_price amm') (Closed floor fair_price amm) _ _
              (plan_normalizer_sell_x-Closed floor amm' fair_price)
              (λ (sell, amm'') (kept', plan'). (
                Asked-trans kept kept',
                best_candidate-IsPlan _ buy sell plan
                    (IsPlan-Asked floor fair_price kept sell plan'),
              )))
