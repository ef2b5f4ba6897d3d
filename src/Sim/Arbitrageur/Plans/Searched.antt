-- ===== src/Sim/Arbitrageur/Plans/Searched.antt =====
-- crates/sim/src/arbitrageur.rs: the plans by search.
use prop_amm_challenge.Prelude.{
  inl, inr, Option, [], Bool-cases, Holds, Holds-bind, Anything, anything, Holds-after,
}
use prop_amm_challenge.Float.{Float, lt, clamp, fmax}
use prop_amm_challenge.Sim.SearchStats.{SearchStats}
use prop_amm_challenge.Sim.Amm.{BpfAmm}
use prop_amm_challenge.Sim.Arbitrageur.{
  buy_x, sell_x, ArbCandidate, min_input, max_input_amount, min_buy_input_y, min_sell_input_x,
}
use prop_amm_challenge.Sim.Arbitrageur.Search.{bracket_maximum}
use prop_amm_challenge.Sim.Arbitrageur.Search.Loop.{bracket_from_spends, golden_section_max_spends}
use prop_amm_challenge.Sim.Arbitrageur.Plans.{
  Sampling, buy_objective, sell_objective, search_input, plan_arb_buy_x, plan_arb_sell_x,
  best_searched_plan,
}
use prop_amm_challenge.Sim.Arbitrageur.Plans.Planned.{
  least_input, quoted, gain, Asked, here, asked_buy, asked_sale, Asked-trans, Planned,
  candidate-IsPlan, IsPlan-Asked, best_candidate-IsPlan,
}

module _ {F : Type 0} ⦃f : Float F⦄ where
  -- The searches ask for quotes only.
  Kept : BpfAmm F → Sampling F → Type 0
  Kept start w = Asked start w.0

  buy_objective-Kept :
      (start : BpfAmm F) (fair_price x : F) (w : Sampling F)
      → Kept start w
      → Kept start (buy_objective fair_price x w).1
  unfolding buy_objective Kept
  buy_objective-Kept start fair_price x (amm, sampled) p = asked_buy p x

  sell_objective-Kept :
      (start : BpfAmm F) (fair_price x : F) (w : Sampling F)
      → Kept start w
      → Kept start (sell_objective fair_price x w).1
  unfolding sell_objective Kept
  sell_objective-Kept start fair_price x (amm, sampled) p = asked_sale p x

  Found : BpfAmm F → F × SearchStats × Sampling F → Type 0
  Found start found = Kept start found.2

  search_input-Found :
      (objective : F → Sampling F → F × Sampling F) (start smallest : F) (stats : SearchStats)
      (amm : BpfAmm F)
      → ((x : F) (w : Sampling F) → Kept amm w → Kept amm (objective x w).1)
      → Holds (Found amm) (search_input objective start smallest stats amm)
  unfolding search_input bracket_maximum Kept Found
  search_input-Found objective start smallest stats amm keep =
      let P : (F × F) × SearchStats × Sampling F → Type 0 = λ e. Kept amm e.2 in
      let min_input' = fmax smallest min_input in
      Holds-bind P (Found amm)
        (bracket_maximum objective start smallest max_input_amount stats (amm, [])) _
        (Holds-bind Anything P (clamp start min_input' _) _ (anything _) (λ mid _.
          (bracket_from_spends objective (λ _. Kept amm) (λ _. keep) _ mid _ stats (amm, [])
            here).2))
        (λ e r. (golden_section_max_spends objective (λ _. Kept amm) (λ _. keep) _ _ _ e.2 r).2)

  -- What a plan by search leaves.
  unfoldable pub Searched :
      F → F → BpfAmm F → Option (ArbCandidate F) × SearchStats × BpfAmm F → Type 0
  Searched floor fair_price a (c, _, b) = Planned floor fair_price a c b

  plan_arb_buy_x-Searched :
      (floor : F) (amm : BpfAmm F) (fair_price start_y : F) (stats : SearchStats)
      → Holds
          (Searched floor fair_price amm)
          (plan_arb_buy_x floor amm fair_price start_y min_buy_input_y stats)
  unfolding plan_arb_buy_x Searched Found Kept least_input quoted gain
  plan_arb_buy_x-Searched floor amm fair_price start_y stats =
      Holds-bind (Found amm) (Searched floor fair_price amm)
        (search_input (buy_objective fair_price) start_y min_buy_input_y stats amm) _
        (search_input-Found _ start_y min_buy_input_y stats amm (buy_objective-Kept amm fair_price))
        (λ (y, stats', (amm', curve)) kept.
          Holds-after (Searched floor fair_price amm) _ _
            (elim (Bool-cases (lt y min_buy_input_y)) [
              | inl e ↦ rw e (kept, tt)
              | inr e ↦ rw e (asked_buy kept y, candidate-IsPlan floor fair_price buy_x y kept e)
            ]))

  plan_arb_sell_x-Searched :
      (floor : F) (amm : BpfAmm F) (fair_price start_x : F) (stats : SearchStats)
      → Holds
          (Searched floor fair_price amm)
          (plan_arb_sell_x floor amm fair_price start_x (min_sell_input_x fair_price) stats)
  unfolding plan_arb_sell_x Searched Found Kept least_input quoted gain
  plan_arb_sell_x-Searched floor amm fair_price start_x stats =
      let least = min_sell_input_x fair_price in
      Holds-bind (Found amm) (Searched floor fair_price amm)
        (search_input (sell_objective fair_price) start_x least stats amm) _
        (search_input-Found _ start_x least stats amm (sell_objective-Kept amm fair_price))
        (λ (x, stats', (amm', curve)) kept.
          Holds-after (Searched floor fair_price amm) _ _ (elim (Bool-cases (lt x least)) [
            | inl e ↦ rw e (kept, tt)
            | inr e ↦ rw e (asked_sale kept x, candidate-IsPlan floor fair_price sell_x x kept e)
          ]))

  pub best_searched_plan-Searched :
      (floor : F) (amm : BpfAmm F) (fair_price size : F) (stats : SearchStats)
      → Holds (Searched floor fair_price amm) (best_searched_plan floor amm fair_price size stats)
  unfolding best_searched_plan Searched
  best_searched_plan-Searched floor amm fair_price size stats =
      Holds-bind (Searched floor fair_price amm) (Searched floor fair_price amm) _ _
        (plan_arb_buy_x-Searched floor amm fair_price _ stats)
        (λ (buy, stats', amm') (kept, plan).
          Holds-bind (Searched floor fair_price amm') (Searched floor fair_price amm) _ _
            (plan_arb_sell_x-Searched floor amm' fair_price _ stats')
            (λ (sell, stats'', amm'') (kept', plan'). (
              Asked-trans kept kept',
              best_candidate-IsPlan _ buy sell plan (IsPlan-Asked floor fair_price kept sell plan'),
            )))
