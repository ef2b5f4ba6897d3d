-- ===== src/Sim/Arbitrageur/Plans/Laws.antt =====
-- crates/sim/src/arbitrageur.rs: what `execute_arb` does to the pool.
use text.Mathlib.Text.{◌==◌}
use prop_amm_challenge.Prelude.{
  ◌≡◌, ◌⊎◌, inl, inr, refl, ap, ◌∙◌, not, ◌||◌, none, some, Option, either_way, Holds, Holds-bind,
  Holds-some, Holds-equation,
}
use prop_amm_challenge.Float.{Float, IsFloat, ◌⊕◌, ◌⊖◌, le, nought, is_finite}
use prop_amm_challenge.Random.{Random}
use prop_amm_challenge.Sim.SearchStats.{SearchStats}
use prop_amm_challenge.Sim.Amm.{BpfAmm}
use prop_amm_challenge.Sim.Amm.Laws.{SameLedger, ledger_refl, ledger_trans}
use prop_amm_challenge.Sim.Arbitrageur.{ArbSide, buy_x, sell_x, ArbCandidate, ArbResult}
use prop_amm_challenge.Sim.Arbitrageur.Laws.{Carried, execute_candidate_cases}
use prop_amm_challenge.Sim.Arbitrageur.Plans.{
  Arbitrageur, execute_plan, best_plan, execute_arb, sample_retail_size_y,
}
use prop_amm_challenge.Sim.Arbitrageur.Plans.Planned.{IsPlan, Planned, Asked-SameLedger}
use prop_amm_challenge.Sim.Arbitrageur.Plans.Searched.{Searched, best_searched_plan-Searched}
use prop_amm_challenge.Sim.Arbitrageur.Plans.Closed.{Closed, best_normalizer_plan-Closed}

module _ {F : Type 0} ⦃f : Float F⦄ where
  transport_result :
      (side : ArbSide) (input : F) (a a' : BpfAmm F) (fair_price : F) (t : ArbResult F)
      (b : BpfAmm F)
      → SameLedger a a'
      → Carried side input a' fair_price t b
      → Carried side input a fair_price t b
  unfolding Carried
  transport_result buy_x input a a' fair_price t b same (p, q, x, y, edge, pool) = (
    p,
    q,
    x ∙ ap (λ r. r ⊖ t.amount_x) same.reserve_x_eq,
    y ∙ ap (λ r. r ⊕ t.amount_y) same.reserve_y_eq,
    edge,
    pool,
  )
  transport_result sell_x input a a' fair_price t b same (p, q, x, y, edge, pool) = (
    p,
    q,
    x ∙ ap (λ r. r ⊕ t.amount_x) same.reserve_x_eq,
    y ∙ ap (λ r. r ⊖ t.amount_y) same.reserve_y_eq,
    edge,
    pool,
  )

  -- An arbitrage on a pool with the floor of the profit: no trade and the ledger of before, or the trade
  -- of the plan that was chosen.
  abbrev pub Arbitraged :
      (ArbCandidate F → Type 0) → F → F → BpfAmm F → Option (ArbResult F) → BpfAmm F → Type 0
  Arbitraged chosen floor fair_price a r b =
      ((r ≡ none) × SameLedger a b)
      ⊎ ((t : ArbResult F) × (c : ArbCandidate F) × (r ≡ some t)
          × chosen c
          × IsPlan a floor fair_price c
          × Carried c.side c.input_amount a fair_price t b)

  module _ ⦃rand : Random F⦄ where
    Chosen :
        F → F → BpfAmm F → Option (ArbCandidate F) × Arbitrageur F × SearchStats × BpfAmm F → Type 0
    Chosen floor fair_price a (c, _, _, b) = Planned floor fair_price a c b

    -- The plan that `best_plan` answers.
    abbrev pub IsBestPlan : Arbitrageur F → BpfAmm F → F → SearchStats → ArbCandidate F → Type 0
    IsBestPlan arb amm fair_price stats c =
        (arb' : Arbitrageur F) × (stats' : SearchStats) × (amm' : BpfAmm F) × (best_plan arb amm
            fair_price stats
          ≡ some (some c, arb', stats', amm'))

    best-IsBestPlan :
        (arb : Arbitrageur F) (amm : BpfAmm F) (fair_price : F) (stats : SearchStats)
        (best : Option (ArbCandidate F)) (arb' : Arbitrageur F) (stats' : SearchStats)
        (amm' : BpfAmm F)
        → best_plan arb amm fair_price stats ≡ some (best, arb', stats', amm')
        → Holds (IsBestPlan arb amm fair_price stats) best
    best-IsBestPlan arb amm fair_price stats none arb' stats' amm' e = tt
    best-IsBestPlan arb amm fair_price stats (some c) arb' stats' amm' e = (arb', stats', amm', e)

    unfoldable pub Done :
        (ArbCandidate F → Type 0)
        → F
        → F
        → BpfAmm F
        → Option (ArbResult F) × Arbitrageur F × SearchStats × BpfAmm F
        → Type 0
    Done chosen floor fair_price a (r, _, _, b) = Arbitraged chosen floor fair_price a r b

  module _ (laws : IsFloat F) where
    execute_plan-Arbitraged :
        (chosen : ArbCandidate F → Type 0) (floor fair_price : F) (a : BpfAmm F)
        (best : Option (ArbCandidate F)) (amm : BpfAmm F)
        → Holds chosen best
        → Planned floor fair_price a best amm
        → let (r, b) = execute_plan fair_price best amm in Arbitraged chosen floor fair_price a r b
    unfolding execute_plan
    execute_plan-Arbitraged chosen floor fair_price a none amm _ (asked, _) =
        inl (refl, Asked-SameLedger asked)
    execute_plan-Arbitraged chosen floor fair_price a (some c) amm is_chosen (asked, plan) =
        let kept = Asked-SameLedger asked in
        elim (execute_candidate_cases laws amm fair_price c) [
          | inl (e, same) ↦ inl (e, ledger_trans kept same)
          | inr (t, e, carried) ↦ inr (
            t,
            c,
            e,
            is_chosen,
            plan,
            transport_result c.side _ a amm fair_price t _ kept carried,
          )
        ]

    module _ ⦃rand : Random F⦄ where
      best_plan-Chosen :
          (arb : Arbitrageur F) (amm : BpfAmm F) (fair_price : F) (stats : SearchStats)
          → Holds (Chosen arb.min_arb_profit fair_price amm) (best_plan arb amm fair_price stats)
      unfolding best_plan Chosen Closed Searched
      best_plan-Chosen arb amm fair_price stats =
          let floor = arb.min_arb_profit in
          let (size, _) = sample_retail_size_y arb in
          either_way (Holds (Chosen floor fair_price amm)) (amm.name == "normalizer")
            (λ _.
              Holds-bind (Closed floor fair_price amm) (Chosen floor fair_price amm) _ _
                (best_normalizer_plan-Closed laws floor amm fair_price) (λ _ h. h))
            (λ _.
              Holds-bind (Searched floor fair_price amm) (Chosen floor fair_price amm) _ _
                (best_searched_plan-Searched floor amm fair_price size stats) (λ _ h. h))

      pub execute_arb-Done :
          (arb : Arbitrageur F) (amm : BpfAmm F) (fair_price : F) (stats : SearchStats)
          → Holds
              (Done (IsBestPlan arb amm fair_price stats) arb.min_arb_profit fair_price amm)
              (execute_arb arb amm fair_price stats)
      unfolding execute_arb Done Chosen
      execute_arb-Done arb amm fair_price stats =
          let floor = arb.min_arb_profit in
          let chosen = IsBestPlan arb amm fair_price stats in
          let plans = best_plan arb amm fair_price stats in
          either_way (Holds (Done chosen floor fair_price amm))
            (not (is_finite fair_price) || le fair_price nought) (λ _. inl (refl, ledger_refl amm))
            (λ _.
              Holds-bind (λ p. (plans ≡ some p) × Chosen floor fair_price amm p)
                (Done chosen floor fair_price amm) plans _
                (Holds-equation (Chosen floor fair_price amm) plans
                  (best_plan-Chosen arb amm fair_price stats))
                (λ (best, arb', stats', amm') (e, plan).
                  execute_plan-Arbitraged chosen floor fair_price amm best amm'
                    (best-IsBestPlan arb amm fair_price stats best arb' stats' amm' e) plan))

      -- Under the order laws of IEEE numbers, when the arbitrageur returns, on either kind of pool
      -- and for any price, random state and program, either there is no trade and the pool keeps
      -- its reserves, name, storage and step, or the trade is that of the plan that `best_plan`
      -- answers. The profit that this plan expects is what a quote that is not at most zero gains
      -- at the fair price, which the pool answers for the plan's input in a state that quotes take
      -- it to; the profit is not below the arbitrageur's floor, and the input not below the least
      -- of its side. The trade has that input, its two amounts are those by which the reserves
      -- moved, its edge is the pool's gain at the fair price, and the new reserves are finite and
      -- above the minimum.
      pub execute_arb-Arbitraged :
          (arb : Arbitrageur F) (amm : BpfAmm F) (fair_price : F) (stats : SearchStats)
          (result : Option (ArbResult F)) (arb' : Arbitrageur F) (stats' : SearchStats)
          (amm' : BpfAmm F)
          → execute_arb arb amm fair_price stats ≡ some (result, arb', stats', amm')
          → Arbitraged
              (IsBestPlan arb amm fair_price stats)
              arb.min_arb_profit
              fair_price
              amm
              result
              amm'
      unfolding Done
      execute_arb-Arbitraged arb amm fair_price stats result arb' stats' amm' e =
          Holds-some (Done (IsBestPlan arb amm fair_price stats) arb.min_arb_profit fair_price amm)
            _ _ (execute_arb-Done arb amm fair_price stats) e
