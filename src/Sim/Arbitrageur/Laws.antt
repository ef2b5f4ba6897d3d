-- ===== src/Sim/Arbitrageur/Laws.antt =====
-- crates/sim/src/arbitrageur.rs: `execute_candidate` and `best_candidate`.
use prop_amm_challenge.Prelude.{
  ◌≡◌, ◌⊎◌, inl, inr, refl, ◌∙◌, ap, true, false, Bool, if◌then◌else◌, none, some, arith, not,
}
use prop_amm_challenge.Float.{Float, IsFloat, ◌⊕◌, ◌⊖◌, ◌⊗◌, lt, le, nought}
use prop_amm_challenge.Sim.Amm.{BpfAmm}
use prop_amm_challenge.Sim.Amm.Laws.{SameLedger, IsPool, execute_buy_x_cases, execute_sell_x_cases}
use prop_amm_challenge.Sim.Arbitrageur.{
  ArbSide, buy_x, sell_x, ArbCandidate, ArbResult, execute_side, execute_candidate, best_candidate,
}

some_unless : {A : Type 0} (b : Bool) (x : A) → b ≡ false → (if b then none else some x) ≡ some x
some_unless b x h = rw h refl

module _ {F : Type 0} ⦃f : Float F⦄ where
  -- A result that states what happened: the amounts by which the reserves moved, and the pool's edge at the
  -- fair price.
  unfoldable pub Carried : ArbSide → F → BpfAmm F → F → ArbResult F → BpfAmm F → Type 0
  Carried buy_x input a fair_price t b =
      (t.amm_buys_x ≡ false)
      × (t.amount_y ≡ input)
      × (b.reserve_x ≡ a.reserve_x ⊖ t.amount_x)
      × (b.reserve_y ≡ a.reserve_y ⊕ t.amount_y)
      × (t.edge ≡ t.amount_y ⊖ t.amount_x ⊗ fair_price)
      × IsPool b
  Carried sell_x input a fair_price t b =
      (t.amm_buys_x ≡ true)
      × (t.amount_x ≡ input)
      × (b.reserve_x ≡ a.reserve_x ⊕ t.amount_x)
      × (b.reserve_y ≡ a.reserve_y ⊖ t.amount_y)
      × (t.edge ≡ t.amount_x ⊗ fair_price ⊖ t.amount_y)
      × IsPool b

  module _ (laws : IsFloat F) where
    nought_is_low : (x : F) → x ≡ nought → le x nought ≡ true
    nought_is_low x e =
        let number = laws.literal_number 0 0 in
        let h = laws.le-eq-not-lt nought nought number number in
        ap (λ y. le y nought) e ∙ h ∙ ap not (laws.lt_irrefl nought)

    execute_side_cases :
        (side : ArbSide) (input : F) (a : BpfAmm F) (fair_price : F)
        → let (r, b) = execute_side side input a fair_price in
          ((r ≡ none) × SameLedger a b)
          ⊎ ((t : ArbResult F) × (r ≡ some t) × Carried side input a fair_price t b)
    unfolding execute_side Carried
    execute_side_cases buy_x input a fair_price = elim (execute_buy_x_cases a input) [
      | inl (e, same) ↦ inl (rw (nought_is_low _ e) (refl, same))
      | inr (e, t) ↦
          inr (_, some_unless _ _ t.out_positive, (refl, refl, t.x_moved, t.y_moved, refl, t.pool))
    ]
    execute_side_cases sell_x input a fair_price = elim (execute_sell_x_cases a input) [
      | inl (e, same) ↦ inl (rw (nought_is_low _ e) (refl, same))
      | inr (e, t) ↦
          inr (_, some_unless _ _ t.out_positive, (refl, refl, t.x_moved, t.y_moved, refl, t.pool))
    ]

    -- Under the order laws of IEEE numbers, carrying out an arbitrage plan either gives no result
    -- and leaves the pool's reserves, name, storage and step alone, or gives a result with the
    -- plan's input whose two amounts are exactly those by which the reserves moved and whose edge
    -- is the pool's gain at the fair price; the new reserves are then finite and above the minimum.
    pub execute_candidate_cases :
        (a : BpfAmm F) (fair_price : F) (c : ArbCandidate F)
        → let (r, b) = execute_candidate a fair_price c in
          ((r ≡ none) × SameLedger a b)
          ⊎ ((t : ArbResult F) × (r ≡ some t) × Carried c.side c.input_amount a fair_price t b)
    unfolding execute_candidate
    execute_candidate_cases a fair_price c = execute_side_cases c.side c.input_amount a fair_price

    -- Under the order laws of IEEE numbers, of a buy plan and a sale plan the choice is one of the
    -- two, and neither has a higher expected profit.
    pub best_candidate_max :
        (buy sell : ArbCandidate F) (best : ArbCandidate F)
        → best_candidate (some buy) (some sell) ≡ some best
        → ((best ≡ buy) ⊎ (best ≡ sell))
          × (lt best.expected_profit buy.expected_profit ≡ false)
          × (lt best.expected_profit sell.expected_profit ≡ false)
    unfolding best_candidate
    best_candidate_max buy sell best e = ground (
      arith,
      laws.lt_irrefl buy.expected_profit,
      laws.lt_irrefl sell.expected_profit,
      laws.lt_asymm buy.expected_profit sell.expected_profit,
    )
