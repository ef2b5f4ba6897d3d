-- ===== src/Sim/Amm/Laws.antt =====
-- The quotes and the trades of crates/sim/src/amm.rs: what they answer and what they change.
use prop_amm_challenge.Prelude.{
  ℕ, ◌≡◌, refl, sym, ap, ◌∙◌, true, false, ◌⊎◌, inl, inr, arith, Bool-cases,
}
use prop_amm_challenge.Float.{Float, ◌⊕◌, ◌⊖◌, lt, le, nought, is_finite}
use prop_amm_challenge.Sim.Amm.{
  BpfAmm, call, call_after_swap, quote_buy_x, quote_sell_x, execute_buy_x, execute_sell_x,
  min_reserve, drained, no_trade,
}
use prop_amm_challenge.Shared.Nano.{f64_to_nano}

-- Two states of a pool that differ in the backend's own state at most.
pub record SameLedger {F : Type 0} (a b : BpfAmm F) : Type 0 where
  pub reserve_x_eq : b.reserve_x ≡ a.reserve_x
  pub reserve_y_eq : b.reserve_y ≡ a.reserve_y
  pub name_eq : b.name ≡ a.name
  pub storage_eq : b.storage ≡ a.storage
  pub step_eq : b.current_step ≡ a.current_step

pub ledger_trans :
    {F : Type 0} {a b c : BpfAmm F} → SameLedger a b → SameLedger b c → SameLedger a c
ledger_trans p q = record {
  reserve_x_eq = q.reserve_x_eq ∙ p.reserve_x_eq;
  reserve_y_eq = q.reserve_y_eq ∙ p.reserve_y_eq;
  name_eq = q.name_eq ∙ p.name_eq;
  storage_eq = q.storage_eq ∙ p.storage_eq;
  step_eq = q.step_eq ∙ p.step_eq;
}

-- The reserves are finite and not drained.
pub record IsPool {F : Type 0} ⦃f : Float F⦄ (a : BpfAmm F) : Type 0 where
  pub x_above : le a.reserve_x min_reserve ≡ false
  pub y_above : le a.reserve_y min_reserve ≡ false
  pub x_finite : is_finite a.reserve_x ≡ true
  pub y_finite : is_finite a.reserve_y ≡ true

module _ {F : Type 0} ⦃f : Float F⦄ where
  call-SameLedger :
      (a : BpfAmm F) (side amount rx ry : ℕ) → SameLedger a (call a side amount rx ry).1
  unfolding call
  call-SameLedger a side amount rx ry = record {
    reserve_x_eq = refl;
    reserve_y_eq = refl;
    name_eq = refl;
    storage_eq = refl;
    step_eq = refl;
  }

  pub ledger_refl : (a : BpfAmm F) → SameLedger a a
  ledger_refl a = record {
    reserve_x_eq = refl;
    reserve_y_eq = refl;
    name_eq = refl;
    storage_eq = refl;
    step_eq = refl;
  }

  -- A quote for buying X, whatever it answers, leaves the reserves, the storage, the name and the
  -- step of the pool alone.
  pub quote_buy_x-SameLedger : (a : BpfAmm F) (y : F) → SameLedger a (quote_buy_x a y).1
  unfolding quote_buy_x
  quote_buy_x-SameLedger a y =
      let same =
        call-SameLedger a 0 (f64_to_nano y) (f64_to_nano a.reserve_x) (f64_to_nano a.reserve_y) in
      ground arith

  -- A quote for selling X, whatever it answers, leaves the reserves, the storage, the name and the
  -- step of the pool alone.
  pub quote_sell_x-SameLedger : (a : BpfAmm F) (x : F) → SameLedger a (quote_sell_x a x).1
  unfolding quote_sell_x
  quote_sell_x-SameLedger a x =
      let same =
        call-SameLedger a 1 (f64_to_nano x) (f64_to_nano a.reserve_x) (f64_to_nano a.reserve_y) in
      ground arith

  -- An answer other than zero is finite, positive and at most the reserve that it is taken from.
  abbrev pub IsQuote : F → F → Type 0
  IsQuote reserve q = (is_finite q ≡ true) × (le q nought ≡ false) × (lt reserve q ≡ false)

  pub quote_buy_x-IsQuote :
      (a : BpfAmm F) (y : F)
      → ((quote_buy_x a y).0 ≡ nought) ⊎ IsQuote a.reserve_x (quote_buy_x a y).0
  unfolding quote_buy_x
  quote_buy_x-IsQuote a y =
      let same =
        call-SameLedger a 0 (f64_to_nano y) (f64_to_nano a.reserve_x) (f64_to_nano a.reserve_y) in
      ground arith

  pub quote_sell_x-IsQuote :
      (a : BpfAmm F) (x : F)
      → ((quote_sell_x a x).0 ≡ nought) ⊎ IsQuote a.reserve_y (quote_sell_x a x).0
  unfolding quote_sell_x
  quote_sell_x-IsQuote a x =
      let same =
        call-SameLedger a 1 (f64_to_nano x) (f64_to_nano a.reserve_x) (f64_to_nano a.reserve_y) in
      ground arith

  -- A trade that went through: `dx` and `dy` are the reserves after it.
  pub record Traded (a : BpfAmm F) (new_x new_y : F) (out limit : F) (b : BpfAmm F) : Type 0 where
    pub x_moved : b.reserve_x ≡ new_x
    pub y_moved : b.reserve_y ≡ new_y
    pub same_name : b.name ≡ a.name
    pub same_step : b.current_step ≡ a.current_step
    pub pool : IsPool b
    pub out_positive : le out nought ≡ false
    pub out_finite : is_finite out ≡ true
    pub out_below : le limit out ≡ false

  not-drained : {b : BpfAmm F} → drained b.reserve_x b.reserve_y ≡ false → IsPool b
  unfolding drained
  not-drained d = record {
    x_above = ground arith;
    y_above = ground arith;
    x_finite = ground arith;
    y_finite = ground arith;
  }

  is-trade : (x : F) {q : F} → no_trade x q ≡ false → (le q nought ≡ false) × (is_finite q ≡ true)
  unfolding no_trade
  is-trade x e = (ground arith, ground arith)

  hooked_trade :
      {a a' : BpfAmm F} {new_x new_y new_x' new_y' limit limit' : F} (y q : F) (side n m k l : ℕ)
      → SameLedger a a'
      → (new_x' ≡ new_x) × (new_y' ≡ new_y) × (limit' ≡ limit)
      → no_trade y q ≡ false
      → le limit' q ≡ false
      → drained new_x' new_y' ≡ false
      → Traded a new_x new_y q limit
          (call_after_swap (record a' { reserve_x = new_x'; reserve_y = new_y' }) side n m k l)
  unfolding call_after_swap
  hooked_trade y q side n m k l same (x_eq, y_eq, limit_eq) e h d = record {
    x_moved = x_eq;
    y_moved = y_eq;
    same_name = same.name_eq;
    same_step = same.step_eq;
    pool = not-drained d;
    out_positive = (is-trade y e).0;
    out_finite = (is-trade y e).1;
    out_below = ap (λ l. le l q) (sym limit_eq) ∙ h;
  }

  -- A buy on a pool either answers zero and leaves reserves, name, storage and step alone, or
  -- answers its quote, which is finite, not at most zero and not at least the old X reserve: then X
  -- has fallen by the answer, Y has grown by the input, both new reserves are finite and above the
  -- minimum, and name and step are as before.
  pub execute_buy_x_cases :
      (a : BpfAmm F) (y : F)
      → let (out, b) = execute_buy_x a y in
        ((out ≡ nought) × SameLedger a b)
        ⊎ ((out ≡ (quote_buy_x a y).0)
            × Traded a (a.reserve_x ⊖ out) (a.reserve_y ⊕ y) out a.reserve_x b)
  unfolding execute_buy_x
  execute_buy_x_cases a y =
      let (q, a') = quote_buy_x a y in
      let same = quote_buy_x-SameLedger a y in
      elim (Bool-cases (no_trade y q)) [
        | inl e ↦ inl (rw e (refl, same))
        | inr e ↦ elim (Bool-cases (le a'.reserve_x q)) [
          | inl h ↦ inl (rw (e, h) (refl, same))
          | inr h ↦ elim (Bool-cases (drained (a'.reserve_x ⊖ q) (a'.reserve_y ⊕ y))) [
            | inl d ↦ inl (rw (e, h, d) (refl, same))
            | inr d ↦ inr (
                rw (e, h, d)
                  (
                    refl,
                    hooked_trade y q 0 _ _ _ _ same
                        (
                          ap (λ r. r ⊖ q) same.reserve_x_eq,
                          ap (λ r. r ⊕ y) same.reserve_y_eq,
                          same.reserve_x_eq,
                        )
                        e h d,
                  ))
          ]
        ]
      ]

  -- A sale on a pool either answers zero and leaves reserves, name, storage and step alone, or
  -- answers its quote, which is finite, not at most zero and not at least the old Y reserve: then X
  -- has grown by the input, Y has fallen by the answer, both new reserves are finite and above the
  -- minimum, and name and step are as before.
  pub execute_sell_x_cases :
      (a : BpfAmm F) (x : F)
      → let (out, b) = execute_sell_x a x in
        ((out ≡ nought) × SameLedger a b)
        ⊎ ((out ≡ (quote_sell_x a x).0)
            × Traded a (a.reserve_x ⊕ x) (a.reserve_y ⊖ out) out a.reserve_y b)
  unfolding execute_sell_x
  execute_sell_x_cases a x =
      let (q, a') = quote_sell_x a x in
      let same = quote_sell_x-SameLedger a x in
      elim (Bool-cases (no_trade x q)) [
        | inl e ↦ inl (rw e (refl, same))
        | inr e ↦ elim (Bool-cases (le a'.reserve_y q)) [
          | inl h ↦ inl (rw (e, h) (refl, same))
          | inr h ↦ elim (Bool-cases (drained (a'.reserve_x ⊕ x) (a'.reserve_y ⊖ q))) [
            | inl d ↦ inl (rw (e, h, d) (refl, same))
            | inr d ↦ inr (
                rw (e, h, d)
                  (
                    refl,
                    hooked_trade x q 1 _ _ _ _ same
                        (
                          ap (λ r. r ⊕ x) same.reserve_x_eq,
                          ap (λ r. r ⊖ q) same.reserve_y_eq,
                          same.reserve_y_eq,
                        )
                        e h d,
                  ))
          ]
        ]
      ]
