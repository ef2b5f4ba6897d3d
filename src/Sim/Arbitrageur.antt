-- ===== src/Sim/Arbitrageur.antt =====
-- crates/sim/src/arbitrageur.rs: the plans against the normalizer's pool, the choice between two plans and
-- the trade that carries one out. The searches against other pools are not here.
pub mod Search
pub mod Plans
pub mod Laws
use prop_amm_challenge.Prelude.{
  ℕ, Bool, true, false, not, ◌||◌, Option, none, some, leb, ◌==◌, List, length, take, if◌then◌else◌,
  ◌>>=◌,
}
use prop_amm_challenge.Words.{from_le_bytes, u64_max}
use prop_amm_challenge.Float.{Float, ◌⊕◌, ◌⊖◌, ◌⊗◌, ◌⊘◌, lt, le, nought, is_finite, fmax, clamp}
use prop_amm_challenge.Shared.Nano.{nano_scale_f64}
use prop_amm_challenge.Sim.Amm.{BpfAmm, quote_buy_x, quote_sell_x, execute_buy_x, execute_sell_x}

pub data ArbSide : Type 0 where
  buy_x sell_x : ArbSide

pub record ArbCandidate (F : Type 0) : Type 0 where
  pub side : ArbSide
  pub input_amount : F
  pub expected_profit : F

pub record ArbResult (F : Type 0) : Type 0 where
  pub amm_buys_x : Bool
  pub amount_x : F
  pub amount_y : F
  pub edge : F

module _ {F : Type 0} ⦃f : Float F⦄ where
  abbrev pub min_input : F
  min_input = f.literal 1 3

  abbrev pub min_arb_notional_y : F
  min_arb_notional_y = f.literal 1 2

  abbrev pub max_input_amount : F
  max_input_amount = (f.of_u64 u64_max ⊘ nano_scale_f64) ⊗ f.literal 999999 6

  unfoldable pub min_buy_input_y : F
  min_buy_input_y = fmax min_input min_arb_notional_y

  unfoldable pub min_sell_input_x : F → F
  min_sell_input_x fair_price =
      fmax min_input (min_arb_notional_y ⊘ fmax fair_price (f.literal 1 9))

  unfoldable pub normalizer_fee_bps : BpfAmm F → ℕ
  normalizer_fee_bps amm =
      let raw = from_le_bytes (take 2 amm.storage) in
      if leb 2 (length amm.storage) then (if raw == 0 then 30 else raw) else 30

  -- The part of the input that is traded, `(10_000 - fee) / 10_000`.
  unfoldable pub gamma_of : BpfAmm F → F
  gamma_of amm = (f.literal 10000 0 ⊖ f.of_u64 (normalizer_fee_bps amm)) ⊘ f.literal 10000 0

  -- The guards before a plan: the fee and the reserves.
  unfoldable pub unplannable : BpfAmm F → Bool
  unplannable amm =
      let gamma = gamma_of amm in
      (not (is_finite gamma) || le gamma nought)
      || (not (is_finite amm.reserve_x)
          || (not (is_finite amm.reserve_y)
              || (le amm.reserve_x nought || le amm.reserve_y nought)))

  -- A plan from its quote; `floor` is the least profit.
  unfoldable pub candidate : F → ArbSide → F → F → F → Option (ArbCandidate F)
  candidate floor side input_amount expected_output arb_profit =
      if le expected_output nought
      then none
      else (if lt arb_profit floor
          then none
          else some
              (record { side = side; input_amount = input_amount; expected_profit = arb_profit }))

  -- The outer `none` is a panic of `clamp`.
  unfoldable pub plan_normalizer_buy_x :
      F → BpfAmm F → F → Option (Option (ArbCandidate F) × BpfAmm F)
  plan_normalizer_buy_x min_arb_profit amm fair_price =
      let gamma = gamma_of amm in
      let target = f.sqrt (fair_price ⊗ amm.reserve_x ⊗ gamma ⊗ amm.reserve_y) in
      let planned =
        clamp ((target ⊖ amm.reserve_y) ⊘ gamma) min_buy_input_y max_input_amount >>= λ input_y.
        let (expected_output_x, amm') = quote_buy_x amm input_y in
        some (
          candidate min_arb_profit buy_x input_y expected_output_x
              (expected_output_x ⊗ fair_price ⊖ input_y),
          amm',
        ) in
      if unplannable amm
      then some (none, amm)
      else (if not (is_finite target) || le target amm.reserve_y then some (none, amm) else planned)

  unfoldable pub plan_normalizer_sell_x :
      F → BpfAmm F → F → Option (Option (ArbCandidate F) × BpfAmm F)
  plan_normalizer_sell_x min_arb_profit amm fair_price =
      let gamma = gamma_of amm in
      let target = f.sqrt (amm.reserve_y ⊗ amm.reserve_x ⊗ gamma ⊘ fair_price) in
      let planned =
        clamp ((target ⊖ amm.reserve_x) ⊘ gamma) (min_sell_input_x fair_price) max_input_amount
        >>= λ input_x.
            let (expected_output_y, amm') = quote_sell_x amm input_x in
            some (
              candidate min_arb_profit sell_x input_x expected_output_y
                  (expected_output_y ⊖ input_x ⊗ fair_price),
              amm',
            ) in
      if unplannable amm
      then some (none, amm)
      else (if not (is_finite target) || le target amm.reserve_x then some (none, amm) else planned)

  unfoldable pub best_candidate :
      Option (ArbCandidate F) → Option (ArbCandidate F) → Option (ArbCandidate F)
  best_candidate (some buy) (some sell) =
      if lt buy.expected_profit sell.expected_profit then some sell else some buy
  best_candidate (some buy) none = some buy
  best_candidate none (some sell) = some sell
  best_candidate none none = none

  -- The trade of a plan on its side.
  unfoldable pub execute_side : ArbSide → F → BpfAmm F → F → Option (ArbResult F) × BpfAmm F
  execute_side buy_x input_amount amm fair_price =
      let (output_x, amm') = execute_buy_x amm input_amount in
      let result : ArbResult F = record {
        amm_buys_x = false;
        amount_x = output_x;
        amount_y = input_amount;
        edge = input_amount ⊖ output_x ⊗ fair_price;
      } in
      (if le output_x nought then none else some result, amm')
  execute_side sell_x input_amount amm fair_price =
      let (output_y, amm') = execute_sell_x amm input_amount in
      let result : ArbResult F = record {
        amm_buys_x = true;
        amount_x = input_amount;
        amount_y = output_y;
        edge = input_amount ⊗ fair_price ⊖ output_y;
      } in
      (if le output_y nought then none else some result, amm')

  unfoldable pub execute_candidate : BpfAmm F → F → ArbCandidate F → Option (ArbResult F) × BpfAmm F
  execute_candidate amm fair_price c = execute_side c.side c.input_amount amm fair_price
