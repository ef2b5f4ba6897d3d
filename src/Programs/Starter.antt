-- ===== src/Programs/Starter.antt =====
-- programs/starter/src/lib.rs: the submission that others are copied from. `wincode::deserialize` is a
-- parameter: it yields the four fields of the call, or an error, `none`.
use prop_amm_challenge.Prelude.{
  ℕ, ◌/◌, ◌≡◌, List, [], ◌∷◌, Option, none, some, ◌==◌, ◌||◌, if◌then◌else◌,
}
use prop_amm_challenge.Words.{to_le_bytes, mul128}
use prop_amm_challenge.Shared.Normalizer.{pays}
use prop_amm_challenge.Shared.Instruction.{Swap, decode_instruction, encode_swap_instruction}

abbrev pub fee_numerator : ℕ
fee_numerator = 950

abbrev pub fee_denominator : ℕ
fee_denominator = 1000

-- `NAME` and `MODEL_USED` as bytes.
abbrev pub name_bytes : List ℕ
name_bytes = b'M' ∷ b'y' ∷ b' ' ∷ b'S' ∷ b't' ∷ b'r' ∷ b'a' ∷ b't' ∷ b'e' ∷ b'g' ∷ b'y' ∷ []

abbrev pub get_model_used : List ℕ
get_model_used =
    b'G' ∷ b'P' ∷ b'T' ∷ b'-' ∷ b'5' ∷ b'.' ∷ b'3' ∷ b'-' ∷ b'C' ∷ b'o' ∷ b'd' ∷ b'e' ∷ b'x' ∷ []

unfoldable pub fixed_fee_output : ℕ → ℕ → ℕ → ℕ → ℕ
fixed_fee_output side input_amount reserve_x reserve_y =
    let k = mul128 reserve_x reserve_y in
    let net = mul128 input_amount fee_numerator / fee_denominator in
    if reserve_x == 0 || reserve_y == 0
    then 0
    else (if side == 0
        then pays k reserve_y reserve_x net
        else (if side == 1 then pays k reserve_x reserve_y net else 0))

module _ (deserialize : List ℕ → Option Swap) where
  unfoldable pub compute_swap : List ℕ → ℕ
  compute_swap bytes = elim (deserialize bytes) [
    | none ↦ 0
    | some s ↦ fixed_fee_output s.side s.input_amount s.reserve_x s.reserve_y
  ]

  -- The return data that the call sets; `none` where it sets none.
  unfoldable pub process_instruction : List ℕ → Option (List ℕ)
  process_instruction [] = none
  process_instruction (tag ∷ rest) =
      if tag == 0 || tag == 1
      then some (to_le_bytes 8 (compute_swap (tag ∷ rest)))
      else (if tag == 3 then some name_bytes else (if tag == 4 then some get_model_used else none))

-- What the derive macro documents: little-endian fields in declaration order, so that on a call that
-- the harness builds it reads what `decode_instruction` reads.
abbrev pub ReadsCalls : (List ℕ → Option Swap) → Type 0
ReadsCalls deserialize =
    (side input x y : ℕ) (storage : List ℕ)
    → let call = encode_swap_instruction side input x y storage in
      deserialize call ≡ decode_instruction call
