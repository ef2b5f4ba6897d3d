-- ===== src/Programs/Normalizer.antt =====
-- programs/normalizer/src/lib.rs: the constant-product curve with a fixed fee of 997/1000.
use prop_amm_challenge.Prelude.{
  ℕ, ◌/◌, List, [], ◌∷◌, Option, none, some, length, get_or, slice, ltb, ◌==◌, ◌||◌, if◌then◌else◌,
}
use prop_amm_challenge.Words.{to_le_bytes, from_le_bytes, mul128}
use prop_amm_challenge.Shared.Normalizer.{pays}

abbrev pub fee_numerator : ℕ
fee_numerator = 997

abbrev pub fee_denominator : ℕ
fee_denominator = 1000

-- From the decoded fields on.
unfoldable pub fixed_fee_output : ℕ → ℕ → ℕ → ℕ → ℕ
fixed_fee_output side input_amount reserve_x reserve_y =
    let k = mul128 reserve_x reserve_y in
    let net = mul128 input_amount fee_numerator / fee_denominator in
    if reserve_x == 0 || reserve_y == 0
    then 0
    else (if side == 0
        then pays k reserve_y reserve_x net
        else (if side == 1 then pays k reserve_x reserve_y net else 0))

unfoldable pub compute_swap : List ℕ → ℕ
compute_swap bytes =
    if ltb (length bytes) 25
    then 0
    else fixed_fee_output (get_or bytes 0 0) (from_le_bytes (slice 1 9 bytes))
        (from_le_bytes (slice 9 17 bytes)) (from_le_bytes (slice 17 25 bytes))

-- The return data that the call sets; `none` where it sets none.
unfoldable pub process_instruction : List ℕ → Option (List ℕ)
process_instruction [] = none
process_instruction (tag ∷ rest) =
    if tag == 0 || tag == 1 then some (to_le_bytes 8 (compute_swap (tag ∷ rest))) else none
