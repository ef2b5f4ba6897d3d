-- ===== src/Shared/Normalizer.antt =====
-- crates/shared/src/normalizer.rs: the native normalizer, a constant-product curve with a fee that it
-- reads from the first two storage bytes. `u128` arithmetic is written with its wrap-around, which
-- is what the release profile leaves in.
pub mod Bounds
pub mod Curve
pub mod Calls
use prop_amm_challenge.Prelude.{
  ℕ, zero, suc, ◌-◌, ◌/◌, ◌%◌, ◌^◌, List, length, get_or, slice, ltb, leb, ◌==◌, ◌||◌,
  if◌then◌else◌,
}
use prop_amm_challenge.Words.{from_le_bytes, add128, sub128, mul128, u64_mod}

-- `reserve_out.saturating_sub((k + new_in - 1) / new_in) as u64`
unfoldable pub pays : ℕ → ℕ → ℕ → ℕ → ℕ
pays k reserve_in reserve_out net =
    let new_in = add128 reserve_in net in
    (reserve_out - sub128 (add128 k new_in) 1 / new_in) % u64_mod

-- `input_amount * (10000 - fee_bps) / 10000`
unfoldable pub net_input : ℕ → ℕ → ℕ
net_input fee_bps input_amount = mul128 input_amount (sub128 10000 fee_bps) / 10000

-- From the decoded fields on: the zero test, `k` and the match on the side.
unfoldable pub swap_output : ℕ → ℕ → ℕ → ℕ → ℕ → ℕ
swap_output fee_bps side input_amount reserve_x reserve_y =
    let k = mul128 reserve_x reserve_y in
    let net = net_input fee_bps input_amount in
    if reserve_x == 0 || reserve_y == 0
    then 0
    else (if side == 0
        then pays k reserve_y reserve_x net
        else (if side == 1 then pays k reserve_x reserve_y net else 0))

-- The fee from bytes 25 and 26 of the call, 30 bps where they are missing or zero.
unfoldable pub fee_of : List ℕ → ℕ
fee_of bytes =
    let raw = from_le_bytes (slice 25 27 bytes) in
    if leb 27 (length bytes) then (if raw == 0 then 30 else raw) else 30

unfoldable pub compute_swap : List ℕ → ℕ
compute_swap bytes =
    if ltb (length bytes) 25
    then 0
    else swap_output (fee_of bytes) (get_or bytes 0 0) (from_le_bytes (slice 1 9 bytes))
        (from_le_bytes (slice 9 17 bytes)) (from_le_bytes (slice 17 25 bytes))

-- `after_swap` leaves the storage as it is.
unfoldable pub after_swap : List ℕ → List ℕ → List ℕ
after_swap bytes storage = storage
