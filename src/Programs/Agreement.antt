-- ===== src/Programs/Agreement.antt =====
-- The two programs of programs/ beside the native normalizer.
use prop_amm_challenge.Prelude.{ℕ, ◌+◌, ◌/◌, ◌≤◌, ◌<◌, ◌^◌, ◌≡◌, ◌∙◌, List, Option, arith}
use prop_amm_challenge.Words.{IsU64, mul128}
use prop_amm_challenge.Shared.Instruction.{Swap, encode_swap_instruction}
use prop_amm_challenge.Shared.Instruction.RoundTrip.{decode_instruction-encode_swap_instruction}
use prop_amm_challenge.Shared.Normalizer as Native
use prop_amm_challenge.Shared.Normalizer.{swap_output, net_input}
use prop_amm_challenge.Shared.Normalizer.Calls.{stored_fee, compute_swap-encode, encode-slices}
use prop_amm_challenge.Shared.Normalizer.Bounds.{net_of}
use prop_amm_challenge.Shared.Normalizer.Curve.{IsCall, swap_output-eq-given}
use prop_amm_challenge.Shared.Ceiling.{given, ceil_div, given_mono}
use native.Mathlib.Nat.{le_trans}
use Prim.Native.Nat.{suc-le-suc}
use prop_amm_challenge.Programs.Normalizer
use prop_amm_challenge.Programs.Starter
use prop_amm_challenge.Programs.Starter.{ReadsCalls}

fee_30 : (input : ℕ) → IsU64 input → mul128 input 997 / 1000 ≡ net_input 30 input
unfolding net_input
fee_30 input h = omega arith

fee_500 : (input : ℕ) → IsU64 input → mul128 input 950 / 1000 ≡ net_input 500 input
unfolding net_input
fee_500 input h = omega arith

normalizer_at_30 :
    (side input x y : ℕ)
    → IsU64 input
    → Normalizer.fixed_fee_output side input x y ≡ swap_output 30 side input x y
unfolding Normalizer.fixed_fee_output swap_output
normalizer_at_30 side input x y h = rw (fee_30 input h)

starter_at_500 :
    (side input x y : ℕ)
    → IsU64 input
    → Starter.fixed_fee_output side input x y ≡ swap_output 500 side input x y
unfolding Starter.fixed_fee_output swap_output
starter_at_500 side input x y h = rw (fee_500 input h)

fixed_fee_call :
    (side input x y : ℕ) (storage : List ℕ)
    → IsU64 input
    → IsU64 x
    → IsU64 y
    → Normalizer.compute_swap (encode_swap_instruction side input x y storage)
      ≡ Normalizer.fixed_fee_output side input x y
unfolding Normalizer.compute_swap
fixed_fee_call side input x y storage hi hx hy =
    let (s, i, a, b, long) = encode-slices side input x y storage hi hx hy in
    rw (s, i, a, b) (ground arith)

-- On every call that the executor encodes with 64-bit amounts and a storage whose fee is 30 bps, or
-- that stores none, the on-chain normalizer and the native one return the same output.
pub normalizer_agrees :
    (side input x y : ℕ) (storage : List ℕ)
    → IsU64 input
    → IsU64 x
    → IsU64 y
    → stored_fee storage ≡ 30
    → let call = encode_swap_instruction side input x y storage in
      Normalizer.compute_swap call ≡ Native.compute_swap call
normalizer_agrees side input x y storage hi hx hy fee =
    rw
      (
        fixed_fee_call side input x y storage hi hx hy,
        compute_swap-encode side input x y storage hi hx hy,
        fee,
      )
      (normalizer_at_30 side input x y hi)

net_at_10000 : (fee : ℕ) → 30 < fee → net_of fee 10000 ≤ 9969
unfolding net_of
net_at_10000 fee h = omega arith

curve_at_9969 : given (2 ^ 63) 1 9970 < Normalizer.fixed_fee_output 0 10000 (2 ^ 63) 1
unfolding given ceil_div Normalizer.fixed_fee_output Native.pays
curve_at_9969 = omega arith

-- For every storage with a fee above 30 and at most 10000 bps there is a call on which the on-chain
-- normalizer, which does not read the fee, pays strictly more than the native one: the buy with
-- 10000 units in a pool of 2^63 and 1.
pub normalizer_ignores_fee :
    (storage : List ℕ)
    → 30 < stored_fee storage
    → stored_fee storage ≤ 10000
    → let call = encode_swap_instruction 0 10000 (2 ^ 63) 1 storage in
      Native.compute_swap call < Normalizer.compute_swap call
normalizer_ignores_fee storage more less =
    let fee = stored_fee storage in
    let c : IsCall fee 0 10000 (2 ^ 63) 1 = omega arith in
    rw
      (
        fixed_fee_call 0 10000 (2 ^ 63) 1 storage (omega arith) (omega arith) (omega arith),
        compute_swap-encode 0 10000 (2 ^ 63) 1 storage (omega arith) (omega arith) (omega arith),
        swap_output-eq-given fee 0 10000 (2 ^ 63) 1 c,
      )
      (le_trans
        (suc-le-suc (
          given_mono (2 ^ 63) 1 (1 + net_of fee 10000) 9970 (omega arith) (omega arith)
            (omega (arith, net_at_10000 fee more))))
        curve_at_9969)

-- With a deserializer that reads the fields of the executor's calls as `decode_instruction` does,
-- the starter returns, on every call encoded with 64-bit amounts, what the normalizer's curve pays
-- at 500 bps.
pub starter_pays :
    (deserialize : List ℕ → Option Swap) (side input x y : ℕ) (storage : List ℕ)
    → ReadsCalls deserialize
    → IsU64 input
    → IsU64 x
    → IsU64 y
    → Starter.compute_swap deserialize (encode_swap_instruction side input x y storage)
      ≡ swap_output 500 side input x y
unfolding Starter.compute_swap
starter_pays deserialize side input x y storage reads hi hx hy =
    rw
      (
        reads side input x y storage
            ∙ decode_instruction-encode_swap_instruction side input x y storage hi hx hy,
        Starter.compute_swap,
      )
      (starter_at_500 side input x y hi)
