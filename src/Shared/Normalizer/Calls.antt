-- ===== src/Shared/Normalizer/Calls.antt =====
-- `compute_swap` of crates/shared/src/normalizer.rs on the calls that the executors build.
use prop_amm_challenge.Prelude.{
  slice, ℕ, ◌+◌, ◌≤◌, ◌≡◌, ◌∙◌, List, [], ◌∷◌, some, length, take, drop, get_or, arith, ◌==◌,
  if◌then◌else◌, length-append, drop-append,
}
use prop_amm_challenge.Words.{IsU64, from_le_bytes}
use prop_amm_challenge.Buffer.{read, pad, length-pad}
use prop_amm_challenge.Shared.Instruction.{
  encode_swap_instruction, decode_instruction, read_u64, read_u8, storage_size, Swap,
}
use prop_amm_challenge.Shared.Instruction.Layout.{
  swap_fields, length-swap_fields, encode_swap_instruction-layout,
}
use prop_amm_challenge.Shared.Instruction.RoundTrip.{decode_instruction-encode_swap_instruction}
use prop_amm_challenge.Shared.Normalizer.{compute_swap, swap_output, fee_of}

-- The fee that a storage stands for.
unfoldable pub stored_fee : List ℕ → ℕ
stored_fee storage =
    let raw = from_le_bytes (take 2 (pad storage_size storage)) in if raw == 0 then 30 else raw

pub fee_of-encode :
    (side input x y : ℕ) (storage : List ℕ)
    → fee_of (encode_swap_instruction side input x y storage) ≡ stored_fee storage
unfolding fee_of stored_fee
fee_of-encode side input x y storage =
    let front = swap_fields side input x y in
    let back = pad storage_size storage in
    rw
      (
        encode_swap_instruction-layout side input x y storage,
        drop-append 25 front back (length-swap_fields side input x y),
      )
      (ground (
        arith,
        length-append front back,
        length-swap_fields side input x y,
        length-pad storage_size storage,
      ))

read_u64→slice :
    (at : ℕ) (bytes : List ℕ) {v : ℕ}
    → read_u64 at bytes ≡ some v
    → (from_le_bytes (take 8 (drop at bytes)) ≡ v) × (at + 8 ≤ length bytes)
unfolding read_u64 read
read_u64→slice at bytes h = ground arith

read_u8→head : (bytes : List ℕ) {v : ℕ} → read_u8 0 bytes ≡ some v → get_or bytes 0 0 ≡ v
unfolding read_u8 read from_le_bytes
read_u8→head [] h = ground arith
read_u8→head (b ∷ bs) h = ground arith

compute_swap-reads :
    (bytes : List ℕ) {side input x y : ℕ}
    → read_u8 0 bytes ≡ some side
    → read_u64 1 bytes ≡ some input
    → read_u64 9 bytes ≡ some x
    → read_u64 17 bytes ≡ some y
    → compute_swap bytes ≡ swap_output (fee_of bytes) side input x y
unfolding compute_swap
compute_swap-reads bytes e0 e1 e2 e3 =
    let (i, _) = read_u64→slice 1 bytes e1 in
    let (j, _) = read_u64→slice 9 bytes e2 in
    let (k, long) = read_u64→slice 17 bytes e3 in rw (read_u8→head bytes e0, i, j, k) (ground arith)

decode_instruction-eq-some :
    (bytes : List ℕ) (s : Swap)
    → decode_instruction bytes ≡ some s
    → (read_u8 0 bytes ≡ some s.side)
      × (read_u64 1 bytes ≡ some s.input_amount)
      × (read_u64 9 bytes ≡ some s.reserve_x)
      × (read_u64 17 bytes ≡ some s.reserve_y)
unfolding decode_instruction
decode_instruction-eq-some bytes s h = ground arith

-- `compute_swap` reads what `decode_instruction` reads.
pub compute_swap-decode :
    (bytes : List ℕ) (s : Swap)
    → decode_instruction bytes ≡ some s
    → compute_swap bytes ≡ swap_output (fee_of bytes) s.side s.input_amount s.reserve_x s.reserve_y
compute_swap-decode bytes s h =
    let (e0, e1, e2, e3) = decode_instruction-eq-some bytes s h in
    compute_swap-reads bytes e0 e1 e2 e3

-- On every call that the executor encodes with 64-bit amounts the native normalizer returns its
-- curve's output at the fee that the first two bytes of the storage hold, and at 30 bps where they
-- hold zero.
pub compute_swap-encode :
    (side input x y : ℕ) (storage : List ℕ)
    → IsU64 input
    → IsU64 x
    → IsU64 y
    → compute_swap (encode_swap_instruction side input x y storage)
      ≡ swap_output (stored_fee storage) side input x y
compute_swap-encode side input x y storage hi hx hy =
    compute_swap-decode (encode_swap_instruction side input x y storage) _
      (decode_instruction-encode_swap_instruction side input x y storage hi hx hy)
    ∙ rw (fee_of-encode side input x y storage)

-- The bytes that a curve reads from an executor's call.
pub encode-slices :
    (side input x y : ℕ) (storage : List ℕ)
    → IsU64 input
    → IsU64 x
    → IsU64 y
    → let call = encode_swap_instruction side input x y storage in
      (get_or call 0 0 ≡ side)
      × (from_le_bytes (slice 1 9 call) ≡ input)
      × (from_le_bytes (slice 9 17 call) ≡ x)
      × (from_le_bytes (slice 17 25 call) ≡ y)
      × (25 ≤ length call)
encode-slices side input x y storage hi hx hy =
    let call = encode_swap_instruction side input x y storage in
    let (e0, e1, e2, e3) =
      decode_instruction-eq-some call _
        (decode_instruction-encode_swap_instruction side input x y storage hi hx hy) in
    (
      read_u8→head call e0,
      (read_u64→slice 1 call e1).0,
      (read_u64→slice 9 call e2).0,
      (read_u64→slice 17 call e3).0,
      (read_u64→slice 17 call e3).1,
    )
