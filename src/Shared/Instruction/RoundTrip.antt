-- ===== src/Shared/Instruction/RoundTrip.antt =====
-- crates/shared/src/instruction.rs: decoding what was encoded.
use prop_amm_challenge.Prelude.{
  ℕ, ◌≡◌, refl, ap, List, [], ◌∷◌, ◌++◌, some, append-nil, ◌≤◌, length, arith, drop, drop-append,
  length-append, Option-cases, inl, inr,
}
use prop_amm_challenge.Words.{IsU64, from_le_bytes, length-to_le_bytes, from_le_bytes-to_le_bytes}
use prop_amm_challenge.Buffer.{read, read-last, read-append, pad}
use prop_amm_challenge.Shared.Instruction.{
  encode_instruction, decode_instruction, encode_swap_instruction, encode_after_swap,
  decode_after_swap, read_u64, read_u8, le64, storage_size,
}
use prop_amm_challenge.Shared.Instruction.Layout.{
  to_input, to_reserve_x, swap_fields, after_input, after_output, after_reserve_x, after_reserve_y,
  after_swap_fields, length-to_input, length-to_reserve_x, length-after_input, length-after_output,
  length-after_reserve_x, length-after_reserve_y, length-after_swap_fields,
  encode_swap_instruction-layout, encode_after_swap-layout, encode_instruction-layout,
}

pub read_u64-word :
    (at : ℕ) (front : List ℕ) (w : ℕ)
    → length front ≡ at
    → IsU64 w
    → read_u64 at (front ++ le64 w) ≡ some w
unfolding read_u64
read_u64-word at front w h hw =
    rw (read-last at 8 front (le64 w) h (length-to_le_bytes 8 w))
      (ap some (from_le_bytes-to_le_bytes 8 w hw))

pub read_u64-append :
    (at : ℕ) (xs ys : List ℕ) {v : ℕ} → read_u64 at xs ≡ some v → read_u64 at (xs ++ ys) ≡ some v
unfolding read_u64
read_u64-append at xs ys h = elim (Option-cases (read at 8 xs)) [
  | inl e ↦ cc (rw e at h)
  | inr (field, e) ↦ rw (read-append at 8 xs ys e) (rw e at h)
]

pub read_u8-append :
    (at : ℕ) (xs ys : List ℕ) {v : ℕ} → read_u8 at xs ≡ some v → read_u8 at (xs ++ ys) ≡ some v
unfolding read_u8
read_u8-append at xs ys h = elim (Option-cases (read at 1 xs)) [
  | inl e ↦ cc (rw e at h)
  | inr (field, e) ↦ rw (read-append at 1 xs ys e) (rw e at h)
]

first_byte : (b : ℕ) (bs : List ℕ) → read_u8 0 (b ∷ bs) ≡ some b
unfolding read_u8 read from_le_bytes
first_byte b bs = ground arith

second_byte : (a b : ℕ) (bs : List ℕ) → read_u8 1 (a ∷ b ∷ bs) ≡ some b
unfolding read_u8 read from_le_bytes
second_byte a b bs = ground arith

decode_reads :
    (bytes : List ℕ) {side input rx ry : ℕ}
    → read_u8 0 bytes ≡ some side
    → read_u64 1 bytes ≡ some input
    → read_u64 9 bytes ≡ some rx
    → read_u64 17 bytes ≡ some ry
    → decode_instruction bytes
      ≡ some (record { side = side; input_amount = input; reserve_x = rx; reserve_y = ry })
unfolding decode_instruction
decode_reads bytes s i x y = rw (s, i, x, y)

decode_after_reads :
    (bytes storage : List ℕ) {side input output rx ry step : ℕ}
    → read_u8 1 bytes ≡ some side
    → read_u64 2 bytes ≡ some input
    → read_u64 10 bytes ≡ some output
    → read_u64 18 bytes ≡ some rx
    → read_u64 26 bytes ≡ some ry
    → read_u64 34 bytes ≡ some step
    → 42 ≤ length bytes
    → drop 42 bytes ≡ storage
    → decode_after_swap bytes
      ≡ some (record {
        side = side;
        input_amount = input;
        output_amount = output;
        reserve_x = rx;
        reserve_y = ry;
        step = step;
        storage = storage;
      })
unfolding decode_after_swap
decode_after_reads bytes storage s i o x y n h e = ground arith

-- The four reads of a swap call find its fields, whatever follows them.
pub decode_swap_fields :
    (side input rx ry : ℕ) (rest : List ℕ)
    → IsU64 input
    → IsU64 rx
    → IsU64 ry
    → decode_instruction (swap_fields side input rx ry ++ rest)
      ≡ some (record { side = side; input_amount = input; reserve_x = rx; reserve_y = ry })
decode_swap_fields side input rx ry rest hi hx hy =
    let i = to_input side input in
    let x = to_reserve_x side input rx in
    let y = swap_fields side input rx ry in
    let at_y =
      read_u64-append 17 y rest (read_u64-word 17 x ry (length-to_reserve_x side input rx) hy) in
    let at_x =
      read_u64-append 9 y rest
        (read_u64-append 9 x (le64 ry) (read_u64-word 9 i rx (length-to_input side input) hx)) in
    let at_input = read_u64-append 1 y rest (
      read_u64-append 1 x (le64 ry)
        (read_u64-append 1 i (le64 rx) (read_u64-word 1 (side ∷ []) input refl hi))) in
    decode_reads (y ++ rest) (first_byte side _) at_input at_x at_y

-- The reads of an `after_swap` call find its fields, and its storage is what follows them.
decode_after_swap_fields :
    (side input output rx ry step : ℕ) (storage : List ℕ)
    → IsU64 input
    → IsU64 output
    → IsU64 rx
    → IsU64 ry
    → IsU64 step
    → decode_after_swap (after_swap_fields side input output rx ry step ++ storage)
      ≡ some (record {
        side = side;
        input_amount = input;
        output_amount = output;
        reserve_x = rx;
        reserve_y = ry;
        step = step;
        storage = storage;
      })
decode_after_swap_fields side input output rx ry step storage hi ho hx hy hs =
    let i = after_input side input in
    let o = after_output side input output in
    let x = after_reserve_x side input output rx in
    let y = after_reserve_y side input output rx ry in
    let whole = after_swap_fields side input output rx ry step in
    let to_whole =
      λ (at v : ℕ) (h : read_u64 at whole ≡ some v). read_u64-append at whole storage h in
    let from_y = λ (at v : ℕ) (h : read_u64 at y ≡ some v).
      to_whole at v (read_u64-append at y (le64 step) h) in
    let from_x =
      λ (at v : ℕ) (h : read_u64 at x ≡ some v). from_y at v (read_u64-append at x (le64 ry) h) in
    let from_o =
      λ (at v : ℕ) (h : read_u64 at o ≡ some v). from_x at v (read_u64-append at o (le64 rx) h) in
    let from_i = λ (at v : ℕ) (h : read_u64 at i ≡ some v).
      from_o at v (read_u64-append at i (le64 output) h) in
    decode_after_reads (whole ++ storage) storage (second_byte 2 side _)
      (from_i 2 input (read_u64-word 2 (2 ∷ side ∷ []) input refl hi))
      (from_o 10 output (read_u64-word 10 i output (length-after_input side input) ho))
      (from_x 18 rx (read_u64-word 18 o rx (length-after_output side input output) hx))
      (from_y 26 ry (read_u64-word 26 x ry (length-after_reserve_x side input output rx) hy))
      (to_whole 34 step
        (read_u64-word 34 y step (length-after_reserve_y side input output rx ry) hs))
      (omega
        (arith, length-append whole storage, length-after_swap_fields side input output rx ry step))
      (drop-append 42 whole storage (length-after_swap_fields side input output rx ry step))

-- `decode_instruction` reads from what `encode_swap_instruction` writes the side and the three
-- 64-bit amounts it was given, whatever the storage.
pub decode_instruction-encode_swap_instruction :
    (side input rx ry : ℕ) (storage : List ℕ)
    → IsU64 input
    → IsU64 rx
    → IsU64 ry
    → decode_instruction (encode_swap_instruction side input rx ry storage)
      ≡ some (record { side = side; input_amount = input; reserve_x = rx; reserve_y = ry })
decode_instruction-encode_swap_instruction side input rx ry storage hi hx hy =
    rw (encode_swap_instruction-layout side input rx ry storage)
      (decode_swap_fields side input rx ry (pad storage_size storage) hi hx hy)

-- `decode_instruction` reads from what `encode_instruction` writes the side and the three 64-bit
-- amounts it was given.
pub decode_instruction-encode_instruction :
    (side input rx ry : ℕ)
    → IsU64 input
    → IsU64 rx
    → IsU64 ry
    → decode_instruction (encode_instruction side input rx ry)
      ≡ some (record { side = side; input_amount = input; reserve_x = rx; reserve_y = ry })
decode_instruction-encode_instruction side input rx ry hi hx hy =
    rw (encode_instruction-layout side input rx ry, ← append-nil (swap_fields side input rx ry))
      (decode_swap_fields side input rx ry [] hi hx hy)

-- `decode_after_swap` reads from what `encode_after_swap` writes the side, the 64-bit amounts and
-- the 64-bit step it was given, and the storage cut or filled up with zeros to 1024 bytes.
pub decode_after_swap-encode_after_swap :
    (side input output rx ry step : ℕ) (storage : List ℕ)
    → IsU64 input
    → IsU64 output
    → IsU64 rx
    → IsU64 ry
    → IsU64 step
    → decode_after_swap (encode_after_swap side input output rx ry step storage)
      ≡ some (record {
        side = side;
        input_amount = input;
        output_amount = output;
        reserve_x = rx;
        reserve_y = ry;
        step = step;
        storage = pad storage_size storage;
      })
decode_after_swap-encode_after_swap side input output rx ry step storage hi ho hx hy hs =
    rw (encode_after_swap-layout side input output rx ry step storage) (
      decode_after_swap_fields side input output rx ry step (pad storage_size storage) hi ho hx hy
        hs)
