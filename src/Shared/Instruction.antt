-- ===== src/Shared/Instruction.antt =====
-- crates/shared/src/instruction.rs: the byte layouts of the `compute_swap` and `after_swap` calls.
-- An index out of range in `decode_*` is a panic, `none`.
pub mod Layout
pub mod RoundTrip
use prop_amm_challenge.Prelude.{
  ℕ, ◌+◌, min, List, [], ◌∷◌, Option, none, some, length, take, drop, copy_at, ltb, if◌then◌else◌,
  ◌>>=◌,
}
use prop_amm_challenge.Words.{to_le_bytes, from_le_bytes}
use prop_amm_challenge.Buffer.{zeros, read}

abbrev pub instruction_size : ℕ
instruction_size = 25

abbrev pub storage_size : ℕ
storage_size = 1024

abbrev pub swap_instruction_size : ℕ
swap_instruction_size = 1049

abbrev pub after_swap_size : ℕ
after_swap_size = 1066

abbrev pub le64 : ℕ → List ℕ
le64 = to_le_bytes 8

-- The part of `storage` that the encoders copy.
abbrev pub copied : List ℕ → List ℕ
copied storage = take (min (length storage) storage_size) storage

unfoldable pub encode_instruction : ℕ → ℕ → ℕ → ℕ → List ℕ
encode_instruction side input_amount reserve_x reserve_y =
    let made = zeros instruction_size in
    let tagged = copy_at 0 (side ∷ []) made in
    let with_input = copy_at 1 (le64 input_amount) tagged in
    let with_x = copy_at 9 (le64 reserve_x) with_input in copy_at 17 (le64 reserve_y) with_x

pub record Swap : Type 0 where
  pub side : ℕ
  pub input_amount : ℕ
  pub reserve_x : ℕ
  pub reserve_y : ℕ

-- `u64::from_le_bytes(data[at..at + 8].try_into().unwrap())`
unfoldable pub read_u64 : ℕ → List ℕ → Option ℕ
read_u64 at bytes = do field ← read at 8 bytes; some (from_le_bytes field)

-- `data[at]`
unfoldable pub read_u8 : ℕ → List ℕ → Option ℕ
read_u8 at bytes = do field ← read at 1 bytes; some (from_le_bytes field)

unfoldable pub decode_instruction : List ℕ → Option Swap
decode_instruction bytes = do
  side ← read_u8 0 bytes
  input_amount ← read_u64 1 bytes
  reserve_x ← read_u64 9 bytes
  reserve_y ← read_u64 17 bytes
  some (record {
    side = side;
    input_amount = input_amount;
    reserve_x = reserve_x;
    reserve_y = reserve_y;
  })

unfoldable pub encode_swap_instruction : ℕ → ℕ → ℕ → ℕ → List ℕ → List ℕ
encode_swap_instruction side input_amount reserve_x reserve_y storage =
    let made = zeros swap_instruction_size in
    let tagged = copy_at 0 (side ∷ []) made in
    let with_input = copy_at 1 (le64 input_amount) tagged in
    let with_x = copy_at 9 (le64 reserve_x) with_input in
    let with_y = copy_at 17 (le64 reserve_y) with_x in copy_at 25 (copied storage) with_y

unfoldable pub encode_after_swap : ℕ → ℕ → ℕ → ℕ → ℕ → ℕ → List ℕ → List ℕ
encode_after_swap side input_amount output_amount reserve_x reserve_y step storage =
    let made = zeros after_swap_size in
    let tagged = copy_at 0 (2 ∷ []) made in
    let sided = copy_at 1 (side ∷ []) tagged in
    let with_input = copy_at 2 (le64 input_amount) sided in
    let with_output = copy_at 10 (le64 output_amount) with_input in
    let with_x = copy_at 18 (le64 reserve_x) with_output in
    let with_y = copy_at 26 (le64 reserve_y) with_x in
    let with_step = copy_at 34 (le64 step) with_y in copy_at 42 (copied storage) with_step

pub record AfterSwap : Type 0 where
  pub side : ℕ
  pub input_amount : ℕ
  pub output_amount : ℕ
  pub reserve_x : ℕ
  pub reserve_y : ℕ
  pub step : ℕ
  pub storage : List ℕ

unfoldable pub decode_after_swap : List ℕ → Option AfterSwap
decode_after_swap bytes = do
  side ← read_u8 1 bytes
  input_amount ← read_u64 2 bytes
  output_amount ← read_u64 10 bytes
  reserve_x ← read_u64 18 bytes
  reserve_y ← read_u64 26 bytes
  step ← read_u64 34 bytes
  storage ← if ltb (length bytes) 42 then none else some (drop 42 bytes)
  some (record {
    side = side;
    input_amount = input_amount;
    output_amount = output_amount;
    reserve_x = reserve_x;
    reserve_y = reserve_y;
    step = step;
    storage = storage;
  })
