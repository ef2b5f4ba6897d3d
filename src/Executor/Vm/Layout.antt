-- ===== src/Executor/Vm/Layout.antt =====
-- The input buffer that `execute` and `execute_after_swap` of crates/executor/src/vm.rs prepare.
use prop_amm_challenge.Prelude.{
  ℕ, ◌+◌, ◌-◌, min, ◌≡◌, refl, sym, ap, ◌∙◌, List, [], ◌∷◌, ◌++◌, length, copy_at, ltb, arith,
  append_assoc, copy_at-append, drop-append, length-append, Bool-cases, inl, inr,
}
use prop_amm_challenge.Words.{length-to_le_bytes}
use prop_amm_challenge.Buffer.{
  zeros, length-zeros, copy_at-zeros, copy_at-behind, zeros-append, pad,
}
use prop_amm_challenge.Shared.Instruction.{
  le64, copied, storage_size, encode_swap_instruction, encode_after_swap,
}
use prop_amm_challenge.Shared.Instruction.Layout.{
  swap_fields, after_swap_fields, length-swap_fields, length-after_swap_fields, swap_writes,
  after_swap_writes, storage_write, length-copied, encode_swap_instruction-layout,
  encode_after_swap-layout,
}
use prop_amm_challenge.Executor.Vm.{
  swap_input, after_swap_input, fill_behind, input_buf_size, machine, BpfExecutor,
}

-- Zeros written over zeros.
fill_behind-zeros :
    (at m : ℕ) (front storage : List ℕ)
    → length front ≡ at + min (length storage) 1024
    → fill_behind at storage (front ++ zeros (m + (1024 - length storage)))
      ≡ (front ++ zeros (1024 - length storage)) ++ zeros m
unfolding fill_behind
fill_behind-zeros at m front storage h = elim (Bool-cases (ltb (min (length storage) 1024) 1024)) [
  | inl e ↦
      let rest : 1024 - min (length storage) 1024 ≡ 1024 - length storage = ground arith in
      rw (e, rest)
        (copy_at-zeros (at + min (length storage) 1024) m (m + (1024 - length storage)) front
          (zeros (1024 - length storage)) h (omega (arith, length-zeros (1024 - length storage))))
  | inr e ↦
      let rest : 1024 - length storage ≡ 0 = ground arith in
      let same : m + 0 ≡ m = omega arith in rw e (rw (rest, same) (nothing front (zeros m)))
]
  where
    nothing : (xs ys : List ℕ) → xs ++ ys ≡ (xs ++ zeros 0) ++ ys
    nothing [] ys = unfold zeros in refl
    nothing (x ∷ xs) ys = ap (◌∷◌ x) (nothing xs ys)

-- The storage and the zeros behind it, in a zeroed buffer with `m` bytes to spare.
storage_filled :
    (at m : ℕ) (front storage : List ℕ)
    → length front ≡ at
    → fill_behind at storage (copy_at at (copied storage) (front ++ zeros (m + 1024)))
      ≡ front ++ (pad storage_size storage ++ zeros m)
unfolding pad
storage_filled at m front storage h =
    let c = copied storage in
    let z = zeros (1024 - length storage) in
    rw (storage_write at m (m + 1024) front storage h refl) (
      fill_behind-zeros at m (front ++ c) storage
        (omega (arith, length-append front c, length-copied storage))
      ∙ ap (λ (b : List ℕ). b ++ zeros m) (append_assoc front c z)
      ∙ append_assoc front (c ++ z) (zeros m))

-- The sixteen bytes in front of a call, of which the length takes the last eight.
length_written :
    (len : ℕ) (call : List ℕ)
    → copy_at 8 (le64 len) (zeros 16 ++ call) ≡ zeros 8 ++ (le64 len ++ call)
length_written len call =
    rw (← zeros-append 8 8, append_assoc (zeros 8) (zeros 8) call)
      (copy_at-append 8 (zeros 8) (le64 len) (zeros 8 ++ call) (length-zeros 8)
        ∙ ap (λ (b : List ℕ). zeros 8 ++ (le64 len ++ b))
            (drop-append (length (le64 len)) (zeros 8) call
              (length-zeros 8 ∙ sym (length-to_le_bytes 8 len))))

behind_16 :
    (at : ℕ) (bytes xs : List ℕ)
    → copy_at (16 + at) bytes (zeros 16 ++ xs) ≡ zeros 16 ++ copy_at at bytes xs
behind_16 at bytes xs = copy_at-behind 16 at (zeros 16) bytes xs (length-zeros 16)

fill_behind_16 :
    (at : ℕ) (storage xs : List ℕ)
    → fill_behind (16 + at) storage (zeros 16 ++ xs) ≡ zeros 16 ++ fill_behind at storage xs
unfolding fill_behind
fill_behind_16 at storage xs = elim (Bool-cases (ltb (min (length storage) 1024) 1024)) [
  | inl e ↦
      let sum : 16 + at + min (length storage) 1024 ≡ 16 + (at + min (length storage) 1024) =
        omega arith in
      rw (e, sum)
        (behind_16 (at + min (length storage) 1024) (zeros (1024 - min (length storage) 1024)) xs)
  | inr e ↦ rw e
]

-- The fields written, with room for the storage and `m` bytes behind it.
filled :
    (at m : ℕ) (fields storage written : List ℕ)
    → length fields ≡ at
    → written ≡ fields ++ zeros (m + 1024)
    → fill_behind (16 + at) storage (copy_at (16 + at) (copied storage) (zeros 16 ++ written))
      ≡ zeros 16 ++ ((fields ++ pad storage_size storage) ++ zeros m)
filled at m fields storage written h e = rw (
  e,
  behind_16 at (copied storage) (fields ++ zeros (m + 1024)),
  fill_behind_16 at storage (copy_at at (copied storage) (fields ++ zeros (m + 1024))),
  storage_filled at m fields storage h,
  append_assoc fields (pad storage_size storage) (zeros m),
)

-- The buffer of a swap call: sixteen bytes of header, the call that the native function gets, zeros.
pub swap_input-layout :
    (side amount rx ry : ℕ) (storage : List ℕ)
    → swap_input input_buf_size side amount rx ry storage
      ≡ zeros 16 ++ (encode_swap_instruction side amount rx ry storage ++ zeros 49)
unfolding swap_input
swap_input-layout side amount rx ry storage =
    let fields = swap_fields side amount rx ry in
    rw
      (
        ← zeros-append 16 1098,
        behind_16 0 (side ∷ []) (zeros 1098),
        behind_16 1 (le64 amount) (copy_at 0 (side ∷ []) (zeros 1098)),
        behind_16 9 (le64 rx) (copy_at 1 (le64 amount) (copy_at 0 (side ∷ []) (zeros 1098))),
        behind_16 17 (le64 ry)
            (copy_at 9 (le64 rx) (copy_at 1 (le64 amount) (copy_at 0 (side ∷ []) (zeros 1098)))),
        encode_swap_instruction-layout side amount rx ry storage,
      )
      (filled 25 49 fields storage _ (length-swap_fields side amount rx ry)
        (swap_writes 1073 1098 side amount rx ry refl))

-- The buffer of an `after_swap` call.
pub after_swap_input-layout :
    (side input output rx ry step : ℕ) (storage : List ℕ)
    → after_swap_input input_buf_size side input output rx ry step storage
      ≡ zeros 16 ++ (encode_after_swap side input output rx ry step storage ++ zeros 32)
unfolding after_swap_input
after_swap_input-layout side input output rx ry step storage =
    let fields = after_swap_fields side input output rx ry step in
    let tagged = copy_at 0 (2 ∷ []) (zeros 1098) in
    let sided = copy_at 1 (side ∷ []) tagged in
    let with_input = copy_at 2 (le64 input) sided in
    let with_output = copy_at 10 (le64 output) with_input in
    let with_x = copy_at 18 (le64 rx) with_output in
    let with_y = copy_at 26 (le64 ry) with_x in
    rw
      (
        ← zeros-append 16 1098,
        behind_16 0 (2 ∷ []) (zeros 1098),
        behind_16 1 (side ∷ []) tagged,
        behind_16 2 (le64 input) sided,
        behind_16 10 (le64 output) with_input,
        behind_16 18 (le64 rx) with_output,
        behind_16 26 (le64 ry) with_x,
        behind_16 34 (le64 step) with_y,
        encode_after_swap-layout side input output rx ry step storage,
      )
      (filled 42 32 fields storage _ (length-after_swap_fields side input output rx ry step)
        (after_swap_writes 1056 1098 side input output rx ry step refl))

-- A prepared buffer and the length of its call.
pub machine_input :
    (e : BpfExecutor) (len : ℕ) (call : List ℕ)
    → e.input_buf ≡ zeros 16 ++ call
    → (machine e len).input_buf ≡ zeros 8 ++ (le64 len ++ call)
unfolding machine
machine_input e len call h = rw h (length_written len call)
