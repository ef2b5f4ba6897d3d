-- ===== src/Executor/Vm/Laws.antt =====
-- The swap calls of crates/executor/src/vm.rs as a whole, and those of native.rs beside them.
use prop_amm_challenge.Prelude.{
  ℕ, ◌<◌, ◌^◌, ◌≡◌, ap, ◌∙◌, true, List, ◌++◌, none, length, arith, length-append,
}
use prop_amm_challenge.Words.{IsU64, from_le_bytes, from_le_bytes-lt, from_le_bytes-to_le_bytes}
use prop_amm_challenge.Buffer.{zeros, length-zeros}
use prop_amm_challenge.Shared.Instruction.{le64, swap_instruction_size, encode_swap_instruction}
use prop_amm_challenge.Shared.Instruction.Layout.{length-encode_swap_instruction}
use prop_amm_challenge.Executor.Native
use prop_amm_challenge.Executor.Native.{NativeExecutor, SwapFn}
use prop_amm_challenge.Executor.Vm.{
  ok, Machine, BpfProgram, BpfExecutor, input_buf_size, machine, run_vm, execute, swap_input,
}
use prop_amm_challenge.Executor.Vm.Layout.{swap_input-layout, machine_input}
use prop_amm_challenge.Executor.Vm.Invariant.{IsExecutor, prepared-IsExecutor, run_vm-IsExecutor}

-- The executor with the buffer of a swap call.
abbrev pub for_swap : BpfExecutor → ℕ → ℕ → ℕ → ℕ → List ℕ → BpfExecutor
for_swap e side amount rx ry storage = record e {
  input_buf = swap_input (length e.input_buf) side amount rx ry storage;
}

module _ (e : BpfExecutor) (v : IsExecutor e) (side amount rx ry : ℕ) (storage : List ℕ) where
  prepared_layout :
      (for_swap e side amount rx ry storage).input_buf
      ≡ zeros 16 ++ (encode_swap_instruction side amount rx ry storage ++ zeros 49)
  prepared_layout =
      ap (λ (n : ℕ). swap_input n side amount rx ry storage) v.buf_length
      ∙ swap_input-layout side amount rx ry storage

  -- On a well-formed executor the input buffer of a swap call holds, when the run starts, eight
  -- zero bytes, the length of the call as 64-bit little endian, exactly the bytes that the native
  -- function is handed, and zeros.
  pub execute_input :
      (machine (for_swap e side amount rx ry storage) swap_instruction_size).input_buf
      ≡ zeros 8
        ++ (le64 swap_instruction_size
            ++ (encode_swap_instruction side amount rx ry storage ++ zeros 49))
  execute_input =
      machine_input (for_swap e side amount rx ry storage) swap_instruction_size
        (encode_swap_instruction side amount rx ry storage ++ zeros 49) prepared_layout

  for_swap-IsExecutor : IsExecutor (for_swap e side amount rx ry storage)
  for_swap-IsExecutor =
      let call = encode_swap_instruction side amount rx ry storage in
      let size : length (zeros 16 ++ (call ++ zeros 49)) ≡ input_buf_size = omega (
        arith,
        length-append (zeros 16) (call ++ zeros 49),
        length-append call (zeros 49),
        length-zeros 16,
        length-zeros 49,
        length-encode_swap_instruction side amount rx ry storage,
      ) in
      prepared-IsExecutor e (for_swap e side amount rx ry storage).input_buf
        (ap (λ (b : List ℕ). length b) prepared_layout ∙ size) v

  -- A swap call, whether it returns or fails, keeps the executor's invariant.
  pub execute-IsExecutor : IsExecutor (execute e side amount rx ry storage).1
  unfolding execute
  execute-IsExecutor = run_vm-IsExecutor _ swap_instruction_size for_swap-IsExecutor

  execute-eq-ok :
      (out : ℕ)
      → (execute e side amount rx ry storage).0 ≡ ok out
      → out ≡ from_le_bytes (execute e side amount rx ry storage).1.context.return_data
  unfolding execute
  execute-eq-ok out h = ground arith

  -- On a well-formed executor a swap call that succeeds returns a value of 64 bits.
  pub execute-IsU64 : (out : ℕ) → (execute e side amount rx ry storage).0 ≡ ok out → IsU64 out
  execute-IsU64 out h =
      let w = execute-IsExecutor in
      let bytes = (execute e side amount rx ry storage).1.context.return_data in
      let bound : from_le_bytes bytes < 256 ^ length bytes =
        from_le_bytes-lt bytes w.return_bytes in
      rw (execute-eq-ok out h) (rw w.return_length at bound)

-- A program is the compiled form of a swap function if every run on a call returns what the
-- function returns on the call's bytes.
abbrev pub Compiles : SwapFn → BpfProgram → Type 0
Compiles swap p =
    (m : Machine) (call : List ℕ)
    → m.input_buf ≡ zeros 8 ++ (le64 swap_instruction_size ++ (call ++ zeros 49))
    → length call ≡ swap_instruction_size
    → ((p.execute_program m).0 ≡ none)
      × ((p.execute_program m).1.context.has_return_data ≡ true)
      × ((p.execute_program m).1.context.return_data ≡ le64 (swap call))

-- On every swap call the executor of the virtual machine returns what the native executor returns,
-- provided that the executor is well formed, that its program is the compiled form of the native
-- function (a run on a call's bytes behind the header returns the function's value on those bytes)
-- and that the function's values fit 64 bits.
pub execute-eq-native :
    (e : BpfExecutor) (exec : NativeExecutor) (side amount rx ry : ℕ) (storage : List ℕ)
    → IsExecutor e
    → Compiles exec.swap_fn e.program
    → ((call : List ℕ) → IsU64 (exec.swap_fn call))
    → (execute e side amount rx ry storage).0 ≡ ok (Native.execute exec side amount rx ry storage)
unfolding execute run_vm Native.execute
execute-eq-native e exec side amount rx ry storage v compiled words =
    let call = encode_swap_instruction side amount rx ry storage in
    let m = machine (for_swap e side amount rx ry storage) swap_instruction_size in
    let (ran, has, value) =
      compiled m call (execute_input e v side amount rx ry storage)
        (length-encode_swap_instruction side amount rx ry storage) in
    let word = from_le_bytes-to_le_bytes 8 (exec.swap_fn call) (words call) in
    ground (arith, ran, has, value, word, ap from_le_bytes value)
