-- ===== src/Executor/Vm/Hook.antt =====
-- The calls of the hook of crates/executor/src/vm.rs as a whole.
use prop_amm_challenge.Prelude.{
  ◌+◌, ℕ, min, ◌≡◌, refl, ap, ◌∙◌, List, ◌++◌, length, take, arith, length-take, length-copy_at,
  length-append, copy_at, true, drop, none, some, drop-append, drop_all, take_all, append-nil,
}
use prop_amm_challenge.Buffer.{zeros, length-zeros, pad_full}
use prop_amm_challenge.Shared.Instruction.{le64, storage_size, after_swap_size, encode_after_swap}
use prop_amm_challenge.Shared.Instruction.Layout.{
  length-encode_after_swap, encode_after_swap-layout, after_swap_fields, length-after_swap_fields,
}
use prop_amm_challenge.Executor.Native
use prop_amm_challenge.Executor.Native.{NativeExecutor, AfterSwapFn}
use prop_amm_challenge.Executor.Syscalls.{reset, SyscallContext}
use prop_amm_challenge.Executor.Vm.{
  Outcome, ok, err, ExecutorError, BpfExecutor, BpfProgram, Machine, input_buf_size, machine,
  run_vm, execute_after_swap, after_swap_input, updated_storage,
}
use prop_amm_challenge.Executor.Vm.Layout.{after_swap_input-layout, machine_input}
use prop_amm_challenge.Executor.Vm.Invariant.{IsExecutor, prepared-IsExecutor, run_vm-IsExecutor}

abbrev pub for_after_swap : BpfExecutor → ℕ → ℕ → ℕ → ℕ → ℕ → ℕ → List ℕ → BpfExecutor
for_after_swap e side input output rx ry step storage = record e {
  input_buf = after_swap_input (length e.input_buf) side input output rx ry step storage;
}

length-updated_storage :
    (run : Outcome (Unit {0})) (c : SyscallContext) (storage : List ℕ)
    → length c.storage_data ≡ storage_size
    → length (updated_storage run c storage) ≡ length storage
unfolding updated_storage
length-updated_storage (err x) c storage h = refl
length-updated_storage (ok _) c storage h =
    let n = min (length storage) storage_size in
    ground (arith, length-take n c.storage_data, length-copy_at 0 (take n c.storage_data) storage)

failed_storage :
    (x : ExecutorError) (c : SyscallContext) (storage : List ℕ)
    → updated_storage (err x) c storage ≡ storage
unfolding updated_storage
failed_storage x c storage = refl

after_swap_layout :
    (e : BpfExecutor) (side input output rx ry step : ℕ) (storage : List ℕ)
    → IsExecutor e
    → (for_after_swap e side input output rx ry step storage).input_buf
      ≡ zeros 16 ++ (encode_after_swap side input output rx ry step storage ++ zeros 32)
after_swap_layout e side input output rx ry step storage v =
    ap (λ (n : ℕ). after_swap_input n side input output rx ry step storage) v.buf_length
    ∙ after_swap_input-layout side input output rx ry step storage

module _ (e : BpfExecutor) (v : IsExecutor e) (side input output rx ry step : ℕ)
    (storage : List ℕ) where
  pub execute_after_swap_input :
      (machine (for_after_swap e side input output rx ry step storage) after_swap_size).input_buf
      ≡ zeros 8
        ++ (le64 after_swap_size
            ++ (encode_after_swap side input output rx ry step storage ++ zeros 32))
  execute_after_swap_input =
      machine_input (for_after_swap e side input output rx ry step storage) after_swap_size
        (encode_after_swap side input output rx ry step storage ++ zeros 32)
        (after_swap_layout e side input output rx ry step storage v)

  for_after_swap-IsExecutor : IsExecutor (for_after_swap e side input output rx ry step storage)
  for_after_swap-IsExecutor =
      let call = encode_after_swap side input output rx ry step storage in
      let size : length (zeros 16 ++ (call ++ zeros 32)) ≡ input_buf_size = omega (
        arith,
        length-append (zeros 16) (call ++ zeros 32),
        length-append call (zeros 32),
        length-zeros 16,
        length-zeros 32,
        length-encode_after_swap side input output rx ry step storage,
      ) in
      prepared-IsExecutor e (for_after_swap e side input output rx ry step storage).input_buf
        (ap (λ (b : List ℕ). length b) (after_swap_layout e side input output rx ry step storage v)
          ∙ size)
        v

  pub execute_after_swap-IsExecutor :
      IsExecutor (execute_after_swap e side input output rx ry step storage).2
  unfolding execute_after_swap
  execute_after_swap-IsExecutor = run_vm-IsExecutor _ after_swap_size for_after_swap-IsExecutor

  -- On a well-formed executor a call of the hook, whatever the program does in it, keeps the length
  -- of the engine's storage.
  pub length-execute_after_swap :
      length (execute_after_swap e side input output rx ry step storage).1 ≡ length storage
  unfolding execute_after_swap
  length-execute_after_swap =
      let (run, e') =
        run_vm (for_after_swap e side input output rx ry step storage) after_swap_size in
      length-updated_storage run e'.context storage
        (run_vm-IsExecutor _ after_swap_size for_after_swap-IsExecutor).storage_length

-- A call of the hook that fails leaves the engine's storage as it was.
pub execute_after_swap_failed :
    (e : BpfExecutor) (side input output rx ry step : ℕ) (storage : List ℕ) (x : ExecutorError)
    → (execute_after_swap e side input output rx ry step storage).0 ≡ err x
    → (execute_after_swap e side input output rx ry step storage).1 ≡ storage
unfolding execute_after_swap
execute_after_swap_failed e side input output rx ry step storage x h =
    let (run, e') =
      run_vm (for_after_swap e side input output rx ry step storage) after_swap_size in
    rw h (failed_storage x e'.context storage)

-- A program is the compiled form of a hook if every run on a call stores what the hook leaves of
-- the storage in the call.
abbrev pub CompilesHook : AfterSwapFn → BpfProgram → Type 0
CompilesHook after_swap p =
    (m : Machine) (call : List ℕ)
    → m.input_buf ≡ zeros 8 ++ (le64 after_swap_size ++ (call ++ zeros 32))
    → length call ≡ after_swap_size
    → length m.context.storage_data ≡ storage_size
    → ((p.execute_program m).0 ≡ none)
      × ((p.execute_program m).1.context.has_storage_update ≡ true)
      × ((p.execute_program m).1.context.storage_data ≡ after_swap call (drop 42 call))

-- The storage behind the fields of a call.
stored_behind :
    (side input output rx ry step : ℕ) (storage : List ℕ)
    → length storage ≡ storage_size
    → drop 42 (encode_after_swap side input output rx ry step storage) ≡ storage
stored_behind side input output rx ry step storage h =
    rw
      (
        encode_after_swap-layout side input output rx ry step storage,
        pad_full storage_size storage h,
      )
      (drop-append 42 (after_swap_fields side input output rx ry step) storage
        (length-after_swap_fields side input output rx ry step))

-- What the update makes of a storage of the same length.
updated_whole :
    (c : SyscallContext) (storage left : List ℕ)
    → length storage ≡ storage_size
    → length c.storage_data ≡ storage_size
    → c.has_storage_update ≡ true
    → c.storage_data ≡ left
    → updated_storage (ok tt) c storage ≡ left
unfolding updated_storage copy_at
updated_whole c storage left h l u e =
    let n : min (length storage) storage_size ≡ storage_size = omega arith in
    rw (u, n, take_all storage_size c.storage_data (omega arith))
      (rw (drop_all (0 + length c.storage_data) storage (omega arith), append-nil) e)

-- The native hook on a storage of the full length.
native_whole :
    (exec : NativeExecutor) (after_swap : AfterSwapFn) (side input output rx ry step : ℕ)
    (storage : List ℕ)
    → exec.after_swap_fn ≡ some after_swap
    → length storage ≡ storage_size
    → Native.execute_after_swap exec side input output rx ry step storage
      ≡ after_swap (encode_after_swap side input output rx ry step storage) storage
unfolding Native.execute_after_swap
native_whole exec after_swap side input output rx ry step storage has h =
    let n : min (length storage) storage_size ≡ storage_size = omega arith in
    rw
      (
        has,
        n,
        take_all storage_size storage (omega arith),
        drop_all storage_size storage (omega arith),
        append-nil,
      )
      refl

-- On every call of the hook with a storage of 1024 bytes the executor of the virtual machine
-- succeeds and leaves the storage that the native executor leaves, provided that it is well formed
-- and that its program is the compiled form of the native hook: a run on a call's bytes behind the
-- header stores what the hook makes of the storage in the call.
pub execute_after_swap-eq-native :
    (e : BpfExecutor) (exec : NativeExecutor) (after_swap : AfterSwapFn)
    (side input output rx ry step : ℕ) (storage : List ℕ)
    → IsExecutor e
    → exec.after_swap_fn ≡ some after_swap
    → CompilesHook after_swap e.program
    → length storage ≡ storage_size
    → let r = execute_after_swap e side input output rx ry step storage in
      (r.0 ≡ ok tt) × (r.1 ≡ Native.execute_after_swap exec side input output rx ry step storage)
unfolding execute_after_swap run_vm machine reset
execute_after_swap-eq-native e exec after_swap side input output rx ry step storage v is compiled
      h =
    let call = encode_after_swap side input output rx ry step storage in
    let m = machine (for_after_swap e side input output rx ry step storage) after_swap_size in
    let (ran, has, value) =
      compiled m call (execute_after_swap_input e v side input output rx ry step storage)
        (length-encode_after_swap side input output rx ry step storage) v.storage_length in
    let left =
      run_vm-IsExecutor _ after_swap_size
        (for_after_swap-IsExecutor e v side input output rx ry step storage) in
    let kept = ap (after_swap call) (stored_behind side input output rx ry step storage h) in
    (
      rw ran refl,
      rw (ran, native_whole exec after_swap side input output rx ry step storage is h)
          (updated_whole _ storage _ h left.storage_length has (value ∙ kept)),
    )
