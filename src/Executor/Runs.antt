-- ===== src/Executor/Runs.antt =====
-- The executors on a program that is a constant function, and the calls of a program on small inputs.
use prop_amm_challenge.Prelude.{
  copy_at, ℕ, ◌<◌, ◌≡◌, refl, [], ◌∷◌, ◌++◌, none, some, true, false, arith, length, if◌then◌else◌,
  ◌==◌,
}
use prop_amm_challenge.Words.{to_le_bytes}
use prop_amm_challenge.Buffer.{zeros, length-zeros}
use prop_amm_challenge.Shared.Instruction.{
  le64, storage_size, swap_instruction_size, encode_swap_instruction,
}
use prop_amm_challenge.Executor.Native
use prop_amm_challenge.Executor.Native.{NativeExecutor}
use prop_amm_challenge.Executor.Syscalls.{
  AccessType, Guest, Result, ok, new, sol_set_return_data, sol_set_storage, SyscallContext, perform,
  set_return_data, set_storage, read_bytes,
}
use prop_amm_challenge.Executor.Syscalls.Laws.{IsGuest, set_storage_stored, storage_at}
use prop_amm_challenge.Executor.Syscalls.Effects.{start, calls, Runs-IsGuest}
use prop_amm_challenge.Executor.Vm
use prop_amm_challenge.Executor.Vm.{
  Machine, BpfProgram, BpfExecutor, create, machine, run_vm, execute, execute_after_swap, execution,
}
use prop_amm_challenge.Executor.Vm.Invariant.{Hosting, IsExecutor, create-IsExecutor}
use prop_amm_challenge.Executor.Vm.Laws.{execute_input, execute-eq-native, for_swap}
use prop_amm_challenge.Executor.Vm.Session.{created, swapped, hooked, IsSound, Session-IsSound}
use prop_amm_challenge.Executor.Vm.Hook.{execute_after_swap-eq-native}

-- A program that returns 7 on every call.
abbrev seven : BpfProgram
seven = record {
  stack_size = 4096;
  meter_disabled = false;
  execute_program = λ m. (
    none,
    record m { context = record (m.context) { return_data = le64 7; has_return_data = true } },
  );
}

abbrev identity_map : AccessType → ℕ → ℕ → Result ℕ
identity_map access addr len = ok addr

-- Memory with a 7 at its start.
abbrev seven_memory : ℕ → ℕ
seven_memory p = if p == 0 then 7 else 0

seven_bytes : (p : ℕ) → seven_memory p < 256
seven_bytes p = ground arith

seven_runs : (m : Machine) → Hosting seven m
unfolding perform set_return_data copy_at to_le_bytes read_bytes zeros
seven_runs m = record {
  map = identity_map;
  before = seven_memory;
  after = seven_memory;
  before_bytes = seven_bytes;
  runs = calls start (sol_set_return_data 0 8);
  keeps_buf = refl;
}

abbrev seven_executor : BpfExecutor
seven_executor = create seven

seven_executor-IsExecutor : IsExecutor seven_executor
seven_executor-IsExecutor = create-IsExecutor seven seven_runs

abbrev seven_native : NativeExecutor
seven_native = record { swap_fn = λ call. 7; after_swap_fn = none }

execute-eq-native_example :
    (execute seven_executor 0 1000 5 6 []).0 ≡ Vm.ok (Native.execute seven_native 0 1000 5 6 [])
unfolding create
execute-eq-native_example =
    execute-eq-native seven_executor seven_native 0 1000 5 6 [] seven_executor-IsExecutor
      (λ m call h l. (refl, refl, refl)) (λ call. omega arith)

execute_input_example :
    (machine (for_swap seven_executor 1 9 5 6 (3 ∷ [])) swap_instruction_size).input_buf
    ≡ zeros 8
      ++ (le64 swap_instruction_size ++ (encode_swap_instruction 1 9 5 6 (3 ∷ []) ++ zeros 49))
execute_input_example = execute_input seven_executor seven_executor-IsExecutor 1 9 5 6 (3 ∷ [])

-- A program that stores a 7 in every call of the hook.
abbrev storing : BpfProgram
storing = record {
  stack_size = 4096;
  meter_disabled = false;
  execute_program = λ m. (
    none,
    record m {
      context = record (m.context) {
        storage_data = copy_at 1 (zeros 1023) (copy_at 0 (7 ∷ []) m.context.storage_data);
        has_storage_update = true;
      };
    },
  );
}

storing_runs : (m : Machine) → Hosting storing m
unfolding perform set_storage read_bytes
storing_runs m = record {
  map = identity_map;
  before = seven_memory;
  after = seven_memory;
  before_bytes = seven_bytes;
  runs = calls start (sol_set_storage 0 1);
  keeps_buf = refl;
}

abbrev storing_native : NativeExecutor
storing_native = record {
  swap_fn = λ call. 7;
  after_swap_fn = some (λ call storage. storage_at seven_memory 0 1);
}

-- What is stored does not depend on what was.
storing_stores :
    (c : SyscallContext)
    → length c.storage_data ≡ storage_size
    → copy_at 1 (zeros 1023) (copy_at 0 (7 ∷ []) c.storage_data) ≡ storage_at seven_memory 0 1
unfolding set_storage read_bytes
storing_stores c h =
    set_storage_stored identity_map (record { context = c; memory = seven_memory }) h 0 1 0
      (omega arith) refl

execute_after_swap-eq-native_example :
    let r = execute_after_swap (create storing) 1 9 2 5 6 0 (zeros 1024) in
    (r.0 ≡ Vm.ok tt) × (r.1 ≡ Native.execute_after_swap storing_native 1 9 2 5 6 0 (zeros 1024))
unfolding create
execute_after_swap-eq-native_example =
    execute_after_swap-eq-native (create storing) storing_native
      (λ call storage. storage_at seven_memory 0 1) 1 9 2 5 6 0 (zeros 1024)
      (create-IsExecutor storing storing_runs) refl
      (λ m call h l s. (refl, refl, storing_stores m.context s)) (length-zeros 1024)

Session-IsSound_example :
    let e = (execute (create storing) 0 9 5 6 (3 ∷ [])).1 in
    let (_, storage, e') = execute_after_swap e 1 9 2 5 6 0 (3 ∷ []) in IsSound (3 ∷ []) e' storage
Session-IsSound_example =
    Session-IsSound storing (3 ∷ []) storing_runs (omega arith, tt)
      (hooked (swapped created 0 9 5 6) 1 9 2 5 6 0)

abbrev seven_guest : Guest
seven_guest = record { context = new false 100000; memory = seven_memory }

seven_guest-IsGuest : IsGuest seven_guest
unfolding new create
seven_guest-IsGuest = record {
  return_length = (create-IsExecutor seven seven_runs).return_length;
  return_bytes = (create-IsExecutor seven seven_runs).return_bytes;
  storage_length = (create-IsExecutor seven seven_runs).storage_length;
  storage_bytes = (create-IsExecutor seven seven_runs).storage_bytes;
  memory_bytes = seven_bytes;
}

Runs-IsGuest_example : IsGuest (perform identity_map (sol_set_return_data 0 8) seven_guest).1
Runs-IsGuest_example =
    Runs-IsGuest {meter_disabled = false} {map = identity_map} seven_guest-IsGuest
      (calls start (sol_set_return_data 0 8))

set_storage_stored_example :
    (set_storage identity_map 0 2 seven_guest).1.context.storage_data ≡ storage_at seven_memory 0 2
set_storage_stored_example =
    set_storage_stored identity_map seven_guest seven_guest-IsGuest.storage_length 0 2 0
      (omega arith) refl
