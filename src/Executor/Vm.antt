-- ===== src/Executor/Vm.antt =====
-- crates/executor/src/vm.rs: a submission in the virtual machine. The machine is third-party code: a
-- loaded program is what one run of it does to the memory regions and the context, with an error
-- message where it fails. The constants follow the expressions of the source.
pub mod Layout
pub mod Invariant
pub mod Laws
pub mod Hook
pub mod Session
use Prim.Native.String.{String}
use prop_amm_challenge.Prelude.{
  ℕ, ◌+◌, ◌-◌, min, Bool, true, false, not, List, [], ◌∷◌, Option, none, some, length, take,
  copy_at, ltb, if◌then◌else◌,
}
use prop_amm_challenge.Words.{from_le_bytes}
use prop_amm_challenge.Buffer.{zeros}
use prop_amm_challenge.Shared.Instruction.{
  le64, copied, storage_size, swap_instruction_size, after_swap_size,
}
use prop_amm_challenge.Executor.Syscalls.{SyscallContext, new, reset}

pub data ExecutorError : Type 0 where
  elf_load verification jit_compilation execution : String → ExecutorError
  no_return_data aborted : ExecutorError

pub data Outcome (A : Type 0) : Type 0 where
  ok : A → Outcome A
  err : ExecutorError → Outcome A

-- The regions that a run can write, and the context of its syscalls.
pub record Machine : Type 0 where
  pub input_buf : List ℕ
  pub stack : List ℕ
  pub heap : List ℕ
  pub context : SyscallContext

pub record BpfProgram : Type 0 where
  pub stack_size : ℕ
  pub meter_disabled : Bool
  pub execute_program : Machine → Option String × Machine

pub record BpfExecutor : Type 0 where
  pub program : BpfProgram
  pub input_buf : List ℕ
  pub stack : List ℕ
  pub heap : List ℕ
  pub context : SyscallContext

abbrev pub input_buf_size : ℕ
input_buf_size = 8 + 8 + after_swap_size + 32

abbrev pub compute_budget : ℕ
compute_budget = 100000

unfoldable pub create : BpfProgram → BpfExecutor
create program = record {
  program = program;
  input_buf = zeros input_buf_size;
  stack = zeros (program.stack_size);
  heap = zeros 32768;
  context = new program.meter_disabled compute_budget;
}

-- The machine that a run starts from: the length of the call written, the context reset.
unfoldable pub machine : BpfExecutor → ℕ → Machine
machine e instr_data_len = record {
  input_buf = copy_at 8 (le64 instr_data_len) e.input_buf;
  stack = e.stack;
  heap = e.heap;
  context = reset e.program.meter_disabled compute_budget e.context;
}

-- The executor after a run.
abbrev pub left_by : BpfExecutor → Machine → BpfExecutor
left_by e m = record {
  program = e.program;
  input_buf = m.input_buf;
  stack = m.stack;
  heap = m.heap;
  context = m.context;
}

unfoldable pub run_vm : BpfExecutor → ℕ → Outcome (Unit {0}) × BpfExecutor
run_vm e instr_data_len =
    let (result, m) = e.program.execute_program (machine e instr_data_len) in
    (elim result [ none ↦ ok tt | some message ↦ err (execution message) ], left_by e m)

-- The zeros behind a storage that is shorter than its place.
unfoldable pub fill_behind : ℕ → List ℕ → List ℕ → List ℕ
fill_behind at storage buf =
    let copy_len = min (length storage) storage_size in
    if ltb copy_len storage_size
    then copy_at (at + copy_len) (zeros (storage_size - copy_len)) buf
    else buf

-- The buffer that `execute` prepares, in one of `size` bytes.
unfoldable pub swap_input : ℕ → ℕ → ℕ → ℕ → ℕ → List ℕ → List ℕ
swap_input size side amount rx ry storage =
    let cleared = zeros size in
    let sided = copy_at 16 (side ∷ []) cleared in
    let with_amount = copy_at 17 (le64 amount) sided in
    let with_x = copy_at 25 (le64 rx) with_amount in
    let with_y = copy_at 33 (le64 ry) with_x in
    fill_behind 41 storage (copy_at 41 (copied storage) with_y)

unfoldable pub execute : BpfExecutor → ℕ → ℕ → ℕ → ℕ → List ℕ → Outcome ℕ × BpfExecutor
execute e side amount rx ry storage =
    let prepared = record e {
      input_buf = swap_input (length e.input_buf) side amount rx ry storage;
    } in
    let (run, e') = run_vm prepared swap_instruction_size in
    (
      elim run [
        | err x ↦ err x
        | ok _ ↦
            if not e'.context.has_return_data
            then err no_return_data
            else ok (from_le_bytes e'.context.return_data)
      ],
      e',
    )

-- The buffer that `execute_after_swap` prepares.
unfoldable pub after_swap_input : ℕ → ℕ → ℕ → ℕ → ℕ → ℕ → ℕ → List ℕ → List ℕ
after_swap_input size side input_amount output_amount rx ry step storage =
    let cleared = zeros size in
    let tagged = copy_at 16 (2 ∷ []) cleared in
    let sided = copy_at 17 (side ∷ []) tagged in
    let with_input = copy_at 18 (le64 input_amount) sided in
    let with_output = copy_at 26 (le64 output_amount) with_input in
    let with_x = copy_at 34 (le64 rx) with_output in
    let with_y = copy_at 42 (le64 ry) with_x in
    let with_step = copy_at 50 (le64 step) with_y in
    fill_behind 58 storage (copy_at 58 (copied storage) with_step)

-- The storage after a run: the update, where the run succeeded and stored one.
unfoldable pub updated_storage : Outcome (Unit {0}) → SyscallContext → List ℕ → List ℕ
updated_storage (err x) context storage = storage
updated_storage (ok _) context storage =
    let out_len = min (length storage) storage_size in
    if context.has_storage_update
    then copy_at 0 (take out_len context.storage_data) storage
    else storage

-- The result, the storage after the call, and the executor.
unfoldable pub execute_after_swap :
    BpfExecutor → ℕ → ℕ → ℕ → ℕ → ℕ → ℕ → List ℕ → Outcome (Unit {0}) × List ℕ × BpfExecutor
execute_after_swap e side input_amount output_amount rx ry step storage =
    let prepared = record e {
      input_buf =
          after_swap_input (length e.input_buf) side input_amount output_amount rx ry step storage;
    } in
    let (run, e') = run_vm prepared after_swap_size in
    (run, updated_storage run e'.context storage, e')
