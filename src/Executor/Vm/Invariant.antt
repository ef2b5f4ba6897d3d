-- ===== src/Executor/Vm/Invariant.antt =====
-- crates/executor/src/vm.rs: what holds of an executor between two calls, and that a run keeps it.
use prop_amm_challenge.Prelude.{ℕ, ◌<◌, ◌≡◌, ◌∙◌, List, length, arith, All, length-copy_at}
use prop_amm_challenge.Words.{IsByte, length-to_le_bytes}
use prop_amm_challenge.Buffer.{length-zeros, zeros-IsByte}
use prop_amm_challenge.Shared.Instruction.{le64, storage_size}
use prop_amm_challenge.Executor.Syscalls
use prop_amm_challenge.Executor.Syscalls.{SyscallContext, AccessType, Guest, new, reset}
use prop_amm_challenge.Executor.Syscalls.Laws.{IsGuest}
use prop_amm_challenge.Executor.Syscalls.Effects.{Runs, Runs-IsGuest}
use prop_amm_challenge.Executor.Vm.{
  Machine, BpfProgram, BpfExecutor, input_buf_size, create, machine, run_vm,
}

-- A run changes the context by syscalls and the meter only, and does not resize the input buffer.
pub record Hosting (p : BpfProgram) (m : Machine) : Type 0 where
  pub map : AccessType → ℕ → ℕ → Syscalls.Result ℕ
  pub before : ℕ → ℕ
  pub after : ℕ → ℕ
  pub before_bytes : (a : ℕ) → before a < 256
  pub runs :
      Runs p.meter_disabled map
        (record { context = m.context; memory = before })
        (record { context = (p.execute_program m).1.context; memory = after })
  pub keeps_buf : length (p.execute_program m).1.input_buf ≡ length m.input_buf

-- The executor between two calls.
pub record IsExecutor (e : BpfExecutor) : Type 0 where
  pub buf_length : length e.input_buf ≡ input_buf_size
  pub return_length : length e.context.return_data ≡ 8
  pub return_bytes : All IsByte e.context.return_data
  pub storage_length : length e.context.storage_data ≡ storage_size
  pub storage_bytes : All IsByte e.context.storage_data
  pub hosted : (m : Machine) → Hosting e.program m

pub create-IsExecutor : (p : BpfProgram) → ((m : Machine) → Hosting p m) → IsExecutor (create p)
unfolding create new
create-IsExecutor p h = record {
  buf_length = length-zeros input_buf_size;
  return_length = length-zeros 8;
  return_bytes = zeros-IsByte 8;
  storage_length = length-zeros storage_size;
  storage_bytes = zeros-IsByte storage_size;
  hosted = h;
}

reset-IsGuest :
    (e : BpfExecutor) (len : ℕ) (memory : ℕ → ℕ)
    → IsExecutor e
    → ((a : ℕ) → memory a < 256)
    → IsGuest (record { context = (machine e len).context; memory = memory })
unfolding machine reset
reset-IsGuest e len memory v h = record {
  return_length = v.return_length;
  return_bytes = v.return_bytes;
  storage_length = v.storage_length;
  storage_bytes = v.storage_bytes;
  memory_bytes = h;
}

machine_buf :
    (e : BpfExecutor) (len : ℕ)
    → length e.input_buf ≡ input_buf_size
    → length (machine e len).input_buf ≡ input_buf_size
unfolding machine
machine_buf e len h =
    length-copy_at 8 (le64 len) e.input_buf (omega (arith, length-to_le_bytes 8 len)) ∙ h

-- A run of the virtual machine, successful or not, on a well-formed executor leaves a well-formed
-- executor: the input buffer, the return data and the storage keep their sizes, and the latter two
-- hold bytes.
pub run_vm-IsExecutor : (e : BpfExecutor) (len : ℕ) → IsExecutor e → IsExecutor (run_vm e len).1
unfolding run_vm
run_vm-IsExecutor e len v =
    let m = machine e len in
    let h = v.hosted m in
    let g = Runs-IsGuest (reset-IsGuest e len h.before v h.before_bytes) h.runs in
    record {
      buf_length = h.keeps_buf ∙ machine_buf e len v.buf_length;
      return_length = g.return_length;
      return_bytes = g.return_bytes;
      storage_length = g.storage_length;
      storage_bytes = g.storage_bytes;
      hosted = v.hosted;
    }

pub prepared-IsExecutor :
    (e : BpfExecutor) (buf : List ℕ)
    → length buf ≡ input_buf_size
    → IsExecutor e
    → IsExecutor (record e { input_buf = buf })
prepared-IsExecutor e buf h v = record {
  buf_length = h;
  return_length = v.return_length;
  return_bytes = v.return_bytes;
  storage_length = v.storage_length;
  storage_bytes = v.storage_bytes;
  hosted = v.hosted;
}
