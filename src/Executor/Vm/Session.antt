-- ===== src/Executor/Vm/Session.antt =====
-- crates/executor/src/vm.rs: a session of calls, in which the storage that a hook leaves is passed on to the
-- next call, as `BpfAmm` in crates/sim/src/amm.rs does.
use prop_amm_challenge.Prelude.{
  ℕ, ◌≡◌, refl, ◌∙◌, Bool-cases, inl, inr, List, length, All, All-take,
}
use prop_amm_challenge.Words.{IsByte, IsU64}
use prop_amm_challenge.Executor.Syscalls.{SyscallContext}
use prop_amm_challenge.Executor.Syscalls.Laws.{copy_at-IsByte}
use prop_amm_challenge.Executor.Vm.{
  Outcome, ok, err, BpfExecutor, BpfProgram, Machine, create, execute, execute_after_swap,
  updated_storage,
}
use prop_amm_challenge.Executor.Vm.Invariant.{Hosting, IsExecutor, create-IsExecutor}
use prop_amm_challenge.Executor.Vm.Laws.{execute-IsExecutor, execute-IsU64}
use prop_amm_challenge.Executor.Vm.Hook.{execute_after_swap-IsExecutor, length-execute_after_swap}

-- The executor of a program and the engine's storage after any calls, from the given storage on.
pub data Session (p : BpfProgram) (begun : List ℕ) : BpfExecutor → List ℕ → Type 0 where
  created : Session p begun (create p) begun
  swapped :
      {e : BpfExecutor} {storage : List ℕ}
      → Session p begun e storage
      → (side amount rx ry : ℕ) → Session p begun (execute e side amount rx ry storage).1 storage
  hooked :
      {e : BpfExecutor} {storage : List ℕ}
      → Session p begun e storage
      → (side input output rx ry step : ℕ)
      → Session p begun
          (execute_after_swap e side input output rx ry step storage).2
          (execute_after_swap e side input output rx ry step storage).1

-- What holds between two calls: the storage has the size of before and holds bytes, and what the next
-- swap call answers is of 64 bits.
pub record IsSound (begun : List ℕ) (e : BpfExecutor) (storage : List ℕ) : Type 0 where
  pub executor : IsExecutor e
  pub size : length storage ≡ length begun
  pub bytes : All IsByte storage
  pub answers :
      (side amount rx ry out : ℕ) → (execute e side amount rx ry storage).0 ≡ ok out → IsU64 out

updated_storage-IsByte :
    (run : Outcome (Unit {0})) (c : SyscallContext) (storage : List ℕ)
    → All IsByte c.storage_data
    → All IsByte storage
    → All IsByte (updated_storage run c storage)
unfolding updated_storage
updated_storage-IsByte (err x) c storage h k = k
updated_storage-IsByte (ok _) c storage h k = elim (Bool-cases c.has_storage_update) [
  | inl e ↦ rw e (copy_at-IsByte 0 _ storage (All-take IsByte _ c.storage_data h) k)
  | inr e ↦ rw e k
]

execute_after_swap-IsByte :
    (e : BpfExecutor) (v : IsExecutor e) (side input output rx ry step : ℕ) (storage : List ℕ)
    → All IsByte storage
    → All IsByte (execute_after_swap e side input output rx ry step storage).1
execute_after_swap-IsByte e v side input output rx ry step storage k =
    let w = execute_after_swap-IsExecutor e v side input output rx ry step storage in
    unfold execute_after_swap in updated_storage-IsByte _ _ storage w.storage_bytes k

sound :
    (begun : List ℕ) (e : BpfExecutor) (storage : List ℕ)
    → IsExecutor e
    → length storage ≡ length begun
    → All IsByte storage
    → IsSound begun e storage
sound begun e storage v l b = record {
  executor = v;
  size = l;
  bytes = b;
  answers = λ side amount rx ry. execute-IsU64 e v side amount rx ry storage;
}

-- Let the runs of a program change the host by memory writes, metering and syscalls only, and not
-- resize the input buffer (`Hosting`), and let the engine's storage hold bytes. Then after any
-- sequence of swap calls and hook calls on the program's new executor, successful or not, in which
-- each call is given the storage that the last hook call left, the storage has the size it began
-- with and holds bytes, the next swap call answers nothing but a value of 64 bits, and the executor
-- is well formed: its input buffer has its size, its return data and its own storage have theirs
-- and hold bytes.
pub Session-IsSound :
    (p : BpfProgram) (begun : List ℕ) {e : BpfExecutor} {storage : List ℕ}
    → ((m : Machine) → Hosting p m)
    → All IsByte begun
    → Session p begun e storage
    → IsSound begun e storage
Session-IsSound p begun h b created = sound begun (create p) begun (create-IsExecutor p h) refl b
Session-IsSound p begun h b (swapped {e} {storage} s side amount rx ry) =
    let before = Session-IsSound p begun h b s in
    sound begun _ storage (execute-IsExecutor e before.executor side amount rx ry storage)
      before.size before.bytes
Session-IsSound p begun h b (hooked {e} {storage} s side input output rx ry step) =
    let before = Session-IsSound p begun h b s in
    let v = before.executor in
    sound begun _ _ (execute_after_swap-IsExecutor e v side input output rx ry step storage)
      (length-execute_after_swap e v side input output rx ry step storage ∙ before.size)
      (execute_after_swap-IsByte e v side input output rx ry step storage before.bytes)
