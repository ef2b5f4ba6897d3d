-- ===== src/Sdk.antt =====
-- crates/submission-sdk/src/lib.rs: on the virtual machine, the wrappers of the two syscalls; natively, those of
-- the exported functions. A guest's slice is its address and its length. A native pointer is `none` where it is
-- null, and else the bytes from it on.
pub mod Values
mod Runs
use prop_amm_challenge.Prelude.{
  ℕ, Bool, true, false, ◌&&◌, ◌||◌, List, [], Option, none, some, ltb, ◌==◌, if◌then◌else◌, take,
}
use prop_amm_challenge.Shared.Instruction.{storage_size, le64}
use prop_amm_challenge.Executor.Native.{SwapFn}
use prop_amm_challenge.Executor.Syscalls
use prop_amm_challenge.Executor.Syscalls.{AccessType, Result, Syscall, ◌>>=◌, pure, write_bytes}

pub data StorageError : Type 0 where
  too_large : StorageError

-- `Result<(), StorageError>`
pub data Stored : Type 0 where
  stored : Stored
  refused : StorageError → Stored

-- pinocchio's `set_return_data`
module _ (pinocchio_set_return_data : ℕ → ℕ → Syscall ℕ) where
  unfoldable pub set_return_data_bytes : ℕ → ℕ → Syscall ℕ
  set_return_data_bytes addr len = pinocchio_set_return_data addr len

  -- The array of the bytes of `value` stands at the guest's address `addr`, which is the host's `host`.
  unfoldable pub set_return_data_u64 : ℕ → ℕ → ℕ → Syscall ℕ
  set_return_data_u64 addr host value g =
      set_return_data_bytes addr 8 (record g { memory = write_bytes g.memory host (le64 value) })

unfoldable pub set_storage : (AccessType → ℕ → ℕ → Result ℕ) → ℕ → ℕ → Syscall Stored
set_storage map addr len =
    if ltb storage_size len
    then pure (refused too_large)
    else (Syscalls.set_storage map addr len >>= λ _. pure stored)

unfoldable pub ffi_compute_swap : Option (List ℕ) → ℕ → SwapFn → ℕ
ffi_compute_swap none len compute_swap = if len == 0 then compute_swap [] else 0
ffi_compute_swap (some bytes) len compute_swap = compute_swap (take len bytes)

abbrev is_null : Option (List ℕ) → Bool
is_null none = true
is_null (some _) = false

abbrev not_zero : ℕ → Bool
not_zero n = if n == 0 then false else true

-- `from_raw_parts`
abbrev slice_of : Option (List ℕ) → ℕ → List ℕ
slice_of none len = []
slice_of (some bytes) len = take len bytes

-- The storage slice after the call; `none` where the call is a no-op.
unfoldable pub ffi_after_swap :
    Option (List ℕ) → ℕ → Option (List ℕ) → ℕ → (List ℕ → List ℕ → List ℕ) → Option (List ℕ)
ffi_after_swap ptr data_len storage storage_len after_swap =
    if is_null ptr && not_zero data_len || is_null storage && not_zero storage_len
    then none
    else (let data_slice = if data_len == 0 then [] else slice_of ptr data_len in
        let storage_slice = if storage_len == 0 then [] else slice_of storage storage_len in
        some (after_swap data_slice storage_slice))
