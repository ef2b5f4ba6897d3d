-- ===== src/Sdk/Runs.antt =====
-- The functions of crates/submission-sdk/src/lib.rs, run.
use prop_amm_challenge.Prelude.{
  copy_at, ℕ, ◌+◌, false, ◌≡◌, refl, true, [], ◌∷◌, none, some, length, map, arith,
}
use prop_amm_challenge.Words.{to_le_bytes, from_le_bytes}
use prop_amm_challenge.Buffer.{zeros}
use prop_amm_challenge.Executor.Syscalls
use prop_amm_challenge.Executor.Syscalls.{
  AccessType, Result, ok, Guest, Syscall, SyscallContext, new, read_bytes,
}
use prop_amm_challenge.Sdk.{
  set_return_data_u64, set_return_data_bytes, set_storage, ffi_compute_swap, ffi_after_swap,
  refused, too_large,
}
use prop_amm_challenge.Sdk.Values.{set_return_data_u64_read}

-- Guest addresses stand 4096 bytes above the host's.
abbrev shifted : AccessType → ℕ → ℕ → Result ℕ
shifted access addr len = ok (addr + 4096)

abbrev pinocchio : ℕ → ℕ → Syscall ℕ
pinocchio = Syscalls.set_return_data shifted

abbrev guest : Guest
guest = record { context = new false 1000; memory = λ p. 9 }

abbrev after : Result ℕ × Guest
after = set_return_data_u64 pinocchio 16 4112 1_000_000_007 guest

set_return_data_u64_read_example :
    (after.0 ≡ ok 0)
    × (after.1.context.has_return_data ≡ true)
    × (from_le_bytes after.1.context.return_data ≡ 1_000_000_007)
set_return_data_u64_read_example =
    set_return_data_u64_read shifted pinocchio refl 16 4112 1_000_000_007 guest refl (omega arith)

return_bytes : after.1.context.return_data ≡ 7 ∷ 202 ∷ 154 ∷ 59 ∷ 0 ∷ 0 ∷ 0 ∷ 0 ∷ []
unfolding set_return_data_u64 set_return_data_bytes Syscalls.set_return_data copy_at read_bytes
    Syscalls.write_bytes zeros to_le_bytes
return_bytes = refl

set_storage_refused : (set_storage shifted 0 1025 guest).0 ≡ ok (refused too_large)
unfolding set_storage
set_storage_refused = refl

-- A null pointer is an empty slice where its length is zero.
null_runs : map (λ len. ffi_compute_swap none len (λ xs. length xs + 3)) (0 ∷ 5 ∷ []) ≡ 3 ∷ 0 ∷ []
unfolding ffi_compute_swap
null_runs = refl

null_storage : ffi_after_swap (some (1 ∷ 2 ∷ [])) 2 none 4 (λ xs ys. xs) ≡ none
unfolding ffi_after_swap
null_storage = refl

after_runs : ffi_after_swap (some (1 ∷ 2 ∷ 3 ∷ [])) 2 none 0 (λ xs ys. xs) ≡ some (1 ∷ 2 ∷ [])
unfolding ffi_after_swap
after_runs = refl
