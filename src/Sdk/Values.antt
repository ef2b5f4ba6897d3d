-- ===== src/Sdk/Values.antt =====
-- crates/submission-sdk/src/lib.rs: the value that the executor reads.
use prop_amm_challenge.Prelude.{
  ℕ, ◌+◌, ◌-◌, ◌≡◌, refl, sym, ap, ◌∙◌, true, List, [], ◌∷◌, ◌++◌, length, get_or, arith,
  append-nil, append_assoc, length-append,
}
use prop_amm_challenge.Words.{IsU64, from_le_bytes, from_le_bytes-to_le_bytes, length-to_le_bytes}
use prop_amm_challenge.Buffer.{zeros}
use prop_amm_challenge.Shared.Instruction.{le64}
use prop_amm_challenge.Executor.Syscalls
use prop_amm_challenge.Executor.Syscalls.{
  AccessType, Result, ok, load, Guest, Syscall, read_bytes, write_bytes,
}
use prop_amm_challenge.Executor.Syscalls.Laws.{set_return_data_lem, returned}
use prop_amm_challenge.Sdk.{set_return_data_u64, set_return_data_bytes}

get_or-behind :
    (front : List ℕ) (b : ℕ) (rest : List ℕ) → get_or (front ++ b ∷ rest) (length front) 0 ≡ b
get_or-behind [] b rest = refl
get_or-behind (x ∷ front) b rest = get_or-behind front b rest

-- What was written is read.
read-written :
    (memory : ℕ → ℕ) (at : ℕ) (rest front : List ℕ)
    → read_bytes (write_bytes memory at (front ++ rest)) (at + length front) (length rest) ≡ rest
unfolding read_bytes write_bytes
read-written memory at [] front = refl
read-written memory at (b ∷ rest) front =
    let n = length-append front (b ∷ rest) in
    let e : at + length front - at ≡ length front = omega arith in
    let next : at + length front + 1 ≡ at + length (front ++ b ∷ []) =
      omega (arith, length-append front (b ∷ [])) in
    let here : write_bytes memory at (front ++ b ∷ rest) (at + length front) ≡ b =
      ground (arith, e, get_or-behind front b rest) in
    let tail : read_bytes (write_bytes memory at (front ++ b ∷ rest)) (at + length front + 1)
          (length rest)
        ≡ rest =
      rw (next, ← append_assoc front (b ∷ []) rest)
        (read-written memory at rest (front ++ b ∷ [])) in
    λ i. here i ∷ tail i

-- When pinocchio's call is the return-data syscall and the guest's address of the eight bytes maps
-- to the host's, the wrapper called with a 64-bit value succeeds, sets the flag, and leaves return
-- data that the executor's decoding reads as that value.
pub set_return_data_u64_read :
    (map : AccessType → ℕ → ℕ → Result ℕ) (pinocchio : ℕ → ℕ → Syscall ℕ)
    → pinocchio ≡ Syscalls.set_return_data map
    → (addr host value : ℕ) (g : Guest) → map load addr 8 ≡ ok host
    → IsU64 value
    → let r = set_return_data_u64 pinocchio addr host value g in
      (r.0 ≡ ok 0)
      × (r.1.context.has_return_data ≡ true)
      × (from_le_bytes r.1.context.return_data ≡ value)
unfolding set_return_data_u64 set_return_data_bytes returned zeros
set_return_data_u64_read map pinocchio p addr host value g m h =
    let g' : Guest = record g { memory = write_bytes g.memory host (le64 value) } in
    let done = (set_return_data_lem map g' addr 8).2 host (omega arith) m in
    let ran : set_return_data_u64 pinocchio addr host value g
        ≡ Syscalls.set_return_data map addr 8 g' =
      ap (λ f. f addr 8 g') p in
    let at_start : host + 0 ≡ host = omega arith in
    let read : read_bytes g'.memory host 8 ≡ le64 value =
      ap (λ n. read_bytes g'.memory host n) (sym (length-to_le_bytes 8 value))
      ∙ (ap (λ p. read_bytes g'.memory p (length (le64 value))) (sym at_start)
          ∙ read-written g.memory host (le64 value) []) in
    let whole : returned g'.memory host 8 ≡ le64 value =
      append-nil (read_bytes g'.memory host 8) ∙ read in
    let word = from_le_bytes-to_le_bytes 8 value h in
    (rw (ran, done) refl, rw (ran, done) refl, rw (ran, done, whole) word)
