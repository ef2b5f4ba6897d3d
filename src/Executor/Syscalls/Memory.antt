-- ===== src/Executor/Syscalls/Memory.antt =====
-- The memory calls of crates/executor/src/syscalls.rs, branch by branch.
use prop_amm_challenge.Prelude.{
  ℕ, zero, suc, ◌+◌, ◌-◌, ◌%◌, ◌≤◌, ◌<◌, ◌≡◌, refl, ap, List, get_or, arith, replicate,
}
use prop_amm_challenge.Words.{to_le_bytes}
use prop_amm_challenge.Executor.Syscalls.{
  Guest, AccessType, Result, ok, err, SyscallError, load, store, read_bytes, write_bytes, memcpy,
  memmove, memcmp, memset, compare_bytes,
}
use prop_amm_challenge.Executor.Syscalls.Laws.{length-read_bytes}

-- The guest with bytes written to host memory.
abbrev pub wrote : Guest → ℕ → List ℕ → Guest
wrote g at bytes = record g { memory = write_bytes g.memory at bytes }

module _ (map : AccessType → ℕ → ℕ → Result ℕ) (g : Guest) where
  pub memcpy_zero : (dst src : ℕ) → memcpy map dst src 0 g ≡ (ok 0, g)
  unfolding memcpy
  memcpy_zero dst src = refl

  pub memcpy_unread :
      (dst src n : ℕ) (e : SyscallError)
      → 0 < n
      → map load src n ≡ err e
      → memcpy map dst src n g ≡ (err e, g)
  unfolding memcpy
  memcpy_unread dst src n e h m = ground arith

  pub memcpy_unwritten :
      (dst src n a : ℕ) (e : SyscallError)
      → 0 < n
      → map load src n ≡ ok a
      → map store dst n ≡ err e
      → memcpy map dst src n g ≡ (err e, g)
  unfolding memcpy
  memcpy_unwritten dst src n a e h m k = ground arith

  pub memcpy_done :
      (dst src n a b : ℕ)
      → 0 < n
      → map load src n ≡ ok a
      → map store dst n ≡ ok b
      → memcpy map dst src n g ≡ (ok 0, wrote g b (read_bytes g.memory a n))
  unfolding memcpy
  memcpy_done dst src n a b h m k = ground arith

  pub memmove-eq-memcpy : (dst src n : ℕ) → memmove map dst src n g ≡ memcpy map dst src n g
  unfolding memmove memcpy
  memmove-eq-memcpy dst src n = refl

  pub memset_zero : (dst val : ℕ) → memset map dst val 0 g ≡ (ok 0, g)
  unfolding memset
  memset_zero dst val = refl

  pub memset_unwritten :
      (dst val n : ℕ) (e : SyscallError)
      → 0 < n
      → map store dst n ≡ err e
      → memset map dst val n g ≡ (err e, g)
  unfolding memset
  memset_unwritten dst val n e h m = ground arith

  pub memset_done :
      (dst val n b : ℕ)
      → 0 < n
      → map store dst n ≡ ok b
      → memset map dst val n g ≡ (ok 0, wrote g b (replicate n (val % 256)))
  unfolding memset
  memset_done dst val n b h m = ground arith

  pub memcmp_unread1 :
      (s1 s2 n r : ℕ) (e : SyscallError)
      → 0 < n
      → map load s1 n ≡ err e
      → memcmp map s1 s2 n r g ≡ (err e, g)
  unfolding memcmp
  memcmp_unread1 s1 s2 n r e h m = ground arith

  pub memcmp_unread2 :
      (s1 s2 n r a : ℕ) (e : SyscallError)
      → 0 < n
      → map load s1 n ≡ ok a
      → map load s2 n ≡ err e
      → memcmp map s1 s2 n r g ≡ (err e, g)
  unfolding memcmp
  memcmp_unread2 s1 s2 n r a e h m k = ground arith

  -- What the comparison of the two ranges stores, where both are read.
  pub memcmp_stored :
      (s1 s2 n r a b : ℕ) (c : ℕ)
      → 0 < n
      → map load s1 n ≡ ok a
      → map load s2 n ≡ ok b
      → map store r 4 ≡ ok c
      → memcmp map s1 s2 n r g ≡ (
        ok 0,
        wrote g c
            (to_le_bytes 4 (compare_bytes (read_bytes g.memory a n) (read_bytes g.memory b n))),
      )
  unfolding memcmp
  memcmp_stored s1 s2 n r a b c h m k l = ground arith

  pub memcmp_unwritten :
      (s1 s2 n r a b : ℕ) (e : SyscallError)
      → 0 < n
      → map load s1 n ≡ ok a
      → map load s2 n ≡ ok b
      → map store r 4 ≡ err e
      → memcmp map s1 s2 n r g ≡ (err e, g)
  unfolding memcmp
  memcmp_unwritten s1 s2 n r a b e h m k l = ground arith

  pub memcmp_zero_unwritten :
      (s1 s2 r : ℕ) (e : SyscallError) → map store r 4 ≡ err e → memcmp map s1 s2 0 r g ≡ (err e, g)
  unfolding memcmp
  memcmp_zero_unwritten s1 s2 r e m = ground arith

  pub memcmp_zero :
      (s1 s2 r c : ℕ)
      → map store r 4 ≡ ok c
      → memcmp map s1 s2 0 r g ≡ (ok 0, wrote g c (to_le_bytes 4 0))
  unfolding memcmp
  memcmp_zero s1 s2 r c m = ground arith

get_or-read_bytes :
    (memory : ℕ → ℕ) (at n i : ℕ) → i < n → get_or (read_bytes memory at n) i 0 ≡ memory (at + i)
unfolding read_bytes
get_or-read_bytes memory at zero i h = absurd (omega arith)
get_or-read_bytes memory at (suc n) zero h = let e : at + 0 ≡ at = omega arith in rw e
get_or-read_bytes memory at (suc n) (suc i) h =
    let e : at + suc i ≡ at + 1 + i = omega arith in
    rw e (get_or-read_bytes memory (at + 1) n i (omega arith))

-- After a copy every byte of the target is the source's byte from before the copy, however the two
-- ranges overlap, and every other byte is as it was.
pub memcpy_overlap :
    (map : AccessType → ℕ → ℕ → Result ℕ) (g : Guest) (dst src n a b : ℕ)
    → 0 < n
    → map load src n ≡ ok a
    → map store dst n ≡ ok b
    → let after = (memcpy map dst src n g).1 in
      ((i : ℕ) → i < n → after.memory (b + i) ≡ g.memory (a + i))
      × ((p : ℕ) → (p < b) → after.memory p ≡ g.memory p)
      × ((p : ℕ) → b + n ≤ p → after.memory p ≡ g.memory p)
      × (after.context ≡ g.context)
unfolding write_bytes
memcpy_overlap map g dst src n a b h m k = rw (memcpy_done map g dst src n a b h m k) (
  λ i lt.
      let e : b + i - b ≡ i = omega arith in
      ground (
        arith,
        length-read_bytes g.memory a n,
        e,
        get_or-read_bytes g.memory a n i lt,
        ap (λ (j : ℕ). get_or (read_bytes g.memory a n) j 0) e,
      ),
  λ p lt. ground (arith, length-read_bytes g.memory a n),
  λ p le. ground (arith, length-read_bytes g.memory a n),
  refl,
)
