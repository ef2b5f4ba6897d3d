-- ===== src/Executor/Syscalls/Laws.antt =====
-- `sol_set_return_data` and `sol_set_storage` of crates/executor/src/syscalls.rs: the context after them.
use prop_amm_challenge.Prelude.{
  ℕ, zero, suc, ◌+◌, ◌-◌, ◌≤◌, ◌<◌, ◌≡◌, refl, ap, ◌∙◌, true, List, [], ◌∷◌, ◌++◌, length, take,
  drop, get_or, copy_at, arith, All, All-append, All-take, All-drop, copy_at-append, drop_all,
  append-nil, length-drop,
}
use prop_amm_challenge.Words.{IsByte}
use prop_amm_challenge.Buffer.{zeros, length-zeros, copy_at-zeros}
use prop_amm_challenge.Shared.Instruction.{storage_size}
use prop_amm_challenge.Executor.Syscalls.{
  Guest, AccessType, Result, ok, err, SyscallError, access_violation, load, read_bytes, write_bytes,
  set_return_data, set_storage,
}

pub length-read_bytes : (memory : ℕ → ℕ) (at n : ℕ) → length (read_bytes memory at n) ≡ n
unfolding read_bytes
length-read_bytes memory at zero = refl
length-read_bytes memory at (suc n) = ap suc (length-read_bytes memory (at + 1) n)

pub read_bytes-IsByte :
    (memory : ℕ → ℕ) → ((p : ℕ) → memory p < 256) → (at n : ℕ) → All IsByte (read_bytes memory at n)
unfolding read_bytes
read_bytes-IsByte memory h at zero = tt
read_bytes-IsByte memory h at (suc n) = (h at, read_bytes-IsByte memory h (at + 1) n)

get_or-IsByte : (xs : List ℕ) (i : ℕ) → All IsByte xs → get_or xs i 0 < 256
get_or-IsByte [] i h = omega arith
get_or-IsByte (x ∷ xs) zero h = h.0
get_or-IsByte (x ∷ xs) (suc i) h = get_or-IsByte xs i h.1

pub write_bytes-IsByte :
    (memory : ℕ → ℕ) (at : ℕ) (bytes : List ℕ)
    → ((p : ℕ) → memory p < 256)
    → All IsByte bytes
    → (p : ℕ) → write_bytes memory at bytes p < 256
unfolding write_bytes
write_bytes-IsByte memory at bytes h b p = ground (arith, h p, get_or-IsByte bytes (p - at) b)

-- The host's view of a program: eight bytes of return data, 1024 of storage, and memory of bytes.
pub record IsGuest (g : Guest) : Type 0 where
  pub return_length : length g.context.return_data ≡ 8
  pub return_bytes : All IsByte g.context.return_data
  pub storage_length : length g.context.storage_data ≡ storage_size
  pub storage_bytes : All IsByte g.context.storage_data
  pub memory_bytes : (p : ℕ) → g.memory p < 256

pub copy_at-IsByte :
    (at : ℕ) (bytes xs : List ℕ)
    → All IsByte bytes
    → All IsByte xs
    → All IsByte (copy_at at bytes xs)
unfolding copy_at
copy_at-IsByte at bytes xs b x =
    All-append IsByte (take at xs) _ (All-take IsByte at xs x)
      (All-append IsByte bytes _ b (All-drop IsByte (at + length bytes) xs x))

-- What a successful `sol_set_return_data` leaves: the bytes, then zeros.
unfoldable pub returned : (ℕ → ℕ) → ℕ → ℕ → List ℕ
returned memory at len = read_bytes memory at len ++ zeros (8 - len)

copy_front :
    (bytes : List ℕ) (n : ℕ)
    → length bytes ≤ n
    → copy_at 0 bytes (zeros n) ≡ bytes ++ zeros (n - length bytes)
copy_front bytes n h = copy_at-zeros 0 (n - length bytes) n [] bytes refl (omega arith)

module _ (map : AccessType → ℕ → ℕ → Result ℕ) (g : Guest) where
  -- More than eight bytes are refused and a range that does not map is refused, and nothing changes.
  -- Otherwise the return data is the bytes of the range, filled up with zeros.
  pub set_return_data_lem :
      (addr len : ℕ)
      → (8 < len → set_return_data map addr len g ≡ (err (access_violation load addr len), g))
        × ((e : SyscallError)
            → len ≤ 8
            → map load addr len ≡ err e
            → set_return_data map addr len g ≡ (err e, g))
        × ((host : ℕ)
            → len ≤ 8
            → map load addr len ≡ ok host
            → set_return_data map addr len g ≡ (
              ok 0,
              record g {
                context = record (g.context) {
                  return_data = returned g.memory host len;
                  has_return_data = true;
                };
              },
            ))
  unfolding set_return_data returned
  set_return_data_lem addr len =
      (λ h. ground arith, λ e h m. ground arith, λ host h m. ground (arith, data_eq host h))
    where
      data_eq :
          (host : ℕ)
          → len ≤ 8
          → copy_at 0 (read_bytes g.memory host len) (zeros 8)
            ≡ read_bytes g.memory host len ++ zeros (8 - len)
      data_eq host h = rw (
        copy_front (read_bytes g.memory host len) 8
            (omega (arith, length-read_bytes g.memory host len)),
        length-read_bytes g.memory host len,
      )

-- The storage that a range of memory becomes.
unfoldable pub storage_at : (ℕ → ℕ) → ℕ → ℕ → List ℕ
storage_at memory at len = read_bytes memory at len ++ zeros (storage_size - len)

-- What a successful `sol_set_storage` leaves: the bytes, then zeros up to 1024, whatever was stored.
storage_eq :
    (old bytes : List ℕ) (len : ℕ)
    → length old ≡ storage_size
    → length bytes ≡ len
    → len ≤ storage_size
    → copy_at len (zeros (storage_size - len)) (copy_at 0 bytes old)
      ≡ bytes ++ zeros (storage_size - len)
storage_eq old bytes len h b l =
    let kept = drop (length bytes) old in
    rw (front old bytes)
      (copy_at-append len bytes (zeros (storage_size - len)) kept b ∙ rw (nothing_left, append-nil))
  where
    front : (xs ys : List ℕ) → copy_at 0 ys xs ≡ ys ++ drop (length ys) xs
    front xs ys = copy_at-append 0 [] ys xs refl

    nothing_left : drop (length (zeros (storage_size - len))) (drop (length bytes) old) ≡ []
    nothing_left =
        drop_all (length (zeros (storage_size - len))) (drop (length bytes) old)
          (omega (arith, length-zeros (storage_size - len), length-drop (length bytes) old))

storage_full :
    (old bytes : List ℕ) (len : ℕ)
    → length old ≡ storage_size
    → length bytes ≡ len
    → storage_size ≤ len
    → copy_at 0 bytes old ≡ bytes ++ zeros (storage_size - len)
unfolding zeros
storage_full old bytes len h b l =
    let none_left : drop (length bytes) old ≡ [] = drop_all (length bytes) old (omega arith) in
    let none_wanted : storage_size - len ≡ 0 = omega arith in
    rw (copy_at-append 0 [] bytes old refl, none_left, none_wanted)

module _ (map : AccessType → ℕ → ℕ → Result ℕ) (g : Guest)
    (size : length g.context.storage_data ≡ storage_size) where
  -- More than 1024 bytes are refused and a range that does not map is refused, and nothing changes.
  -- Otherwise the stored update is the bytes of the range, filled up with zeros: nothing of an
  -- earlier update is left.
  pub set_storage_lem :
      (addr len : ℕ)
      → (storage_size < len
          → set_storage map addr len g ≡ (err (access_violation load addr len), g))
        × ((e : SyscallError)
            → len ≤ storage_size
            → map load addr len ≡ err e
            → set_storage map addr len g ≡ (err e, g))
        × ((host : ℕ)
            → len ≤ storage_size
            → map load addr len ≡ ok host
            → set_storage map addr len g ≡ (
              ok 0,
              record g {
                context = record (g.context) {
                  storage_data = storage_at g.memory host len;
                  has_storage_update = true;
                };
              },
            ))
  unfolding set_storage storage_at
  set_storage_lem addr len = (
    λ h. ground arith,
    λ e h m. ground arith,
    λ host h m. ground (
      arith,
      storage_eq g.context.storage_data (read_bytes g.memory host len) len size
          (length-read_bytes g.memory host len) h,
      storage_full g.context.storage_data (read_bytes g.memory host len) len size
          (length-read_bytes g.memory host len),
    ),
  )

  -- With a storage of 1024 bytes, a length of at most 1024 and a range that maps, the storage
  -- syscall replaces the whole stored update by the bytes of the range and then zeros up to 1024:
  -- nothing of an earlier update is left.
  pub set_storage_stored :
      (addr len host : ℕ)
      → len ≤ storage_size
      → map load addr len ≡ ok host
      → (set_storage map addr len g).1.context.storage_data ≡ storage_at g.memory host len
  set_storage_stored addr len host h m =
      ap (λ r. r.1.context.storage_data) ((set_storage_lem addr len).2 host h m)
