-- ===== src/Executor/Syscalls/Effects.antt =====
-- The effects of the calls in crates/executor/src/syscalls.rs, and the runs of a program that makes them.
use prop_amm_challenge.Prelude.{
  ℕ, zero, suc, ◌-◌, ◌%◌, ◌≤◌, ◌<◌, ◌≡◌, refl, Bool, true, false, List, length, ltb, arith, All,
  All-append, All-replicate, length-append, ◌⊎◌, inl, inr, Bool-cases, ltb→lt,
}
use prop_amm_challenge.Words.{IsByte, to_le_bytes, to_le_bytes-IsByte}
use prop_amm_challenge.Buffer.{zeros, length-zeros, zeros-IsByte}
use prop_amm_challenge.Shared.Instruction.{storage_size}
use prop_amm_challenge.Executor.Syscalls.{
  Guest, AccessType, Result, ok, err, SyscallError, load, store, read_bytes, write_bytes,
  set_return_data, set_storage, memcpy, memcmp, memset, log, abort, Call, sol_set_return_data,
  sol_set_storage, sol_log, abort_call, sol_memcpy, sol_memmove, sol_memset, sol_memcmp, perform,
  consume,
}
use prop_amm_challenge.Executor.Syscalls.Laws.{
  IsGuest, returned, storage_at, set_return_data_lem, set_storage_lem, length-read_bytes,
  read_bytes-IsByte, write_bytes-IsByte,
}
use prop_amm_challenge.Executor.Syscalls.Memory.{
  memcpy_zero, memcpy_unread, memcpy_unwritten, memcpy_done, memmove-eq-memcpy, memset_zero,
  memset_unwritten, memset_done, memcmp_zero, memcmp_zero_unwritten, memcmp_unread1, memcmp_unread2,
  memcmp_unwritten, memcmp_stored,
}

-- The kinds of effect that a syscall has: none, on the context, or one write to memory.
pub data Effect (g : Guest) : Guest → Type 0 where
  unchanged : Effect g g
  returns :
      (data' : List ℕ)
      → length data' ≡ 8
      → All IsByte data'
      → Effect g (record g {
        context = record (g.context) { return_data = data'; has_return_data = true };
      })
  stores :
      (storage : List ℕ)
      → length storage ≡ storage_size
      → All IsByte storage
      → Effect g (record g {
        context = record (g.context) { storage_data = storage; has_storage_update = true };
      })
  writes :
      (at : ℕ) (bytes : List ℕ)
      → All IsByte bytes
      → Effect g (record g { memory = write_bytes g.memory at bytes })

pub Effect-IsGuest : {g h : Guest} → Effect g h → IsGuest g → IsGuest h
Effect-IsGuest unchanged v = v
Effect-IsGuest (returns d l b) v = record {
  return_length = l;
  return_bytes = b;
  storage_length = v.storage_length;
  storage_bytes = v.storage_bytes;
  memory_bytes = v.memory_bytes;
}
Effect-IsGuest (stores s l b) v = record {
  return_length = v.return_length;
  return_bytes = v.return_bytes;
  storage_length = l;
  storage_bytes = b;
  memory_bytes = v.memory_bytes;
}
Effect-IsGuest {g} (writes at bytes b) v = record {
  return_length = v.return_length;
  return_bytes = v.return_bytes;
  storage_length = v.storage_length;
  storage_bytes = v.storage_bytes;
  memory_bytes = write_bytes-IsByte g.memory at bytes v.memory_bytes b;
}

Result-cases : (r : Result ℕ) → ((a : ℕ) × (r ≡ ok a)) ⊎ ((e : SyscallError) × (r ≡ err e))
Result-cases (ok a) = inl (a, refl)
Result-cases (err e) = inr (e, refl)

module _ (map : AccessType → ℕ → ℕ → Result ℕ) (g : Guest) (v : IsGuest g) where
  set_return_data-Effect : (addr len : ℕ) → Effect g (set_return_data map addr len g).1
  set_return_data-Effect addr len =
      let (long, unmapped, done) = set_return_data_lem map g addr len in
      elim (Bool-cases (ltb 8 len)) [
        | inl e ↦ rw (long (ltb→lt 8 len e)) unchanged
        | inr e ↦ elim (Result-cases (map load addr len)) [
          | inr (x, m) ↦ rw (unmapped x (ground arith) m) unchanged
          | inl (host, m) ↦
              rw (done host (ground arith) m)
                (returns _ (returned_length host (ground arith)) (returned_bytes host))
        ]
      ]
    where
      returned_length : (host : ℕ) → len ≤ 8 → length (returned g.memory host len) ≡ 8
      returned_length host h =
          unfold returned in
          omega (
            arith,
            length-append (read_bytes g.memory host len) (zeros (8 - len)),
            length-read_bytes g.memory host len,
            length-zeros (8 - len),
          )

      returned_bytes : (host : ℕ) → All IsByte (returned g.memory host len)
      returned_bytes host =
          unfold returned in
          All-append IsByte (read_bytes g.memory host len) _
            (read_bytes-IsByte g.memory v.memory_bytes host len) (zeros-IsByte (8 - len))

  set_storage-Effect : (addr len : ℕ) → Effect g (set_storage map addr len g).1
  set_storage-Effect addr len =
      let (long, unmapped, done) = set_storage_lem map g v.storage_length addr len in
      elim (Bool-cases (ltb storage_size len)) [
        | inl e ↦ rw (long (ltb→lt storage_size len e)) unchanged
        | inr e ↦ elim (Result-cases (map load addr len)) [
          | inr (x, m) ↦ rw (unmapped x (ground arith) m) unchanged
          | inl (host, m) ↦
              rw (done host (ground arith) m)
                (stores _ (stored_length host (ground arith)) (stored_bytes host))
        ]
      ]
    where
      stored_length :
          (host : ℕ) → len ≤ storage_size → length (storage_at g.memory host len) ≡ storage_size
      stored_length host h =
          unfold storage_at in
          omega (
            arith,
            length-append (read_bytes g.memory host len) (zeros (storage_size - len)),
            length-read_bytes g.memory host len,
            length-zeros (storage_size - len),
          )

      stored_bytes : (host : ℕ) → All IsByte (storage_at g.memory host len)
      stored_bytes host =
          unfold storage_at in
          All-append IsByte (read_bytes g.memory host len) _
            (read_bytes-IsByte g.memory v.memory_bytes host len) (zeros-IsByte (storage_size - len))

  memcpy-Effect : (dst src n : ℕ) → Effect g (memcpy map dst src n g).1
  memcpy-Effect dst src zero = rw (memcpy_zero map g dst src) unchanged
  memcpy-Effect dst src (suc k) =
      let n = suc k in
      let pos : 0 < n = omega arith in
      elim (Result-cases (map load src n)) [
        | inr (x, m) ↦ rw (memcpy_unread map g dst src n x pos m) unchanged
        | inl (a, m) ↦ elim (Result-cases (map store dst n)) [
          | inr (x, l) ↦ rw (memcpy_unwritten map g dst src n a x pos m l) unchanged
          | inl (b, l) ↦
              rw (memcpy_done map g dst src n a b pos m l)
                (writes b _ (read_bytes-IsByte g.memory v.memory_bytes a n))
        ]
      ]

  memset-Effect : (dst val n : ℕ) → Effect g (memset map dst val n g).1
  memset-Effect dst val zero = rw (memset_zero map g dst val) unchanged
  memset-Effect dst val (suc k) =
      let n = suc k in
      let pos : 0 < n = omega arith in
      elim (Result-cases (map store dst n)) [
        | inr (x, l) ↦ rw (memset_unwritten map g dst val n x pos l) unchanged
        | inl (b, l) ↦
            rw (memset_done map g dst val n b pos l)
              (writes b _ (All-replicate IsByte n (val % 256) (omega arith)))
      ]

  memcmp-Effect : (s1 s2 n r : ℕ) → Effect g (memcmp map s1 s2 n r g).1
  memcmp-Effect s1 s2 zero r = elim (Result-cases (map store r 4)) [
    | inr (x, l) ↦ rw (memcmp_zero_unwritten map g s1 s2 r x l) unchanged
    | inl (c, l) ↦
        rw (memcmp_zero map g s1 s2 r c l) (writes c (to_le_bytes 4 0) (to_le_bytes-IsByte 4 0))
  ]
  memcmp-Effect s1 s2 (suc k) r =
      let n = suc k in
      let pos : 0 < n = omega arith in
      elim (Result-cases (map load s1 n)) [
        | inr (x, m) ↦ rw (memcmp_unread1 map g s1 s2 n r x pos m) unchanged
        | inl (a, m) ↦ elim (Result-cases (map load s2 n)) [
          | inr (x, o) ↦ rw (memcmp_unread2 map g s1 s2 n r a x pos m o) unchanged
          | inl (b, o) ↦ elim (Result-cases (map store r 4)) [
            | inr (x, l) ↦ rw (memcmp_unwritten map g s1 s2 n r a b x pos m o l) unchanged
            | inl (c, l) ↦
                rw (memcmp_stored map g s1 s2 n r a b c pos m o l)
                  (writes c _ (to_le_bytes-IsByte 4 _))
          ]
        ]
      ]

  -- Each registered function has one effect at most, on a guest that meets the invariant.
  pub perform-Effect : (c : Call) → Effect g (perform map c g).1
  unfolding perform log abort
  perform-Effect (sol_set_return_data addr len) = set_return_data-Effect addr len
  perform-Effect (sol_set_storage addr len) = set_storage-Effect addr len
  perform-Effect sol_log = unchanged
  perform-Effect abort_call = unchanged
  perform-Effect (sol_memcpy dst src n) = memcpy-Effect dst src n
  perform-Effect (sol_memmove dst src n) =
      rw (memmove-eq-memcpy map g dst src n) (memcpy-Effect dst src n)
  perform-Effect (sol_memset dst val n) = memset-Effect dst val n
  perform-Effect (sol_memcmp s1 s2 n r) = memcmp-Effect s1 s2 n r

-- What a program does between its start and a state: instructions that write bytes to memory and use
-- up the meter, and calls of the registered functions.
pub data Runs (meter_disabled : Bool) (map : AccessType → ℕ → ℕ → Result ℕ) (g : Guest)
    : Guest → Type 0 where
  start : Runs meter_disabled map g g
  computes :
      {h : Guest}
      → Runs meter_disabled map g h
      → (at : ℕ) (bytes : List ℕ) → All IsByte bytes
      → Runs meter_disabled map g (record h { memory = write_bytes h.memory at bytes })
  meters :
      {h : Guest}
      → Runs meter_disabled map g h
      → (amount : ℕ)
      → Runs meter_disabled map g (record h { context = consume meter_disabled amount h.context })
  calls :
      {h : Guest}
      → Runs meter_disabled map g h
      → (c : Call) → Runs meter_disabled map g (perform map c h).1

consume-IsGuest :
    (meter_disabled : Bool) (amount : ℕ) (g : Guest)
    → IsGuest g
    → IsGuest (record g { context = consume meter_disabled amount g.context })
unfolding consume
consume-IsGuest true amount g v = v
consume-IsGuest false amount g v = record {
  return_length = v.return_length;
  return_bytes = v.return_bytes;
  storage_length = v.storage_length;
  storage_bytes = v.storage_bytes;
  memory_bytes = v.memory_bytes;
}

-- Whatever sequence of memory writes, metering and registered syscalls a program runs, with any
-- address translation, the host's view of it stays well formed: the return data has eight bytes,
-- the storage 1024, and memory holds bytes.
pub Runs-IsGuest :
    {meter_disabled : Bool} {map : AccessType → ℕ → ℕ → Result ℕ} {g h : Guest}
    → IsGuest g
    → Runs meter_disabled map g h
    → IsGuest h
Runs-IsGuest v start = v
Runs-IsGuest {map} v (computes {h} r at bytes b) =
    Effect-IsGuest {g = h} (writes at bytes b) (Runs-IsGuest v r)
Runs-IsGuest {meter_disabled} v (meters {h} r amount) =
    consume-IsGuest meter_disabled amount h (Runs-IsGuest v r)
Runs-IsGuest {map} v (calls {h} r c) =
    let w = Runs-IsGuest v r in Effect-IsGuest (perform-Effect map h w c) w
