-- ===== src/Buffer.antt =====
-- Zeroed byte buffers (`vec![0u8; n]`) and what successive `copy_from_slice` calls leave in them.
use prop_amm_challenge.Prelude.{
  ℕ, zero, suc, ◌+◌, ◌-◌, min, ◌≡◌, refl, ap, List, [], ◌∷◌, ◌++◌, Option, none, some, length, take,
  drop, replicate, copy_at, copy_at-append, drop-replicate, append_assoc, length-replicate,
  length-take, length-append, All, All-replicate, All-append, All-take, arith, ltb, if◌then◌else◌,
  take_all, take-append_le, drop-append_le, length-drop, drop-append, append-nil,
}
use prop_amm_challenge.Words.{IsByte}

-- `vec![0u8; n]`
unfoldable pub zeros : ℕ → List ℕ
zeros n = replicate n 0

pub length-zeros : (n : ℕ) → length (zeros n) ≡ n
unfolding zeros
length-zeros n = length-replicate n 0

pub zeros-IsByte : (n : ℕ) → All IsByte (zeros n)
unfolding zeros
zeros-IsByte n = All-replicate IsByte n 0 (omega arith)

pub drop-zeros : (m n : ℕ) → drop n (zeros (m + n)) ≡ zeros m
unfolding zeros
drop-zeros m n = let e : m + n - n ≡ m = omega arith in rw (drop-replicate {A = ℕ} n (m + n) 0, e)

-- A write just behind the written front of a zeroed buffer makes the front longer.
pub copy_at-zeros :
    (at m n : ℕ) (front bytes : List ℕ)
    → length front ≡ at
    → m + length bytes ≡ n
    → copy_at at bytes (front ++ zeros n) ≡ (front ++ bytes) ++ zeros m
copy_at-zeros at m n front bytes h e =
    rw (copy_at-append at front bytes (zeros n) h, ← e, drop-zeros m (length bytes), append_assoc)

-- `storage[..min(storage.len(), width)]`, then zeros up to `width`.
unfoldable pub pad : ℕ → List ℕ → List ℕ
pad width bytes = take (min (length bytes) width) bytes ++ zeros (width - length bytes)

pub length-pad : (width : ℕ) (bytes : List ℕ) → length (pad width bytes) ≡ width
unfolding pad
length-pad width bytes = omega (
  arith,
  length-append (take (min (length bytes) width) bytes) (zeros (width - length bytes)),
  length-take (min (length bytes) width) bytes,
  length-zeros (width - length bytes),
)

pub pad_full : (width : ℕ) (bytes : List ℕ) → length bytes ≡ width → pad width bytes ≡ bytes
unfolding pad zeros
pad_full width bytes h =
    let e : min (length bytes) width ≡ length bytes = omega arith in
    let f : width - length bytes ≡ 0 = omega arith in rw (e, f, append-nil) (whole bytes)
  where
    whole : (xs : List ℕ) → take (length xs) xs ≡ xs
    whole [] = refl
    whole (x ∷ xs) = ap (◌∷◌ x) (whole xs)

pub pad-IsByte : (width : ℕ) (bytes : List ℕ) → All IsByte bytes → All IsByte (pad width bytes)
unfolding pad
pad-IsByte width bytes h =
    All-append IsByte _ _ (All-take IsByte (min (length bytes) width) bytes h)
      (zeros-IsByte (width - length bytes))

-- `data[at..at + width]` as an array, and `data[at..]`; `none` is the panic of an index out of range.
unfoldable pub read : ℕ → ℕ → List ℕ → Option (List ℕ)
read at width xs = if ltb (length xs) (at + width) then none else some (take width (drop at xs))

-- The last field of a buffer.
pub read-last :
    (at width : ℕ) (front field : List ℕ)
    → length front ≡ at
    → length field ≡ width
    → read at width (front ++ field) ≡ some field
unfolding read
read-last at width front field hf hw =
    rw (drop-append at front field hf, take_all width field (omega arith))
      (ground (arith, length-append front field))

-- What is appended to a buffer does not change what is read from it.
pub read-append :
    (at width : ℕ) (xs ys : List ℕ) {field : List ℕ}
    → read at width xs ≡ some field
    → read at width (xs ++ ys) ≡ some field
unfolding read
read-append at width xs ys h = ground (
  arith,
  length-append xs ys,
  length-drop at xs,
  drop-append_le at xs ys,
  take-append_le width (drop at xs) ys,
)

-- A write behind a front of known length is a write into what follows it.
pub copy_at-behind :
    (p at : ℕ) (front bytes xs : List ℕ)
    → length front ≡ p
    → copy_at (p + at) bytes (front ++ xs) ≡ front ++ copy_at at bytes xs
unfolding copy_at
copy_at-behind p at front bytes xs h =
    rw (← h, take-behind front xs at, drop-behind front xs at (length bytes), append_assoc)
  where
    take-behind : (ys zs : List ℕ) (k : ℕ) → take (length ys + k) (ys ++ zs) ≡ ys ++ take k zs
    take-behind [] zs k = let e : 0 + k ≡ k = omega arith in rw e
    take-behind (y ∷ ys) zs k =
        let e : suc (length ys) + k ≡ suc (length ys + k) = omega arith in
        rw e (ap (◌∷◌ y) (take-behind ys zs k))

    drop-behind : (ys zs : List ℕ) (k j : ℕ) → drop (length ys + k + j) (ys ++ zs) ≡ drop (k + j) zs
    drop-behind [] zs k j = let e : 0 + k + j ≡ k + j = omega arith in rw e
    drop-behind (y ∷ ys) zs k j =
        let e : suc (length ys) + k + j ≡ suc (length ys + k + j) = omega arith in
        rw e (drop-behind ys zs k j)

pub zeros-append : (m n : ℕ) → zeros m ++ zeros n ≡ zeros (m + n)
unfolding zeros
zeros-append zero n = let e : 0 + n ≡ n = omega arith in rw e
zeros-append (suc m) n =
    let e : suc m + n ≡ suc (m + n) = omega arith in rw e (ap (◌∷◌ 0) (zeros-append m n))
