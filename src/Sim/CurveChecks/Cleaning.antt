-- ===== src/Sim/CurveChecks/Cleaning.antt =====
-- crates/sim/src/curve_checks.rs: sorting and merging the samples.
use prop_amm_challenge.Prelude.{
  ℕ, ◌+◌, ◌≤◌, ◌≡◌, List, [], ◌∷◌, All, arith, Bool-cases, inl, inr, leb, ltb, ◌-◌, if◌then◌else◌,
}
use prop_amm_challenge.Words.{IsU64}
use prop_amm_challenge.Sim.CurveChecks.{Sample, insert, sort_by_input, absorb, merge_after, clean}

-- The inputs do not fall, from a bound on.
unfoldable pub SortedFrom : ℕ → List Sample → Type 0
SortedFrom n [] = Unit
SortedFrom n (s ∷ ss) = (n ≤ s.0) × SortedFrom s.0 ss

-- Each input is more than 4 above the one before it.
unfoldable pub SpacedFrom : ℕ → List Sample → Type 0
SpacedFrom n [] = Unit
SpacedFrom n (s ∷ ss) = (n ≤ s.0) × SpacedFrom (s.0 + 5) ss

-- The outputs do not fall, and are of 64 bits.
unfoldable pub ClimbsFrom : ℕ → List Sample → Type 0
ClimbsFrom n [] = Unit
ClimbsFrom n (s ∷ ss) = ((n ≤ s.1) × IsU64 s.1) × ClimbsFrom s.1 ss

insert-SortedFrom :
    (n : ℕ) (a : Sample) (bs : List Sample) → n ≤ a.0 → SortedFrom n bs → SortedFrom n (insert a bs)
unfolding insert SortedFrom
insert-SortedFrom n a [] h t = (h, tt)
insert-SortedFrom n a (b ∷ bs) h (k, t) = elim (Bool-cases (leb a.0 b.0)) [
  | inl e ↦ rw e (h, (ground arith, t))
  | inr e ↦ rw e (k, insert-SortedFrom b.0 a bs (ground arith) t)
]

pub sort_by_input-SortedFrom : (xs : List Sample) → SortedFrom 0 (sort_by_input xs)
unfolding sort_by_input SortedFrom
sort_by_input-SortedFrom [] = tt
sort_by_input-SortedFrom (a ∷ xs) =
    insert-SortedFrom 0 a (sort_by_input xs) (omega arith) (sort_by_input-SortedFrom xs)

insert-All :
    (P : Sample → Type 0) (a : Sample) (bs : List Sample) → P a → All P bs → All P (insert a bs)
unfolding insert
insert-All P a [] p h = (p, h)
insert-All P a (b ∷ bs) p (q, h) = elim (Bool-cases (leb a.0 b.0)) [
  | inl e ↦ rw e (p, (q, h))
  | inr e ↦ rw e (q, insert-All P a bs p h)
]

pub sort_by_input-All :
    (P : Sample → Type 0) (xs : List Sample) → All P xs → All P (sort_by_input xs)
unfolding sort_by_input
sort_by_input-All P [] h = h
sort_by_input-All P (a ∷ xs) (p, h) = insert-All P a (sort_by_input xs) p (sort_by_input-All P xs h)

merge_after-SpacedFrom :
    (n : ℕ) (prev : Sample) (ps : List Sample) → n ≤ prev.0 → SpacedFrom n (merge_after prev ps)
unfolding merge_after absorb SpacedFrom
merge_after-SpacedFrom n prev [] h = (h, tt)
merge_after-SpacedFrom n (i, o) ((j, q) ∷ ps) h = elim (Bool-cases (leb (j - i) 4)) [
  | inl e ↦ rw e (merge_after-SpacedFrom n (i, if ltb o q then q else o) ps h)
  | inr e ↦ rw e (h, merge_after-SpacedFrom (i + 5) (j, q) ps (ground arith))
]

-- However the samples come, after the merge each input is more than 4 above the one before it.
pub clean-SpacedFrom : (xs : List Sample) → SpacedFrom 0 (clean xs)
unfolding clean SpacedFrom
clean-SpacedFrom [] = tt
clean-SpacedFrom (p ∷ ps) = merge_after-SpacedFrom 0 p ps (omega arith)

-- A sample of the curve `f`.
unfoldable pub OnCurve : (ℕ → ℕ) → Sample → Type 0
OnCurve f (input, output) = output ≡ f input

abbrev pub Monotone : (ℕ → ℕ) → Type 0
Monotone f = (i j : ℕ) → i ≤ j → f i ≤ f j

merge_after-ClimbsFrom :
    (f : ℕ → ℕ) (n latest : ℕ) (prev : Sample) (ps : List Sample)
    → Monotone f
    → ((i : ℕ) → IsU64 (f i))
    → n ≤ prev.1
    → prev.1 ≤ f latest
    → SortedFrom latest ps
    → All (OnCurve f) ps
    → ClimbsFrom n (merge_after prev ps)
unfolding merge_after absorb ClimbsFrom SortedFrom OnCurve
merge_after-ClimbsFrom f n latest prev [] mono small h k s on =
    ((h, let b = small latest in omega arith), tt)
merge_after-ClimbsFrom f n latest (i, o) ((j, q) ∷ ps) mono small h k (s, ss) (on, ons) =
    let grows = mono latest j s in
    elim (Bool-cases (leb (j - i) 4)) [
      | inl e ↦ rw e (
          merge_after-ClimbsFrom f n j (i, if ltb o q then q else o) ps mono small (ground arith)
            (ground arith) ss ons)
      | inr e ↦ rw e (
        (h, let b = small latest in omega arith),
        merge_after-ClimbsFrom f o j (j, q) ps mono small (omega arith) (omega arith) ss ons,
      )
    ]

-- The samples of a curve that does not fall keep outputs that do not fall.
pub clean-ClimbsFrom :
    (f : ℕ → ℕ) (xs : List Sample)
    → Monotone f
    → ((i : ℕ) → IsU64 (f i))
    → All (OnCurve f) xs
    → ClimbsFrom 0 (clean (sort_by_input xs))
unfolding clean SortedFrom ClimbsFrom OnCurve
clean-ClimbsFrom f xs mono small on =
    go (sort_by_input xs) (sort_by_input-SortedFrom xs) (sort_by_input-All (OnCurve f) xs on)
  where
    go : (ys : List Sample) → SortedFrom 0 ys → All (OnCurve f) ys → ClimbsFrom 0 (clean ys)
    go [] s on = tt
    go ((i, o) ∷ ps) (s, ss) (on, ons) =
        merge_after-ClimbsFrom f 0 i (i, o) ps mono small (omega arith) (omega arith) ss ons
