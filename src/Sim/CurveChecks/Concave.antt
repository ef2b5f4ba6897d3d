-- ===== src/Sim/CurveChecks/Concave.antt =====
-- crates/sim/src/curve_checks.rs: samples near a concave curve pass the whole check.
use Prim.Native.String.{String}
use text.Mathlib.Text.{◌==◌}
use native.Mathlib.Nat.{mul-le-mul, le_trans}
use prop_amm_challenge.Prelude.{
  ℕ, ◌+◌, ◌-◌, ◌*◌, ◌≤◌, ◌≡◌, refl, Bool, List, [], ◌∷◌, map, All, All-mono, arith, Bool-cases, inl,
  inr, leb, ltb, none, min, some, if◌then◌else◌,
}
use prop_amm_challenge.Words.{saturating_add64, u64_max}
use prop_amm_challenge.Float.{Float, IsFloat}
use prop_amm_challenge.Shared.Nano.{f64_to_nano}
use prop_amm_challenge.Shared.Nano.Laws.{f64_to_nano-IsU64}
use prop_amm_challenge.Sim.CurveChecks.{
  filter, is_usable, usable_samples, submission_shape_violation,
  enforce_submission_monotonic_concave, Sample, absorb, merge_after, clean, sort_by_input,
  windows_violation, min_concavity_dx_nano,
}
use prop_amm_challenge.Sim.CurveChecks.Cleaning.{
  SpacedFrom, Monotone, clean-SpacedFrom, sort_by_input-All,
}
use prop_amm_challenge.Sim.CurveChecks.Verdicts.{
  Chain, Adjacent, RisesWithin, Flattens, IsSample, wide_segments, segments, windows_violation_iff,
}

-- The slope between two inputs is not exceeded further on, where `e` is forgiven in each rise: it
-- leaves room for a curve whose values are rounded.
abbrev pub Concave : ℕ → (ℕ → ℕ) → Type 0
Concave e g =
    (a b c d : ℕ) → a ≤ b → b ≤ c → c ≤ d → (g d - g c - e) * (b - a) ≤ (g b - g a + e) * (d - c)

-- The output is at most `4 - e` above the curve, also where the input is taken to be 4 lower.
abbrev pub Near : ℕ → (ℕ → ℕ) → Sample → Type 0
Near e g s = (g s.0 ≤ s.1) × (s.1 + e ≤ g (s.0 - 4) + 4)

All-zip : (P Q : Sample → Type 0) (xs : List Sample) → All P xs → All Q xs → All (λ s. P s × Q s) xs
All-zip P Q [] h k = tt
All-zip P Q (x ∷ xs) (p, h) (q, k) = ((p, q), All-zip P Q xs h k)

module _ (e : ℕ) (g : ℕ → ℕ) (mono : Monotone g) where
  -- What is kept of a sample.
  abbrev Kept : Sample → Type 0
  Kept s = (IsSample s × (g s.0 ≤ s.1)) × (s.1 + e ≤ g s.0 + 4)

  merge_after-Kept :
      (prev : Sample) (ps : List Sample)
      → Kept prev
      → All (λ s. Near e g s × IsSample s) ps
      → All Kept (merge_after prev ps)
  unfolding merge_after absorb
  merge_after-Kept prev [] k h = (k, tt)
  merge_after-Kept (i, o) ((j, q) ∷ ps) k ((near, u), h) = elim (Bool-cases (leb (j - i) 4)) [
    | inl t ↦
        let low = mono (j - 4) i (ground arith) in
        rw t (merge_after-Kept (i, if ltb o q then q else o) ps (ground arith) h)
    | inr t ↦
        let low = mono (j - 4) j (omega arith) in
        rw t (k, merge_after-Kept (j, q) ps (omega arith) h)
  ]

  clean-Kept : (xs : List Sample) → All (λ s. Near e g s × IsSample s) xs → All Kept (clean xs)
  unfolding clean
  clean-Kept [] h = tt
  clean-Kept ((j, q) ∷ ps) ((near, u), h) =
      let low = mono (j - 4) j (omega arith) in merge_after-Kept (j, q) ps (omega arith) h

  rising :
      (a : Sample) (ps : List Sample)
      → All Kept (a ∷ ps)
      → SpacedFrom (a.0 + 5) ps
      → Chain RisesWithin a ps
  unfolding Chain RisesWithin SpacedFrom
  rising a [] h s = tt
  rising a (b ∷ ps) (k, h) (s, ss) =
      let up = mono a.0 b.0 (omega arith) in let (l, _) = h in (omega arith, rising b ps h ss)

  module _ (concave : Concave e g) where
    -- A segment that rises at least as much as the curve from `p` to `q`, as far as it can.
    Covers : ℕ → ℕ → ℕ × ℕ → Type 0
    Covers p q s = (s.1 ≡ q - p) × (min (g q - g p + e) u64_max ≤ saturating_add64 s.0 4)

    rise-Covers : (a b : Sample) → Kept a → Kept b → Covers a.0 b.0 (b.1 - a.1, b.0 - a.0)
    unfolding Covers
    rise-Covers a b h k = (refl, omega arith)

    step-Flattens :
        (p q : ℕ) (s : ℕ × ℕ) (a b : Sample)
        → p ≤ q
        → q ≤ a.0
        → a.0 ≤ b.0
        → Covers p q s
        → Kept a
        → Kept b
        → Flattens s (b.1 - a.1, b.0 - a.0)
    unfolding Covers Flattens
    step-Flattens p q s a b h k l (width, rise) ((_, low), high) ((u, _), top) =
        elim (Bool-cases (leb (g q - g p + e) u64_max)) [
          | inl t ↦
              let bent = concave p q a.0 b.0 h k l in
              let less : (b.1 - a.1 - 4) * s.1 ≤ (g b.0 - g a.0 - e) * (q - p) =
                mul-le-mul (omega arith) (omega arith) in
              let more : (g q - g p + e) * (b.0 - a.0) ≤ saturating_add64 s.0 4 * (b.0 - a.0) =
                mul-le-mul (ground arith) (omega arith) in
              le_trans less (le_trans bent more)
          | inr t ↦
              let up = mono q a.0 k in
              let flat : b.1 - a.1 - 4 ≡ 0 = ground arith in rw flat (omega arith)
        ]

    steps-Chain :
        (p q : ℕ) (s : ℕ × ℕ) (a : Sample) (ps : List Sample)
        → p ≤ q
        → q ≤ a.0
        → Covers p q s
        → All Kept (a ∷ ps)
        → SpacedFrom (a.0 + 5) ps
        → Chain Flattens s (wide_segments a ps)
    unfolding wide_segments Chain SpacedFrom
    steps-Chain p q s a [] h k c all sp = tt
    steps-Chain p q s a (b ∷ ps) h k c (ka, all) (sb, sp) =
        elim (Bool-cases (ltb (b.0 - a.0) min_concavity_dx_nano)) [
          | inl t ↦ rw t (steps-Chain p q s b ps h (omega arith) c all sp)
          | inr t ↦ rw t (
            step-Flattens p q s a b h k (omega arith) c ka all.0,
            steps-Chain a.0 b.0 _ b ps (omega arith) (omega arith) (rise-Covers a b ka all.0) all
                sp,
          )
        ]

    segments-Adjacent :
        (a : Sample) (ps : List Sample)
        → All Kept (a ∷ ps)
        → SpacedFrom (a.0 + 5) ps
        → Adjacent Flattens (wide_segments a ps)
    unfolding wide_segments Adjacent SpacedFrom
    segments-Adjacent a [] all sp = tt
    segments-Adjacent a (b ∷ ps) (ka, all) (sb, sp) =
        elim (Bool-cases (ltb (b.0 - a.0) min_concavity_dx_nano)) [
          | inl t ↦ rw t (segments-Adjacent b ps all sp)
          | inr t ↦ rw t (
              steps-Chain a.0 b.0 _ b ps (omega arith) (omega arith) (rise-Covers a b ka all.0) all
                sp)
        ]

    pub windows_violation-Near :
        (xs : List Sample)
        → All IsSample xs
        → All (Near e g) xs
        → windows_violation (clean (sort_by_input xs)) ≡ none
    unfolding segments Adjacent SpacedFrom
    windows_violation-Near xs u near =
        passes (clean (sort_by_input xs)) (clean-SpacedFrom (sort_by_input xs))
          (clean-Kept (sort_by_input xs) (sort_by_input-All _ xs (All-zip _ _ xs near u)))
      where
        passes : (ys : List Sample) → SpacedFrom 0 ys → All Kept ys → windows_violation ys ≡ none
        passes [] sp k = (windows_violation_iff [] sp tt).1 (tt, tt)
        passes (a ∷ ps) sp k =
            (windows_violation_iff (a ∷ ps) sp (All-mono _ _ (λ s h. h.0.0) (a ∷ ps) k)).1
              (rising a ps k sp.1, segments-Adjacent a ps k sp.1)

module _ {F : Type 0} ⦃f : Float F⦄ (laws : IsFloat F) where
  filter-All :
      {A : Type 0} (P : A → Type 0) (p : A → Bool) (xs : List A) → All P xs → All P (filter p xs)
  unfolding filter
  filter-All P p [] h = h
  filter-All P p (x ∷ xs) (k, h) = elim (Bool-cases (p x)) [
    | inl e ↦ rw e (k, filter-All P p xs h)
    | inr e ↦ rw e (filter-All P p xs h)
  ]

  converted-IsSample :
      (points : List (F × F))
      → All IsSample (map (λ (input, output). (f64_to_nano input, f64_to_nano output)) points)
  converted-IsSample [] = tt
  converted-IsSample ((x, y) ∷ points) =
      ((f64_to_nano-IsU64 laws x, f64_to_nano-IsU64 laws y), converted-IsSample points)

  usable_samples-IsSample :
      (min_input : F) (points : List (F × F)) → All IsSample (usable_samples min_input points)
  unfolding usable_samples
  usable_samples-IsSample min_input points =
      filter-All IsSample _ _ (converted-IsSample (filter (is_usable min_input) points))

  -- For a curve that does not fall and whose slope does not rise, where `e` nanos are forgiven in
  -- each rise, the whole shape check passes, under any name, every list of quotes whose usable
  -- samples, in any order and with any duplicates, have an output that is not below the curve and
  -- at most `4 - e` above it, also where the input is taken to be 4 lower, which is what the merge
  -- does. The floats meet the laws of `IsFloat`.
  pub enforce-Near :
      (e : ℕ) (g : ℕ → ℕ) (name : String) (points : List (F × F)) (min_input : F)
      → Monotone g
      → Concave e g
      → All (Near e g) (usable_samples min_input points)
      → enforce_submission_monotonic_concave name points min_input ≡ some tt
  unfolding enforce_submission_monotonic_concave submission_shape_violation
  enforce-Near e g name points min_input mono concave near =
      let passed =
        windows_violation-Near e g mono concave (usable_samples min_input points)
          (usable_samples-IsSample min_input points) near in
      elim (Bool-cases (name == "submission")) [ inl h ↦ rw (h, passed) refl | inr h ↦ rw h refl ]
