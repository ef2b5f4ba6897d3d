-- ===== src/Sim/CurveChecks/Verdicts.antt =====
-- crates/sim/src/curve_checks.rs: what the two loops over the windows report.
use prop_amm_challenge.Prelude.{
  ℕ, ◌%◌, ◌+◌, ◌-◌, ◌*◌, ◌≤◌, ◌<◌, ◌≡◌, ◌↔◌, List, [], ◌∷◌, All, arith, Bool-cases, inl, inr, ltb,
  some, none, Option, if◌then◌else◌, refl, ap, sym,
}
use prop_amm_challenge.Words.{IsU64, u64_mod, saturating_add64}
use prop_amm_challenge.Sim.CurveChecks.{
  Sample, Violation, falls, monotonicity_from, monotonicity_check, concavity_from, concavity_check,
  steeper, rises, segment_of, windows_violation, clean, sort_by_input, min_concavity_dx_nano,
}
use prop_amm_challenge.Sim.CurveChecks.Cleaning.{
  SpacedFrom, ClimbsFrom, OnCurve, Monotone, clean-ClimbsFrom,
}

-- Adjacent elements are related.
unfoldable pub Chain : {A : Type 0} → (A → A → Type 0) → A → List A → Type 0
Chain R a [] = Unit
Chain R a (b ∷ bs) = R a b × Chain R b bs

-- The output falls by 4 nanos at most.
unfoldable pub RisesWithin : Sample → Sample → Type 0
RisesWithin a b = a.1 ≤ b.1 + 4

abbrev pub IsSample : Sample → Type 0
IsSample s = IsU64 s.0 × IsU64 s.1

-- The first loop reports nothing exactly when no output falls by more than 4 nanos.
monotonicity_from_iff :
    (a : Sample) (ps : List Sample)
    → SpacedFrom (a.0 + 5) ps
    → All IsSample (a ∷ ps)
    → (monotonicity_from a ps ≡ none) ↔ Chain RisesWithin a ps
unfolding monotonicity_from falls Chain RisesWithin SpacedFrom
monotonicity_from_iff a [] s u = (λ _. tt, λ _. refl)
monotonicity_from_iff (i, o) ((j, q) ∷ ps) (s, ss) (u, us) =
    let (to, from) = monotonicity_from_iff (j, q) ps ss us in
    let (v, _) = us in
    (λ e. (ground arith, to (ground arith)), λ (r, c). let e = from c in ground arith)

-- The segments of at least the minimal width, which the second loop compares, in their order.
unfoldable pub wide_segments : Sample → List Sample → List (ℕ × ℕ)
wide_segments a [] = []
wide_segments a (b ∷ ps) =
    let rest = wide_segments b ps in
    if ltb (b.0 - a.0) min_concavity_dx_nano then rest else (b.1 - a.1, b.0 - a.0) ∷ rest

-- The slope does not rise, up to 4 nanos in either difference of the outputs.
unfoldable pub Flattens : ℕ × ℕ → ℕ × ℕ → Type 0
Flattens (dy, dx) (dy', dx') = (dy' - 4) * dx ≤ saturating_add64 dy 4 * dx'

ChainFrom : Option (ℕ × ℕ) → List (ℕ × ℕ) → Type 0
ChainFrom none [] = Unit
ChainFrom none (s ∷ ss) = Chain Flattens s ss
ChainFrom (some s) ss = Chain Flattens s ss

segment_lem : (a b : Sample) → IsSample b → a.0 < b.0 → segment_of a b ≡ (b.1 - a.1, b.0 - a.0)
unfolding segment_of
segment_lem (i, o) (j, q) u h =
    let e : (j + u64_mod - i) % u64_mod ≡ j - i = omega arith in ap (λ d. (q - o, d)) e

compared :
    (prev : Option (ℕ × ℕ)) (s : ℕ × ℕ) (ss : List (ℕ × ℕ)) (rest : Option Violation)
    (v : Violation)
    → (rest ≡ none) ↔ Chain Flattens s ss
    → ((if rises prev s then some v else rest) ≡ none) ↔ ChainFrom prev (s ∷ ss)
unfolding rises steeper Chain ChainFrom Flattens
compared none s ss rest v (to, from) = (to, from)
compared (some (py, px)) (dy, dx) ss rest v (to, from) =
    (λ e. (ground arith, to (ground arith)), λ (r, c). let e = from c in ground arith)

-- A run of the second loop, from a segment that was kept before.
concavity_from_iff :
    (prev : Option (ℕ × ℕ)) (a : Sample) (ps : List Sample)
    → SpacedFrom (a.0 + 5) ps
    → All IsSample ps
    → (concavity_from prev a ps ≡ none) ↔ ChainFrom prev (wide_segments a ps)
unfolding concavity_from rises steeper Chain ChainFrom Flattens SpacedFrom wide_segments
concavity_from_iff none a [] s u = (λ _. tt, λ _. refl)
concavity_from_iff (some p) a [] s u = (λ _. tt, λ _. refl)
concavity_from_iff prev (i, o) ((j, q) ∷ ps) (s, ss) (u, us) =
    let here = segment_lem (i, o) (j, q) u (omega arith) in
    rw here (elim (Bool-cases (ltb (j - i) min_concavity_dx_nano)) [
      | inl e ↦ rw e (concavity_from_iff prev (j, q) ps ss us)
      | inr e ↦
          let (to, from) = concavity_from_iff (some (q - o, j - i)) (j, q) ps ss us in
          rw e (compared prev (q - o, j - i) (wide_segments (j, q) ps) _ _ (to, from))
    ])

-- A relation between the adjacent elements of a list.
unfoldable pub Adjacent : {A : Type 0} → (A → A → Type 0) → List A → Type 0
Adjacent R [] = Unit
Adjacent R (a ∷ bs) = Chain R a bs

-- The wide segments of all the samples.
unfoldable pub segments : List Sample → List (ℕ × ℕ)
segments [] = []
segments (a ∷ ps) = wide_segments a ps

ChainFrom-none : (ss : List (ℕ × ℕ)) → ChainFrom none ss ≡ Adjacent Flattens ss
unfolding ChainFrom Adjacent
ChainFrom-none [] = refl
ChainFrom-none (s ∷ ss) = refl

-- For samples of 64-bit inputs and outputs whose inputs are each more than 4 above the one before,
-- the shape check reports nothing exactly when no output falls by more than 4 from a sample to the
-- next and, over the segments at least 1000000 wide in their order, (dy' - 4) * dx stays at or
-- below (dy + 4) * dx', where dy + 4 saturates at 64 bits.
pub windows_violation_iff :
    (xs : List Sample)
    → SpacedFrom 0 xs
    → All IsSample xs
    → (windows_violation xs ≡ none) ↔ (Adjacent RisesWithin xs × Adjacent Flattens (segments xs))
unfolding windows_violation monotonicity_check concavity_check Adjacent segments SpacedFrom
windows_violation_iff [] s u = (λ _. (tt, tt), λ _. refl)
windows_violation_iff (a ∷ ps) (_, s) (u, us) =
    let (to, from) = monotonicity_from_iff a ps s (u, us) in
    let (to', from') = concavity_from_iff none a ps s us in
    let e = ChainFrom-none (wide_segments a ps) in
    (λ h. (to (no_fall h), rw (sym e) (to' (no_rise h))), λ (r, c). both (from r) (from' (rw e c)))
  where
    no_fall : windows_violation (a ∷ ps) ≡ none → monotonicity_from a ps ≡ none
    no_fall h = ground arith

    no_rise : windows_violation (a ∷ ps) ≡ none → concavity_from none a ps ≡ none
    no_rise h = ground arith

    both :
        monotonicity_from a ps ≡ none
        → concavity_from none a ps ≡ none
        → windows_violation (a ∷ ps) ≡ none
    both h k = ground arith

climbing_passes :
    (a : Sample) (ps : List Sample) → IsU64 a.1 → ClimbsFrom a.1 ps → monotonicity_from a ps ≡ none
unfolding monotonicity_from falls ClimbsFrom
climbing_passes a [] u c = refl
climbing_passes a (b ∷ ps) u ((h, v), c) = let rest = climbing_passes b ps v c in ground arith

-- The samples of a curve that does not fall and whose values fit 64 bits, in any order and with any
-- duplicates, never make the shape check report a monotonicity violation after sorting and merging.
pub monotonicity_check-Monotone :
    (f : ℕ → ℕ) (xs : List Sample)
    → Monotone f
    → ((i : ℕ) → IsU64 (f i))
    → All (OnCurve f) xs
    → monotonicity_check (clean (sort_by_input xs)) ≡ none
unfolding monotonicity_check ClimbsFrom
monotonicity_check-Monotone f xs mono small on =
    let climbs = clean-ClimbsFrom f xs mono small on in passes (clean (sort_by_input xs)) climbs
  where
    passes : (ys : List Sample) → ClimbsFrom 0 ys → monotonicity_check ys ≡ none
    passes [] c = refl
    passes (a ∷ ps) ((h, u), c) = climbing_passes a ps u c
