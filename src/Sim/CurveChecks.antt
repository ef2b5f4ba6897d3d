-- ===== src/Sim/CurveChecks.antt =====
-- crates/sim/src/curve_checks.rs: the shape that the sampled quotes of the submission must have.
pub mod Cleaning
pub mod Verdicts
pub mod Concave
pub mod Merged
use Prim.Native.String.{String}
use text.Mathlib.Text.{◌==◌}
use prop_amm_challenge.Prelude.{
  ℕ, ◌+◌, ◌-◌, ◌*◌, ◌%◌, Bool, ◌&&◌, List, [], ◌∷◌, ◌++◌, map, Option, none, some, ltb, leb,
  if◌then◌else◌, false,
}
use prop_amm_challenge.Words.{u64_mod, saturating_add64}
use prop_amm_challenge.Float.{Float, lt, le, nought, is_finite}
use prop_amm_challenge.Shared.Nano.{f64_to_nano}

abbrev pub quote_delta_uncertainty_nano : ℕ
quote_delta_uncertainty_nano = 4

abbrev pub input_merge_eps_nano : ℕ
input_merge_eps_nano = 4

abbrev pub min_concavity_dx_nano : ℕ
min_concavity_dx_nano = 1_000_000

-- An input and its output, in nanos.
abbrev pub Sample : Type 0
Sample = ℕ × ℕ

-- What the message of a violation is written from: the two samples, and the two segments as
-- `(dy, dx)`.
pub data Violation : Type 0 where
  monotonicity : Sample → Sample → Violation
  concavity : ℕ × ℕ → ℕ × ℕ → Sample → Sample → Violation

unfoldable pub filter {ℓ} : {A : Type ℓ} → (A → Bool) → List A → List A
filter p [] = []
filter p (x ∷ xs) = let rest = filter p xs in if p x then x ∷ rest else rest

-- `sort_by_key`, which is stable: an element goes before the first one whose key is not smaller.
unfoldable pub insert : Sample → List Sample → List Sample
insert a [] = a ∷ []
insert a (b ∷ bs) = let rest = insert a bs in if leb a.0 b.0 then a ∷ b ∷ bs else b ∷ rest

unfoldable pub sort_by_input : List Sample → List Sample
sort_by_input [] = []
sort_by_input (a ∷ xs) = insert a (sort_by_input xs)

-- A sample after the last one that was kept: it is merged into that one, or that one is final. The
-- result is what has become final and the new last one.
unfoldable pub absorb : Sample → Sample → List Sample × Sample
absorb (prev_input, prev_output) (input, output) =
    if leb (input - prev_input) input_merge_eps_nano
    then ([], (prev_input, if ltb prev_output output then output else prev_output))
    else ((prev_input, prev_output) ∷ [], (input, output))

unfoldable pub merge_after : Sample → List Sample → List Sample
merge_after prev [] = prev ∷ []
merge_after prev (p ∷ ps) = let (final, last) = absorb prev p in final ++ merge_after last ps

unfoldable pub clean : List Sample → List Sample
clean [] = []
clean (p ∷ ps) = merge_after p ps

-- The first loop over the windows, from the window that starts with the given sample.
unfoldable pub falls : Sample → Sample → Bool
falls (in_a, out_a) (in_b, out_b) =
    ltb in_a in_b && ltb (saturating_add64 out_b quote_delta_uncertainty_nano) out_a

unfoldable pub monotonicity_from : Sample → List Sample → Option Violation
monotonicity_from a [] = none
monotonicity_from a (b ∷ ps) =
    let rest = monotonicity_from b ps in if falls a b then some (monotonicity a b) else rest

-- One pass of the second loop: a violation, and the segment to compare the next one with.
unfoldable pub steeper : ℕ × ℕ → ℕ × ℕ → Bool
steeper (prev_dy, prev_dx) (dy, dx) =
    let prev_upper = saturating_add64 prev_dy quote_delta_uncertainty_nano in
    let curr_lower = dy - quote_delta_uncertainty_nano in
    ltb (prev_upper * dx) (curr_lower * prev_dx)

unfoldable pub rises : Option (ℕ × ℕ) → ℕ × ℕ → Bool
rises none segment = false
rises (some prev) segment = steeper prev segment

unfoldable pub segment_of : Sample → Sample → ℕ × ℕ
segment_of (in_a, out_a) (in_b, out_b) = (out_b - out_a, (in_b + u64_mod - in_a) % u64_mod)

unfoldable pub concavity_from : Option (ℕ × ℕ) → Sample → List Sample → Option Violation
concavity_from prev_segment a [] = none
concavity_from prev_segment a (b ∷ ps) =
    let (dy, dx) = segment_of a b in
    let skip = ltb dx min_concavity_dx_nano in
    let rest = concavity_from (if skip then prev_segment else some (dy, dx)) b ps in
    if skip
    then rest
    else (if rises prev_segment (dy, dx)
        then some (concavity (previous prev_segment) (dy, dx) a b)
        else rest)
  where
    previous : Option (ℕ × ℕ) → ℕ × ℕ
    previous none = (0, 0)
    previous (some s) = s

-- The two loops, in their order.
unfoldable pub monotonicity_check : List Sample → Option Violation
monotonicity_check [] = none
monotonicity_check (a ∷ ps) = monotonicity_from a ps

unfoldable pub concavity_check : List Sample → Option Violation
concavity_check [] = none
concavity_check (a ∷ ps) = concavity_from none a ps

unfoldable pub windows_violation : List Sample → Option Violation
windows_violation cleaned =
    let concave = concavity_check cleaned in
    elim (monotonicity_check cleaned) [ some v ↦ some v | none ↦ concave ]

module _ {F : Type 0} ⦃f : Float F⦄ where
  unfoldable pub is_usable : F → F × F → Bool
  is_usable min_input (input, output) =
      is_finite input && (is_finite output && (lt min_input input && le nought output))

  unfoldable pub usable_samples : F → List (F × F) → List Sample
  usable_samples min_input points =
      let converted =
        map (λ (input, output). (f64_to_nano input, f64_to_nano output))
          (filter (is_usable min_input) points) in
      filter (λ s. ltb (f64_to_nano min_input) s.0) converted

  unfoldable pub submission_shape_violation : List (F × F) → F → Option Violation
  submission_shape_violation points min_input =
      windows_violation (clean (sort_by_input (usable_samples min_input points)))

  -- `none` is the panic.
  unfoldable pub enforce_submission_monotonic_concave :
      String → List (F × F) → F → Option (Unit {0})
  enforce_submission_monotonic_concave amm_name points min_input =
      if amm_name == "submission"
      then (elim (submission_shape_violation points min_input) [ some v ↦ none | none ↦ some tt ])
      else some tt
