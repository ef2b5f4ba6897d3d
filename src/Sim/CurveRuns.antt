-- ===== src/Sim/CurveRuns.antt =====
-- The shape check of crates/sim/src/curve_checks.rs on samples of two curves.
use native.Mathlib.Nat.{mul-le-mul}
use prop_amm_challenge.Prelude.{
  ℕ, ◌+◌, ◌-◌, ◌*◌, ◌≤◌, ◌≡◌, ◌≢◌, List, [], ◌∷◌, All, arith, Bool-cases, inl, inr, leb, min, some,
  none,
}
use prop_amm_challenge.Float.Fixed.{Fixed, fixed, fixed_float, Fixed-IsFloat}
use prop_amm_challenge.Shared.Nano.{f64_to_nano}
use prop_amm_challenge.Sim.CurveChecks.{
  filter, is_usable, clean, sort_by_input, usable_samples, windows_violation,
  enforce_submission_monotonic_concave,
}
use prop_amm_challenge.Sim.CurveChecks.Concave.{Near, Concave, enforce-Near}
use prop_amm_challenge.Sim.CurveChecks.Merged.{line, line_is_refused}

-- A pool that pays one for one up to five.
abbrev capped : ℕ → ℕ
capped n = min n 5_000_000_000

capped-Concave : Concave 0 capped
capped-Concave a b c d h k l = elim (Bool-cases (leb 5_000_000_000 c)) [
  | inl e ↦ let none_left : capped d - capped c ≡ 0 = ground arith in rw none_left (omega arith)
  | inr e ↦
      let low : b - a ≤ capped b - capped a + 0 = ground arith in
      let high : capped d - capped c - 0 ≤ d - c = ground arith in
      let both : (capped d - capped c - 0) * (b - a) ≤ (d - c) * (capped b - capped a + 0) =
        mul-le-mul high low in
      omega (arith, both)
]

abbrev samples : List (Fixed × Fixed)
samples = (fixed 6, fixed 5) ∷ (fixed 2, fixed 2) ∷ (fixed 4, fixed 4) ∷ (fixed 2, fixed 2) ∷ []

samples-Near : All (Near 0 capped) (usable_samples (fixed 1) samples)
unfolding usable_samples filter is_usable f64_to_nano
samples-Near = omega arith

enforce-Near_example : enforce_submission_monotonic_concave "submission" samples (fixed 1) ≡ some tt
enforce-Near_example =
    enforce-Near Fixed-IsFloat 0 capped "submission" samples (fixed 1) (λ i j h. omega arith)
      capped-Concave samples-Near

line_is_refused_example :
    windows_violation (clean (sort_by_input (line 3 1_000_000_000 1_000_000_000))) ≢ none
line_is_refused_example =
    line_is_refused 3 1_000_000_000 1_000_000_000 (omega arith) (omega arith) (omega arith)
      (omega arith)
