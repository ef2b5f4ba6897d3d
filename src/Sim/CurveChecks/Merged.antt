-- ===== src/Sim/CurveChecks/Merged.antt =====
-- crates/sim/src/curve_checks.rs: what the merge of close samples does to a straight line.
use native.Mathlib.Nat.{le_of_mul-le-mul_right, mul-le-mul_left}
use prop_amm_challenge.Prelude.{
  ℕ, ◌+◌, ◌-◌, ◌*◌, ◌≤◌, ◌<◌, ◌≡◌, ◌≢◌, refl, List, [], ◌∷◌, arith, none, All,
}
use prop_amm_challenge.Words.{IsU64, saturating_add64}
use prop_amm_challenge.Sim.CurveChecks.{
  Sample, insert, absorb, merge_after, clean, sort_by_input, windows_violation,
}
use prop_amm_challenge.Sim.CurveChecks.Cleaning.{SpacedFrom}
use prop_amm_challenge.Sim.CurveChecks.Verdicts.{
  Chain, Adjacent, Flattens, IsSample, wide_segments, segments, windows_violation_iff,
}

absorb_far : (i o j q : ℕ) → 4 < j - i → absorb (i, o) (j, q) ≡ ((i, o) ∷ [], (j, q))
unfolding absorb
absorb_far i o j q h = ground arith

absorb_close : (i o j q : ℕ) → j - i ≤ 4 → o < q → absorb (i, o) (j, q) ≡ ([], (i, q))
unfolding absorb
absorb_close i o j q h k = ground arith

-- Four samples of a straight line: three in equal steps, and one 4 behind the last.
module _ (k a w : ℕ) where
  abbrev pub line : List Sample
  line =
      (a, k * a)
      ∷ (a + w, k * (a + w))
      ∷ (a + w + w, k * (a + w + w))
      ∷ (a + w + w + 4, k * (a + w + w + 4))
      ∷ []

  abbrev merged : List Sample
  merged = (a, k * a) ∷ (a + w, k * (a + w)) ∷ (a + w + w, k * (a + w + w + 4)) ∷ []

  sorted : 1 ≤ w → sort_by_input line ≡ line
  unfolding sort_by_input insert
  sorted h = ground arith

  line-merged : 5 ≤ w → 1 ≤ k → clean line ≡ merged
  unfolding clean merge_after
  line-merged h u =
      let higher : k * (a + w + w) < k * (a + w + w + 4) = grind arith in
      rw
        (
          absorb_far a (k * a) (a + w) (k * (a + w)) (omega arith),
          absorb_far (a + w) (k * (a + w)) (a + w + w) (k * (a + w + w)) (omega arith),
          absorb_close (a + w + w) (k * (a + w + w)) (a + w + w + 4) (k * (a + w + w + 4))
              (omega arith) higher,
        )
        refl

  wide_steps :
      1000000 ≤ w
      → segments merged
        ≡ (k * (a + w) - k * a, a + w - a)
          ∷ (k * (a + w + w + 4) - k * (a + w), a + w + w - (a + w))
          ∷ []
  unfolding segments wide_segments
  wide_steps h = ground arith

  -- The second step rises too much.
  steps-ne-Flattens :
      3 ≤ k
      → 0 < w
      → ¬ Flattens
          (k * (a + w) - k * a, a + w - a)
          (k * (a + w + w + 4) - k * (a + w), a + w + w - (a + w))
  unfolding Flattens
  steps-ne-Flattens steep wide f =
      let one : k * (a + w) ≡ k * a + k * w = grind arith in
      let three : k * (a + w + w + 4) ≡ k * a + k * w + k * w + k * 4 = grind arith in
      let across : a + w - a ≡ w = omega arith in
      let across' : a + w + w - (a + w) ≡ w = omega arith in
      let scaled : (k * (a + w + w + 4) - k * (a + w) - 4) * w
          ≤ saturating_add64 (k * (a + w) - k * a) 4 * w =
        rw (across, across') at f in
      let within = le_of_mul-le-mul_right scaled wide in omega arith

  spaced : 5 ≤ w → SpacedFrom 0 merged
  unfolding SpacedFrom
  spaced h = omega arith

  small_line : 3 ≤ k → IsU64 (a + w + w + 4) → IsU64 (k * (a + w + w + 4)) → All IsSample merged
  small_line steep small small' =
      let one : k * (a + w) ≤ k * (a + w + w + 4) = mul-le-mul_left k (omega arith) in
      let zero_th : k * a ≤ k * (a + w + w + 4) = mul-le-mul_left k (omega arith) in omega arith

  -- For a slope k of at least 3, three samples of the straight line k * x in equal steps of at
  -- least 1000000 and a fourth sample of the line 4 behind the third are refused, where inputs and
  -- outputs are of 64 bits: the merge gives the third input the output of the fourth.
  pub line_is_refused :
      3 ≤ k
      → 1000000 ≤ w
      → IsU64 (a + w + w + 4)
      → IsU64 (k * (a + w + w + 4))
      → windows_violation (clean (sort_by_input line)) ≢ none
  unfolding segments wide_segments Adjacent Chain Flattens SpacedFrom
  line_is_refused steep wide small small' e =
      let sized = small_line steep small small' in
      let found : windows_violation merged ≡ none =
        rw (sorted (omega arith), line-merged (omega arith) (omega arith)) at e in
      let (_, flat) = (windows_violation_iff merged (spaced (omega arith)) sized).0 found in
      steps-ne-Flattens steep (omega arith) (rw (wide_steps wide) at flat).0
