-- ===== src/Sim/Arbitrageur/Search.antt =====
-- crates/sim/src/arbitrageur.rs: `bracket_maximum` and `golden_section_max`, generic in the objective that
-- they evaluate. `W` is the state behind the closure.
pub mod Loop
pub mod Best
use prop_amm_challenge.Prelude.{ℕ, zero, suc, Bool, ◌||◌, Option, some, if◌then◌else◌, ◌>>=◌}
use prop_amm_challenge.Float.{Float, ◌⊕◌, ◌⊖◌, ◌⊗◌, lt, le, nought, is_finite, fmax, fmin, clamp}
use prop_amm_challenge.Sim.SearchStats.{
  SearchStats, inc_arb_bracket_call, inc_arb_bracket_eval, inc_arb_golden_call, inc_arb_golden_eval,
  inc_arb_golden_iter, inc_arb_early_stop_amount_tol,
}
use prop_amm_challenge.Sim.Arbitrageur.{min_input}

-- The locals of `bracket_maximum`, with the counters and the state behind the objective.
pub record Bracket (F W : Type 0) : Type 0 where
  pub lo : F
  pub mid : F
  pub hi : F
  pub mid_value : F
  pub hi_value : F
  pub stats : SearchStats
  pub world : W

-- The locals of `golden_section_max`.
pub record Golden (F W : Type 0) : Type 0 where
  pub left : F
  pub right : F
  pub best_x : F
  pub best_value : F
  pub x1 : F
  pub x2 : F
  pub f1 : F
  pub f2 : F
  pub stats : SearchStats
  pub world : W

abbrev pub bracket_max_steps : ℕ
bracket_max_steps = 24

abbrev pub golden_max_iters : ℕ
golden_max_iters = 12

module _ {F : Type 0} ⦃f : Float F⦄ where
  abbrev pub bracket_growth : F
  bracket_growth = f.literal 2 0

  abbrev pub golden_ratio_conjugate : F
  golden_ratio_conjugate = f.literal 6180339887498948 16

  abbrev pub golden_input_rel_tol : F
  golden_input_rel_tol = f.literal 1 2

  unfoldable pub sanitize_score : F → F
  sanitize_score value = if is_finite value then value else f.neg_infinity

  module _ {W : Type 0} (objective : F → W → F × W) where
    -- `Self::sanitize_score(objective(x))`
    unfoldable pub score_at : F → W → F × W
    score_at x world = let (value, world') = objective x world in (sanitize_score value, world')

    unfoldable pub bracket_loop : ℕ → F → Bracket F W → (F × F) × SearchStats × W
    bracket_loop zero max_input b = ((b.lo, b.hi), b.stats, b.world)
    bracket_loop (suc n) max_input b =
        let next_hi = fmin (b.hi ⊗ bracket_growth) max_input in
        let (value, world) = score_at next_hi b.world in
        let rest = bracket_loop n max_input (record {
          lo = b.mid;
          mid = b.hi;
          hi = next_hi;
          mid_value = b.hi_value;
          hi_value = value;
          stats = inc_arb_bracket_eval b.stats;
          world = world;
        }) in
        if le b.hi_value b.mid_value || le max_input b.hi
        then ((b.lo, b.hi), b.stats, b.world)
        else (if le next_hi b.hi then ((b.mid, b.hi), b.stats, b.world) else rest)

    -- From the clamped start on.
    unfoldable pub bracket_from : F → F → F → SearchStats → W → (F × F) × SearchStats × W
    bracket_from lo mid max_input stats world =
        let stats1 = inc_arb_bracket_eval (inc_arb_bracket_call stats) in
        let (mid_value, world1) = score_at mid world in
        let hi = fmin (mid ⊗ bracket_growth) max_input in
        let stats2 = inc_arb_bracket_eval stats1 in
        let (hi_value, world2) = score_at hi world1 in
        let searched = bracket_loop bracket_max_steps max_input (record {
          lo = lo;
          mid = mid;
          hi = hi;
          mid_value = mid_value;
          hi_value = hi_value;
          stats = stats2;
          world = world2;
        }) in
        if le mid_value nought
        then ((lo, mid), stats1, world1)
        else (if le hi mid then ((lo, mid), stats1, world1) else searched)

    -- `none` is the panic of `clamp`.
    unfoldable pub bracket_maximum :
        F → F → F → SearchStats → W → Option ((F × F) × SearchStats × W)
    bracket_maximum start min_in max_in stats world =
        let min_input' = fmax min_in min_input in
        let max_input = fmax max_in min_input' in
        clamp start min_input' max_input >>= λ mid.
        some (bracket_from min_input' mid max_input stats world)

    -- A point that is better than the best one so far takes its place.
    unfoldable pub keep_better : F → F → Golden F W → Golden F W
    keep_better x value g =
        if lt g.best_value value then record g { best_x = x; best_value = value } else g

    abbrev pub upper : F → F → F
    upper left right = left ⊕ golden_ratio_conjugate ⊗ (right ⊖ left)

    abbrev pub lower : F → F → F
    lower left right = right ⊖ golden_ratio_conjugate ⊗ (right ⊖ left)

    unfoldable pub start_golden : F → F → SearchStats → W → Golden F W
    start_golden left right stats world =
        let (left_value, world1) = score_at left world in
        let (right_value, world2) = score_at right world1 in
        let x1 = lower left right in
        let x2 = upper left right in
        let (f1, world3) = score_at x1 world2 in
        let (f2, world4) = score_at x2 world3 in
        let counted =
          inc_arb_golden_eval
            (inc_arb_golden_eval (inc_arb_golden_eval (inc_arb_golden_eval stats))) in
        keep_better x2 f2 (
          keep_better x1 f1 (
            keep_better right right_value (record {
              left = left;
              right = right;
              best_x = left;
              best_value = left_value;
              x1 = x1;
              x2 = x2;
              f1 = f1;
              f2 = f2;
              stats = counted;
              world = world4;
            })))

    unfoldable pub raise_left : Golden F W → Golden F W
    raise_left g =
        let left = g.x1 in
        let x2 = upper left g.right in
        let (f2, world) = score_at x2 g.world in
        keep_better x2 f2 (record g {
          left = left;
          x1 = g.x2;
          f1 = g.f2;
          x2 = x2;
          f2 = f2;
          stats = inc_arb_golden_eval g.stats;
          world = world;
        })

    unfoldable pub lower_right : Golden F W → Golden F W
    lower_right g =
        let right = g.x2 in
        let x1 = lower g.left right in
        let (f1, world) = score_at x1 g.world in
        keep_better x1 f1 (record g {
          right = right;
          x2 = g.x1;
          f2 = g.f1;
          x1 = x1;
          f1 = f1;
          stats = inc_arb_golden_eval g.stats;
          world = world;
        })

    unfoldable pub narrow : Golden F W → Golden F W
    narrow g = if lt g.f1 g.f2 then raise_left g else lower_right g

    unfoldable pub is_tight : Golden F W → Bool
    is_tight g =
        let mid = f.literal 5 1 ⊗ (g.left ⊕ g.right) in
        let denom = fmax (f.abs mid) min_input in
        le (g.right ⊖ g.left) (golden_input_rel_tol ⊗ denom)

    unfoldable pub golden_loop : ℕ → Golden F W → Golden F W
    golden_loop zero g = g
    golden_loop (suc n) g =
        let narrowed = narrow (record g { stats = inc_arb_golden_iter g.stats }) in
        let rest = golden_loop n narrowed in
        if is_tight narrowed
        then record narrowed { stats = inc_arb_early_stop_amount_tol narrowed.stats }
        else rest

    unfoldable pub golden_section_max : F → F → SearchStats → W → (F × F) × SearchStats × W
    golden_section_max lo hi stats world =
        let called = inc_arb_golden_call stats in
        let left = fmax (fmin lo hi) nought in
        let right = fmax (fmax hi lo) min_input in
        let (value, world') = score_at right world in
        let g = golden_loop golden_max_iters (start_golden left right called world) in
        if le right left
        then ((right, value), inc_arb_golden_eval called, world')
        else ((g.best_x, g.best_value), g.stats, g.world)
