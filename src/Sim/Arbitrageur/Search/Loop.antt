-- ===== src/Sim/Arbitrageur/Search/Loop.antt =====
-- crates/sim/src/arbitrageur.rs: the inductions on the loops of the two searches, and the objective that
-- keeps a log of what it was asked.
use prop_amm_challenge.Prelude.{
  ℕ, zero, suc, ◌≤◌, ◌≡◌, refl, sym, subst, arith, Bool-cases, inl, inr, List, [], ◌∷◌, ◌++◌, false,
  ◌||◌,
}
use prop_amm_challenge.Float.{Float, lt, le, nought, fmin, fmax, ◌⊗◌}
use prop_amm_challenge.Sim.Arbitrageur.{min_input}
use prop_amm_challenge.Sim.SearchStats.{
  inc_arb_golden_iter, inc_arb_early_stop_amount_tol, inc_arb_bracket_eval, inc_arb_golden_call,
  inc_arb_bracket_call, SearchStats,
}
use prop_amm_challenge.Sim.Arbitrageur.Search.{
  Bracket, Golden, bracket_growth, sanitize_score, score_at, keep_better, bracket_from,
  golden_section_max, start_golden, golden_max_iters, bracket_max_steps, bracket_loop, raise_left,
  lower_right, narrow, is_tight, golden_loop,
}

module _ {F : Type 0} ⦃f : Float F⦄ {W : Type 0} (objective : F → W → F × W) where
  -- The objective with a log of the inputs and their scores.
  unfoldable pub logged : F → W × List (F × F) → F × (W × List (F × F))
  logged x (world, log) =
      let (value, world') = objective x world in
      (value, (world', log ++ (x, sanitize_score value) ∷ []))

  pub keep_better_world : (x v : F) (g : Golden F W) → (keep_better objective x v g).world ≡ g.world
  unfolding keep_better
  keep_better_world x v g = ground arith

  -- What the changes of the search keep, with the passes that are left, holds when the loop ends.
  pub golden_loop_keeps :
      (P : ℕ → Golden F W → Type 0)
      → ((n : ℕ) (g : Golden F W) → P n g → P n (record g { stats = inc_arb_golden_iter g.stats }))
      → ((n : ℕ) (g : Golden F W)
          → P n g
          → P n (record g { stats = inc_arb_early_stop_amount_tol g.stats }))
      → ((n : ℕ) (g : Golden F W) → P (suc n) g → P n (raise_left objective g))
      → ((n : ℕ) (g : Golden F W) → P (suc n) g → P n (lower_right objective g))
      → (n : ℕ) (g : Golden F W) → P n g
      → (left : ℕ) × P left (golden_loop objective n g)
  unfolding golden_loop narrow
  golden_loop_keeps P iter stop left right zero g p = (0, p)
  golden_loop_keeps P iter stop left right (suc n) g p =
      let counted = record g { stats = inc_arb_golden_iter g.stats } in
      let q = iter (suc n) g p in
      let h = narrow objective counted in
      let r = narrowed counted q in
      elim (Bool-cases (is_tight objective h)) [
        | inl e ↦ rw e (n, stop n h r)
        | inr e ↦ rw e (golden_loop_keeps P iter stop left right n h r)
      ]
    where
      narrowed : (h : Golden F W) → P (suc n) h → P n (narrow objective h)
      narrowed h q = elim (Bool-cases (lt h.f1 h.f2)) [
        | inl e ↦ rw e (left n h q)
        | inr e ↦ rw e (right n h q)
      ]

  -- One widening of the bracket.
  abbrev pub advance : F → Bracket F W → Bracket F W
  advance max_input b =
      let next_hi = fmin (b.hi ⊗ bracket_growth) max_input in
      record {
        lo = b.mid;
        mid = b.hi;
        hi = next_hi;
        mid_value = b.hi_value;
        hi_value = (score_at objective next_hi b.world).0;
        stats = inc_arb_bracket_eval b.stats;
        world = (score_at objective next_hi b.world).1;
      }

  -- What a widening above `hi` keeps holds of the counters and the state at the end.
  pub bracket_loop_keeps :
      (P : ℕ → Bracket F W → Type 0) (max_input : F)
      → ((n : ℕ) (b : Bracket F W)
          → P (suc n) b
          → le (fmin (b.hi ⊗ bracket_growth) max_input) b.hi ≡ false
          → P n (advance max_input b))
      → (n : ℕ) (b : Bracket F W) → P n b
      → let (_, stats, world) = bracket_loop objective n max_input b in
        (left : ℕ) × (c : Bracket F W) × P left c × (stats ≡ c.stats) × (world ≡ c.world)
  unfolding bracket_loop
  bracket_loop_keeps P max_input step zero b p = (0, b, p, refl, refl)
  bracket_loop_keeps P max_input step (suc n) b p =
      let next_hi = fmin (b.hi ⊗ bracket_growth) max_input in
      elim (Bool-cases (le b.hi_value b.mid_value || le max_input b.hi)) [
        | inl e ↦ rw e (suc n, b, p, refl, refl)
        | inr e ↦ elim (Bool-cases (le next_hi b.hi)) [
          | inl g ↦ rw (e, g) (suc n, b, p, refl, refl)
          | inr g ↦
              rw (e, g) (bracket_loop_keeps P max_input step n (advance max_input b) (step n b p g))
        ]
      ]

  -- What every evaluation takes from `n + 1` to `n` is, after a search, at some `n`: a search spends at
  -- least one evaluation and no more than its bound.
  module _ (R : ℕ → W → Type 0)
      (spend : (n : ℕ) (x : F) (w : W) → R (suc n) w → R n (objective x w).1) where
    keep_better-R :
        (n : ℕ) (x v : F) (g : Golden F W) → R n g.world → R n (keep_better objective x v g).world
    keep_better-R n x v g r = subst (R n) (sym (keep_better_world x v g)) r

    start_golden-R :
        (left right : F) (stats : SearchStats) (world : W)
        → R 16 world
        → R 12 (start_golden objective left right stats world).world
    unfolding score_at start_golden
    start_golden-R left right stats world r =
        let r4 = spend 12 _ _ (spend 13 _ _ (spend 14 right _ (spend 15 left world r))) in
        keep_better-R 12 _ _ _ (keep_better-R 12 _ _ _ (keep_better-R 12 _ _ _ r4))

    pub golden_section_max_spends :
        (lo hi : F) (stats : SearchStats) (world : W)
        → R 16 world
        → (n : ℕ) × (n ≤ 15) × R n (golden_section_max objective lo hi stats world).2
    unfolding golden_section_max score_at raise_left lower_right
    golden_section_max_spends lo hi stats world r =
        let left = fmax (fmin lo hi) nought in
        let right = fmax (fmax hi lo) min_input in
        let (n, (few, end)) =
          golden_loop_keeps (λ n g. (n ≤ 12) × R n g.world) (λ n g h. h) (λ n g h. h)
            (λ n g (few, h). (omega arith, keep_better-R n _ _ _ (spend n _ _ h)))
            (λ n g (few, h). (omega arith, keep_better-R n _ _ _ (spend n _ _ h))) golden_max_iters
            (start_golden objective left right (inc_arb_golden_call stats) world)
            (omega arith, start_golden-R left right _ world r) in
        elim (Bool-cases (le right left)) [
          | inl e ↦ rw e (15, omega arith, spend 15 right world r)
          | inr e ↦ rw e (n, omega arith, end)
        ]

    pub bracket_from_spends :
        (lo mid max_input : F) (stats : SearchStats) (world : W)
        → R 26 world
        → (n : ℕ) × (n ≤ 25) × R n (bracket_from objective lo mid max_input stats world).2
    unfolding bracket_from score_at
    bracket_from_spends lo mid max_input stats world r =
        let hi = fmin (mid ⊗ bracket_growth) max_input in
        let r1 = spend 25 mid world r in
        let r2 = spend 24 hi _ r1 in
        let (n, _, (few, end), _, e) =
          bracket_loop_keeps (λ n b. (n ≤ 24) × R n b.world) max_input
            (λ n b (few, h) _. (omega arith, spend n _ _ h)) bracket_max_steps
            (record {
              lo = lo;
              mid = mid;
              hi = hi;
              mid_value = (score_at objective mid world).0;
              hi_value = (score_at objective hi (score_at objective mid world).1).0;
              stats = inc_arb_bracket_eval (inc_arb_bracket_eval (inc_arb_bracket_call stats));
              world = (score_at objective hi (score_at objective mid world).1).1;
            })
            (omega arith, r2) in
        elim (Bool-cases (le (score_at objective mid world).0 nought)) [
          | inl e ↦ rw e (25, omega arith, r1)
          | inr g ↦ elim (Bool-cases (le hi mid)) [
            | inl e ↦ rw (g, e) (25, omega arith, r1)
            | inr k ↦ rw (g, k) (n, omega arith, subst (R n) (sym e) end)
          ]
        ]
