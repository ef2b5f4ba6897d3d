-- ===== src/Sim/Arbitrageur/Search/Best.antt =====
-- crates/sim/src/arbitrageur.rs: the answer of `golden_section_max` among the points it evaluated.
use prop_amm_challenge.Prelude.{
  ◌≡◌, refl, sym, ap, subst, ◌∙◌, inl, inr, List, [], ◌∷◌, ◌++◌, All, All-append, All-mono, false,
  arith, Bool-cases, IsAmong, IsAmong-snoc, IsAmong-last,
}
use prop_amm_challenge.Float.{Float, IsFloat, lt, le, nought, fmax, fmin}
use prop_amm_challenge.Sim.SearchStats.{SearchStats, inc_arb_golden_call}
use prop_amm_challenge.Sim.Arbitrageur.{min_input}
use prop_amm_challenge.Sim.Arbitrageur.Search.{
  Golden, sanitize_score, score_at, keep_better, start_golden, raise_left, lower_right,
  golden_section_max, golden_max_iters,
}
use prop_amm_challenge.Sim.Arbitrageur.Search.Loop.{logged, golden_loop_keeps, keep_better_world}

module _ {F : Type 0} ⦃f : Float F⦄ where
  -- The point is in the log with its score, which is a number, and no score there is higher.
  unfoldable pub IsBestOf : F × F → List (F × F) → Type 0
  IsBestOf best log =
      IsAmong best log × (f.is_nan best.1 ≡ false) × All (λ e. lt best.1 e.1 ≡ false) log

  -- One point was evaluated and is in the log.
  module _ (laws : IsFloat F) where
    sanitize_score_number : (v : F) → f.is_nan (sanitize_score v) ≡ false
    unfolding sanitize_score
    sanitize_score_number v = let inf = laws.neg_infinity_number in ground arith

    first-IsBestOf : (x v : F) → IsBestOf (x, sanitize_score v) ((x, sanitize_score v) ∷ [])
    unfolding IsBestOf
    first-IsBestOf x v =
        (inl refl, sanitize_score_number v, (laws.lt_irrefl (sanitize_score v), tt))

    module _ {W : Type 0} (objective : F → W → F × W) where
      keep_better-IsBestOf :
          (x v : F) (g : Golden F (W × List (F × F))) (log : List (F × F))
          → IsBestOf (g.best_x, g.best_value) log
          → let h = keep_better (logged objective) x (sanitize_score v) g in
            IsBestOf (h.best_x, h.best_value) (log ++ (x, sanitize_score v) ∷ [])
      unfolding keep_better IsBestOf
      keep_better-IsBestOf x v g log (h, number, all) =
          let s = sanitize_score v in
          elim (Bool-cases (lt g.best_value s)) [
            | inl e ↦
                let below : (p : F × F) → lt g.best_value p.1 ≡ false → lt s p.1 ≡ false = λ p k.
                  laws.not-lt_trans s g.best_value p.1 number (laws.lt_asymm g.best_value s e) k in
                rw e (
                  IsAmong-last (x, s) log,
                  sanitize_score_number v,
                  All-append _ log ((x, s) ∷ []) (All-mono _ _ below log all)
                      (laws.lt_irrefl s, tt),
                )
            | inr e ↦
                rw e
                  (IsAmong-snoc _ (x, s) log h, number, All-append _ log ((x, s) ∷ []) all (e, tt))
          ]

      HasBest : Golden F (W × List (F × F)) → Type 0
      HasBest g = IsBestOf (g.best_x, g.best_value) g.world.1

      -- A better point in a state whose log has it at the end.
      keep_better-HasBest :
          (x v : F) (g : Golden F (W × List (F × F))) (log : List (F × F))
          → IsBestOf (g.best_x, g.best_value) log
          → g.world.1 ≡ log ++ (x, sanitize_score v) ∷ []
          → HasBest (keep_better (logged objective) x (sanitize_score v) g)
      unfolding HasBest
      keep_better-HasBest x v g log h e =
          let s = sanitize_score v in
          let logs = ap (λ w. w.1) (keep_better_world (logged objective) x s g) ∙ e in
          subst (IsBestOf _) (sym logs) (keep_better-IsBestOf x v g log h)

      start_golden-HasBest :
          (left right : F) (stats : SearchStats) (world : W)
          → HasBest (start_golden (logged objective) left right stats (world, []))
      unfolding start_golden score_at logged
      start_golden-HasBest left right stats world =
          let grow = keep_better-IsBestOf in
          let world_of : (x v : F) (g : Golden F (W × List (F × F)))
              → (keep_better (logged objective) x v g).world.1 ≡ g.world.1 =
            λ x v g. ap (λ w. w.1) (keep_better_world (logged objective) x v g) in
          keep_better-HasBest _ _ _ _ (grow _ _ _ _ (grow _ _ _ _ (first-IsBestOf left _)))
            (world_of _ _ _ ∙ world_of _ _ _)

      raise_left-HasBest :
          (g : Golden F (W × List (F × F))) → HasBest g → HasBest (raise_left (logged objective) g)
      unfolding raise_left score_at logged HasBest
      raise_left-HasBest g h = keep_better-HasBest _ _ _ g.world.1 h refl

      lower_right-HasBest :
          (g : Golden F (W × List (F × F))) → HasBest g → HasBest (lower_right (logged objective) g)
      unfolding lower_right score_at logged HasBest
      lower_right-HasBest g h = keep_better-HasBest _ _ _ g.world.1 h refl

      -- Under the order laws of IEEE numbers, for every objective, stateful or not, and every
      -- bracket, the answer of the arbitrageur's golden-section search is one of the points that it
      -- evaluated, with its score; the score is a number, and no point that was evaluated has a
      -- higher one.
      pub golden_section_max-IsBestOf :
          (lo hi : F) (stats : SearchStats) (world : W)
          → let (found, _, (_, log)) =
              golden_section_max (logged objective) lo hi stats (world, []) in
            IsBestOf found log
      unfolding golden_section_max HasBest score_at logged
      golden_section_max-IsBestOf lo hi stats world =
          let left = fmax (fmin lo hi) nought in
          let right = fmax (fmax hi lo) min_input in
          let ask = logged objective in
          let called = inc_arb_golden_call stats in
          let (n, best) =
            golden_loop_keeps ask (λ n g. HasBest g) (λ n g h. h) (λ n g h. h)
              (λ n. raise_left-HasBest) (λ n. lower_right-HasBest) golden_max_iters _
              (start_golden-HasBest left right called world) in
          elim (Bool-cases (le right left)) [
            | inl e ↦ rw e (first-IsBestOf right (objective right world).0)
            | inr e ↦ rw e best
          ]
