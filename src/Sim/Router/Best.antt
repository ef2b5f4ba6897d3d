-- ===== src/Sim/Router/Best.antt =====
-- crates/sim/src/router.rs: the answer of `maximize_split` among the points it sampled.
use prop_amm_challenge.Prelude.{
  ◌≡◌, inl, inr, List, [], ◌∷◌, ◌++◌, All, All-append, All-mono, false, arith, Bool-cases, refl,
  IsAmong, IsAmong-snoc, IsAmong-last,
}
use prop_amm_challenge.Float.{Float, IsFloat, lt}
use prop_amm_challenge.Sim.SearchStats.{SearchStats}
use prop_amm_challenge.Sim.Router.Loop.{golden_loop_keeps}
use prop_amm_challenge.Sim.Router.{
  QuotePoint, Search, quote_score, best_quote, start_search, raise_left, lower_right,
  golden_max_iters, finish_search, maximize_split,
}

module _ {F : Type 0} ⦃f : Float F⦄ where
  -- No point has a score above this one's.
  unfoldable pub IsBest : QuotePoint F → List (QuotePoint F) → Type 0
  IsBest b ps = IsAmong b ps × All (λ p. lt (quote_score b) (quote_score p) ≡ false) ps

  module _ (laws : IsFloat F) where
    score_number : (p : QuotePoint F) → f.is_nan (quote_score p) ≡ false
    unfolding quote_score
    score_number p = let inf = laws.neg_infinity_number in ground arith

    best_quote-IsBest :
        (b q : QuotePoint F) (ps : List (QuotePoint F))
        → IsBest b ps
        → IsBest (best_quote b q) (ps ++ q ∷ [])
    unfolding best_quote IsBest
    best_quote-IsBest b q ps (h, all) = elim (Bool-cases (lt (quote_score b) (quote_score q))) [
      | inl e ↦
          let below : (p : QuotePoint F)
              → lt (quote_score b) (quote_score p) ≡ false
              → lt (quote_score q) (quote_score p) ≡ false =
            λ p g.
              laws.not-lt_trans (quote_score q) (quote_score b) (quote_score p) (score_number b)
                (laws.lt_asymm (quote_score b) (quote_score q) e) g in
          rw e (
            IsAmong-last q ps,
            All-append _ ps (q ∷ []) (All-mono _ _ below ps all)
                (laws.lt_irrefl (quote_score q), tt),
          )
      | inr e ↦ rw e (IsAmong-snoc b q ps h, All-append _ ps (q ∷ []) all (e, tt))
    ]

    first-IsBest : (a : QuotePoint F) → IsBest a (a ∷ [])
    unfolding IsBest
    first-IsBest a = (inl refl, (laws.lt_irrefl (quote_score a), tt))

    module _ {W : Type 0} (total_input : F) (evaluate : F → W → QuotePoint F × W) where
      HasBest : Search F W → Type 0
      HasBest s = IsBest s.best s.sampled

      start_search-HasBest :
          (stats : SearchStats) (world : W)
          → HasBest (start_search total_input evaluate stats world)
      unfolding HasBest start_search
      start_search-HasBest stats world =
          let grow = best_quote-IsBest in grow _ _ _ (grow _ _ _ (grow _ _ _ (first-IsBest _)))

      -- Under the order laws of IEEE numbers, for every evaluation function and every total, the
      -- point that the split search answers with is one of the points it sampled, and no sampled
      -- point has a higher score.
      pub maximize_split-IsBest :
          (stats : SearchStats) (world : W)
          → let (found, _, _) = maximize_split total_input evaluate stats world in
            IsBest found.best found.sampled
      unfolding maximize_split finish_search HasBest raise_left lower_right
      maximize_split-IsBest stats world =
          let (_, end) =
            golden_loop_keeps total_input evaluate (λ _. HasBest) (λ _ s h. h) (λ _ s h. h)
              (λ _ s h. best_quote-IsBest s.best _ s.sampled h)
              (λ _ s h. best_quote-IsBest s.best _ s.sampled h) golden_max_iters
              (start_search total_input evaluate stats world) (start_search-HasBest stats world) in
          best_quote-IsBest _ _ _ end
