-- ===== src/Sim/Router/Loop.antt =====
-- crates/sim/src/router.rs: the induction on the loop of `maximize_split`.
use prop_amm_challenge.Prelude.{ℕ, zero, suc, Bool-cases, inl, inr}
use prop_amm_challenge.Float.{Float, lt}
use prop_amm_challenge.Sim.SearchStats.{inc_router_iter, inc_router_early_stop_rel_gap}
use prop_amm_challenge.Sim.Router.{
  QuotePoint, Search, quote_score, narrow, raise_left, lower_right, is_narrow, is_flat, golden_loop,
}

module _ {F : Type 0} ⦃f : Float F⦄ {W : Type 0} (total_input : F)
    (evaluate : F → W → QuotePoint F × W) where
  -- A pass of the loop that narrows the bracket counts itself first.
  abbrev pub counted : Search F W → Search F W
  counted s = record s { stats = inc_router_iter s.stats }

  abbrev pub stopped_early : Search F W → Search F W
  stopped_early s = record s { stats = inc_router_early_stop_rel_gap s.stats }

  -- What the changes of the search keep, with the passes that are left, holds when the loop ends.
  pub golden_loop_keeps :
      (P : ℕ → Search F W → Type 0)
      → ((n : ℕ) (s : Search F W) → P n s → P n (counted s))
      → ((n : ℕ) (s : Search F W) → P n s → P n (stopped_early s))
      → ((n : ℕ) (s : Search F W) → P (suc n) s → P n (raise_left total_input evaluate s))
      → ((n : ℕ) (s : Search F W) → P (suc n) s → P n (lower_right total_input evaluate s))
      → (n : ℕ) (s : Search F W) → P n s
      → (left : ℕ) × P left (golden_loop total_input evaluate n s)
  unfolding golden_loop narrow
  golden_loop_keeps P iter stop left right zero s p = (0, p)
  golden_loop_keeps P iter stop left right (suc n) s p =
      let q = iter (suc n) s p in
      let again = golden_loop_keeps P iter stop left right n in
      elim (Bool-cases (is_narrow total_input evaluate (counted s))) [
        | inl e ↦ rw e (suc n, q)
        | inr e ↦ elim (Bool-cases (is_flat total_input evaluate (counted s))) [
          | inl g ↦ rw (e, g) (suc n, stop (suc n) (counted s) q)
          | inr g ↦ elim (Bool-cases (lt (quote_score s.q1) (quote_score s.q2))) [
            | inl h ↦ rw (e, g, h) (again _ (left n (counted s) q))
            | inr h ↦ rw (e, g, h) (again _ (right n (counted s) q))
          ]
        ]
      ]
