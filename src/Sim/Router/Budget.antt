-- ===== src/Sim/Router/Budget.antt =====
-- crates/sim/src/router.rs: how often `maximize_split` asks for a quote, and what it counts.
use prop_amm_challenge.Prelude.{
  ℕ, suc, ◌+◌, ◌%◌, ◌≤◌, ◌≡◌, true, length, ◌++◌, [], ◌∷◌, arith, length-append, List,
}
use prop_amm_challenge.Words.{u64_mod}
use prop_amm_challenge.Float.{Float}
use prop_amm_challenge.Sim.SearchStats.{
  SearchStats, inc_router_call, inc_router_eval, inc_router_iter, inc_router_early_stop_rel_gap,
  fetch_add_if,
}
use prop_amm_challenge.Sim.Router.{
  QuotePoint, start_search, raise_left, lower_right, golden_max_iters, finish_search,
  maximize_split, golden_loop,
}
use prop_amm_challenge.Sim.Router.Loop.{golden_loop_keeps}

-- The evaluations counted since there were `base` of them.
record Counts (base n : ℕ) (s : SearchStats) : Type 0 where
  is_enabled : s.enabled ≡ true
  evals : s.counters.router_evals ≡ (base + n) % u64_mod

Counts-eval :
    (base n : ℕ) (s : SearchStats) → Counts base n s → Counts base (n + 1) (inc_router_eval s)
unfolding inc_router_eval fetch_add_if
Counts-eval base n s c =
    let e = c.evals in
    let h : ((base + n) % u64_mod + 1) % u64_mod ≡ (base + (n + 1)) % u64_mod = omega arith in
    record { is_enabled = c.is_enabled; evals = rw (c.is_enabled, e) h }

Counts-others :
    (base n : ℕ) (s : SearchStats)
    → Counts base n s
    → Counts base n (inc_router_iter s) × Counts base n (inc_router_early_stop_rel_gap s)
unfolding inc_router_iter inc_router_early_stop_rel_gap
Counts-others base n s c = (
  record { is_enabled = c.is_enabled; evals = c.evals },
  record { is_enabled = c.is_enabled; evals = c.evals },
)

length_snoc : {A : Type 0} (xs : List A) (a : A) → length (xs ++ a ∷ []) ≡ length xs + 1
length_snoc xs a = length-append xs (a ∷ [])

module _ {F W : Type 0} ⦃f : Float F⦄ (total_input : F) (evaluate : F → W → QuotePoint F × W) where
  -- What the search has sampled and counted when `n` passes are left.
  Within : ℕ → ℕ → List (QuotePoint F) → SearchStats → Type 0
  Within base n xs stats = ((length xs + n ≤ 18) × (4 ≤ length xs)) × Counts base (length xs) stats

  grown :
      (base n : ℕ) (xs : List (QuotePoint F)) (stats : SearchStats) (q : QuotePoint F)
      → Within base (suc n) xs stats
      → Within base n (xs ++ q ∷ []) (inc_router_eval stats)
  unfolding Within
  grown base n xs stats q ((h, k), c) =
      rw (length_snoc xs q) ((omega arith, omega arith), Counts-eval base (length xs) stats c)

  start-Within :
      (stats : SearchStats) (world : W)
      → stats.enabled ≡ true
      → stats.counters.router_evals ≤ 0xffff_ffff_ffff_ffff
      → let s = start_search total_input evaluate stats world in
        Within stats.counters.router_evals golden_max_iters s.sampled s.stats
  unfolding start_search Within inc_router_call
  start-Within stats world on small =
      let base = stats.counters.router_evals in
      let c0 : Counts base 0 (inc_router_call stats) = record {
        is_enabled = on;
        evals = omega arith;
      } in
      let next = Counts-eval base in
      ((omega arith, omega arith), next 3 _ (next 2 _ (next 1 _ (next 0 _ c0))))

  -- With the counters enabled and the counter of evaluations a 64-bit number, a split search
  -- samples at least 5 and at most 19 points, and the counter of evaluations advances by exactly
  -- the number of sampled points, modulo 2^64.
  pub maximize_split_budget :
      (stats : SearchStats) (world : W)
      → stats.enabled ≡ true
      → stats.counters.router_evals ≤ 0xffff_ffff_ffff_ffff
      → let (found, stats', _) = maximize_split total_input evaluate stats world in
        (5 ≤ length found.sampled)
        × (length found.sampled ≤ 19)
        × (stats'.counters.router_evals
            ≡ (stats.counters.router_evals + length found.sampled) % u64_mod)
  unfolding maximize_split finish_search start_search raise_left lower_right Within
  maximize_split_budget stats world on small =
      let base = stats.counters.router_evals in
      let start = start_search total_input evaluate stats world in
      let (left, ((h, k), c)) =
        golden_loop_keeps total_input evaluate (λ n s. Within base n s.sampled s.stats)
          (λ n s (h, c). (h, (Counts-others _ _ s.stats c).0))
          (λ n s (h, c). (h, (Counts-others _ _ s.stats c).1))
          (λ n s w. grown base n s.sampled s.stats _ w)
          (λ n s w. grown base n s.sampled s.stats _ w) golden_max_iters start
          (start-Within stats world on small) in
      let xs = (golden_loop total_input evaluate golden_max_iters start).sampled in
      let counts = Counts-eval base (length xs) _ c in
      rw (length_snoc xs _) (omega arith, omega arith, counts.evals)
