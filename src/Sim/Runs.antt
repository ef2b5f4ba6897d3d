-- ===== src/Sim/Runs.antt =====
-- The simulator's parts in the number format of Float/Fixed, on two native pools.
use text.Mathlib.Text.{◌==◌}
use prop_amm_challenge.Prelude.{
  ◌+◌, ◌%◌, ◌≤◌, ◌≡◌, ◌⊎◌, ◌↔◌, refl, true, false, List, [], ◌∷◌, none, length, arith,
}
use prop_amm_challenge.Words.{u64_mod}
use prop_amm_challenge.Float.{◌⊕◌, ◌⊖◌, ◌⊗◌, nought}
use prop_amm_challenge.Float.Fixed.{Fixed, fixed_float, Fixed-IsFloat, fixed}
use prop_amm_challenge.Shared.Normalizer as Normalizer
use prop_amm_challenge.Sim.Amm.{
  BpfAmm, new_native, quote_buy_x, quote_sell_x, execute_buy_x, execute_sell_x,
}
use prop_amm_challenge.Sim.Amm.Laws.{SameLedger, Traded, execute_buy_x_cases, execute_sell_x_cases}
use prop_amm_challenge.Sim.CurveChecks.{Sample, windows_violation}
use prop_amm_challenge.Sim.CurveChecks.Cleaning.{SpacedFrom}
use prop_amm_challenge.Sim.CurveChecks.Verdicts.{
  Adjacent, RisesWithin, Flattens, segments, windows_violation_iff,
}
use prop_amm_challenge.Sim.SearchStats.{SearchStats}
use prop_amm_challenge.Sim.Fixtures.{no_stats}
use prop_amm_challenge.Sim.Retail.{RetailOrder}
use prop_amm_challenge.Sim.Router.{QuotePoint, RoutedTrade, Markets, maximize_split}
use prop_amm_challenge.Sim.Router.Best.{IsBest, maximize_split-IsBest}
use prop_amm_challenge.Sim.Router.Budget.{maximize_split_budget}
use prop_amm_challenge.Sim.Router.Returns.{route_order_returns}
use prop_amm_challenge.Sim.Router.Ledger.{Accounted, route_order-Accounted}

-- A pool of 100 and 10000 that the normalizer's curve prices.
abbrev curve_pool : BpfAmm Fixed
curve_pool = new_native Normalizer.compute_swap none (fixed 100) (fixed 10000) "submission"

-- A pool that pays 5 of either token for everything.
abbrev flat_pool : BpfAmm Fixed
flat_pool = new_native (λ call. 5000000000) none (fixed 100) (fixed 10000) "normalizer"

execute_buy_x_cases_example :
    let (out, b) = execute_buy_x curve_pool (fixed 50) in
    ((out ≡ nought) × SameLedger curve_pool b)
    ⊎ ((out ≡ (quote_buy_x curve_pool (fixed 50)).0)
        × Traded curve_pool
            (curve_pool.reserve_x ⊖ out)
            (curve_pool.reserve_y ⊕ fixed 50)
            out
            curve_pool.reserve_x
            b)
execute_buy_x_cases_example = execute_buy_x_cases curve_pool (fixed 50)

execute_sell_x_cases_example :
    let (out, b) = execute_sell_x curve_pool (fixed 2) in
    ((out ≡ nought) × SameLedger curve_pool b)
    ⊎ ((out ≡ (quote_sell_x curve_pool (fixed 2)).0)
        × Traded curve_pool
            (curve_pool.reserve_x ⊕ fixed 2)
            (curve_pool.reserve_y ⊖ out)
            out
            curve_pool.reserve_y
            b)
execute_sell_x_cases_example = execute_sell_x_cases curve_pool (fixed 2)

abbrev samples : List Sample
samples = (1000000, 500) ∷ (3000000, 900) ∷ (3000003, 950) ∷ []

windows_violation_iff_example : (windows_violation ((10, 500) ∷ (3000000, 900) ∷ []) ≡ none) ↔ (
    Adjacent RisesWithin ((10, 500) ∷ (3000000, 900) ∷ [])
    × Adjacent Flattens (segments ((10, 500) ∷ (3000000, 900) ∷ [])))
unfolding SpacedFrom
windows_violation_iff_example =
    windows_violation_iff ((10, 500) ∷ (3000000, 900) ∷ []) (omega arith, (omega arith, tt))
      ((omega arith, omega arith), ((omega arith, omega arith), tt))

-- The points of a search: one pool pays a concave curve, the other the part itself.
abbrev a_point : Fixed → Unit {0} → QuotePoint Fixed × Unit {0}
a_point alpha w = (
  record {
    in_sub = alpha;
    in_norm = fixed 1 ⊖ alpha;
    out_sub = alpha ⊗ (fixed 2 ⊖ alpha);
    out_norm = fixed 1 ⊖ alpha;
  },
  tt,
)

maximize_split-IsBest_example :
    let (found, _, _) = maximize_split (fixed 1) a_point no_stats tt in
    IsBest found.best found.sampled
maximize_split-IsBest_example = maximize_split-IsBest Fixed-IsFloat (fixed 1) a_point no_stats tt

maximize_split_budget_example :
    let (found, stats', _) = maximize_split (fixed 1) a_point no_stats tt in
    (5 ≤ length found.sampled)
    × (length found.sampled ≤ 19)
    × (stats'.counters.router_evals ≡ (0 + length found.sampled) % u64_mod)
maximize_split_budget_example =
    maximize_split_budget (fixed 1) a_point no_stats tt refl (omega arith)

abbrev markets : Markets Fixed
markets = (flat_pool, flat_pool)

abbrev an_order : RetailOrder Fixed
an_order = record { is_buy = true; size = fixed 40 }

not_submission : (markets.0.name == "submission") ≡ false
unfolding new_native
not_submission = refl

abbrev routed : List (RoutedTrade Fixed) × SearchStats × Markets Fixed
routed = (route_order_returns an_order (fixed 100) no_stats markets not_submission).0

route_order-Accounted_example : Accounted markets routed
route_order-Accounted_example =
    route_order-Accounted Fixed-IsFloat an_order (fixed 100) no_stats markets routed
      (route_order_returns an_order (fixed 100) no_stats markets not_submission).1
