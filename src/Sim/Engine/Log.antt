-- ===== src/Sim/Engine/Log.antt =====
-- The log of a simulation: the deals that its calls of `execute_arb` and `route_order` answer, in order.
-- It is a description of crates/sim/src/engine.rs that keeps no edge.
use prop_amm_challenge.Prelude.{
  ℕ, zero, suc, ◌+◌, Bool, true, false, List, [], ◌∷◌, ◌++◌, Option, none, some, ◌>>=◌,
}
use prop_amm_challenge.Float.{Float}
use prop_amm_challenge.Random.{Random}
use prop_amm_challenge.Sim.SearchStats.{SearchStats}
use prop_amm_challenge.Sim.Retail.{RetailOrder, generate_orders}
use prop_amm_challenge.Sim.PriceProcess as PriceProcess
use prop_amm_challenge.Sim.Router.{RoutedTrade, Markets, route_order}
use prop_amm_challenge.Sim.Arbitrageur.{ArbResult}
use prop_amm_challenge.Sim.Arbitrageur.Plans.{execute_arb}
use prop_amm_challenge.Sim.Engine.{Simulation, at_step, run_step}

-- A trade on one of the pools at a fair price.
abbrev pub Deal : Type 0 → Type 0
Deal F = F × RoutedTrade F

module _ {F : Type 0} ⦃f : Float F⦄ where
  -- The trades of a routed order, at one price.
  unfoldable pub deals_of : F → List (RoutedTrade F) → List (Deal F)
  deals_of p [] = []
  deals_of p (t ∷ ts) = (p, t) ∷ deals_of p ts

  -- The trade of an arbitrage, on the submission's pool or on the other one.
  abbrev pub arb_trade : Bool → ArbResult F → RoutedTrade F
  arb_trade who t = record {
    is_submission = who;
    amm_buys_x = t.amm_buys_x;
    amount_x = t.amount_x;
    amount_y = t.amount_y;
  }

  unfoldable pub arb_deals : Bool → F → Option (ArbResult F) → List (Deal F)
  arb_deals who p none = []
  arb_deals who p (some t) = (p, arb_trade who t) ∷ []

  unfoldable pub order_deals :
      F → List (RetailOrder F) → SearchStats → Markets F → Option (List (Deal F))
  order_deals p [] stats markets = some []
  order_deals p (order ∷ orders) stats markets =
      route_order order p stats markets >>= λ (trades, stats', markets').
      order_deals p orders stats' markets' >>= λ ds. some (deals_of p trades ++ ds)

  module _ ⦃rand : Random F⦄ where
    -- The deals of one step: the arbitrage on either pool, then the orders.
    unfoldable pub step_deals : ℕ → Simulation F → Option (List (Deal F))
    step_deals n sim =
        let (p, _) = PriceProcess.step sim.price in
        let (orders, _) = generate_orders sim.retail in
        let book = at_step n sim.book in
        execute_arb sim.arb book.amm_sub p sim.stats >>= λ (r, arb1, stats1, sub).
        execute_arb arb1 book.amm_norm p stats1 >>= λ (s, _, stats2, norm).
        order_deals p orders stats2 (sub, norm) >>= λ ds.
        some ((arb_deals true p r ++ arb_deals false p s) ++ ds)

    -- The deals of `n` steps from the given one on.
    unfoldable pub run_deals : ℕ → ℕ → Simulation F → Option (List (Deal F))
    run_deals zero step sim = some []
    run_deals (suc n) step sim = step_deals step sim >>= λ ds.
        run_step step sim >>= λ sim'. run_deals n (step + 1) sim' >>= λ es. some (ds ++ es)
