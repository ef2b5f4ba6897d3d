-- ===== src/Sim/Router/Returns.antt =====
-- crates/sim/src/router.rs: when an order is routed without a panic.
use text.Mathlib.Text.{◌==◌}
use prop_amm_challenge.Prelude.{
  ◌≡◌, ◌∙◌, ap, refl, Bool-cases, inl, inr, false, List, some, if◌then◌else◌, Option, ◌>>◌, Bool,
}
use prop_amm_challenge.Float.{Float, ◌⊘◌}
use prop_amm_challenge.Sim.SearchStats.{SearchStats}
use prop_amm_challenge.Sim.Amm.{BpfAmm}
use prop_amm_challenge.Sim.Amm.Laws.{SameLedger, ledger_refl}
use prop_amm_challenge.Sim.CurveChecks.{enforce_submission_monotonic_concave}
use prop_amm_challenge.Sim.Retail.{RetailOrder}
use prop_amm_challenge.Sim.Router.{
  RoutedTrade, Markets, maximize_split, quote_buy_split, quote_sell_split, route_buy, route_sell,
  route_order, submission_points, min_trade_size,
}
use prop_amm_challenge.Sim.Router.Ledger.{
  maximize_split_keeps, SameMarkets, quote_buy_split-SameMarkets, quote_sell_split-SameMarkets,
}

-- Past a check that does not panic.
pub past :
    {A : Type 0} (check : Option (Unit {0})) (r : A)
    → check ≡ some tt
    → (result : A) × ((check >> some r) ≡ some result)
past check r h = (r, rw h refl)

module _ {F : Type 0} ⦃f : Float F⦄ where
  unchecked :
      (a b : BpfAmm F) (points : List (F × F)) (min_input : F)
      → SameLedger a b
      → (a.name == "submission") ≡ false
      → enforce_submission_monotonic_concave b.name points min_input ≡ some tt
  unfolding enforce_submission_monotonic_concave
  unchecked a b points min_input same h = rw (same.name_eq, h) refl

  route_buy_returns :
      (total_y : F) (stats : SearchStats) (markets : Markets F)
      → (markets.0.name == "submission") ≡ false
      → (result : List (RoutedTrade F) × SearchStats × Markets F) × (route_buy total_y stats markets
          ≡ some result)
  unfolding route_buy
  route_buy_returns total_y stats (a, b) h =
      let (search, _, (a', b')) = maximize_split total_y (quote_buy_split total_y) stats (a, b) in
      let same =
        maximize_split_keeps total_y (quote_buy_split total_y) (SameMarkets (a, b))
          (quote_buy_split-SameMarkets total_y (a, b)) stats (a, b)
          (ledger_refl a, ledger_refl b) in
      let quiet = unchecked a a' (submission_points search) min_trade_size same.0 h in
      past _ _ quiet

  route_sell_returns :
      (total_x : F) (stats : SearchStats) (markets : Markets F)
      → (markets.0.name == "submission") ≡ false
      → (result : List (RoutedTrade F) × SearchStats × Markets F) × (route_sell total_x stats
            markets
          ≡ some result)
  unfolding route_sell
  route_sell_returns total_x stats (a, b) h =
      let (search, _, (a', b')) = maximize_split total_x (quote_sell_split total_x) stats (a, b) in
      let same =
        maximize_split_keeps total_x (quote_sell_split total_x) (SameMarkets (a, b))
          (quote_sell_split-SameMarkets total_x (a, b)) stats (a, b)
          (ledger_refl a, ledger_refl b) in
      let quiet = unchecked a a' (submission_points search) min_trade_size same.0 h in
      past _ _ quiet

  -- When the pool in the submission's place is not named "submission" the router returns a result,
  -- whatever the order, the price and the curves are: no shape check panics.
  pub route_order_returns :
      (order : RetailOrder F) (fair_price : F) (stats : SearchStats) (markets : Markets F)
      → (markets.0.name == "submission") ≡ false
      → (result : List (RoutedTrade F) × SearchStats × Markets F) × (route_order order fair_price
            stats markets
          ≡ some result)
  unfolding route_order
  route_order_returns order fair_price stats markets h =
      let sold_x = order.size ⊘ fair_price in
      let (bought, e) = route_buy_returns order.size stats markets h in
      let (sold, g) = route_sell_returns sold_x stats markets h in
      let routed : Bool → Option (List (RoutedTrade F) × SearchStats × Markets F) =
        λ b. if b then route_buy order.size stats markets else route_sell sold_x stats markets in
      elim (Bool-cases order.is_buy) [
        | inl k ↦ (bought, ap routed k ∙ e)
        | inr k ↦ (sold, ap routed k ∙ g)
      ]
