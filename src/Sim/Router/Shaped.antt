-- ===== src/Sim/Router/Shaped.antt =====
-- crates/sim/src/router.rs: the shape check of an order, where the submission's pool quotes near a curve.
use Prim.Native.String.{String}
use prop_amm_challenge.Prelude.{
  ℕ, ◌≡◌, true, false, Bool-cases, inl, inr, List, [], ◌∷◌, ◌++◌, map, All, All-append, some, arith,
  ltb,
}
use prop_amm_challenge.Float.{Float, IsFloat, ◌⊗◌, ◌⊘◌, lt, nought, unit, clamp_to}
use prop_amm_challenge.Shared.Nano.{f64_to_nano}
use prop_amm_challenge.Sim.SearchStats.{SearchStats}
use prop_amm_challenge.Sim.Amm.{BpfAmm, quote_buy_x, quote_sell_x}
use prop_amm_challenge.Sim.CurveChecks.{
  Sample, filter, is_usable, usable_samples, enforce_submission_monotonic_concave,
}
use prop_amm_challenge.Sim.CurveChecks.Cleaning.{Monotone}
use prop_amm_challenge.Sim.CurveChecks.Concave.{Near, Concave, enforce-Near}
use prop_amm_challenge.Sim.Retail.{RetailOrder}
use prop_amm_challenge.Sim.Router.{
  QuotePoint, RoutedTrade, Markets, maximize_split, quote_buy_split, quote_sell_split, route_buy,
  route_sell, route_order, submission_points, min_trade_size, start_search, raise_left, lower_right,
  finish_search, golden_max_iters, quote_if,
}
use prop_amm_challenge.Sim.Router.Loop.{golden_loop_keeps}
use prop_amm_challenge.Sim.Router.Returns.{past}

module _ {F W : Type 0} ⦃f : Float F⦄ (total_input : F) (evaluate : F → W → QuotePoint F × W) where
  -- What every evaluation answers, in a state that the evaluations keep, holds of all the samples.
  maximize_split_sampled :
      (R : W → Type 0) (Q : QuotePoint F → Type 0)
      → ((alpha : F) (w : W) → R w → Q (evaluate alpha w).0 × R (evaluate alpha w).1)
      → (stats : SearchStats) (world : W) → R world
      → All Q (maximize_split total_input evaluate stats world).0.sampled
  unfolding maximize_split finish_search start_search raise_left lower_right
  maximize_split_sampled R Q keep stats world r =
      let (q1, r1) = keep nought world r in
      let (q2, r2) = keep unit _ r1 in
      let (q3, r3) = keep _ _ r2 in
      let (q4, r4) = keep _ _ r3 in
      let more : (qs : List (QuotePoint F)) (w : W) (alpha : F)
          → All Q qs × R w
          → All Q (qs ++ (evaluate alpha w).0 ∷ []) × R (evaluate alpha w).1 =
        λ qs w alpha (hs, h). let (q, h') = keep alpha w h in (All-append Q qs _ hs (q, tt), h') in
      let (_, end) =
        golden_loop_keeps total_input evaluate (λ _ s. All Q s.sampled × R s.world) (λ _ s h. h)
          (λ _ s h. h) (λ _ s h. more s.sampled s.world _ h) (λ _ s h. more s.sampled s.world _ h)
          golden_max_iters (start_search total_input evaluate stats world)
          ((q1, (q2, (q3, (q4, tt)))), r4) in
      (more _ _ _ end).0

module _ {F : Type 0} ⦃f : Float F⦄ where
  pub usable-All :
      (P : Sample → Type 0) (min_input : F) (points : List (F × F))
      → All (λ p. is_usable min_input p ≡ true → P (f64_to_nano p.0, f64_to_nano p.1)) points
      → All P (usable_samples min_input points)
  unfolding usable_samples filter
  usable-All P min_input [] h = tt
  usable-All P min_input ((x, y) ∷ ps) (k, h) =
      let rest = usable-All P min_input ps h in
      elim (Bool-cases (is_usable min_input (x, y))) [
        | inr e ↦ rw e rest
        | inl e ↦ elim (Bool-cases (ltb (f64_to_nano min_input) (f64_to_nano x))) [
          | inl g ↦ rw (e, g) (k e, rest)
          | inr g ↦ rw (e, g) rest
        ]
      ]

  -- In the states `R`, which the quotes keep, the answer to every part of the order is near the curve.
  abbrev pub PaysNear :
      (BpfAmm F → Type 0) → (BpfAmm F → F → F × BpfAmm F) → F → ℕ → (ℕ → ℕ) → Type 0
  PaysNear R quote total e g =
      (alpha : F) (b : BpfAmm F)
      → R b
      → lt min_trade_size (total ⊗ clamp_to alpha nought unit) ≡ true
      → let input = total ⊗ clamp_to alpha nought unit in
        Near e g (f64_to_nano input, f64_to_nano (quote b input).0) × R (quote b input).1

  -- Where the quote is usable, it is near the curve.
  abbrev UsableNear : ℕ → (ℕ → ℕ) → F × F → Type 0
  UsableNear e g p = is_usable min_trade_size p ≡ true → Near e g (f64_to_nano p.0, f64_to_nano p.1)

  quote_if-UsableNear :
      (R : BpfAmm F → Type 0) (quote : BpfAmm F → F → F × BpfAmm F) (total alpha : F) (b : BpfAmm F)
      (e : ℕ) (g : ℕ → ℕ)
      → PaysNear R quote total e g
      → R b
      → let input = total ⊗ clamp_to alpha nought unit in
        UsableNear e g (input, (quote_if quote input b).0) × R (quote_if quote input b).1
  unfolding quote_if is_usable
  quote_if-UsableNear R quote total alpha b e g near kept =
      let asked = near alpha b kept in
      elim (Bool-cases (lt min_trade_size (total ⊗ clamp_to alpha nought unit))) [
        | inl h ↦ rw h (λ _. (asked h).0, (asked h).1)
        | inr h ↦ rw h (λ u. ground arith, kept)
      ]

  points-All :
      (P : F × F → Type 0) (qs : List (QuotePoint F))
      → All (λ q. P (q.in_sub, q.out_sub)) qs
      → All P (map (λ q. (q.in_sub, q.out_sub)) qs)
  points-All P [] h = tt
  points-All P (q ∷ qs) (k, h) = (k, points-All P qs h)

  module _ (laws : IsFloat F) (e : ℕ) (g : ℕ → ℕ) (mono : Monotone g) (concave : Concave e g)
      (R : BpfAmm F → Type 0) where
    quiet_samples :
        (evaluate : F → Markets F → QuotePoint F × Markets F) (total : F) (stats : SearchStats)
        (markets : Markets F)
        → ((alpha : F) (m : Markets F)
            → R m.0
            → let (q, m') = evaluate alpha m in UsableNear e g (q.in_sub, q.out_sub) × R m'.0)
        → R markets.0
        → (name : String)
        → enforce_submission_monotonic_concave name
            (submission_points (maximize_split total evaluate stats markets).0)
            min_trade_size
          ≡ some tt
    quiet_samples evaluate total stats markets near kept name =
        let sampled =
          maximize_split_sampled total evaluate (λ m. R m.0)
            (λ q. UsableNear e g (q.in_sub, q.out_sub)) near stats markets kept in
        enforce-Near laws e g name _ min_trade_size mono concave
          (usable-All (Near e g) min_trade_size _ (points-All (UsableNear e g) _ sampled))

    route_buy_near :
        (total_y : F) (stats : SearchStats) (markets : Markets F)
        → PaysNear R quote_buy_x total_y e g
        → R markets.0
        → (result : List (RoutedTrade F) × SearchStats × Markets F) × (route_buy total_y stats
              markets
            ≡ some result)
    unfolding route_buy quote_buy_split
    route_buy_near total_y stats (a, b) near kept = past _ _ (
        quiet_samples (quote_buy_split total_y) total_y stats (a, b)
          (λ alpha m. quote_if-UsableNear R quote_buy_x total_y alpha m.0 e g near) kept _)

    route_sell_near :
        (total_x : F) (stats : SearchStats) (markets : Markets F)
        → PaysNear R quote_sell_x total_x e g
        → R markets.0
        → (result : List (RoutedTrade F) × SearchStats × Markets F) × (route_sell total_x stats
              markets
            ≡ some result)
    unfolding route_sell quote_sell_split
    route_sell_near total_x stats (a, b) near kept = past _ _ (
        quiet_samples (quote_sell_split total_x) total_x stats (a, b)
          (λ alpha m. quote_if-UsableNear R quote_sell_x total_x alpha m.0 e g near) kept _)

    -- Let `g` be a curve that does not fall and whose slope does not rise, where `e` nanos are
    -- forgiven in each rise. When, in a set of states of the submission's pool that its quotes
    -- keep, the quote for every part of the order above the smallest trade is near `g`, that is,
    -- not below it and at most `4 - e` nanos above it, also 4 nanos back, the router returns a
    -- result for the order, under any name of the pool: no shape check panics, wherever the search
    -- samples. The quotes for buying X are asked of a bought order, those for selling X of a sold
    -- one. The floats meet the laws of `IsFloat`.
    pub route_order_near :
        (order : RetailOrder F) (fair_price : F) (stats : SearchStats) (markets : Markets F)
        → (order.is_buy ≡ true → PaysNear R quote_buy_x order.size e g)
        → (order.is_buy ≡ false → PaysNear R quote_sell_x (order.size ⊘ fair_price) e g)
        → R markets.0
        → (result : List (RoutedTrade F) × SearchStats × Markets F) × (route_order order fair_price
              stats markets
            ≡ some result)
    unfolding route_order
    route_order_near order fair_price stats markets buys sells kept =
        elim (Bool-cases order.is_buy) [
          | inl k ↦ rw k (route_buy_near order.size stats markets (buys k) kept)
          | inr k ↦ rw k (route_sell_near (order.size ⊘ fair_price) stats markets (sells k) kept)
        ]
