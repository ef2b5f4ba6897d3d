-- ===== src/Sim/Router.antt =====
-- crates/sim/src/router.rs: a retail order is split between the two pools by a golden-section search.
pub mod Best
pub mod Loop
pub mod Budget
pub mod Ledger
pub mod Returns
pub mod Shaped
use prop_amm_challenge.Prelude.{
  ℕ, zero, suc, Bool, not, ◌&&◌, ◌||◌, List, [], ◌∷◌, ◌++◌, map, Option, some, true, false,
  if◌then◌else◌, ◌>>◌,
}
use prop_amm_challenge.Float.{
  Float, ◌⊕◌, ◌⊖◌, ◌⊗◌, ◌⊘◌, lt, le, nought, unit, is_finite, fmax, clamp_to,
}
use prop_amm_challenge.Sim.SearchStats.{
  SearchStats, inc_router_call, inc_router_eval, inc_router_iter, inc_router_early_stop_rel_gap,
}
use prop_amm_challenge.Sim.Amm.{BpfAmm, quote_buy_x, quote_sell_x, execute_buy_x, execute_sell_x}
use prop_amm_challenge.Sim.Retail.{RetailOrder}
use prop_amm_challenge.Sim.CurveChecks.{enforce_submission_monotonic_concave}

pub record RoutedTrade (F : Type 0) : Type 0 where
  pub is_submission : Bool
  pub amm_buys_x : Bool
  pub amount_x : F
  pub amount_y : F

pub record QuotePoint (F : Type 0) : Type 0 where
  pub in_sub : F
  pub in_norm : F
  pub out_sub : F
  pub out_norm : F

-- The locals of the search, with what the closure `evaluate` and the counters change: the statistics and
-- the state `W` behind the closure.
pub record Search (F W : Type 0) : Type 0 where
  pub left : F
  pub right : F
  pub x1 : F
  pub x2 : F
  pub q1 : QuotePoint F
  pub q2 : QuotePoint F
  pub best : QuotePoint F
  pub sampled : List (QuotePoint F)
  pub stats : SearchStats
  pub world : W

pub record SplitSearchResult (F : Type 0) : Type 0 where
  pub best : QuotePoint F
  pub sampled : List (QuotePoint F)

-- The two pools, the submission's and the normalizer's.
abbrev pub Markets : Type 0 → Type 0
Markets F = BpfAmm F × BpfAmm F

abbrev pub golden_max_iters : ℕ
golden_max_iters = 14

module _ {F : Type 0} ⦃f : Float F⦄ where
  abbrev pub min_trade_size : F
  min_trade_size = f.literal 1 3

  abbrev golden_ratio_conjugate : F
  golden_ratio_conjugate = f.literal 6180339887498948 16

  abbrev golden_alpha_tol : F
  golden_alpha_tol = f.literal 1 3

  abbrev golden_submission_amount_rel_tol : F
  golden_submission_amount_rel_tol = f.literal 1 2

  abbrev golden_score_rel_gap_tol : F
  golden_score_rel_gap_tol = f.literal 1 2

  unfoldable pub quote_score : QuotePoint F → F
  quote_score point =
      let total = point.out_sub ⊕ point.out_norm in
      if is_finite total then total else f.neg_infinity

  unfoldable pub within_rel_gap : F → F → F → Bool
  within_rel_gap a b rel_tol =
      let denom = fmax (fmax (f.abs a) (f.abs b)) (f.literal 1 12) in
      if not (is_finite a) || not (is_finite b) then false else le (f.abs (a ⊖ b)) (rel_tol ⊗ denom)

  unfoldable pub best_quote : QuotePoint F → QuotePoint F → QuotePoint F
  best_quote a b = if lt (quote_score a) (quote_score b) then b else a

  module _ {W : Type 0} (total_input : F) (evaluate : F → W → QuotePoint F × W) where
    -- `left + (right - left) * ratio` and `right - (right - left) * ratio`
    abbrev upper : F → F → F
    upper left right = left ⊕ golden_ratio_conjugate ⊗ (right ⊖ left)

    abbrev lower : F → F → F
    lower left right = right ⊖ golden_ratio_conjugate ⊗ (right ⊖ left)

    -- The search before the loop.
    unfoldable pub start_search : SearchStats → W → Search F W
    start_search stats world =
        let left = nought in
        let right = unit in
        let stats1 = inc_router_eval (inc_router_call stats) in
        let (edge_left, world1) = evaluate left world in
        let stats2 = inc_router_eval stats1 in
        let (edge_right, world2) = evaluate right world1 in
        let x1 = lower left right in
        let x2 = upper left right in
        let stats3 = inc_router_eval stats2 in
        let (q1, world3) = evaluate x1 world2 in
        let stats4 = inc_router_eval stats3 in
        let (q2, world4) = evaluate x2 world3 in
        record {
          left = left;
          right = right;
          x1 = x1;
          x2 = x2;
          q1 = q1;
          q2 = q2;
          best = best_quote (best_quote (best_quote edge_left edge_right) q1) q2;
          sampled = edge_left ∷ edge_right ∷ q1 ∷ q2 ∷ [];
          stats = stats4;
          world = world4;
        }

    -- The tests that end the loop before it narrows the bracket, save the last one.
    unfoldable pub is_narrow : Search F W → Bool
    is_narrow s =
        let alpha_mid = f.literal 5 1 ⊗ (s.left ⊕ s.right) in
        let sub_mid_amount = total_input ⊗ alpha_mid in
        let amount_width = total_input ⊗ (s.right ⊖ s.left) in
        let amount_scale = fmax (f.abs sub_mid_amount) min_trade_size in
        le (s.right ⊖ s.left) golden_alpha_tol
        || le amount_width (golden_submission_amount_rel_tol ⊗ amount_scale)

    unfoldable pub is_flat : Search F W → Bool
    is_flat s = within_rel_gap (quote_score s.q1) (quote_score s.q2) golden_score_rel_gap_tol

    unfoldable pub raise_left : Search F W → Search F W
    raise_left s =
        let left = s.x1 in
        let x2 = upper left s.right in
        let (q2, world) = evaluate x2 s.world in
        record s {
          left = left;
          x1 = s.x2;
          q1 = s.q2;
          x2 = x2;
          q2 = q2;
          best = best_quote s.best q2;
          sampled = s.sampled ++ q2 ∷ [];
          stats = inc_router_eval s.stats;
          world = world;
        }

    unfoldable pub lower_right : Search F W → Search F W
    lower_right s =
        let right = s.x2 in
        let x1 = lower s.left right in
        let (q1, world) = evaluate x1 s.world in
        record s {
          right = right;
          x2 = s.x1;
          q2 = s.q1;
          x1 = x1;
          q1 = q1;
          best = best_quote s.best q1;
          sampled = s.sampled ++ q1 ∷ [];
          stats = inc_router_eval s.stats;
          world = world;
        }

    unfoldable pub narrow : Search F W → Search F W
    narrow s = if lt (quote_score s.q1) (quote_score s.q2) then raise_left s else lower_right s

    unfoldable pub golden_loop : ℕ → Search F W → Search F W
    golden_loop zero s = s
    golden_loop (suc n) s =
        let counted = record s { stats = inc_router_iter s.stats } in
        let rest = golden_loop n (narrow counted) in
        if is_narrow counted
        then counted
        else (if is_flat counted
            then record counted { stats = inc_router_early_stop_rel_gap counted.stats }
            else rest)

    unfoldable pub finish_search : Search F W → SplitSearchResult F × SearchStats × W
    finish_search s =
        let stats = inc_router_eval s.stats in
        let (center, world) = evaluate ((s.left ⊕ s.right) ⊗ f.literal 5 1) s.world in
        (
          record { best = best_quote s.best center; sampled = s.sampled ++ center ∷ [] },
          stats,
          world,
        )

    unfoldable pub maximize_split : SearchStats → W → SplitSearchResult F × SearchStats × W
    maximize_split stats world =
        finish_search (golden_loop golden_max_iters (start_search stats world))

  -- `alpha.clamp(0.0, 1.0)`, whose bounds are in order.
  abbrev clamped : F → F
  clamped alpha = clamp_to alpha nought unit

  -- A quote of a part of the order, which is asked for when the part is large enough.
  unfoldable pub quote_if : (BpfAmm F → F → F × BpfAmm F) → F → BpfAmm F → F × BpfAmm F
  quote_if quote input amm =
      let asked = quote amm input in if lt min_trade_size input then asked else (nought, amm)

  unfoldable pub quote_buy_split : F → F → Markets F → QuotePoint F × Markets F
  quote_buy_split total_y alpha (amm_sub, amm_norm) =
      let a = clamped alpha in
      let in_sub = total_y ⊗ a in
      let in_norm = total_y ⊗ (unit ⊖ a) in
      let (out_sub, amm_sub') = quote_if quote_buy_x in_sub amm_sub in
      let (out_norm, amm_norm') = quote_if quote_buy_x in_norm amm_norm in
      (
        record { in_sub = in_sub; in_norm = in_norm; out_sub = out_sub; out_norm = out_norm },
        (amm_sub', amm_norm'),
      )

  unfoldable pub quote_sell_split : F → F → Markets F → QuotePoint F × Markets F
  quote_sell_split total_x alpha (amm_sub, amm_norm) =
      let a = clamped alpha in
      let in_sub = total_x ⊗ a in
      let in_norm = total_x ⊗ (unit ⊖ a) in
      let (out_sub, amm_sub') = quote_if quote_sell_x in_sub amm_sub in
      let (out_norm, amm_norm') = quote_if quote_sell_x in_norm amm_norm in
      (
        record { in_sub = in_sub; in_norm = in_norm; out_sub = out_sub; out_norm = out_norm },
        (amm_sub', amm_norm'),
      )

  -- One part of the order on one pool: the trades, none or one, and the pool after it.
  unfoldable pub buy_part : Bool → F → F → BpfAmm F → List (RoutedTrade F) × BpfAmm F
  buy_part is_submission y quoted amm =
      let (x_out, amm') = execute_buy_x amm y in
      let trade : RoutedTrade F = record {
        is_submission = is_submission;
        amm_buys_x = false;
        amount_x = x_out;
        amount_y = y;
      } in
      if lt min_trade_size y && lt nought quoted
      then (if lt nought x_out then (trade ∷ [], amm') else ([], amm'))
      else ([], amm)

  unfoldable pub sell_part : Bool → F → F → BpfAmm F → List (RoutedTrade F) × BpfAmm F
  sell_part is_submission x quoted amm =
      let (y_out, amm') = execute_sell_x amm x in
      let trade : RoutedTrade F = record {
        is_submission = is_submission;
        amm_buys_x = true;
        amount_x = x;
        amount_y = y_out;
      } in
      if lt min_trade_size x && lt nought quoted
      then (if lt nought y_out then (trade ∷ [], amm') else ([], amm'))
      else ([], amm)

  abbrev pub submission_points : SplitSearchResult F → List (F × F)
  submission_points search = map (λ p. (p.in_sub, p.out_sub)) search.sampled

  -- The result is `none` where the shape check panics.
  unfoldable pub route_buy :
      F → SearchStats → Markets F → Option (List (RoutedTrade F) × SearchStats × Markets F)
  route_buy total_y stats markets =
      let (search, stats', (amm_sub, amm_norm)) =
        maximize_split total_y (quote_buy_split total_y) stats markets in
      let best = search.best in
      let (trades_sub, amm_sub') = buy_part true best.in_sub best.out_sub amm_sub in
      let (trades_norm, amm_norm') = buy_part false best.in_norm best.out_norm amm_norm in
      enforce_submission_monotonic_concave amm_sub.name (submission_points search) min_trade_size
      >> some (trades_sub ++ trades_norm, stats', (amm_sub', amm_norm'))

  unfoldable pub route_sell :
      F → SearchStats → Markets F → Option (List (RoutedTrade F) × SearchStats × Markets F)
  route_sell total_x stats markets =
      let (search, stats', (amm_sub, amm_norm)) =
        maximize_split total_x (quote_sell_split total_x) stats markets in
      let best = search.best in
      let (trades_sub, amm_sub') = sell_part true best.in_sub best.out_sub amm_sub in
      let (trades_norm, amm_norm') = sell_part false best.in_norm best.out_norm amm_norm in
      enforce_submission_monotonic_concave amm_sub.name (submission_points search) min_trade_size
      >> some (trades_sub ++ trades_norm, stats', (amm_sub', amm_norm'))

  unfoldable pub route_order :
      RetailOrder F
      → F
      → SearchStats
      → Markets F
      → Option (List (RoutedTrade F) × SearchStats × Markets F)
  route_order order fair_price stats markets =
      if order.is_buy
      then route_buy order.size stats markets
      else route_sell (order.size ⊘ fair_price) stats markets
