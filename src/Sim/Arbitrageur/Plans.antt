-- ===== src/Sim/Arbitrageur/Plans.antt =====
-- crates/sim/src/arbitrageur.rs: `Arbitrageur` with its random order size, the plans found by search, and
-- `execute_arb`. `none` is a panic: of `clamp`, of `unwrap` or of the shape check.
pub mod Planned
pub mod Searched
pub mod Closed
pub mod Laws
pub mod Budget
pub mod Shaped
use Prim.Native.String.{String}
use text.Mathlib.Text.{◌==◌}
use prop_amm_challenge.Prelude.{
  ℕ, not, ◌||◌, Option, none, some, List, [], ◌∷◌, ◌++◌, if◌then◌else◌, ◌>>=◌, ◌>>◌,
}
use prop_amm_challenge.Float.{Float, ◌⊖◌, ◌⊗◌, ◌⊘◌, lt, le, nought, is_finite, fmax, fmin}
use prop_amm_challenge.Random.{Random}
use prop_amm_challenge.Sim.SearchStats.{SearchStats}
use prop_amm_challenge.Sim.Amm.{BpfAmm, quote_buy_x, quote_sell_x}
use prop_amm_challenge.Sim.CurveChecks.{enforce_submission_monotonic_concave}
use prop_amm_challenge.Sim.Arbitrageur.{
  buy_x, sell_x, ArbCandidate, ArbResult, min_input, max_input_amount, min_buy_input_y,
  min_sell_input_x, candidate, plan_normalizer_buy_x, plan_normalizer_sell_x, best_candidate,
  execute_candidate,
}
use prop_amm_challenge.Sim.Arbitrageur.Search.{bracket_maximum, golden_section_max}

pub record Arbitrageur (F : Type 0) ⦃rand : Random F⦄ : Type 0 where
  pub min_arb_profit : F
  pub rng : rand.Pcg64
  pub retail_size_dist : rand.LogNormal

-- The state behind the closures of a plan: the pool, and `sampled_curve`.
abbrev pub Sampling : Type 0 → Type 0
Sampling F = BpfAmm F × List (F × F)

module _ {F : Type 0} ⦃f : Float F⦄ where
  unfoldable pub buy_objective : F → F → Sampling F → F × Sampling F
  buy_objective fair_price input_y (amm, sampled) =
      let (output_x, amm') = quote_buy_x amm input_y in
      (output_x ⊗ fair_price ⊖ input_y, (amm', sampled ++ (input_y, output_x) ∷ []))

  unfoldable pub sell_objective : F → F → Sampling F → F × Sampling F
  sell_objective fair_price input_x (amm, sampled) =
      let (output_y, amm') = quote_sell_x amm input_x in
      (output_y ⊖ input_x ⊗ fair_price, (amm', sampled ++ (input_x, output_y) ∷ []))

  -- The two searches of a plan: the input they settle on, the counters, the pool and the curve.
  unfoldable pub search_input :
      (F → Sampling F → F × Sampling F)
      → F
      → F
      → SearchStats
      → BpfAmm F
      → Option (F × SearchStats × Sampling F)
  search_input objective start smallest stats amm =
      bracket_maximum objective start smallest max_input_amount stats (amm, [])
      >>= λ ((lo, hi), stats', w).
          let ((optimal, _), stats'', w') = golden_section_max objective lo hi stats' w in
          some (optimal, stats'', w')

  unfoldable pub plan_arb_buy_x :
      F
      → BpfAmm F
      → F
      → F
      → F
      → SearchStats
      → Option (Option (ArbCandidate F) × SearchStats × BpfAmm F)
  plan_arb_buy_x min_arb_profit amm fair_price start_y min_buy_input stats =
      search_input (buy_objective fair_price) start_y min_buy_input stats amm
      >>= λ (optimal_y, stats', (amm', sampled_curve)).
          let (expected_output_x, amm'') = quote_buy_x amm' optimal_y in
          let arb_profit = expected_output_x ⊗ fair_price ⊖ optimal_y in
          enforce_submission_monotonic_concave amm'.name sampled_curve min_buy_input
          >> some (
              if lt optimal_y min_buy_input then (none, stats', amm') else (
                candidate min_arb_profit buy_x optimal_y expected_output_x arb_profit,
                stats',
                amm'',
              ))

  unfoldable pub plan_arb_sell_x :
      F
      → BpfAmm F
      → F
      → F
      → F
      → SearchStats
      → Option (Option (ArbCandidate F) × SearchStats × BpfAmm F)
  plan_arb_sell_x min_arb_profit amm fair_price start_x min_sell_input stats =
      search_input (sell_objective fair_price) start_x min_sell_input stats amm
      >>= λ (optimal_x, stats', (amm', sampled_curve)).
          let (expected_output_y, amm'') = quote_sell_x amm' optimal_x in
          let arb_profit = expected_output_y ⊖ optimal_x ⊗ fair_price in
          enforce_submission_monotonic_concave amm'.name sampled_curve min_sell_input
          >> some (
              if lt optimal_x min_sell_input then (none, stats', amm') else (
                candidate min_arb_profit sell_x optimal_x expected_output_y arb_profit,
                stats',
                amm'',
              ))

  -- The choice of a plan by the closed form, and by search from the two starts.
  unfoldable pub best_normalizer_plan :
      F → BpfAmm F → F → Option (Option (ArbCandidate F) × BpfAmm F)
  best_normalizer_plan min_arb_profit amm fair_price =
      plan_normalizer_buy_x min_arb_profit amm fair_price >>= λ (buy, amm').
      plan_normalizer_sell_x min_arb_profit amm' fair_price >>= λ (sell, amm'').
      some (best_candidate buy sell, amm'')

  unfoldable pub best_searched_plan :
      F → BpfAmm F → F → F → SearchStats → Option (Option (ArbCandidate F) × SearchStats × BpfAmm F)
  best_searched_plan min_arb_profit amm fair_price size stats =
      let min_buy_input = min_buy_input_y in
      let min_sell_input = min_sell_input_x fair_price in
      let start_y = fmin (fmax size min_buy_input) max_input_amount in
      let price = fmax fair_price (f.literal 1 9) in
      let start_x = fmin (fmax (start_y ⊘ price) min_sell_input) max_input_amount in
      plan_arb_buy_x min_arb_profit amm fair_price start_y min_buy_input stats
      >>= λ (buy, stats', amm').
          plan_arb_sell_x min_arb_profit amm' fair_price start_x min_sell_input stats'
          >>= λ (sell, stats'', amm''). some (best_candidate buy sell, stats'', amm'')

  -- The end of `execute_arb`: no plan, no trade.
  unfoldable pub execute_plan :
      F → Option (ArbCandidate F) → BpfAmm F → Option (ArbResult F) × BpfAmm F
  execute_plan fair_price none amm = (none, amm)
  execute_plan fair_price (some best) amm = execute_candidate amm fair_price best

  module _ ⦃rand : Random F⦄ where
    -- `none` is the panic of `unwrap`.
    unfoldable pub create : F → F → F → ℕ → Option (Arbitrageur F)
    create min_arb_profit retail_mean_size retail_size_sigma seed =
        let sigma = fmax retail_size_sigma (f.literal 1 2) in
        let mu_ln = f.ln (fmax retail_mean_size (f.literal 1 2)) ⊖ f.literal 5 1 ⊗ sigma ⊗ sigma in
        rand.log_normal mu_ln sigma >>= λ dist. some (record {
          min_arb_profit = fmax min_arb_profit nought;
          rng = rand.seed_from_u64 seed;
          retail_size_dist = dist;
        })

    unfoldable pub sample_retail_size_y : Arbitrageur F → F × Arbitrageur F
    sample_retail_size_y a =
        let (size, rng) = rand.sample_log_normal a.retail_size_dist a.rng in
        (fmax size min_input, record a { rng = rng })

    unfoldable pub best_plan :
        Arbitrageur F
        → BpfAmm F
        → F
        → SearchStats
        → Option (Option (ArbCandidate F) × Arbitrageur F × SearchStats × BpfAmm F)
    best_plan arb amm fair_price stats =
        let (size, arb') = sample_retail_size_y arb in
        let closed = best_normalizer_plan arb.min_arb_profit amm fair_price >>= λ (best, amm').
        some (best, arb, stats, amm') in
        let searched =
          best_searched_plan arb.min_arb_profit amm fair_price size stats
          >>= λ (best, stats', amm'). some (best, arb', stats', amm') in
        if amm.name == "normalizer" then closed else searched

    unfoldable pub execute_arb :
        Arbitrageur F
        → BpfAmm F
        → F
        → SearchStats
        → Option (Option (ArbResult F) × Arbitrageur F × SearchStats × BpfAmm F)
    execute_arb arb amm fair_price stats =
        let traded = best_plan arb amm fair_price stats >>= λ (best, arb', stats', amm').
        let (result, amm'') = execute_plan fair_price best amm' in
        some (result, arb', stats', amm'') in
        if not (is_finite fair_price) || le fair_price nought
        then some (none, arb, stats, amm)
        else traded
