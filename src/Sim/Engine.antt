-- ===== src/Sim/Engine.antt =====
-- crates/sim/src/engine.rs: a simulation of the submission's pool beside the normalizer's. `none` is a
-- panic of a part; the counters of search_stats.rs are passed through.
pub mod Log
pub mod Deals
pub mod Accounts
pub mod Setup
use prop_amm_challenge.Prelude.{
  ℕ, zero, suc, ◌+◌, ◌%◌, Bool, List, [], ◌∷◌, Option, none, some, ◌>>=◌, if◌then◌else◌,
}
use prop_amm_challenge.Words.{u64_mod, to_le_bytes}
use prop_amm_challenge.Float.{Float, ◌⊕◌, ◌⊖◌, ◌⊗◌, nought}
use prop_amm_challenge.Random.{Random}
use prop_amm_challenge.Shared.Config.{SimulationConfig}
use prop_amm_challenge.Shared.Result.{SimResult}
use prop_amm_challenge.Executor.Native.{SwapFn, AfterSwapFn}
use prop_amm_challenge.Executor.Vm.{BpfProgram}
use prop_amm_challenge.Sim.SearchStats.{SearchStats}
use prop_amm_challenge.Sim.Amm as Amm
use prop_amm_challenge.Sim.Amm.{BpfAmm, set_current_step, set_initial_storage}
use prop_amm_challenge.Sim.PriceProcess as PriceProcess
use prop_amm_challenge.Sim.PriceProcess.{GbmPriceProcess}
use prop_amm_challenge.Sim.Retail as Retail
use prop_amm_challenge.Sim.Retail.{RetailTrader, RetailOrder, generate_orders}
use prop_amm_challenge.Sim.Router.{RoutedTrade, Markets, route_order}
use prop_amm_challenge.Sim.Arbitrageur.{ArbResult}
use prop_amm_challenge.Sim.Arbitrageur.Plans as Plans
use prop_amm_challenge.Sim.Arbitrageur.Plans.{Arbitrageur, execute_arb}

-- `submission_edge` and the two pools.
pub record Book (F : Type 0) : Type 0 where
  pub edge : F
  pub amm_sub : BpfAmm F
  pub amm_norm : BpfAmm F

-- The locals of `run_sim_inner`, with the counters.
pub record Simulation (F : Type 0) ⦃rand : Random F⦄ : Type 0 where
  pub price : GbmPriceProcess F
  pub retail : RetailTrader F
  pub arb : Arbitrageur F
  pub stats : SearchStats
  pub book : Book F

module _ {F : Type 0} ⦃f : Float F⦄ where
  unfoldable pub trade_edge : F → RoutedTrade F → F
  trade_edge fair_price trade =
      if trade.amm_buys_x
      then trade.amount_x ⊗ fair_price ⊖ trade.amount_y
      else trade.amount_y ⊖ trade.amount_x ⊗ fair_price

  unfoldable pub add_trades : F → List (RoutedTrade F) → F → F
  add_trades fair_price [] edge = edge
  add_trades fair_price (trade ∷ trades) edge =
      let added = edge ⊕ trade_edge fair_price trade in
      add_trades fair_price trades (if trade.is_submission then added else edge)

  unfoldable pub add_result : Option (ArbResult F) → F → F
  add_result none edge = edge
  add_result (some result) edge = edge ⊕ result.edge

  unfoldable pub route_orders :
      F → List (RetailOrder F) → SearchStats → Book F → Option (SearchStats × Book F)
  route_orders fair_price [] stats book = some (stats, book)
  route_orders fair_price (order ∷ orders) stats book =
      route_order order fair_price stats (book.amm_sub, book.amm_norm)
      >>= λ (trades, stats', (amm_sub, amm_norm)). route_orders fair_price orders stats' (record {
        edge = add_trades fair_price trades book.edge;
        amm_sub = amm_sub;
        amm_norm = amm_norm;
      })

  unfoldable pub at_step : ℕ → Book F → Book F
  at_step n book = record book {
    amm_sub = set_current_step book.amm_sub n;
    amm_norm = set_current_step book.amm_norm n;
  }

  -- `norm_x`, `norm_y` and the fee in the normalizer's storage, for a pool made from the reserves.
  unfoldable pub normalizer_pool : (F → F → BpfAmm F) → SimulationConfig F → BpfAmm F
  normalizer_pool made config =
      let norm_x = config.initial_x ⊗ config.norm_liquidity_mult in
      let norm_y = config.initial_y ⊗ config.norm_liquidity_mult in
      set_initial_storage (made norm_x norm_y) (to_le_bytes 2 config.norm_fee_bps)

  module _ ⦃rand : Random F⦄ where
    -- The two calls of `execute_arb` of a step.
    unfoldable pub arbitrage :
        F → Arbitrageur F → SearchStats → Book F → Option (Arbitrageur F × SearchStats × Book F)
    arbitrage fair_price arb stats book =
        execute_arb arb book.amm_sub fair_price stats >>= λ (result, arb1, stats1, amm_sub).
        execute_arb arb1 book.amm_norm fair_price stats1 >>= λ (_, arb2, stats2, amm_norm). some (
          arb2,
          stats2,
          record { edge = add_result result book.edge; amm_sub = amm_sub; amm_norm = amm_norm },
        )

    -- The body of the loop.
    unfoldable pub run_step : ℕ → Simulation F → Option (Simulation F)
    run_step n sim =
        let (fair_price, price) = PriceProcess.step sim.price in
        arbitrage fair_price sim.arb sim.stats (at_step n sim.book) >>= λ (arb, stats, book).
        let (orders, retail) = generate_orders sim.retail in
        route_orders fair_price orders stats book >>= λ (stats', book').
        some (record { price = price; retail = retail; arb = arb; stats = stats'; book = book' })

    -- The loop over `n` steps from the given one on.
    unfoldable pub run_steps : ℕ → ℕ → Simulation F → Option (Simulation F)
    run_steps zero step sim = some sim
    run_steps (suc n) step sim = run_step step sim >>= run_steps n (step + 1)

    -- The locals before the loop.
    unfoldable pub start :
        BpfAmm F → BpfAmm F → SimulationConfig F → SearchStats → Option (Simulation F)
    start amm_sub amm_norm config stats =
        Retail.create config.retail_arrival_rate config.retail_mean_size config.retail_size_sigma
          config.retail_buy_prob ((config.seed + 1) % u64_mod)
        >>= λ retail.
            Plans.create config.min_arb_profit config.retail_mean_size config.retail_size_sigma
              ((config.seed + 2) % u64_mod)
            >>= λ arb. some (record {
              price =
                  PriceProcess.create config.initial_price config.gbm_mu config.gbm_sigma
                    config.gbm_dt config.seed;
              retail = retail;
              arb = arb;
              stats = stats;
              book = record { edge = nought; amm_sub = amm_sub; amm_norm = amm_norm };
            })

    unfoldable pub run_sim_inner :
        BpfAmm F → BpfAmm F → SimulationConfig F → SearchStats → Option (SimResult F × SearchStats)
    run_sim_inner amm_sub amm_norm config stats = start amm_sub amm_norm config stats >>= λ sim.
        run_steps config.n_steps 0 sim >>= λ end.
        some (record { seed = config.seed; submission_edge = end.book.edge }, end.stats)

    unfoldable pub run_simulation :
        BpfProgram
        → BpfProgram
        → SimulationConfig F
        → SearchStats
        → Option (SimResult F × SearchStats)
    run_simulation submission_program normalizer_program config stats =
        let amm_sub =
          Amm.create submission_program config.initial_x config.initial_y "submission" in
        let amm_norm =
          normalizer_pool (λ x y. Amm.create normalizer_program x y "normalizer") config in
        run_sim_inner amm_sub amm_norm config stats

    unfoldable pub run_simulation_native :
        SwapFn
        → Option AfterSwapFn
        → SwapFn
        → Option AfterSwapFn
        → SimulationConfig F
        → SearchStats
        → Option (SimResult F × SearchStats)
    run_simulation_native submission_fn submission_after_swap normalizer_fn normalizer_after_swap
          config stats =
        let amm_sub =
          Amm.new_native submission_fn submission_after_swap config.initial_x config.initial_y
            "submission" in
        let made : F → F → BpfAmm F =
          λ x y. Amm.new_native normalizer_fn normalizer_after_swap x y "normalizer" in
        run_sim_inner amm_sub (normalizer_pool made config) config stats

    unfoldable pub run_simulation_mixed :
        BpfProgram
        → SwapFn
        → Option AfterSwapFn
        → SimulationConfig F
        → SearchStats
        → Option (SimResult F × SearchStats)
    run_simulation_mixed submission_program normalizer_fn normalizer_after_swap config stats =
        let amm_sub =
          Amm.create submission_program config.initial_x config.initial_y "submission" in
        let made : F → F → BpfAmm F =
          λ x y. Amm.new_native normalizer_fn normalizer_after_swap x y "normalizer" in
        run_sim_inner amm_sub (normalizer_pool made config) config stats
