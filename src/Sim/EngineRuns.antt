-- ===== src/Sim/EngineRuns.antt =====
-- The arbitrageur, the engine and the runner in the number format of Float/Fixed, with a random source that
-- is a counter: two native pools that the normalizer's curve prices.
use prop_amm_challenge.Prelude.{◌≡◌, refl, false, List, [], Option, none, some, arith}
use prop_amm_challenge.Float.{◌⊗◌, ◌⊖◌, nought, clamp, fmax}
use prop_amm_challenge.Buffer.{zeros}
use prop_amm_challenge.Words.{from_le_bytes}
use prop_amm_challenge.Float.Fixed.{Fixed, fixed_float, Fixed-IsFloat, fixed}
use prop_amm_challenge.Shared.Config.{SimulationConfig}
use prop_amm_challenge.Shared.Normalizer as Normalizer
use prop_amm_challenge.Sim.SearchStats.{SearchStats}
use prop_amm_challenge.Sim.Fixtures.{counting, no_stats}
use prop_amm_challenge.Sim.Amm.{BpfAmm, new_native, set_current_step}
use prop_amm_challenge.Sim.Arbitrageur.{
  plan_normalizer_buy_x, plan_normalizer_sell_x, gamma_of, normalizer_fee_bps, min_buy_input_y,
  min_sell_input_x, unplannable, ArbResult,
}
use prop_amm_challenge.Sim.Arbitrageur.Plans.{
  best_plan, best_normalizer_plan, Arbitrageur, execute_arb,
}
use prop_amm_challenge.Sim.Arbitrageur.Plans.Laws.{Arbitraged, IsBestPlan, execute_arb-Arbitraged}
use prop_amm_challenge.Shared.Result.{SimResult}
use prop_amm_challenge.Shared.Instruction.{encode_swap_instruction}
use prop_amm_challenge.Shared.Normalizer.{swap_output}
use prop_amm_challenge.Sim.Arbitrageur.Search.{golden_section_max}
use prop_amm_challenge.Sim.Arbitrageur.Search.Loop.{logged}
use prop_amm_challenge.Sim.Arbitrageur.Search.Best.{IsBestOf, golden_section_max-IsBestOf}
use prop_amm_challenge.Sim.Arbitrageur.Plans.{search_input, buy_objective, sell_objective}
use prop_amm_challenge.Sim.Arbitrageur.Plans.Budget.{SamplesFew, sampled_curve_budget}
use prop_amm_challenge.Sim.Arbitrageur.Plans as Plans
use prop_amm_challenge.Sim.Retail as Retail
use prop_amm_challenge.Sim.Engine.Setup.{native_normalizer, normalizer_pool_fee}
use prop_amm_challenge.Sim.Engine.{
  run_sim_inner, start, Simulation, run_steps, run_step, arbitrage, at_step, route_orders,
}
use prop_amm_challenge.Sim.PriceProcess as PriceProcess
use prop_amm_challenge.Sim.Retail.{generate_orders, draw_orders, draw_order}
use prop_amm_challenge.Sim.Router.{route_order, route_buy}
use prop_amm_challenge.Sim.CurveChecks.{enforce_submission_monotonic_concave}
use prop_amm_challenge.Sim.Engine.Accounts.{run_sim_inner-Explains}
use prop_amm_challenge.Sim.Engine.Log.{Deal, run_deals}
use prop_amm_challenge.Sim.Engine.Deals.{Explains}

abbrev submission_pool : BpfAmm Fixed
submission_pool = new_native Normalizer.compute_swap none (fixed 100) (fixed 10000) "submission"

abbrev arbitrageur : Arbitrageur Fixed
arbitrageur = record { min_arb_profit = nought; rng = 7; retail_size_dist = (fixed 3, fixed 1) }

-- A normalizer's pool that pays 5 of either token for everything, and its arbitrage at 110.
abbrev flat_pool : BpfAmm Fixed
flat_pool = new_native (λ call. 5000000000) none (fixed 100) (fixed 10000) "normalizer"

abbrev a_result : Option (ArbResult Fixed)
a_result = some (record {
  amm_buys_x = false;
  amount_x = fixed 5;
  amount_y = fixed 473765829636426;
  edge = fixed 0;
})

abbrev Arbitrage : Type 0
Arbitrage = Option (ArbResult Fixed) × Arbitrageur Fixed × SearchStats × BpfAmm Fixed

-- The value of a computation that does not panic.
abbrev value_or : {A : Type 0} → A → Option A → A
value_or a none = a
value_or a (some b) = b

abbrev arbitraged : Arbitrage
arbitraged =
    value_or (none, arbitrageur, no_stats, submission_pool)
      (execute_arb arbitrageur flat_pool (fixed 110) no_stats)

arbitraged_returns :
    execute_arb arbitrageur flat_pool (fixed 110) no_stats
    ≡ some (arbitraged.0, arbitraged.1, arbitraged.2, arbitraged.3)
unfolding execute_arb best_plan best_normalizer_plan plan_normalizer_buy_x plan_normalizer_sell_x
    clamp unplannable new_native gamma_of normalizer_fee_bps from_le_bytes zeros min_buy_input_y
    min_sell_input_x fmax prop_amm_challenge.Sim.Amm.quote_buy_x
    prop_amm_challenge.Sim.Amm.not_positive prop_amm_challenge.Float.clamp_to
    prop_amm_challenge.Sim.Amm.drained prop_amm_challenge.Shared.Nano.nano_to_f64
    prop_amm_challenge.Sim.Amm.call prop_amm_challenge.Sim.Amm.call_backend
    prop_amm_challenge.Executor.Native.execute
arbitraged_returns = refl

execute_arb-Arbitraged_example :
    Arbitraged
      (IsBestPlan arbitrageur flat_pool (fixed 110) no_stats)
      nought
      (fixed 110)
      flat_pool
      arbitraged.0
      arbitraged.3
execute_arb-Arbitraged_example =
    execute_arb-Arbitraged Fixed-IsFloat arbitrageur flat_pool (fixed 110) no_stats arbitraged.0
      arbitraged.1 arbitraged.2 arbitraged.3 arbitraged_returns

-- A simulation of one step with one order, in which both pools are flat and the price stays at 110.
abbrev simulation : Simulation Fixed
simulation = record {
  price = PriceProcess.create (fixed 110) nought nought nought 1;
  retail = record { buy_prob = fixed 1; rng = 2; poisson = fixed 1; lognormal = (nought, nought) };
  arb = arbitrageur;
  stats = no_stats;
  book = record { edge = nought; amm_sub = flat_pool; amm_norm = flat_pool };
}

abbrev simulated : Simulation Fixed
simulated = value_or simulation (run_steps 1 0 simulation)

simulated_returns : run_steps 1 0 simulation ≡ some simulated
unfolding run_steps run_step PriceProcess.step PriceProcess.create arbitrage at_step
    set_current_step generate_orders draw_orders draw_order route_orders route_order route_buy
    enforce_submission_monotonic_concave execute_arb best_plan best_normalizer_plan
    plan_normalizer_buy_x plan_normalizer_sell_x clamp unplannable new_native gamma_of
    normalizer_fee_bps from_le_bytes zeros min_buy_input_y min_sell_input_x fmax
    prop_amm_challenge.Sim.Amm.quote_buy_x prop_amm_challenge.Sim.Amm.not_positive
    prop_amm_challenge.Float.clamp_to prop_amm_challenge.Sim.Amm.drained
    prop_amm_challenge.Shared.Nano.nano_to_f64 prop_amm_challenge.Sim.Amm.call
    prop_amm_challenge.Sim.Amm.call_backend prop_amm_challenge.Executor.Native.execute
    prop_amm_challenge.Sim.Router.maximize_split prop_amm_challenge.Sim.Router.finish_search
    prop_amm_challenge.Sim.Router.quote_buy_split prop_amm_challenge.Sim.Router.quote_if
    prop_amm_challenge.Sim.Router.golden_loop prop_amm_challenge.Sim.Router.is_narrow
    prop_amm_challenge.Sim.Router.start_search prop_amm_challenge.Sim.Router.is_flat
    prop_amm_challenge.Sim.Router.within_rel_gap prop_amm_challenge.Sim.Router.quote_score
    prop_amm_challenge.Sim.Arbitrageur.Plans.execute_plan
    prop_amm_challenge.Sim.Arbitrageur.best_candidate prop_amm_challenge.Sim.Arbitrageur.candidate
    prop_amm_challenge.Sim.Arbitrageur.execute_candidate
    prop_amm_challenge.Sim.Arbitrageur.execute_side prop_amm_challenge.Sim.Amm.execute_buy_x
    prop_amm_challenge.Sim.Amm.no_trade prop_amm_challenge.Sim.Amm.call_after_swap
    prop_amm_challenge.Sim.Amm.after_swap_backend
simulated_returns = refl

-- The same step from a configuration.
abbrev config : SimulationConfig Fixed
config = record {
  n_steps = 1;
  initial_price = fixed 110;
  initial_x = fixed 100;
  initial_y = fixed 10000;
  gbm_mu = nought;
  gbm_sigma = nought;
  gbm_dt = nought;
  retail_arrival_rate = fixed 1;
  retail_mean_size = fixed 20;
  retail_size_sigma = fixed 1;
  retail_buy_prob = fixed 1;
  min_arb_profit = nought;
  seed = 5;
  norm_fee_bps = 45;
  norm_liquidity_mult = fixed 1;
}

abbrev ran : SimResult Fixed × SearchStats
ran =
    value_or (record { seed = 0; submission_edge = nought }, no_stats)
      (run_sim_inner flat_pool flat_pool config no_stats)

ran_returns : run_sim_inner flat_pool flat_pool config no_stats ≡ some (ran.0, ran.1)
unfolding run_sim_inner start Retail.create Plans.create run_steps run_step PriceProcess.step
    PriceProcess.create arbitrage at_step set_current_step generate_orders draw_orders draw_order
    route_orders route_order route_buy enforce_submission_monotonic_concave execute_arb best_plan
    best_normalizer_plan plan_normalizer_buy_x plan_normalizer_sell_x clamp unplannable new_native
    gamma_of normalizer_fee_bps from_le_bytes zeros min_buy_input_y min_sell_input_x fmax
    prop_amm_challenge.Sim.Amm.quote_buy_x prop_amm_challenge.Sim.Amm.not_positive
    prop_amm_challenge.Float.clamp_to prop_amm_challenge.Sim.Amm.drained
    prop_amm_challenge.Shared.Nano.nano_to_f64 prop_amm_challenge.Sim.Amm.call
    prop_amm_challenge.Sim.Amm.call_backend prop_amm_challenge.Executor.Native.execute
    prop_amm_challenge.Sim.Router.maximize_split prop_amm_challenge.Sim.Router.finish_search
    prop_amm_challenge.Sim.Router.quote_buy_split prop_amm_challenge.Sim.Router.quote_if
    prop_amm_challenge.Sim.Router.golden_loop prop_amm_challenge.Sim.Router.is_narrow
    prop_amm_challenge.Sim.Router.start_search prop_amm_challenge.Sim.Router.is_flat
    prop_amm_challenge.Sim.Router.within_rel_gap prop_amm_challenge.Sim.Router.quote_score
    prop_amm_challenge.Sim.Arbitrageur.Plans.execute_plan
    prop_amm_challenge.Sim.Arbitrageur.best_candidate prop_amm_challenge.Sim.Arbitrageur.candidate
    prop_amm_challenge.Sim.Arbitrageur.execute_candidate
    prop_amm_challenge.Sim.Arbitrageur.execute_side prop_amm_challenge.Sim.Amm.execute_buy_x
    prop_amm_challenge.Sim.Amm.no_trade prop_amm_challenge.Sim.Amm.call_after_swap
    prop_amm_challenge.Sim.Amm.after_swap_backend
ran_returns = refl

run_sim_inner-Explains_example :
    (sim : Simulation Fixed) × (end : Simulation Fixed) × (deals : List (Deal Fixed)) × (start
        flat_pool flat_pool config no_stats
      ≡ some sim)
    × (run_steps 1 0 sim ≡ some end)
    × (run_deals 1 0 sim ≡ some deals)
    × Explains deals (record { edge = nought; amm_sub = flat_pool; amm_norm = flat_pool }) end.book
    × (ran.0.submission_edge ≡ end.book.edge)
    × (ran.0.seed ≡ 5)
run_sim_inner-Explains_example =
    run_sim_inner-Explains Fixed-IsFloat flat_pool flat_pool config no_stats ran.1 ran.0 ran_returns

normalizer_pool_fee_example :
    let pool = native_normalizer Normalizer.compute_swap none config in
    (normalizer_fee_bps pool ≡ 45)
    × (Normalizer.compute_swap (encode_swap_instruction 0 7000 2000000 3000000 pool.storage)
        ≡ swap_output 45 0 7000 2000000 3000000)
normalizer_pool_fee_example =
    normalizer_pool_fee Normalizer.compute_swap none config 0 7000 2000000 3000000 (omega arith)
      (omega arith) (omega arith) (omega arith) (omega arith)

-- A search for the best of x * (20 - x) between 1 and 16.
golden_section_max-IsBestOf_example :
    let objective : Fixed → Unit {0} → Fixed × Unit {0} = λ x w. (x ⊗ (fixed 20 ⊖ x), w) in
    let (found, _, (_, log)) =
      golden_section_max (logged objective) (fixed 1) (fixed 16) no_stats (tt, []) in
    IsBestOf found log
golden_section_max-IsBestOf_example =
    golden_section_max-IsBestOf Fixed-IsFloat (λ x w. (x ⊗ (fixed 20 ⊖ x), w)) (fixed 1) (fixed 16)
      no_stats tt

sampled_curve_budget_example :
    SamplesFew (search_input (buy_objective (fixed 110)) (fixed 20) nought no_stats submission_pool)
    × SamplesFew
        (search_input (sell_objective (fixed 110)) (fixed 20) nought no_stats submission_pool)
sampled_curve_budget_example =
    sampled_curve_budget Fixed-IsFloat (fixed 110) (fixed 20) nought no_stats submission_pool
