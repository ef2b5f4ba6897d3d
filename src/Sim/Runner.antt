-- ===== src/Sim/Runner.antt =====
-- crates/sim/src/runner.rs: batches of simulations. `none` is a panic of one of them, which the thread pool
-- passes on. The counters of search_stats.rs, which the simulations share, are passed through in the order
-- of the configurations.
pub mod Seeds
pub mod Order
use prop_amm_challenge.Prelude.{
  ℕ, ◌+◌, ◌*◌, ◌%◌, min, Bool, List, [], ◌∷◌, Option, none, some, ◌>>=◌, if◌then◌else◌,
}
use prop_amm_challenge.Words.{u64_mod}
use prop_amm_challenge.Float.{Float}
use prop_amm_challenge.Random.{Random}
use prop_amm_challenge.Shared.Config.{
  SimulationConfig, default_config, default_variance, apply_each,
}
use prop_amm_challenge.Shared.Result.{SimResult, BatchResult, from_results}
use prop_amm_challenge.Executor.Native.{SwapFn, AfterSwapFn}
use prop_amm_challenge.Executor.Vm.{BpfProgram}
use prop_amm_challenge.Sim.SearchStats.{SearchStats}
use prop_amm_challenge.Sim.Engine.{run_simulation, run_simulation_native, run_simulation_mixed}

-- What the runner asks of rayon: the default number of threads, and whether a pool of so many is built.
pub record Rayon : Type 0 where
  pub current_num_threads : ℕ
  pub builds : ℕ → Bool

-- `?` on the thread pool, or the batch.
pub data Batch (F : Type 0) : Type 0 where
  no_pool : Batch F
  batch : BatchResult F → Batch F

unfoldable pub num_threads : Rayon → Option ℕ → ℕ
num_threads rayon none = min rayon.current_num_threads 8
num_threads rayon (some n) = n

module _ {F : Type 0} ⦃f : Float F⦄ where
  -- `configs.par_iter().map(simulate).collect()`, which keeps the order.
  unfoldable pub collect :
      (SimulationConfig F → SearchStats → Option (SimResult F × SearchStats))
      → List (SimulationConfig F)
      → SearchStats
      → Option (List (SimResult F) × SearchStats)
  collect simulate [] stats = some ([], stats)
  collect simulate (config ∷ configs) stats = simulate config stats >>= λ (result, stats').
      collect simulate configs stats' >>= λ (results, stats''). some (result ∷ results, stats'')

  unfoldable pub run_on_pool :
      (SimulationConfig F → SearchStats → Option (SimResult F × SearchStats))
      → Rayon
      → List (SimulationConfig F)
      → Option ℕ
      → SearchStats
      → Option (Batch F × SearchStats)
  run_on_pool simulate rayon configs n_workers stats =
      let collected = collect simulate configs stats >>= λ (results, stats').
      some (batch (from_results results), stats') in
      if rayon.builds (num_threads rayon n_workers) then collected else some (no_pool, stats)

  module _ ⦃rand : Random F⦄ where
    unfoldable pub default_configs : ℕ → ℕ → ℕ → ℕ → Option (List (SimulationConfig F))
    default_configs n_sims n_steps seed_start seed_stride =
        apply_each default_variance (record default_config { n_steps = n_steps })
          (λ i. (seed_start + i * seed_stride % u64_mod) % u64_mod) n_sims 0

    unfoldable pub run_batch :
        BpfProgram
        → BpfProgram
        → Rayon
        → List (SimulationConfig F)
        → Option ℕ
        → SearchStats
        → Option (Batch F × SearchStats)
    run_batch submission_program normalizer_program =
        run_on_pool (run_simulation submission_program normalizer_program)

    unfoldable pub run_batch_native :
        SwapFn
        → Option AfterSwapFn
        → SwapFn
        → Option AfterSwapFn
        → Rayon
        → List (SimulationConfig F)
        → Option ℕ
        → SearchStats
        → Option (Batch F × SearchStats)
    run_batch_native submission_fn submission_after_swap normalizer_fn normalizer_after_swap =
        run_on_pool (
          run_simulation_native submission_fn submission_after_swap normalizer_fn
            normalizer_after_swap)

    -- The batches of configurations with the default variance.
    unfoldable pub run_default_batch_seeded :
        BpfProgram
        → BpfProgram
        → Rayon
        → ℕ
        → ℕ
        → Option ℕ
        → ℕ
        → ℕ
        → SearchStats
        → Option (Batch F × SearchStats)
    run_default_batch_seeded sub norm rayon n_sims n_steps n_workers seed_start seed_stride stats =
        default_configs n_sims n_steps seed_start seed_stride >>= λ configs.
        run_batch sub norm rayon configs n_workers stats

    unfoldable pub run_default_batch :
        BpfProgram
        → BpfProgram
        → Rayon
        → ℕ
        → ℕ
        → Option ℕ
        → SearchStats
        → Option (Batch F × SearchStats)
    run_default_batch sub norm rayon n_sims n_steps n_workers stats =
        default_configs n_sims n_steps 0 1 >>= λ configs.
        run_batch sub norm rayon configs n_workers stats

    unfoldable pub run_default_batch_mixed_seeded :
        BpfProgram
        → SwapFn
        → Option AfterSwapFn
        → Rayon
        → ℕ
        → ℕ
        → Option ℕ
        → ℕ
        → ℕ
        → SearchStats
        → Option (Batch F × SearchStats)
    run_default_batch_mixed_seeded sub norm_fn norm_after rayon n_sims n_steps n_workers seed_start
          seed_stride stats =
        default_configs n_sims n_steps seed_start seed_stride >>= λ configs.
        run_on_pool (run_simulation_mixed sub norm_fn norm_after) rayon configs n_workers stats

    unfoldable pub run_default_batch_mixed :
        BpfProgram
        → SwapFn
        → Option AfterSwapFn
        → Rayon
        → ℕ
        → ℕ
        → Option ℕ
        → SearchStats
        → Option (Batch F × SearchStats)
    run_default_batch_mixed sub norm_fn norm_after rayon n_sims n_steps n_workers stats =
        default_configs n_sims n_steps 0 1 >>= λ configs.
        run_on_pool (run_simulation_mixed sub norm_fn norm_after) rayon configs n_workers stats

    unfoldable pub run_default_batch_native_seeded :
        SwapFn
        → Option AfterSwapFn
        → SwapFn
        → Option AfterSwapFn
        → Rayon
        → ℕ
        → ℕ
        → Option ℕ
        → ℕ
        → ℕ
        → SearchStats
        → Option (Batch F × SearchStats)
    run_default_batch_native_seeded sub_fn sub_after norm_fn norm_after rayon n_sims n_steps
          n_workers seed_start seed_stride stats =
        default_configs n_sims n_steps seed_start seed_stride >>= λ configs.
        run_batch_native sub_fn sub_after norm_fn norm_after rayon configs n_workers stats

    unfoldable pub run_default_batch_native :
        SwapFn
        → Option AfterSwapFn
        → SwapFn
        → Option AfterSwapFn
        → Rayon
        → ℕ
        → ℕ
        → Option ℕ
        → SearchStats
        → Option (Batch F × SearchStats)
    run_default_batch_native sub_fn sub_after norm_fn norm_after rayon n_sims n_steps n_workers
          stats =
        default_configs n_sims n_steps 0 1 >>= λ configs.
        run_batch_native sub_fn sub_after norm_fn norm_after rayon configs n_workers stats
