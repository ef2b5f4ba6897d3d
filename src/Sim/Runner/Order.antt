-- ===== src/Sim/Runner/Order.antt =====
-- crates/sim/src/runner.rs: the results of a batch, in the order of the configurations.
use prop_amm_challenge.Prelude.{
  ℕ, ◌*◌, ◌^◌, ◌≤◌, ◌<◌, ◌≡◌, ◌≢◌, refl, sym, ap, ◌∙◌, subst, List, [], ◌∷◌, map, length,
  length-map, get_or, Option, ◌>>=◌, arith, Holds, Holds-bind, Anything, anything, either_way,
}
use prop_amm_challenge.Float.{Float}
use prop_amm_challenge.Random.{Random}
use prop_amm_challenge.Shared.Config.{SimulationConfig}
use prop_amm_challenge.Shared.Result.{SimResult, BatchResult, from_results}
use prop_amm_challenge.Executor.Native.{SwapFn, AfterSwapFn}
use prop_amm_challenge.Executor.Vm.{BpfProgram}
use prop_amm_challenge.Sim.SearchStats.{SearchStats}
use prop_amm_challenge.Sim.Amm.{BpfAmm}
use prop_amm_challenge.Sim.Engine.{
  run_sim_inner, start, run_steps, run_simulation_native, run_simulation_mixed,
}
use prop_amm_challenge.Sim.Runner.{
  Rayon, Batch, no_pool, batch, collect, run_on_pool, num_threads, default_configs,
  run_batch_native, run_default_batch_native_seeded, run_default_batch_mixed_seeded,
}
use prop_amm_challenge.Sim.Runner.Seeds.{
  seeds_from, nth_seed, SeededAll, default_configs_seeds, distinct_seeds, length-seeds_from,
  get_or-seeds_from,
}

module _ {F : Type 0} ⦃f : Float F⦄ where
  -- A result with the seed of its configuration.
  unfoldable ResultOf : SimulationConfig F → SimResult F × SearchStats → Type 0
  ResultOf config (result, _) = result.seed ≡ config.seed

  InOrder : List (SimulationConfig F) → List (SimResult F) × SearchStats → Type 0
  InOrder configs (results, _) = map (λ r. r.seed) results ≡ map (λ c. c.seed) configs

  collect-InOrder :
      (simulate : SimulationConfig F → SearchStats → Option (SimResult F × SearchStats))
      → ((config : SimulationConfig F) (stats : SearchStats)
          → Holds (ResultOf config) (simulate config stats))
      → (configs : List (SimulationConfig F)) (stats : SearchStats)
      → Holds (InOrder configs) (collect simulate configs stats)
  unfolding collect InOrder ResultOf
  collect-InOrder simulate each [] stats = refl
  collect-InOrder simulate each (config ∷ configs) stats =
      Holds-bind (ResultOf config) (InOrder (config ∷ configs)) _ _ (each config stats)
        (λ (result, stats') e.
          Holds-bind (InOrder configs) (InOrder (config ∷ configs)) _ _
            (collect-InOrder simulate each configs stats') (λ _ es. λ i. e i ∷ es i))

  -- The seeds of a batch, if its thread pool was built.
  unfoldable pub Seeded : List ℕ → Batch F × SearchStats → Type 0
  Seeded seeds (no_pool, _) = Unit
  Seeded seeds (batch b, _) = map (λ r. r.seed) b.results ≡ seeds

  run_on_pool-Seeded :
      (simulate : SimulationConfig F → SearchStats → Option (SimResult F × SearchStats))
      → ((config : SimulationConfig F) (stats : SearchStats)
          → Holds (ResultOf config) (simulate config stats))
      → (rayon : Rayon) (configs : List (SimulationConfig F)) (n_workers : Option ℕ)
        (stats : SearchStats)
      → Holds
          (Seeded (map (λ c. c.seed) configs))
          (run_on_pool simulate rayon configs n_workers stats)
  unfolding run_on_pool Seeded InOrder from_results
  run_on_pool-Seeded simulate each rayon configs n_workers stats =
      let seeds = map (λ c. c.seed) configs in
      either_way (Holds (Seeded seeds)) (rayon.builds (num_threads rayon n_workers))
        (λ _.
          Holds-bind (InOrder configs) (Seeded seeds) _ _
            (collect-InOrder simulate each configs stats) (λ _ e. e))
        (λ _. tt)

  module _ ⦃rand : Random F⦄ where
    run_sim_inner-ResultOf :
        (sub norm : BpfAmm F) (config : SimulationConfig F) (stats : SearchStats)
        → Holds (ResultOf config) (run_sim_inner sub norm config stats)
    unfolding run_sim_inner ResultOf
    run_sim_inner-ResultOf sub norm config stats =
        Holds-bind Anything (ResultOf config) (start sub norm config stats) _ (anything _) (λ sim _.
          Holds-bind Anything (ResultOf config) (run_steps config.n_steps 0 sim) _ (anything _)
            (λ _ _. refl))

module _ (F : Type 0) ⦃f : Float F⦄ ⦃rand : Random F⦄ where
  -- The seeds of a batch with the default variance.
  default_batch-Seeded :
      (simulate : SimulationConfig F → SearchStats → Option (SimResult F × SearchStats))
      → ((config : SimulationConfig F) (stats : SearchStats)
          → Holds (ResultOf config) (simulate config stats))
      → (rayon : Rayon) (n n_steps : ℕ) (n_workers : Option ℕ) (seed_start seed_stride : ℕ)
        (stats : SearchStats)
      → Holds (Seeded (seeds_from (nth_seed seed_start seed_stride) n 0)) (
          default_configs n n_steps seed_start seed_stride >>= λ configs.
          run_on_pool simulate rayon configs n_workers stats)
  unfolding SeededAll
  default_batch-Seeded simulate each rayon n n_steps n_workers seed_start stride stats =
      let seeds = seeds_from (nth_seed seed_start stride) n 0 in
      Holds-bind (SeededAll (nth_seed seed_start stride) n 0) (Seeded seeds) _ _
        (default_configs_seeds F n n_steps seed_start stride)
        (λ configs e.
          subst (λ s. Holds (Seeded s) (run_on_pool simulate rayon configs n_workers stats)) e
            (run_on_pool-Seeded simulate each rayon configs n_workers stats))

  pub native_batch-Seeded :
      (sub norm : SwapFn) (sub_after norm_after : Option AfterSwapFn) (rayon : Rayon)
      (n n_steps : ℕ) (n_workers : Option ℕ) (seed_start seed_stride : ℕ) (stats : SearchStats)
      → Holds (Seeded {F = F} (seeds_from (nth_seed seed_start seed_stride) n 0)) (
          run_default_batch_native_seeded sub sub_after norm norm_after rayon n n_steps n_workers
            seed_start seed_stride stats)
  unfolding run_default_batch_native_seeded run_batch_native run_simulation_native
  native_batch-Seeded sub norm sub_after norm_after rayon =
      default_batch-Seeded _ (λ config stats. run_sim_inner-ResultOf _ _ config stats) rayon

  pub mixed_batch-Seeded :
      (sub : BpfProgram) (norm : SwapFn) (norm_after : Option AfterSwapFn) (rayon : Rayon)
      (n n_steps : ℕ) (n_workers : Option ℕ) (seed_start seed_stride : ℕ) (stats : SearchStats)
      → Holds (Seeded {F = F} (seeds_from (nth_seed seed_start seed_stride) n 0)) (
          run_default_batch_mixed_seeded sub norm norm_after rayon n n_steps n_workers seed_start
            seed_stride stats)
  unfolding run_default_batch_mixed_seeded run_simulation_mixed
  mixed_batch-Seeded sub norm norm_after rayon =
      default_batch-Seeded _ (λ config stats. run_sim_inner-ResultOf _ _ config stats) rayon

-- What the seeds in order say of two simulations.
pub seeds_of_batch :
    {F : Type 0} (seed_start seed_stride n : ℕ) (result : BatchResult F) (i j : ℕ)
    → map (λ r. r.seed) result.results ≡ seeds_from (nth_seed seed_start seed_stride) n 0
    → i < j
    → j < n
    → 0 < seed_stride
    → n * seed_stride ≤ 2 ^ 64
    → let seeds = map (λ r. r.seed) result.results in
      (length result.results ≡ n)
      × (get_or seeds i 0 ≡ nth_seed seed_start seed_stride i)
      × (get_or seeds i 0 ≢ get_or seeds j 0)
seeds_of_batch seed_start stride n result i j seeds lt below positive fits =
    let s = nth_seed seed_start stride in
    let at : (k : ℕ) → k < n → get_or (map (λ r. r.seed) result.results) k 0 ≡ s k =
      λ k h. ap (λ xs. get_or xs k 0) seeds ∙ get_or-seeds_from s n 0 k h ∙ ap s (omega arith) in
    let first = at i (omega arith) in
    (
      sym (length-map result.results (λ r. r.seed)) ∙ ap length seeds ∙ length-seeds_from s n 0,
      first,
      λ same.
          distinct_seeds seed_start stride i j n lt below positive fits
            (sym first ∙ same ∙ at j below),
    )
