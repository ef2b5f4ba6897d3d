-- ===== src/Cli/Run/Seeds.antt =====
-- crates/cli/src/commands/run.rs: the seeds of the simulations of a run.
use prop_amm_challenge.Prelude.{
  ℕ, ◌*◌, ◌^◌, ◌≤◌, ◌<◌, ◌≡◌, ◌≢◌, Option, some, map, get_or, arith, ◌==◌, Holds, Holds-bind,
  Holds-some, either_way,
}
use prop_amm_challenge.Float.{Float}
use prop_amm_challenge.Random.{Random}
use prop_amm_challenge.Shared.Result.{BatchResult, n_sims}
use prop_amm_challenge.Sim.SearchStats.{SearchStats}
use prop_amm_challenge.Sim.Runner.{Rayon, batch}
use prop_amm_challenge.Sim.Runner.Seeds.{seeds_from, nth_seed}
use prop_amm_challenge.Sim.Runner.Order.{
  Seeded, native_batch-Seeded, mixed_batch-Seeded, seeds_of_batch,
}
use prop_amm_challenge.Cli.Run.{
  Loaded, native, bpf, Outcome, zero_stride, ran, n_workers, run_loaded, run,
}

module _ {F : Type 0} ⦃f : Float F⦄ where
  -- A batch was run with a positive stride, and its simulations have their seeds.
  SeededRun : ℕ → ℕ → ℕ → Outcome F × SearchStats → Type 0
  SeededRun n seed_start seed_stride (zero_stride, _) = Unit
  SeededRun n seed_start seed_stride (ran b, stats) =
      (0 < seed_stride) × Seeded (seeds_from (nth_seed seed_start seed_stride) n 0) (b, stats)

module _ (F : Type 0) ⦃f : Float F⦄ ⦃rand : Random F⦄ where
  pub run_loaded-Seeded :
      (loaded : Loaded) (rayon : Rayon) (n steps : ℕ) (workers : Option ℕ)
      (seed_start seed_stride : ℕ) (stats : SearchStats)
      → Holds
          (Seeded (seeds_from (nth_seed seed_start seed_stride) n 0))
          (run_loaded F loaded rayon n steps workers seed_start seed_stride stats)
  unfolding run_loaded
  run_loaded-Seeded (native swap after) rayon = native_batch-Seeded F swap _ after _ rayon
  run_loaded-Seeded (bpf program) rayon = mixed_batch-Seeded F program _ _ rayon

  run-SeededRun :
      (loaded : Loaded) (rayon : Rayon) (n steps workers seed_start seed_stride : ℕ)
      (stats : SearchStats)
      → Holds
          (SeededRun n seed_start seed_stride)
          (run F loaded rayon n steps workers seed_start seed_stride stats)
  unfolding run SeededRun
  run-SeededRun loaded rayon n steps workers seed_start stride stats =
      either_way (Holds (SeededRun n seed_start stride)) (stride == 0) (λ _. tt)
        (λ e.
          Holds-bind (Seeded (seeds_from (nth_seed seed_start stride) n 0))
            (SeededRun n seed_start stride) _ _
            (run_loaded-Seeded loaded rayon n steps (n_workers workers) seed_start stride stats)
            (λ (b, stats') h. (ground arith, h)))

module _ {F : Type 0} ⦃f : Float F⦄ ⦃rand : Random F⦄ where
  -- When a run of the command line, native or on the virtual machine, gives a result, the number n
  -- of simulations times the stride is at most 2^64, and i < j < n, then the result has n
  -- simulations in the order of their configurations: the seed of the i-th is the start plus i
  -- strides modulo 2^64, and the j-th has another seed. A stride of zero is refused, so none is
  -- assumed positive.
  pub run_seeds :
      (loaded : Loaded) (rayon : Rayon) (n steps workers seed_start seed_stride : ℕ)
      (stats stats' : SearchStats) (result : BatchResult F) (i j : ℕ)
      → run F loaded rayon n steps workers seed_start seed_stride stats
        ≡ some (ran (batch result), stats')
      → i < j
      → j < n
      → n * seed_stride ≤ 2 ^ 64
      → let seeds = map (λ r. r.seed) result.results in
        (n_sims result ≡ n)
        × (get_or seeds i 0 ≡ nth_seed seed_start seed_stride i)
        × (get_or seeds i 0 ≢ get_or seeds j 0)
  unfolding SeededRun Seeded n_sims
  run_seeds loaded rayon n steps workers seed_start stride stats stats' result i j e lt below fits =
      let (positive, seeds) =
        Holds-some (SeededRun n seed_start stride) _ (ran (batch result), stats')
          (run-SeededRun F loaded rayon n steps workers seed_start stride stats) e in
      seeds_of_batch seed_start stride n result i j seeds lt below positive fits
