-- ===== src/Cli/Run.antt =====
-- crates/cli/src/commands/run.rs: `run`, from the loaded submission to the batch; compiling, loading and
-- printing are not here.
pub mod Seeds
use prop_amm_challenge.Prelude.{ℕ, Bool, Option, none, some, ◌==◌, if◌then◌else◌, ◌>>=◌}
use prop_amm_challenge.Float.{Float}
use prop_amm_challenge.Random.{Random}
use prop_amm_challenge.Shared.Normalizer as Normalizer
use prop_amm_challenge.Executor.Native.{SwapFn, AfterSwapFn}
use prop_amm_challenge.Executor.Vm.{BpfProgram}
use prop_amm_challenge.Sim.SearchStats.{SearchStats}
use prop_amm_challenge.Sim.Runner.{
  Rayon, Batch, run_default_batch_native_seeded, run_default_batch_mixed_seeded,
}

-- The submission that the flags load: the functions of the native library, or the program.
pub data Loaded : Type 0 where
  native : SwapFn → Option AfterSwapFn → Loaded
  bpf : BpfProgram → Loaded

-- `--seed-stride must be >= 1`, or a batch.
pub data Outcome (F : Type 0) : Type 0 where
  zero_stride : Outcome F
  ran : Batch F → Outcome F

unfoldable pub n_workers : ℕ → Option ℕ
n_workers workers = if workers == 0 then none else some workers

module _ (F : Type 0) ⦃f : Float F⦄ ⦃rand : Random F⦄ where
  unfoldable pub run_loaded :
      Loaded → Rayon → ℕ → ℕ → Option ℕ → ℕ → ℕ → SearchStats → Option (Batch F × SearchStats)
  run_loaded (native swap after) rayon simulations steps workers seed_start seed_stride stats =
      run_default_batch_native_seeded swap after Normalizer.compute_swap
        (some Normalizer.after_swap) rayon simulations steps workers seed_start seed_stride stats
  run_loaded (bpf program) rayon simulations steps workers seed_start seed_stride stats =
      run_default_batch_mixed_seeded program Normalizer.compute_swap (some Normalizer.after_swap)
        rayon simulations steps workers seed_start seed_stride stats

  unfoldable pub run :
      Loaded → Rayon → ℕ → ℕ → ℕ → ℕ → ℕ → SearchStats → Option (Outcome F × SearchStats)
  run loaded rayon simulations steps workers seed_start seed_stride stats =
      let batched =
        run_loaded loaded rayon simulations steps (n_workers workers) seed_start seed_stride stats
        >>= λ (result, stats'). some (ran result, stats') in
      if seed_stride == 0 then some (zero_stride, stats) else batched
