-- ===== src/Cli/Command.antt =====
-- The commands of crates/cli/src: `main`, and `run` of commands/build.rs, validate.rs and run.rs. What is printed
-- on the way is not here, nor are the durations.
pub mod Guard
pub mod Seeds
use Prim.Native.String.{String}
use prop_amm_challenge.Prelude.{
  ℕ, Bool, true, false, List, [], ◌∷◌, Option, none, some, if◌then◌else◌, ◌==◌,
}
use prop_amm_challenge.Float.{Float}
use prop_amm_challenge.Random.{Random}
use prop_amm_challenge.Shared.Result.{BatchResult}
use prop_amm_challenge.Executor.Native.{SwapFn, AfterSwapFn}
use prop_amm_challenge.Executor.Vm as Vm
use prop_amm_challenge.Executor.Vm.{BpfProgram, Outcome}
use prop_amm_challenge.Executor.Loader as Loader
use prop_amm_challenge.Sim.SearchStats.{SearchStats}
use prop_amm_challenge.Sim.Runner.{Batch, no_pool, batch}
use prop_amm_challenge.Cli.Metadata.{Verdict, SubmissionMetadata}
use prop_amm_challenge.Cli.Metadata as Metadata
use prop_amm_challenge.Cli.Validate.{Checked, check_program, run_native_bpf_parity_check}
use prop_amm_challenge.Cli.Run.{Loaded, native, bpf, n_workers, run_loaded}
use prop_amm_challenge.Cli.Output.{Report, print_results}
use prop_amm_challenge.Cli.System.{
  System, World, Action, Answer, done, fail, panicked, Error, io_error, unparsable, rejected,
  library_failed, no_swap_symbol, not_loaded, failed, zero_stride, no_thread_pool, FilePath,
  Library,
}
use prop_amm_challenge.Cli.Compile.Build.{
  ◌>>=◌, ◌>>◌, pure, bail, or_bail, look, read_text, compile_native, compile_bpf,
}

-- `Commands`
pub data Commands : Type 0 where
  build validate : FilePath → Commands
  run_simulations : FilePath → ℕ → ℕ → ℕ → ℕ → ℕ → Bool → Option FilePath → Commands

-- What a command that succeeds prints last.
pub data Printed (F : Type 0) : Type 0 where
  built : FilePath → FilePath → Printed F
  validated : SubmissionMetadata → Printed F
  results : Report F → Printed F

abbrev or_else : {A : Type 0} → Option A → Option A → Option A
or_else none b = b
or_else (some a) b = some a

-- The functions of a native library under the names of the shim, or else under the older ones.
unfoldable pub swap_symbol : Library → Option SwapFn
swap_symbol lib =
    or_else (lib.get_swap "__prop_amm_compute_swap_export") (lib.get_swap "compute_swap_ffi")

unfoldable pub after_swap_symbol : Library → Option AfterSwapFn
after_swap_symbol lib =
    or_else (lib.get_after_swap "__prop_amm_after_swap_export")
      (lib.get_after_swap "after_swap_ffi")

module _ (S : System) where
  infixl 5 ◌>=◌
  abbrev pub ◌>=◌ : {A B : Type 0} → Action S A → (A → Action S B) → Action S B
  m >= k = ◌>>=◌ S m k

  -- The functions are those that the statics hold from here on.
  unfoldable pub load_native_submission : FilePath → Action S (SwapFn × Option AfterSwapFn)
  load_native_submission native_path =
      look S (λ disk. S.library disk native_path) >= or_bail S library_failed >= λ lib.
      or_bail S no_swap_symbol (swap_symbol lib) >= λ swap_fn.
      pure S (swap_fn, after_swap_symbol lib)

  abbrev loaded_or : {A : Type 0} → Outcome A → Action S A
  loaded_or (Outcome.ok a) = pure S a
  loaded_or (Outcome.err e) = bail S (not_loaded e)

  unfoldable pub load_program : FilePath → Action S Loader.Loaded
  load_program bpf_path = look S (λ disk. S.read disk bpf_path) >= or_bail S io_error >= λ bytes.
      loaded_or (Loader.load S.rbpf S.has_compiler bytes)

  -- commands/build.rs
  unfoldable pub run_build : FilePath → Action S (FilePath × FilePath)
  run_build file = compile_native S file >= λ native_path.
      compile_bpf S file >= λ bpf_path. pure S (native_path, bpf_path)

  unfoldable pub accept : Verdict → Action S SubmissionMetadata
  accept (Verdict.rejected r) = bail S (rejected r)
  accept (Verdict.accepted metadata) = pure S metadata

  unfoldable pub validate_submission_metadata : FilePath → Action S SubmissionMetadata
  validate_submission_metadata file = look S (read_text S file) >= or_bail S io_error >= λ source.
      or_bail S unparsable (S.parse_metadata source) >= λ items.
      accept (Metadata.validate_submission_metadata S.is_blank items)

  unfoldable pub passing : {A : Type 0} → Checked A → Action S A
  passing (Checked.passed a) = pure S a
  passing (Checked.failed f) = bail S (failed f)

  -- A computation on the counters, which may panic.
  unfoldable pub counting : {A : Type 0} → (SearchStats → Option (A × SearchStats)) → Action S A
  counting compute w = elim (compute w.stats) [
    | none ↦ (panicked, w)
    | some (a, stats) ↦ (done a, record w { stats = stats })
  ]

  unfoldable pub batch_result : {F : Type 0} → Batch F → Action S (BatchResult F)
  batch_result no_pool = bail S no_thread_pool
  batch_result (batch result) = pure S result

  -- The program that is named, or the one that is built.
  unfoldable pub bpf_path_of : FilePath → Option FilePath → Action S FilePath
  bpf_path_of file none = compile_bpf S file
  bpf_path_of file (some prebuilt) = pure S prebuilt

  module _ (F : Type 0) ⦃f : Float F⦄ ⦃rand : Random F⦄ where
    -- commands/validate.rs
    unfoldable pub run_validate : FilePath → Action S SubmissionMetadata
    run_validate file = validate_submission_metadata file >= λ metadata.
        compile_bpf S file >= λ so_path. compile_native S file >= λ native_path.
        load_program so_path >= λ loaded. passing (check_program F loaded.program) >= λ _.
        load_native_submission native_path >= λ (swap, after).
        counting (run_native_bpf_parity_check F loaded.program swap after S.rayon) >= λ checked.
        passing checked >= λ _. pure S metadata

    -- The batch of a loaded submission, and what is printed of it.
    unfoldable pub simulate_and_print : Loaded → ℕ → ℕ → Option ℕ → ℕ → ℕ → Action S (Report F)
    simulate_and_print loaded simulations steps workers seed_start seed_stride =
        counting (run_loaded F loaded S.rayon simulations steps workers seed_start seed_stride)
        >= batch_result
        >= λ result w. (done (print_results result w.stats), w)

    unfoldable pub run_native : FilePath → ℕ → ℕ → Option ℕ → ℕ → ℕ → Action S (Report F)
    run_native file simulations steps workers seed_start seed_stride =
        compile_native S file >= λ native_path.
        load_native_submission native_path >= λ (swap, after).
        simulate_and_print (native swap after) simulations steps workers seed_start seed_stride

    unfoldable pub run_bpf :
        FilePath → ℕ → ℕ → Option ℕ → Option FilePath → ℕ → ℕ → Action S (Report F)
    run_bpf file simulations steps workers bpf_so seed_start seed_stride =
        bpf_path_of file bpf_so >= load_program >= λ loaded.
        simulate_and_print (bpf loaded.program) simulations steps workers seed_start seed_stride

    -- commands/run.rs
    unfoldable pub run : FilePath → ℕ → ℕ → ℕ → ℕ → ℕ → Bool → Option FilePath → Action S (Report F)
    run file simulations steps workers seed_start seed_stride use_bpf bpf_so =
        if seed_stride == 0
        then bail S zero_stride
        else (if use_bpf
            then run_bpf file simulations steps (n_workers workers) bpf_so seed_start seed_stride
            else run_native file simulations steps (n_workers workers) seed_start seed_stride)

    -- `main`, on the parsed arguments
    unfoldable pub main : Commands → Action S (Printed F)
    main (build file) =
        run_build file >= λ (native_path, bpf_path). pure S (built native_path bpf_path)
    main (validate file) = run_validate file >= λ metadata. pure S (validated metadata)
    main (run_simulations file simulations steps workers seed_start seed_stride use_bpf bpf_so) =
        run file simulations steps workers seed_start seed_stride use_bpf bpf_so >= λ report.
        pure S (results report)
