-- ===== src/Cli/Command/Guard.antt =====
-- crates/cli/src: what any command starts.
use prop_amm_challenge.Prelude.{
  ℕ, ◌≡◌, refl, ◌++◌, All, Bool, true, false, List, Option, none, some, if◌then◌else◌, ◌==◌,
  Bool-cases, inl, inr,
}
use prop_amm_challenge.Float.{Float}
use prop_amm_challenge.Random.{Random}
use prop_amm_challenge.Executor.Vm.{Outcome}
use prop_amm_challenge.Executor.Loader as Loader
use prop_amm_challenge.Sim.SearchStats.{SearchStats}
use prop_amm_challenge.Sim.Runner.{Batch, no_pool, batch}
use prop_amm_challenge.Cli.Metadata.{Verdict}
use prop_amm_challenge.Cli.Metadata as Metadata
use prop_amm_challenge.Cli.Validate.{Checked, check_program, run_native_bpf_parity_check}
use prop_amm_challenge.Cli.Run.{Loaded, native, bpf, n_workers, run_loaded}
use prop_amm_challenge.Cli.Output.{print_results}
use prop_amm_challenge.Cli.System.{
  System, IsLawful, Started, World, Error, FilePath, io_error, unparsable, library_failed,
  no_swap_symbol, not_loaded, rejected, failed, no_thread_pool, zero_stride, done, fail, panicked,
}
use prop_amm_challenge.Cli.Compile.Build.{pure, bail, or_bail, read_text}
use prop_amm_challenge.Cli.Compile.Guard.{
  Guarded, Grown, nothing_started, after, compile_native-Grown, compile_bpf-Grown,
}
use prop_amm_challenge.Cli.Command.{
  Commands, built, validated, results, ◌>=◌, build, validate, run_simulations, swap_symbol,
  after_swap_symbol, load_native_submission, load_program, loaded_or, run_build, accept,
  validate_submission_metadata, passing, counting, batch_result, run_validate, simulate_and_print,
  run_native, bpf_path_of, run_bpf, run, main,
}

module _ (S : System) where
  or_bail-Grown :
      {A : Type 0} (x : Error) (found : Option A) (w : World S) → Grown S w (or_bail S x found w)
  or_bail-Grown x none w = nothing_started S w (fail x, w) refl
  or_bail-Grown x (some a) w = nothing_started S w (done a, w) refl

  pure-Grown : {A : Type 0} (a : A) (w : World S) → Grown S w (pure S a w)
  pure-Grown a w = nothing_started S w (done a, w) refl

  bail-Grown : (A : Type 0) (x : Error) (w : World S) → Grown S {A = A} w (bail S x w)
  bail-Grown A x w = nothing_started S w (fail x, w) refl

  load_native_submission-Grown :
      (p : FilePath) (w : World S) → Grown S w (load_native_submission S p w)
  unfolding load_native_submission
  load_native_submission-Grown p w =
      after S w _ _ (or_bail-Grown library_failed (S.library w.disk p) w) (λ lib w1.
        after S w1 _ _ (or_bail-Grown no_swap_symbol (swap_symbol lib) w1)
          (λ swap w2. pure-Grown (swap, after_swap_symbol lib) w2))

  loaded_or-Grown :
      {A : Type 0} (result : Outcome A) (w : World S) → Grown S w (loaded_or S result w)
  loaded_or-Grown (Outcome.ok a) w = pure-Grown a w
  loaded_or-Grown (Outcome.err e) w = bail-Grown _ (not_loaded e) w

  load_program-Grown : (p : FilePath) (w : World S) → Grown S w (load_program S p w)
  unfolding load_program
  load_program-Grown p w =
      after S w _ _ (or_bail-Grown io_error (S.read w.disk p) w)
        (λ bytes w1. loaded_or-Grown (Loader.load S.rbpf S.has_compiler bytes) w1)

  accept-Grown : (v : Verdict) (w : World S) → Grown S w (accept S v w)
  unfolding accept
  accept-Grown (Verdict.rejected r) w = bail-Grown _ (rejected r) w
  accept-Grown (Verdict.accepted metadata) w = pure-Grown metadata w

  metadata-Grown :
      (file : FilePath) (w : World S) → Grown S w (validate_submission_metadata S file w)
  unfolding validate_submission_metadata
  metadata-Grown file w =
      after S w _ _ (or_bail-Grown io_error (read_text S file w.disk) w) (λ source w1.
        after S w1 _ _ (or_bail-Grown unparsable (S.parse_metadata source) w1)
          (λ items w2. accept-Grown (Metadata.validate_submission_metadata S.is_blank items) w2))

  passing-Grown : {A : Type 0} (c : Checked A) (w : World S) → Grown S w (passing S c w)
  unfolding passing
  passing-Grown (Checked.passed a) w = pure-Grown a w
  passing-Grown (Checked.failed x) w = bail-Grown _ (failed x) w

  counting-Grown :
      {A : Type 0} (compute : SearchStats → Option (A × SearchStats)) (w : World S)
      → Grown S w (counting S compute w)
  unfolding counting
  counting-Grown {A} compute w = of (compute w.stats)
    where
      of : (found : Option (A × SearchStats)) → Grown S w (counting S (λ _. found) w)
      of none = nothing_started S w (panicked, w) refl
      of (some (a, stats)) = nothing_started S w (done a, record w { stats = stats }) refl

  batch_result-Grown : {F : Type 0} (b : Batch F) (w : World S) → Grown S w (batch_result S b w)
  unfolding batch_result
  batch_result-Grown no_pool w = bail-Grown _ no_thread_pool w
  batch_result-Grown (batch result) w = pure-Grown result w

  module _ (laws : IsLawful S) where
    run_build-Grown : (file : FilePath) (w : World S) → Grown S w (run_build S file w)
    unfolding run_build
    run_build-Grown file w = after S w _ _ (compile_native-Grown S laws file w) (λ native_path w1.
        after S w1 _ _ (compile_bpf-Grown S laws file w1)
          (λ bpf_path w2. pure-Grown (native_path, bpf_path) w2))

    bpf_path_of-Grown :
        (file : FilePath) (prebuilt : Option FilePath) (w : World S)
        → Grown S w (bpf_path_of S file prebuilt w)
    unfolding bpf_path_of
    bpf_path_of-Grown file none w = compile_bpf-Grown S laws file w
    bpf_path_of-Grown file (some p) w = pure-Grown p w

    module _ (F : Type 0) ⦃f : Float F⦄ ⦃rand : Random F⦄ where
      checks-Grown :
          (metadata : Metadata.SubmissionMetadata) (native_path : FilePath) (loaded : Loader.Loaded)
          (w : World S)
          → Grown S w (
              ◌>=◌ S
                (passing S (check_program F loaded.program))
                (λ _. ◌>=◌ S (load_native_submission S native_path) (λ (swap, hook).
                  ◌>=◌ S
                    (counting S (run_native_bpf_parity_check F loaded.program swap hook S.rayon))
                    (λ checked. ◌>=◌ S (passing S checked) (λ _. pure S metadata))))
                w)
      checks-Grown metadata native_path loaded w =
          after S w _ _ (passing-Grown (check_program F loaded.program) w) (λ _ w1.
            after S w1 _ _ (load_native_submission-Grown native_path w1) (λ (swap, hook) w2.
              after S w2 _ _
                (counting-Grown (run_native_bpf_parity_check F loaded.program swap hook S.rayon) w2)
                (λ checked w3.
                  after S w3 _ _ (passing-Grown checked w3) (λ _ w4. pure-Grown metadata w4))))

      run_validate-Grown : (file : FilePath) (w : World S) → Grown S w (run_validate S F file w)
      unfolding run_validate
      run_validate-Grown file w = after S w _ _ (metadata-Grown file w) (λ metadata w1.
          after S w1 _ _ (compile_bpf-Grown S laws file w1) (λ so_path w2.
            after S w2 _ _ (compile_native-Grown S laws file w2) (λ native_path w3.
              after S w3 _ _ (load_program-Grown so_path w3)
                (λ loaded w4. checks-Grown metadata native_path loaded w4))))

      simulate-Grown :
          (loaded : Loaded) (n steps : ℕ) (workers : Option ℕ) (seed stride : ℕ) (w : World S)
          → Grown S w (simulate_and_print S F loaded n steps workers seed stride w)
      unfolding simulate_and_print
      simulate-Grown loaded n steps workers seed stride w =
          after S w _ _
            (after S w _ _
              (counting-Grown (run_loaded F loaded S.rayon n steps workers seed stride) w)
              (λ b w1. batch_result-Grown b w1))
            (λ result w2. nothing_started S w2 (done (print_results result w2.stats), w2) refl)

      run_native-Grown :
          (file : FilePath) (n steps : ℕ) (workers : Option ℕ) (seed stride : ℕ) (w : World S)
          → Grown S w (run_native S F file n steps workers seed stride w)
      unfolding run_native
      run_native-Grown file n steps workers seed stride w =
          after S w _ _ (compile_native-Grown S laws file w) (λ native_path w1.
            after S w1 _ _ (load_native_submission-Grown native_path w1)
              (λ (swap, hook) w2. simulate-Grown (native swap hook) n steps workers seed stride w2))

      run_bpf-Grown :
          (file : FilePath) (n steps : ℕ) (workers : Option ℕ) (prebuilt : Option FilePath)
          (seed stride : ℕ) (w : World S)
          → Grown S w (run_bpf S F file n steps workers prebuilt seed stride w)
      unfolding run_bpf
      run_bpf-Grown file n steps workers prebuilt seed stride w =
          after S w _ _
            (after S w _ _ (bpf_path_of-Grown file prebuilt w) (λ p w1. load_program-Grown p w1))
            (λ loaded w2. simulate-Grown (bpf loaded.program) n steps workers seed stride w2)

      run-Grown :
          (file : FilePath) (n steps workers seed stride : ℕ) (use_bpf : Bool)
          (prebuilt : Option FilePath) (w : World S)
          → Grown S w (run S F file n steps workers seed stride use_bpf prebuilt w)
      unfolding run
      run-Grown file n steps workers seed stride use_bpf prebuilt w =
          elim (Bool-cases (stride == 0)) [
            | inl e ↦ rw e (bail-Grown _ zero_stride w)
            | inr e ↦ rw e (chosen use_bpf)
          ]
        where
          chosen :
              (b : Bool)
              → Grown S w (
                  (if b
                      then run_bpf S F file n steps (n_workers workers) prebuilt seed stride
                      else run_native S F file n steps (n_workers workers) seed stride)
                    w)
          chosen true = run_bpf-Grown file n steps (n_workers workers) prebuilt seed stride w
          chosen false = run_native-Grown file n steps (n_workers workers) seed stride w

      main-Grown : (c : Commands) (w : World S) → Grown S w (main S F c w)
      unfolding main
      main-Grown (build file) w =
          after S w _ _ (run_build-Grown file w)
            (λ (native_path, bpf_path) w1. pure-Grown (built native_path bpf_path) w1)
      main-Grown (validate file) w =
          after S w _ _ (run_validate-Grown file w)
            (λ metadata w1. pure-Grown (validated metadata) w1)
      main-Grown (run_simulations file n steps workers seed stride use_bpf prebuilt) w =
          after S w _ _ (run-Grown file n steps workers seed stride use_bpf prebuilt w)
            (λ report w1. pure-Grown (results report) w1)

      -- On a system whose written files hold what was written, where other files keep their content
      -- and making a directory changes none, whatever the command line is asked to do, and whether
      -- it ends well, fails or panics, each command that it starts is one of the two cargo builds,
      -- and at that moment the build directory of the command holds the manifest and, as its
      -- source, a text with its shim behind it, where the text parses, has no keyword `unsafe` at
      -- any depth, defines `compute_swap`, and the shim calls its `after_swap` exactly where there
      -- is one.
      pub main-Guarded :
          (c : Commands) (w : World S)
          → (added : List (Started S)) × ((main S F c w).1.started ≡ added ++ w.started)
            × All (Guarded S) added
      unfolding Grown
      main-Guarded c w = main-Grown c w
