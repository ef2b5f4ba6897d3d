-- ===== src/Cli/Runs.antt =====
-- The validator on a program that is the compiled form of the native normalizer.
use prop_amm_challenge.Prelude.{
  ℕ, zero, suc, ◌≤◌, ◌<◌, ◌≡◌, refl, ap, ◌∙◌, All, List, [], ◌∷◌, ◌++◌, map, none, some, true,
  false, ◌≢◌, ◌↔◌, ◌⊎◌, IsAmong, arith, take, drop, get_or, copy_at, drop-append, take-append,
  drop-drop,
}
use prop_amm_challenge.Words.{
  IsByte, from_le_bytes, to_le_bytes, length-to_le_bytes, to_le_bytes-IsByte,
}
use prop_amm_challenge.Buffer.{zeros, pad, length-zeros}
use prop_amm_challenge.Shared.Instruction.{le64, swap_instruction_size}
use prop_amm_challenge.Shared.Normalizer as Normalizer
use prop_amm_challenge.Shared.Normalizer.Calls.{stored_fee}
use prop_amm_challenge.Executor.Syscalls.{
  AccessType, Result, ok, sol_set_return_data, perform, set_return_data, read_bytes,
}
use prop_amm_challenge.Executor.Syscalls.Effects.{start, calls}
use prop_amm_challenge.Executor.Vm.{Machine, BpfProgram, BpfExecutor, create}
use prop_amm_challenge.Executor.Vm.Laws.{Compiles}
use prop_amm_challenge.Executor.Vm.Invariant.{Hosting, create-IsExecutor}
use Prim.Native.String.{String}
use text.Mathlib.Text.{◌==◌}
use prop_amm_challenge.Float.{nought}
use prop_amm_challenge.Float.Fixed.{Fixed, fixed_float}
use prop_amm_challenge.Shared.Config.{apply, apply_each}
use prop_amm_challenge.Shared.Result.{BatchResult, from_results, n_sims}
use prop_amm_challenge.Sim.Fixtures.{counting, no_stats}
use prop_amm_challenge.Sim.Arbitrageur.Plans as Plans
use prop_amm_challenge.Sim.Retail as Retail
use prop_amm_challenge.Sim.Engine as Engine
use prop_amm_challenge.Sim.Engine.{run_sim_inner, run_steps, run_simulation_native}
use prop_amm_challenge.Sim.Runner.{
  Rayon, batch, collect, run_on_pool, num_threads, default_configs, run_batch_native,
  run_default_batch_native_seeded,
}
use prop_amm_challenge.Cli.Run as Run
use prop_amm_challenge.Cli.Run.{Loaded, ran, run, run_loaded, n_workers}
use prop_amm_challenge.Cli.Run.Seeds.{run_seeds}
use prop_amm_challenge.Cli.Compile as Compile
use prop_amm_challenge.Cli.Compile.{
  tokens, ident, group, other, empty, token_stream_contains_unsafe, make_safe_submission_source,
  shimmed, shim_items, analyze_source, analyze_items, note_item, after_swap_target,
}
use prop_amm_challenge.Cli.Compile.Safety.{HasUnsafe, contains_unsafe_iff, make_safe_accepts}
use prop_amm_challenge.Cli.Metadata as Metadata
use prop_amm_challenge.Cli.Metadata.{
  SubmissionMetadata, accepted, validate_submission_metadata, read_items, read_item,
  extract_str_const, check_found,
}
use prop_amm_challenge.Cli.Metadata.Laws.{metadata_accepts}
use prop_amm_challenge.Cli.Validate.{concave, passed, mix, xor}
use prop_amm_challenge.Cli.Validate.Curve.{IsCurve, concave-IsCurve}

-- The output on the call behind the two headers of the input buffer.
abbrev output_of : Machine → ℕ
output_of m = Normalizer.compute_swap (take swap_instruction_size (drop 16 m.input_buf))

abbrev curve_program : BpfProgram
curve_program = record {
  stack_size = 4096;
  meter_disabled = false;
  execute_program = λ m. (
    none,
    record m {
      context = record (m.context) { return_data = le64 (output_of m); has_return_data = true };
    },
  );
}

abbrev identity_map : AccessType → ℕ → ℕ → Result ℕ
identity_map access addr len = ok addr

byte_at : (bytes : List ℕ) (p : ℕ) → All IsByte bytes → get_or bytes p 0 < 256
byte_at [] p h = omega arith
byte_at (b ∷ bs) zero (h, hs) = h
byte_at (b ∷ bs) (suc p) (h, hs) = byte_at bs p hs

-- A run stores the output at the start of memory and returns it from there.
curve_runs : (m : Machine) → Hosting curve_program m
unfolding perform set_return_data copy_at to_le_bytes read_bytes zeros
curve_runs m = record {
  map = identity_map;
  before = λ p. get_or (le64 (output_of m)) p 0;
  after = λ p. get_or (le64 (output_of m)) p 0;
  before_bytes = λ p. byte_at (le64 (output_of m)) p (to_le_bytes-IsByte 8 (output_of m));
  runs = calls start (sol_set_return_data 0 8);
  keeps_buf = refl;
}

curve-Compiles : Compiles Normalizer.compute_swap curve_program
curve-Compiles m call h l =
    let size = length-to_le_bytes 8 swap_instruction_size in
    let twice : drop 16 m.input_buf ≡ drop 8 (drop 8 m.input_buf) = drop-drop 8 8 m.input_buf in
    let front =
      drop-append 8 (zeros 8) (le64 swap_instruction_size ++ (call ++ zeros 49)) (length-zeros 8) in
    let header = drop-append 8 (le64 swap_instruction_size) (call ++ zeros 49) size in
    let behind : drop 16 m.input_buf ≡ call ++ zeros 49 =
      twice ∙ ap (λ b. drop 8 (drop 8 b)) h ∙ ap (drop 8) front ∙ header in
    let read =
      ap (take swap_instruction_size) behind
      ∙ take-append swap_instruction_size call (zeros 49) l in
    (refl, refl, ap (λ c. le64 (Normalizer.compute_swap c)) read)

abbrev curve_executor : BpfExecutor
curve_executor = create curve_program

curve_executor-IsCurve : IsCurve curve_executor
unfolding create
curve_executor-IsCurve = record {
  formed = create-IsExecutor curve_program curve_runs;
  compiled = curve-Compiles;
}

zero_fee : stored_fee (zeros 1024) ≤ 10000
unfolding stored_fee pad zeros from_le_bytes
zero_fee = omega arith

-- The first output of SplitMix64 from the seed 0.
mix_of_golden_gamma : mix 0x9e37_79b9_7f4a_7c15 ≡ 0xe220_a839_7b1d_cdaf
unfolding mix xor
mix_of_golden_gamma = refl

concave-IsCurve_example :
    (e' : BpfExecutor) × (concave 100_000_000_000 10_000_000_000_000
        (zeros 1024)
        0
        (1_000_000_000 ∷ 200_000_000_000 ∷ [])
        curve_executor
      ≡ passed e')
    × IsCurve e'
concave-IsCurve_example =
    concave-IsCurve 100_000_000_000 10_000_000_000_000 (zeros 1024) (omega arith) (omega arith)
      (omega arith) (omega arith) 0 (omega arith) zero_fee (1_000_000_000 ∷ 200_000_000_000 ∷ [])
      curve_executor curve_executor-IsCurve (omega arith, (omega arith, tt))

-- A batch of three simulations of no step, with the seeds 4, 9 and 14.
abbrev rayon : Rayon
rayon = record { current_num_threads = 16; builds = λ n. true }

abbrev batched : BatchResult Fixed
batched = from_results (
    record { seed = 4; submission_edge = nought }
    ∷ record { seed = 9; submission_edge = nought }
    ∷ record { seed = 14; submission_edge = nought }
    ∷ [])

abbrev submission : Loaded
submission = Run.native Normalizer.compute_swap none

batched_returns :
    run Fixed submission rayon 3 0 0 4 5 no_stats ≡ some (ran (batch batched), no_stats)
unfolding run run_loaded n_workers run_default_batch_native_seeded default_configs apply_each apply
    run_batch_native run_on_pool num_threads collect run_simulation_native run_sim_inner
    Engine.start Retail.create Plans.create run_steps from_results
batched_returns = refl

run_seeds_example :
    let seeds = map (λ r. r.seed) batched.results in
    (n_sims batched ≡ 3) × (get_or seeds 0 0 ≡ 4) × (get_or seeds 0 0 ≢ get_or seeds 2 0)
run_seeds_example =
    run_seeds submission rayon 3 0 0 4 5 no_stats no_stats batched 0 2 batched_returns (omega arith)
      (omega arith) (omega arith)

-- The keyword in a block of a function's body.
contains_unsafe_iff_example :
    let stream =
      tokens (ident "fn") (tokens (group (tokens other (tokens (ident "unsafe") empty))) empty) in
    (token_stream_contains_unsafe stream ≡ true) ↔ HasUnsafe stream
contains_unsafe_iff_example = contains_unsafe_iff _

abbrev safe_items : List Compile.Item
safe_items =
    Compile.other_item ∷ Compile.function "compute_swap" ∷ Compile.function "after_swap" ∷ []

abbrev target : String
target = "after_swap"

safe_accepted :
    make_safe_submission_source (some (tokens (ident "fn") empty)) (some safe_items)
    ≡ shimmed target
unfolding make_safe_submission_source shim_items analyze_source analyze_items note_item
    after_swap_target token_stream_contains_unsafe
safe_accepted = refl

make_safe_accepts_example :
    (¬ HasUnsafe (tokens (ident "fn") empty))
    × IsAmong (Compile.function "compute_swap") safe_items
    × (((target ≡ "after_swap") × IsAmong (Compile.function "after_swap") safe_items)
        ⊎ ((target ≡ "__prop_amm_after_swap_noop")
            × (¬ IsAmong (Compile.function "after_swap") safe_items)))
make_safe_accepts_example =
    make_safe_accepts (tokens (ident "fn") empty) safe_items target safe_accepted

-- The metadata of the starter.
abbrev starter_items : List Metadata.Item
starter_items =
    Metadata.constant "NAME" true (some "Starter 500 bps")
    ∷ Metadata.constant "MODEL_USED" true (some "None")
    ∷ Metadata.constant "FEE_NUMERATOR" false none
    ∷ Metadata.function "get_model_used"
    ∷ []

abbrev starter_metadata : SubmissionMetadata
starter_metadata = record { name = "Starter 500 bps"; model_used = "None" }

metadata_accepted :
    validate_submission_metadata (λ s. s == "") starter_items ≡ accepted starter_metadata
unfolding validate_submission_metadata read_items read_item extract_str_const check_found
metadata_accepted = refl

metadata_accepts_example :
    IsAmong (Metadata.constant "NAME" true (some "Starter 500 bps")) starter_items
    × IsAmong (Metadata.constant "MODEL_USED" true (some "None")) starter_items
    × IsAmong (Metadata.function "get_model_used") starter_items
    × (("Starter 500 bps" == "") ≡ false)
    × (("None" == "") ≡ false)
metadata_accepts_example =
    metadata_accepts (λ s. s == "") starter_items starter_metadata metadata_accepted
