-- ===== src/Cli/CommandRuns.antt =====
-- The commands of crates/cli on a small disk, with a cargo that always succeeds.
use Prim.Native.String.{String, ◌++◌ as ◌<>◌}
use text.Mathlib.Text.{◌==◌}
use text.Mathlib.TextEquality.{eq_iff}
use prop_amm_challenge.Prelude.{
  ◌≡◌, ◌<◌, ◌↔◌, refl, Bool, true, false, ◌&&◌, List, [], ◌∷◌, ◌++◌, Option, none, some, All, arith,
  if◌then◌else◌,
}
use prop_amm_challenge.Float.Fixed.{Fixed, fixed_float}
use prop_amm_challenge.Shared.Normalizer as Normalizer
use prop_amm_challenge.Executor.Vm.{BpfProgram}
use prop_amm_challenge.Executor.Loader as Loader
use prop_amm_challenge.Sim.SearchStats.{snapshot_if_enabled}
use prop_amm_challenge.Sim.Fixtures.{counting, no_stats}
use prop_amm_challenge.Cli.Compile.{
  tokens, ident, other, empty, function, unsafe_source, token_stream_contains_unsafe, shim_items,
  analyze_source, analyze_items, note_item,
}
use prop_amm_challenge.Cli.System.{
  System, IsLawful, World, Started, FilePath, done, fail, refused, Library,
}
use prop_amm_challenge.Cli.Compile.Guard.{Guarded}
use prop_amm_challenge.Cli.Command.{
  build, main, run, run_build, run_bpf, bpf_path_of, load_program, simulate_and_print, batch_result,
}
use prop_amm_challenge.Cli.Command as Command
use prop_amm_challenge.Cli.Run.{run_loaded, n_workers}
use prop_amm_challenge.Shared.Config.{apply, apply_each}
use prop_amm_challenge.Shared.Result.{from_results, n_sims, avg_edge}
use prop_amm_challenge.Sim.Arbitrageur.Plans as Plans
use prop_amm_challenge.Sim.Retail as Retail
use prop_amm_challenge.Sim.Engine as Engine
use prop_amm_challenge.Sim.Engine.{run_sim_inner, run_steps, run_simulation_mixed}
use prop_amm_challenge.Sim.Runner.{
  collect, run_on_pool, num_threads, default_configs, run_default_batch_mixed_seeded,
}
use prop_amm_challenge.Cli.Compile as Compile
use prop_amm_challenge.Cli.Command.Seeds.{run_reports}
use prop_amm_challenge.Cli.Output.{Report, search_report, print_results, seed_range_of, widen}
use prop_amm_challenge.Float.{nought}
use prop_amm_challenge.Cli.Compile.Build.{
  compile_native, prepare, with_checked, ensure_build_dir, should_write, should_write_source,
  status, find_native_lib, first_named, ends_with, replace_after, make_safe_submission_source,
  cargo_toml_with_sdk_path,
}
use prop_amm_challenge.Cli.Command.Guard.{main-Guarded}

abbrev same_path : FilePath → FilePath → Bool
same_path [] [] = true
same_path [] (_ ∷ _) = false
same_path (_ ∷ _) [] = false
same_path (a ∷ p) (b ∷ q) = a == b && same_path p q

same_path_iff : (p q : FilePath) → (same_path p q ≡ true) ↔ (p ≡ q)
same_path_iff [] [] = (λ _. refl, λ _. refl)
same_path_iff [] (_ ∷ _) = (λ h. absurd (ground arith), λ h. absurd (ground arith))
same_path_iff (_ ∷ _) [] = (λ h. absurd (ground arith), λ h. absurd (ground arith))
same_path_iff (a ∷ p) (b ∷ q) = ground (arith, eq_iff a b, same_path_iff p q)

abbrev idle : BpfProgram
idle = record { stack_size = 0; meter_disabled = false; execute_program = λ m. (none, m) }

abbrev rbpf : Loader.Rbpf String
rbpf = record {
  Registry = Unit;
  Executable = Unit;
  no_functions = tt;
  register_function_hashed = λ name builtin registry. Loader.fine registry;
  from_elf = λ bytes registry. Loader.fine tt;
  verify = λ executable. Loader.fine tt;
  jit_compile = λ executable. (true, executable);
  program = λ executable. idle;
}

abbrev normalizer_library : Library
normalizer_library = record {
  get_swap = λ name. some Normalizer.compute_swap;
  get_after_swap = λ name. none;
}

-- A disk is a function of the path.
abbrev system : System
system = record {
  Disk = FilePath → Option String;
  Bytes = String;
  as_bytes = λ text. text;
  from_utf8 = λ bytes. some bytes;
  bytes_eq = λ a b. a == b;
  exists = λ disk p. true;
  read = λ disk p. disk p;
  write = λ p text disk. (true, λ q. if same_path p q then some text else disk q);
  create_dir_all = λ p disk. (true, disk);
  read_dir = λ disk p. some (none ∷ some "user_program.d" ∷ some "libuser_program.so" ∷ []);
  command = λ arguments disk. (some true, disk);
  build_key = λ source manifest. "0123456789abcdef";
  lib_extension = "so";
  token_stream = λ source. some (tokens (ident source) (tokens other empty));
  parse_file = λ source. some (function "compute_swap" ∷ []);
  parse_metadata = λ source. none;
  is_blank = λ text. false;
  library = λ disk p. some normalizer_library;
  rbpf = rbpf;
  has_compiler = true;
  rayon = record { current_num_threads = 4; builds = λ n. true };
}

system-IsLawful : IsLawful system
system-IsLawful = record {
  read-write = λ p b d h. ground (arith, same_path_iff p p);
  read-write_other = λ p q b d h. ground (arith, same_path_iff p q);
  bytes_eq_iff = λ a b. eq_iff a b;
  as_bytes-from_utf8 = λ b text h. ground arith;
}

abbrev world : World system
world = record {
  disk = λ p. if same_path p ("amm.rs" ∷ []) then some "fn compute_swap" else none;
  started = [];
  stats = no_stats;
}

main-Guarded_example :
    (added : List (Started system)) × ((main system Fixed (build ("amm.rs" ∷ [])) world).1.started
      ≡ added ++ [])
    × All (Guarded system) added
main-Guarded_example = main-Guarded system system-IsLawful Fixed (build ("amm.rs" ∷ [])) world

-- A native build on an empty disk.
compile_native_returns :
    (compile_native system ("amm.rs" ∷ []) world).0
    ≡ done
        (".build" ∷ "runs" ∷ "0123456789abcdef" ∷ "target" ∷ "release" ∷ "libuser_program.so" ∷ [])
unfolding compile_native prepare make_safe_submission_source with_checked
    Compile.make_safe_submission_source token_stream_contains_unsafe shim_items analyze_source
    analyze_items note_item ensure_build_dir should_write should_write_source status find_native_lib
    first_named ends_with
compile_native_returns = refl

-- The report of three simulations of no step, from seed 4 on in steps of 5.
abbrev report : Report Fixed
report = record {
  simulations = 3;
  seed_range = some (4, 14);
  avg_edge = nought;
  total_edge = nought;
  search = some (search_report no_stats.counters);
}

run_returns :
    (run system Fixed ("amm.rs" ∷ []) 3 0 0 4 5 true (some ("amm.rs" ∷ [])) world).0 ≡ done report
unfolding run run_bpf bpf_path_of load_program Loader.load Loader.register_all Loader.jit_compiled
    simulate_and_print Command.counting run_loaded n_workers run_default_batch_mixed_seeded
    default_configs apply_each apply run_on_pool num_threads collect run_simulation_mixed
    run_sim_inner Engine.start Retail.create Plans.create run_steps from_results batch_result
    print_results n_sims seed_range_of widen avg_edge snapshot_if_enabled
run_returns = refl

run_reports_example : (0 < 5) × (report.simulations ≡ 3) × (report.seed_range ≡ some (4, 14))
run_reports_example =
    run_reports system Fixed 2 0 4 5 (omega arith) ("amm.rs" ∷ []) 0 true (some ("amm.rs" ∷ []))
      world report run_returns

-- A source with the keyword starts nothing.
unsafe_world : World system
unsafe_world = record world {
  disk = λ p. if same_path p ("amm.rs" ∷ []) then some "unsafe" else none;
}

unsafe_refused :
    main system Fixed (build ("amm.rs" ∷ [])) unsafe_world
    ≡ (fail (refused unsafe_source), unsafe_world)
unfolding main run_build compile_native prepare make_safe_submission_source unsafe_world
    with_checked Compile.make_safe_submission_source token_stream_contains_unsafe
unsafe_refused = refl

-- The replacement changes the path and nothing else.
with_sdk_path :
    cargo_toml_with_sdk_path
    ≡ "[package]\nname = \"user_program\"\nversion = \"0.1.0\"\nedition = \"2021\"\n\n"
      <> "[lib]\ncrate-type = [\"cdylib\", \"lib\"]\n\n[dependencies]\npinocchio = \"0.7\"\n"
      <> "wincode = { version = \"0.4\", default-features = false, features = [\"derive\"] }\n"
      <> "prop-amm-submission-sdk = { path = \"../../../crates/submission-sdk\" }\n\n"
      <> "[features]\nno-entrypoint = []\n"
unfolding cargo_toml_with_sdk_path replace_after
with_sdk_path = refl
