-- ===== src/Lib.antt =====
-- A model of the Prop AMM Challenge: a benchmark in which a submitted price function runs as an
-- automated market maker beside a normalizer pool, against retail orders and arbitrage.
--
-- The parts, and how they work together. An executor runs a swap function on an instruction: the
-- side, the amount, the two reserves and 1024 bytes of storage. The native executor
-- (crates/executor/src/native.rs) calls a function; the other one (vm.rs) writes the instruction
-- into the input buffer of a virtual machine and reads the return data that the program sets by a
-- syscall (syscalls.rs). A pool (crates/sim/src/amm.rs) holds reserves in floating point, converts
-- them to nanos for a quote (crates/shared/src/nano.rs) and moves them in a trade, after which it
-- calls the program's hook. The router (router.rs) splits a retail order between two pools by a
-- golden-section search, checks the shape of the sampled curve (curve_checks.rs) and counts its
-- work (search_stats.rs). The arbitrageur (arbitrageur.rs) plans a trade on one pool, by a closed
-- form or by a bracketing and a golden-section search, and carries it out. The engine (engine.rs)
-- steps a random price, lets the arbitrageur trade on both pools and routes the retail orders of
-- the step; the runner (runner.rs) does this for a list of configurations. The command line checks
-- a submission before it runs it (crates/cli/src/commands).
--
-- The files:
-- - Prelude, Words, Buffer: lists, options, Boolean tests, machine words with their wrap-around and
--   byte buffers, which the other modules share.
-- - Float: `f64` as an interface, with the laws of its order that the theorems use (`IsFloat`);
--   Float/Fixed is an instance that computes, for the examples.
-- - Shared/Instruction: crates/shared/src/instruction.rs, `encode_instruction`,
--   `decode_instruction`, `encode_swap_instruction`, `encode_after_swap`, `decode_after_swap`.
--   Layout describes the bytes, RoundTrip the decoding.
-- - Shared/Nano: crates/shared/src/nano.rs, `f64_to_nano`, `nano_to_f64`.
-- - Shared/Normalizer: crates/shared/src/normalizer.rs, `compute_swap`. Ceiling and Bounds are
--   about the rounded-up division and its width, Curve about the outputs, Calls about the
--   instruction it reads.
-- - Programs: programs/normalizer/src/lib.rs and programs/starter/src/lib.rs, `process_instruction`
--   and `compute_swap`; Agreement compares both with the native normalizer.
-- - Executor/Native, Executor/Syscalls, Executor/Vm: the files of crates/executor/src. `Guest` is
--   what a syscall can change, `Runs` what a program can do between its start and a state, `run_vm`
--   one run. Vm/Invariant is about a run, Vm/Laws about the swap calls, Vm/Hook about those of the
--   hook, Vm/Session about sequences of both.
-- - Sim/Amm: crates/sim/src/amm.rs, `BpfAmm` and its quotes and trades.
-- - Sim/CurveChecks: crates/sim/src/curve_checks.rs; Cleaning is about the sort and the merge,
--   Verdicts about the two loops over the windows, Concave and Merged about whole checks.
-- - Sim/SearchStats: crates/sim/src/search_stats.rs, the counters as a state that is passed on.
-- - Sim/Router: crates/sim/src/router.rs; Loop is the induction on the search, Best, Budget, Ledger,
--   Returns and Shaped what follows from it.
-- - Sim/Arbitrageur: crates/sim/src/arbitrageur.rs. The file itself has the plans against the
--   normalizer's pool, the choice between two plans and `execute_candidate`; Search has the two
--   searches, with Loop for their inductions and Best for the answer; Plans has `Arbitrageur`, the
--   plans by search and `execute_arb`, with Planned, Searched, Closed, Laws, Budget and Shaped.
-- - Random: the random source, as an interface of what the simulator draws.
-- - Sim/PriceProcess, Sim/Retail: crates/sim/src/price_process.rs and retail.rs.
-- - Shared/Config, Shared/Result: crates/shared/src/config.rs and result.rs.
-- - Sim/Engine: crates/sim/src/engine.rs, `run_sim_inner` and its three callers; Log has the
--   trades that a simulation makes, Deals and Accounts what they account for, Setup the pool of the
--   normalizer at the start.
-- - Sim/Runner: crates/sim/src/runner.rs; Seeds is about `default_configs`, Order about the
--   results.
-- - Executor/Loader: crates/executor/src/loader.rs, `BpfProgram::load`.
-- - Cli/Validate, Cli/Metadata: crates/cli/src/commands/validate.rs, the checks of a loaded
--   program, and those of the metadata. Cli/Compile: the check of the source in compile.rs; its
--   child Build has the build directory, cargo and its products; Ready and Prepare are about what
--   that directory holds, Guard about what cargo finds. Cli/Run: the batch of a loaded submission
--   in run.rs.
-- - Cli/System: the disk, cargo, the parsers and the loader of libraries as an interface, and the
--   state that a command changes, with the history of the commands that it has started.
--   Cli/Command: `main` of main.rs and the three commands; its children Guard and Seeds are about
--   what they start and report. Cli/Output: `print_results` of output.rs.
-- - Sdk: crates/submission-sdk/src/lib.rs, the wrappers that a submission calls; Values is about
--   what the executor reads of them.
-- - Runs in Shared, Programs, Executor, Sdk, Sim and Cli, Sim/EngineRuns, Sim/RouterRuns,
--   Sim/CurveRuns and
--   Cli/CommandRuns: concrete calls, with Sim/Fixtures.
--
-- Conventions. A method on `&mut self` returns the new state beside its result. A panic is `none`;
-- the arithmetic of `u128` wraps as in a release build. The loops of the searches run on 14, 24 and
-- 12 passes, which are the bounds of the source's `for`, so no fuel is invented. The two tests that
-- end it early read the state as the source does. `clamp(0.0, 1.0)` does not panic, since its
-- bounds are in order.
--
-- Third-party code is a parameter: the virtual machine's run (`BpfProgram.execute_program`) and its
-- address translation (`map`), the deserializer of the starter, pinocchio's `set_return_data`, the
-- random source, the thread pool, and `f64`. A theorem about a run assumes that the run changes the
-- host by memory writes, metering and syscalls only (`Hosting`). The disk, cargo, the parsers of
-- Rust source, the loader of libraries and the library of the virtual machine are the fields of
-- `System` (Cli/System) and `Rbpf` (Executor/Loader).
--
-- Not modelled: argument parsing, durations, the printed lines but for their numbers, and the
-- benchmark; the text of an error message is not built, its numbers are. The parallel simulations
-- of a batch are computed in order, and their counters are added up in that order.
pub mod Prelude
pub mod Words
pub mod Buffer
pub mod Float
pub mod Random
pub mod Shared
pub mod Programs
pub mod Executor
pub mod Sim
pub mod Sdk
pub mod Cli
