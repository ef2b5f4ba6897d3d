-- ===== src/Cli/Command/Seeds.antt =====
-- crates/cli/src: the number of simulations and the range of seeds that a run prints.
use package.native.Mathlib.Nat.{mul-le-mul_right, mod-eq_of_lt}
use prop_amm_challenge.Prelude.{
  ℕ, zero, suc, ◌+◌, ◌*◌, ◌≤◌, ◌<◌, ◌≡◌, refl, ap, ◌∙◌, sym, subst, Bool, true, false, List, [],
  ◌∷◌, Option, none, some, map, foldl, length, arith, if◌then◌else◌, ◌==◌, Bool-cases, inl, inr,
  Holds, min, max, length-map,
}
use prop_amm_challenge.Words.{u64_mod}
use prop_amm_challenge.Float.{Float}
use prop_amm_challenge.Random.{Random}
use prop_amm_challenge.Shared.Result.{SimResult, BatchResult, n_sims}
use prop_amm_challenge.Sim.SearchStats.{SearchStats}
use prop_amm_challenge.Sim.Runner.{Batch, no_pool, batch}
use prop_amm_challenge.Sim.Runner.Seeds.{seeds_from, nth_seed, length-seeds_from}
use prop_amm_challenge.Sim.Runner.Order.{Seeded}
use prop_amm_challenge.Cli.Run.{Loaded, native, bpf, n_workers}
use prop_amm_challenge.Cli.Run.Seeds.{run_loaded-Seeded}
use prop_amm_challenge.Cli.Output.{Report, widen, seed_range_of, print_results}
use prop_amm_challenge.Cli.System.{System, World, Action, Answer, done, fail, panicked, FilePath}
use prop_amm_challenge.Executor.Native.{SwapFn, AfterSwapFn}
use prop_amm_challenge.Executor.Loader as Loader
use prop_amm_challenge.Cli.Compile.Build.{compile_native}
use prop_amm_challenge.Cli.Command.{
  ◌>=◌, bpf_path_of, load_program, load_native_submission, counting, batch_result,
  simulate_and_print, run_native, run_bpf, run,
}

-- Seeds that go up in equal steps.
range_of_steps :
    (a d : ℕ) (f : ℕ → ℕ) (i k : ℕ)
    → ((j : ℕ) → j ≤ i + k → f j ≡ a + j * d)
    → foldl widen (some (a, a + i * d)) (seeds_from f k (i + 1)) ≡ some (a, a + (i + k) * d)
unfolding seeds_from widen
range_of_steps a d f i zero h = ap (λ n. some (a, a + n * d)) (omega arith)
range_of_steps a d f i (suc k) h =
    let here : f (i + 1) ≡ a + (i + 1) * d = h (i + 1) (omega arith) in
    let rest = range_of_steps a d f (i + 1) k (λ j l. h j (omega arith)) in
    let low : min a (a + (i + 1) * d) ≡ a = grind arith in
    let high : max (a + i * d) (a + (i + 1) * d) ≡ a + (i + 1) * d = grind arith in
    let shift : i + 1 + k ≡ i + suc k = omega arith in
    rw (here, low, high) (rest ∙ ap (λ n. some (a, a + n * d)) shift)

range_of_seeds :
    (a d : ℕ) (f : ℕ → ℕ) (m : ℕ)
    → ((j : ℕ) → j ≤ m → f j ≡ a + j * d)
    → foldl widen none (seeds_from f (suc m) 0) ≡ some (a, a + m * d)
unfolding seeds_from widen
range_of_seeds a d f m h =
    let start : f 0 ≡ a + 0 * d = h 0 (omega arith) in
    let origin : a + 0 * d ≡ a = grind arith in
    let from_first : foldl widen (some (f 0, f 0)) (seeds_from f m (0 + 1))
        ≡ foldl widen (some (a, a + 0 * d)) (seeds_from f m (0 + 1)) =
      ap (λ (p : ℕ × ℕ). foldl widen (some p) (seeds_from f m (0 + 1)))
        (λ i. ((start ∙ origin) i, start i)) in
    from_first
    ∙ range_of_steps a d f 0 m (λ j l. h j (omega arith))
    ∙ ap (λ n. some (a, a + n * d)) (omega arith)

module _ {F : Type 0} ⦃f : Float F⦄ where
  seed_range_of_seeds :
      (acc : Option (ℕ × ℕ)) (results : List (SimResult F))
      → foldl (λ acc r. widen acc r.seed) acc results ≡ foldl widen acc (map (λ r. r.seed) results)
  seed_range_of_seeds acc [] = refl
  seed_range_of_seeds acc (r ∷ rs) = seed_range_of_seeds (widen acc r.seed) rs

  -- The report of a batch whose seeds are those of its configurations.
  Reports : ℕ → ℕ → ℕ → Report F → Type 0
  Reports m a d report = (report.simulations ≡ suc m) × (report.seed_range ≡ some (a, a + m * d))

  print_results-Reports :
      (m a d : ℕ) (b : BatchResult F) (stats : SearchStats)
      → map (λ r. r.seed) b.results ≡ seeds_from (nth_seed a d) (suc m) 0
      → a + m * d < u64_mod
      → Reports m a d (print_results b stats)
  unfolding print_results Reports n_sims seed_range_of
  print_results-Reports m a d b stats e h = (
    sym (length-map b.results (λ r. r.seed))
        ∙ ap length e
        ∙ length-seeds_from (nth_seed a d) (suc m) 0,
    seed_range_of_seeds none b.results
        ∙ ap (foldl widen none) e
        ∙ range_of_seeds a d (nth_seed a d) m
            (λ j l. let within = mul-le-mul_right d l in mod-eq_of_lt (omega arith)),
  )

module _ (S : System) where
  -- What holds of a result that is done.
  abbrev OnDone : {A : Type 0} → (A → Type 0) → Answer A × World S → Type 0
  OnDone P (done a, _) = P a
  OnDone P (fail e, _) = Unit
  OnDone P (panicked, _) = Unit

  -- What holds of the last action, whatever was done before.
  lastly :
      {A B : Type 0} (P : A → Type 0) (Q : B → Type 0) (r : Answer A × World S) (k : A → Action S B)
      → OnDone P r
      → ((a : A) (w : World S) → P a → OnDone Q (k a w))
      → OnDone {A = B} Q
          (elim r.0 [ done a ↦ k a r.1 | fail e ↦ (fail e, r.1) | panicked ↦ (panicked, r.1) ])
  lastly P Q (done a, w) k p next = next a w p
  lastly P Q (fail e, w) k p next = tt
  lastly P Q (panicked, w) k p next = tt

  anyhow : {A : Type 0} (r : Answer A × World S) → OnDone (λ _. Unit {0}) r
  anyhow (done a, w) = tt
  anyhow (fail e, w) = tt
  anyhow (panicked, w) = tt

  counted :
      {A : Type 0} (P : A × SearchStats → Type 0) (Q : A → Type 0)
      (compute : SearchStats → Option (A × SearchStats)) (w : World S)
      → ((a : A) (stats : SearchStats) → P (a, stats) → Q a)
      → Holds P (compute w.stats)
      → OnDone Q (counting S compute w)
  unfolding counting
  counted {A} P Q compute w keep h = of (compute w.stats) h
    where
      of : (found : Option (A × SearchStats)) → Holds P found → OnDone Q (counting S (λ _. found) w)
      of none h = tt
      of (some (a, stats)) h = keep a stats h

  module _ (F : Type 0) ⦃f : Float F⦄ ⦃rand : Random F⦄ (m steps a d : ℕ)
      (fits : a + m * d < u64_mod) where
    -- The batch has the seeds of its configurations.
    SeededBatch : Batch F → Type 0
    SeededBatch b = (stats : SearchStats) × Seeded (seeds_from (nth_seed a d) (suc m) 0) (b, stats)

    SeededResult : BatchResult F → Type 0
    SeededResult b = map (λ r. r.seed) b.results ≡ seeds_from (nth_seed a d) (suc m) 0

    batch_result-Seeded :
        (b : Batch F) (w : World S) → SeededBatch b → OnDone SeededResult (batch_result S b w)
    unfolding batch_result SeededBatch SeededResult Seeded
    batch_result-Seeded no_pool w h = tt
    batch_result-Seeded (batch result) w (_, h) = h

    simulate-Reports :
        (loaded : Loaded) (workers : Option ℕ) (w : World S)
        → OnDone (Reports m a d) (simulate_and_print S F loaded (suc m) steps workers a d w)
    unfolding simulate_and_print SeededBatch SeededResult
    simulate-Reports loaded workers w =
        lastly SeededResult (Reports m a d) _
          (λ result w2. (done (print_results result w2.stats), w2))
          (lastly SeededBatch SeededResult _ _
            (counted (Seeded (seeds_from (nth_seed a d) (suc m) 0)) SeededBatch _ w
              (λ b stats h. (stats, h))
              (run_loaded-Seeded F loaded S.rayon (suc m) steps workers a d w.stats))
            batch_result-Seeded)
          (λ result w2 h. print_results-Reports m a d result w2.stats h fits)

    run_native-Reports :
        (file : FilePath) (workers : Option ℕ) (w : World S)
        → OnDone (Reports m a d) (run_native S F file (suc m) steps workers a d w)
    unfolding run_native
    run_native-Reports file workers w =
        lastly {A = FilePath} (λ _. Unit {0}) (Reports {F = F} m a d) _ _
          (anyhow (compile_native S file w))
          (λ native_path w1 _.
            lastly {A = SwapFn × Option AfterSwapFn} (λ _. Unit {0}) (Reports {F = F} m a d) _ _
              (anyhow (load_native_submission S native_path w1))
              (λ loaded w2 _. simulate-Reports (native loaded.0 loaded.1) workers w2))

    run_bpf-Reports :
        (file : FilePath) (workers : Option ℕ) (prebuilt : Option FilePath) (w : World S)
        → OnDone (Reports m a d) (run_bpf S F file (suc m) steps workers prebuilt a d w)
    unfolding run_bpf
    run_bpf-Reports file workers prebuilt w =
        lastly {A = Loader.Loaded} (λ _. Unit {0}) (Reports {F = F} m a d) _ _
          (anyhow (◌>=◌ S (bpf_path_of S file prebuilt) (load_program S) w))
          (λ loaded w2 _. simulate-Reports (bpf loaded.program) workers w2)

    chosen-Reports :
        (file : FilePath) (workers : Option ℕ) (use_bpf : Bool) (prebuilt : Option FilePath)
        (w : World S)
        → OnDone (Reports m a d) (
            (if use_bpf
                then run_bpf S F file (suc m) steps workers prebuilt a d
                else run_native S F file (suc m) steps workers a d)
              w)
    chosen-Reports file workers true prebuilt w = run_bpf-Reports file workers prebuilt w
    chosen-Reports file workers false prebuilt w = run_native-Reports file workers w

    with_stride :
        0 < d
        → (r : Answer (Report F) × World S) → OnDone (Reports m a d) r
        → OnDone (λ report. (0 < d) × Reports m a d report) r
    with_stride h (done report, w) p = (h, p)
    with_stride h (fail e, w) p = tt
    with_stride h (panicked, w) p = tt

    run-Reports :
        (file : FilePath) (workers : ℕ) (use_bpf : Bool) (prebuilt : Option FilePath) (w : World S)
        → OnDone
            (λ report. (0 < d) × Reports m a d report)
            (run S F file (suc m) steps workers a d use_bpf prebuilt w)
    unfolding run
    run-Reports file workers use_bpf prebuilt w = elim (Bool-cases (d == 0)) [
      | inl e ↦ rw e tt
      | inr e ↦ rw e (
          with_stride (ground arith) _ (chosen-Reports file (n_workers workers) use_bpf prebuilt w))
    ]

    -- When a run of m + 1 simulations on the command line ends with a report, natively or on the
    -- virtual machine, and the last seed start + m * stride is below 2^64, then the stride is
    -- positive, the report counts m + 1 simulations, and its range of seeds goes from the start to
    -- the last seed.
    pub run_reports :
        (file : FilePath) (workers : ℕ) (use_bpf : Bool) (prebuilt : Option FilePath) (w : World S)
        (report : Report F)
        → (run S F file (suc m) steps workers a d use_bpf prebuilt w).0 ≡ done report
        → (0 < d) × (report.simulations ≡ suc m) × (report.seed_range ≡ some (a, a + m * d))
    unfolding Reports
    run_reports file workers use_bpf prebuilt w report e =
        let r = run S F file (suc m) steps workers a d use_bpf prebuilt w in
        let (stride, reports) =
          subst (λ x. OnDone (λ report. (0 < d) × Reports m a d report) (x, r.1)) e
            (run-Reports file workers use_bpf prebuilt w) in
        (stride, reports.0, reports.1)
