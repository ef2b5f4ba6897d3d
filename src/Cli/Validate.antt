-- ===== src/Cli/Validate.antt =====
-- crates/cli/src/commands/validate.rs: the checks of a loaded program, one after the other; the first one that
-- fails ends them.
pub mod Curve
use prop_amm_challenge.Prelude.{
  ℕ, Bool, map, zero, suc, ◌+◌, ◌-◌, ◌*◌, ◌/◌, ◌%◌, ◌^◌, ◌&&◌, ◌||◌, List, [], ◌∷◌, ◌++◌, Option,
  none, some, ltb, leb, ◌==◌, if◌then◌else◌, ◌>>=◌,
}
use prop_amm_challenge.Words.{u64_mod, saturating_add64}
use prop_amm_challenge.Buffer.{zeros}
use prop_amm_challenge.Float.{Float, ◌⊖◌, lt}
use prop_amm_challenge.Random.{Random}
use prop_amm_challenge.Shared.Instruction.{storage_size}
use prop_amm_challenge.Shared.Nano.{f64_to_nano}
use prop_amm_challenge.Shared.Normalizer as Normalizer
use prop_amm_challenge.Shared.Result.{BatchResult, avg_edge}
use prop_amm_challenge.Executor.Native.{SwapFn, AfterSwapFn}
use prop_amm_challenge.Executor.Vm as Vm
use prop_amm_challenge.Executor.Vm.{
  BpfExecutor, BpfProgram, ExecutorError, Outcome, execute, execute_after_swap,
}
use prop_amm_challenge.Sim.SearchStats.{SearchStats}
use prop_amm_challenge.Sim.Runner.{
  Rayon, Batch, no_pool, batch, run_default_batch_native_seeded, run_default_batch_mixed_seeded,
}

-- Why a check fails; the numbers are those of its message.
pub data Failure : Type 0 where
  execution : ExecutorError → Failure
  zero_output : ℕ → Failure
  not_monotone : ℕ → ℕ → ℕ → Failure
  not_concave : ℕ → ℕ → ℕ → ℕ → Failure
  no_thread_pool not_in_parity : Failure

pub data Checked (A : Type 0) : Type 0 where
  passed : A → Checked A
  failed : Failure → Checked A

infixl 5 ◌>=>◌
abbrev pub ◌>=>◌ : {A B : Type 0} → Checked A → (A → Checked B) → Checked B
passed a >=> k = k a
failed f >=> k = failed f

-- The output of a call and the executor after it, where the call succeeds.
unfoldable pub answered : Outcome ℕ × BpfExecutor → Checked (ℕ × BpfExecutor)
answered (Outcome.ok out, e) = passed (out, e)
answered (Outcome.err x, e) = failed (execution x)

abbrev pub concavity_delta_nano : ℕ
concavity_delta_nano = 1_000_000

abbrev pub concavity_step_tol_nano : ℕ
concavity_step_tol_nano = 1

module _ (rx ry : ℕ) (storage : List ℕ) where
  unfoldable pub pays_something : ℕ → ℕ → BpfExecutor → Checked BpfExecutor
  pays_something side amount e = answered (execute e side amount rx ry storage) >=> λ (out, e').
      if out == 0 then failed (zero_output side) else passed e'

  -- The loop over the sizes in nanos, with the output at the size before.
  unfoldable pub monotone : ℕ → ℕ → List ℕ → BpfExecutor → Checked BpfExecutor
  monotone side prev_output [] e = passed e
  monotone side prev_output (size ∷ sizes) e =
      answered (execute e side size rx ry storage) >=> λ (output, e').
      if leb output prev_output && ltb 0 prev_output
      then failed (not_monotone side output prev_output)
      else monotone side output sizes e'

  -- `step_2 > step_1 + CONCAVITY_STEP_TOL_NANO`, where the steps are differences in `i128`; `out_1` and
  -- `out_0` are added on both sides.
  unfoldable pub is_convex : ℕ → ℕ → ℕ → Bool
  is_convex out_0 out_1 out_2 = ltb (out_1 + out_1 + concavity_step_tol_nano) (out_2 + out_0)

  unfoldable pub concave_at : ℕ → ℕ → BpfExecutor → Checked BpfExecutor
  concave_at side in_0 e =
      let in_1 = saturating_add64 in_0 concavity_delta_nano in
      let in_2 = saturating_add64 in_1 concavity_delta_nano in
      let compared = answered (execute e side in_0 rx ry storage) >=> λ (out_0, e0).
      answered (execute e0 side in_1 rx ry storage) >=> λ (out_1, e1).
      answered (execute e1 side in_2 rx ry storage) >=> λ (out_2, e2).
      if is_convex out_0 out_1 out_2
      then failed (not_concave side out_0 out_1 out_2)
      else passed e2 in
      if leb in_1 in_0 || leb in_2 in_1 then passed e else compared

  unfoldable pub concave : ℕ → List ℕ → BpfExecutor → Checked BpfExecutor
  concave side [] e = passed e
  concave side (size ∷ sizes) e = concave_at side size e >=> concave side sizes

-- `a ^ b` on numbers of `n` bits.
unfoldable pub xor : ℕ → ℕ → ℕ → ℕ
xor zero a b = 0
xor (suc n) a b = (a % 2 + b % 2) % 2 + 2 * xor n (a / 2) (b / 2)

unfoldable pub mix : ℕ → ℕ
mix z =
    let z1 = xor 64 z (z / 2 ^ 30) in
    let z2 = z1 * 0xbf58_476d_1ce4_e5b9 % u64_mod in
    let z3 = xor 64 z2 (z2 / 2 ^ 27) in
    let z4 = z3 * 0x94d0_49bb_1331_11eb % u64_mod in xor 64 z4 (z4 / 2 ^ 31)

-- `mix(seed + i) & 0xFF`, for `n` numbers `i` from the given one on.
unfoldable pub mixed_bytes : ℕ → ℕ → ℕ → List ℕ
mixed_bytes seed zero i = []
mixed_bytes seed (suc n) i = mix ((seed + i) % u64_mod) % 256 ∷ mixed_bytes seed n (i + 1)

unfoldable pub random_storage : ℕ → List ℕ
random_storage seed = mixed_bytes seed 32 0 ++ zeros (storage_size - 32)

-- The checks on one random state: a quote and the hook after it.
unfoldable pub random_state : ℕ → BpfExecutor → Checked BpfExecutor
random_state seed e =
    let storage = random_storage seed in
    let rx = 1_000_000_000 + mix (xor 64 seed 0x0123_4567_89AB_CDEF) % 2_000_000_000_000 in
    let ry = 1_000_000_000 + mix (xor 64 seed 0x0F0F_0F0F_F0F0_F0F0) % 200_000_000_000_000 in
    let side = seed % 2 in
    let amount = 1_000_000 + mix (xor 64 seed 0xDEAD_BEEF) % 10_000_000_000 in
    answered (execute e side amount rx ry storage) >=> λ (out, e').
    let post_rx = if side == 0 then rx - out else saturating_add64 rx amount in
    let post_ry = if side == 0 then saturating_add64 ry amount else ry - out in
    hooked (execute_after_swap e' side amount out post_rx post_ry seed storage)
  where
    hooked : Outcome (Unit {0}) × List ℕ × BpfExecutor → Checked BpfExecutor
    hooked (Outcome.ok _, _, e) = passed e
    hooked (Outcome.err x, _, e) = failed (execution x)

unfoldable pub random_states : ℕ → ℕ → BpfExecutor → Checked BpfExecutor
random_states zero seed e = passed e
random_states (suc n) seed e = random_state seed e >=> random_states n (seed + 1)

module _ (F : Type 0) ⦃f : Float F⦄ where
  abbrev pub trade_sizes : List F
  trade_sizes =
      f.literal 1 1
      ∷ f.literal 5 1
      ∷ f.literal 1 0
      ∷ f.literal 2 0
      ∷ f.literal 5 0
      ∷ f.literal 10 0
      ∷ f.literal 20 0
      ∷ f.literal 50 0
      ∷ f.literal 100 0
      ∷ f.literal 200 0
      ∷ []

  -- The checks of `run` on the executor of a loaded program, up to the parity.
  unfoldable pub check_program : BpfProgram → Checked BpfExecutor
  check_program program =
      let storage = zeros storage_size in
      let rx = f64_to_nano (f.literal 100 0) in
      let ry = f64_to_nano (f.literal 10000 0) in
      let sizes = map f64_to_nano trade_sizes in
      pays_something rx ry storage 0 (f64_to_nano (f.literal 10 0)) (Vm.create program)
      >=> pays_something rx ry storage 1 (f64_to_nano (f.literal 1 0))
      >=> monotone rx ry storage 0 0 sizes
      >=> monotone rx ry storage 1 0 sizes
      >=> concave rx ry storage 0 sizes
      >=> concave rx ry storage 1 sizes
      >=> random_states 32 0

module _ {F : Type 0} ⦃f : Float F⦄ where
  unfoldable pub in_parity : BatchResult F → BatchResult F → Checked (Unit {0})
  in_parity native bpf =
      let tol = f.literal 1 6 in
      let total_delta = f.abs (native.total_edge ⊖ bpf.total_edge) in
      let avg_delta = f.abs (avg_edge native ⊖ avg_edge bpf) in
      if lt tol total_delta || lt tol avg_delta then failed not_in_parity else passed tt

  unfoldable pub compare_batches : Batch F → Batch F → Checked (Unit {0})
  compare_batches no_pool _ = failed no_thread_pool
  compare_batches (batch native) no_pool = failed no_thread_pool
  compare_batches (batch native) (batch bpf) = in_parity native bpf

module _ (F : Type 0) ⦃f : Float F⦄ ⦃rand : Random F⦄ where
  -- The two batches, with the functions of the loaded library; `none` is a panic of one of them.
  unfoldable pub run_native_bpf_parity_check :
      BpfProgram
      → SwapFn
      → Option AfterSwapFn
      → Rayon
      → SearchStats
      → Option (Checked (Unit {0}) × SearchStats)
  run_native_bpf_parity_check program dynamic_swap submission_after_swap rayon stats =
      run_default_batch_native_seeded {F = F} dynamic_swap submission_after_swap
        Normalizer.compute_swap (some Normalizer.after_swap) rayon 12 2_000 (some 4) 9_001 7 stats
      >>= λ (native, stats1).
          run_default_batch_mixed_seeded {F = F} program Normalizer.compute_swap
            (some Normalizer.after_swap) rayon 12 2_000 (some 4) 9_001 7 stats1
          >>= λ (bpf, stats2). some (compare_batches native bpf, stats2)
