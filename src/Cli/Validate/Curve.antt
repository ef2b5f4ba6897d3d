-- ===== src/Cli/Validate/Curve.antt =====
-- crates/cli/src/commands/validate.rs: the loops over the sizes on a program that pays the normalizer's curve.
use prop_amm_challenge.Prelude.{
  ℕ, ◌+◌, ◌*◌, ◌^◌, ◌≤◌, ◌<◌, ◌≡◌, refl, sym, ap, subst, false, List, [], ◌∷◌, All, arith, length,
  either_way, ltb, leb, ◌||◌, none,
}
use prop_amm_challenge.Words.{IsU64, saturating_add64}
use prop_amm_challenge.Shared.Normalizer.{swap_output, pays, compute_swap}
use prop_amm_challenge.Shared.Normalizer.Calls.{stored_fee, compute_swap-encode}
use prop_amm_challenge.Shared.Normalizer.Curve.{IsCall, swap_output_concave}
use prop_amm_challenge.Executor.Native as Native
use prop_amm_challenge.Executor.Native.{NativeExecutor}
use prop_amm_challenge.Executor.Vm.{BpfExecutor, execute, run_vm}
use prop_amm_challenge.Executor.Vm.Invariant.{IsExecutor}
use prop_amm_challenge.Executor.Vm.Laws.{Compiles, execute-eq-native, execute-IsExecutor}
use prop_amm_challenge.Cli.Validate.{
  passed, answered, is_convex, concave_at, concave, concavity_delta_nano,
}

swap_output_word : (fee side input x y : ℕ) → IsU64 (swap_output fee side input x y)
unfolding swap_output pays
swap_output_word fee side input x y = ground arith

compute_swap_word : (call : List ℕ) → IsU64 (compute_swap call)
unfolding compute_swap
compute_swap_word call =
    either_way IsU64 (ltb (length call) 25) (λ _. omega arith) (λ _. swap_output_word _ _ _ _ _)

abbrev native_curve : NativeExecutor
native_curve = record { swap_fn = compute_swap; after_swap_fn = none }

-- A well-formed executor of the compiled curve.
pub record IsCurve (e : BpfExecutor) : Type 0 where
  pub formed : IsExecutor e
  pub compiled : Compiles compute_swap e.program

same_program :
    (e : BpfExecutor) (side amount rx ry : ℕ) (storage : List ℕ)
    → (execute e side amount rx ry storage).1.program ≡ e.program
unfolding execute run_vm
same_program e side amount rx ry storage = refl

after-IsCurve :
    (e : BpfExecutor) (side amount rx ry : ℕ) (storage : List ℕ)
    → IsCurve e
    → IsCurve (execute e side amount rx ry storage).1
after-IsCurve e side amount rx ry storage c = record {
  formed = execute-IsExecutor e c.formed side amount rx ry storage;
  compiled =
      subst (Compiles compute_swap) (sym (same_program e side amount rx ry storage)) c.compiled;
}

-- The calls of one probe.
module _ (rx ry : ℕ) (storage : List ℕ) (hx : IsU64 rx) (hy : IsU64 ry) (px : 0 < rx) (py : 0 < ry)
    (side : ℕ) (hs : side ≤ 1) (hf : stored_fee storage ≤ 10000) where
  curve_answers :
      (e : BpfExecutor) (amount : ℕ)
      → IsCurve e
      → IsU64 amount
      → answered (execute e side amount rx ry storage)
        ≡ passed (
          swap_output (stored_fee storage) side amount rx ry,
          (execute e side amount rx ry storage).1,
        )
  unfolding answered Native.execute
  curve_answers e amount c h =
      let native =
        execute-eq-native e native_curve side amount rx ry storage c.formed c.compiled
          compute_swap_word in
      let value = compute_swap-encode side amount rx ry storage h hx hy in rw (native, value) refl

  concave_at-IsCurve :
      (e : BpfExecutor) (in_0 : ℕ)
      → IsCurve e
      → in_0 + 2_000_000 < 2 ^ 64
      → (e' : BpfExecutor) × (concave_at rx ry storage side in_0 e ≡ passed e') × IsCurve e'
  unfolding concave_at is_convex
  concave_at-IsCurve e in_0 c h =
      let in_1 = saturating_add64 in_0 concavity_delta_nano in
      let in_2 = saturating_add64 in_1 concavity_delta_nano in
      let e0 = (execute e side in_0 rx ry storage).1 in
      let e1 = (execute e0 side in_1 rx ry storage).1 in
      let c0 = after-IsCurve e side in_0 rx ry storage c in
      let c1 = after-IsCurve e0 side in_1 rx ry storage c0 in
      let c2 = after-IsCurve e1 side in_2 rx ry storage c1 in
      let i1 : in_1 ≡ in_0 + 10000 * 100 = omega arith in
      let i2 : in_2 ≡ in_0 + 10000 * 100 + 10000 * 100 = omega arith in
      let pays_at : ℕ → ℕ = λ i. swap_output (stored_fee storage) side i rx ry in
      let call : IsCall (stored_fee storage) side (in_0 + 10000 * 100 + 10000 * 100) rx ry =
        omega arith in
      let curved = swap_output_concave (stored_fee storage) side in_0 100 rx ry call in
      let o1 = ap pays_at i1 in
      let o2 = ap pays_at i2 in
      let flat : ltb (pays_at in_1 + pays_at in_1 + 1) (pays_at in_2 + pays_at in_0) ≡ false =
        rw (o1, o2) (ground arith) in
      let probed : (leb in_1 in_0 || leb in_2 in_1) ≡ false = ground arith in
      rw
        (
          probed,
          curve_answers e in_0 c (omega arith),
          curve_answers e0 in_1 c0 (omega arith),
          curve_answers e1 in_2 c1 (omega arith),
          flat,
        )
        (_, refl, c2)

  -- On a well-formed executor whose program is the compiled native normalizer, with positive 64-bit
  -- reserves, side 0 or 1, a storage that stands for a fee of at most 10000 bps and sizes that
  -- leave room for both probes in 64 bits, the validator's concavity loop passes, and leaves such
  -- an executor: its tolerance of one nano is enough for the rounding of the curve.
  pub concave-IsCurve :
      (sizes : List ℕ) (e : BpfExecutor)
      → IsCurve e
      → All (λ size. size + 2_000_000 < 2 ^ 64) sizes
      → (e' : BpfExecutor) × (concave rx ry storage side sizes e ≡ passed e') × IsCurve e'
  unfolding concave
  concave-IsCurve [] e c h = (e, refl, c)
  concave-IsCurve (size ∷ sizes) e c (h, hs') =
      let (e', p, c') = concave_at-IsCurve e size c h in
      let (e'', q, c'') = concave-IsCurve sizes e' c' hs' in (e'', rw p q, c'')
