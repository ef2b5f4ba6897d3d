-- ===== src/Sim/Engine/Setup.antt =====
-- crates/sim/src/engine.rs: the fee that the normalizer's pool starts with.
use prop_amm_challenge.Prelude.{
  ℕ, ◌<◌, ◌≡◌, refl, ◌∙◌, ap, Option, arith, [], length, min, ◌++◌, take-append, take_all,
  length-append,
}
use prop_amm_challenge.Words.{
  IsU16, IsU64, to_le_bytes, length-to_le_bytes, from_le_bytes-to_le_bytes,
}
use prop_amm_challenge.Buffer.{zeros, length-zeros, pad_full, copy_at-zeros}
use prop_amm_challenge.Float.{Float}
use prop_amm_challenge.Shared.Config.{SimulationConfig}
use prop_amm_challenge.Shared.Instruction.{storage_size, encode_swap_instruction}
use prop_amm_challenge.Shared.Normalizer as Normalizer
use prop_amm_challenge.Shared.Normalizer.{swap_output}
use prop_amm_challenge.Shared.Normalizer.Calls.{stored_fee, compute_swap-encode}
use prop_amm_challenge.Executor.Native.{SwapFn, AfterSwapFn}
use prop_amm_challenge.Sim.Amm.{BpfAmm, new_native, set_initial_storage}
use prop_amm_challenge.Sim.Arbitrageur.{normalizer_fee_bps}
use prop_amm_challenge.Sim.Engine.{normalizer_pool}

module _ {F : Type 0} ⦃f : Float F⦄ where
  -- The pool of the native normalizer, as the engine makes it.
  abbrev pub native_normalizer : SwapFn → Option AfterSwapFn → SimulationConfig F → BpfAmm F
  native_normalizer swap after config =
      normalizer_pool (λ x y. new_native swap after x y "normalizer") config

  fee_storage :
      (swap : SwapFn) (after : Option AfterSwapFn) (config : SimulationConfig F)
      → (native_normalizer swap after config).storage
        ≡ to_le_bytes 2 config.norm_fee_bps ++ zeros 1022
  unfolding normalizer_pool set_initial_storage new_native
  fee_storage swap after config =
      let bytes = to_le_bytes 2 config.norm_fee_bps in
      let n = length-to_le_bytes 2 config.norm_fee_bps in
      let e : min (length bytes) (length (zeros storage_size)) ≡ 2 =
        omega (arith, n, length-zeros storage_size) in
      rw (e, take_all 2 bytes (omega arith)) (copy_at-zeros 0 1022 1024 [] bytes refl (omega arith))

  -- For a configuration with a positive 16-bit fee, the native normalizer's pool that the engine
  -- makes starts with a storage from which both readers get that fee: the arbitrageur's closed
  -- form, and the normalizer's curve, which prices every call on that storage with 64-bit amounts
  -- at it.
  pub normalizer_pool_fee :
      (swap : SwapFn) (after : Option AfterSwapFn) (config : SimulationConfig F)
      (side input x y : ℕ)
      → 0 < config.norm_fee_bps
      → IsU16 config.norm_fee_bps
      → IsU64 input
      → IsU64 x
      → IsU64 y
      → let pool = native_normalizer swap after config in
        (normalizer_fee_bps pool ≡ config.norm_fee_bps)
        × (Normalizer.compute_swap (encode_swap_instruction side input x y pool.storage)
            ≡ swap_output config.norm_fee_bps side input x y)
  unfolding normalizer_fee_bps stored_fee
  normalizer_pool_fee swap after config side input x y positive h hi hx hy =
      let bytes = to_le_bytes 2 config.norm_fee_bps in
      let stored = fee_storage swap after config in
      let n = length-to_le_bytes 2 config.norm_fee_bps in
      let long : length (bytes ++ zeros 1022) ≡ storage_size =
        omega (arith, length-append bytes (zeros 1022), n, length-zeros 1022) in
      let fee = from_le_bytes-to_le_bytes 2 config.norm_fee_bps (omega arith) in
      let front = take-append 2 bytes (zeros 1022) n in
      let same : stored_fee (bytes ++ zeros 1022) ≡ config.norm_fee_bps =
        rw (pad_full storage_size (bytes ++ zeros 1022) long, front, fee) (ground arith) in
      let quoted = compute_swap-encode side input x y (bytes ++ zeros 1022) hi hx hy in
      (
        rw (stored, front, fee, long) (ground arith),
        rw stored (quoted ∙ ap (λ k. swap_output k side input x y) same),
      )
