-- ===== src/Sim/Amm.antt =====
-- crates/sim/src/amm.rs: a pool with its reserves, its storage and the submission that prices it.
pub mod Laws
use Prim.Native.String.{String}
use prop_amm_challenge.Prelude.{
  ℕ, Bool, not, ◌||◌, min, List, length, take, copy_at, Option, if◌then◌else◌,
}
use prop_amm_challenge.Buffer.{zeros}
use prop_amm_challenge.Float.{Float, ◌⊕◌, ◌⊖◌, ◌⊘◌, lt, le, nought, is_finite}
use prop_amm_challenge.Shared.Instruction.{storage_size}
use prop_amm_challenge.Shared.Nano.{f64_to_nano, nano_to_f64}
use prop_amm_challenge.Executor.Native
use prop_amm_challenge.Executor.Native.{NativeExecutor, SwapFn, AfterSwapFn}
use prop_amm_challenge.Executor.Vm
use prop_amm_challenge.Executor.Vm.{BpfExecutor, BpfProgram, Outcome}

pub data Backend : Type 0 where
  bpf : BpfExecutor → Backend
  native : NativeExecutor → Backend

pub record BpfAmm (F : Type 0) : Type 0 where
  pub backend : Backend
  pub reserve_x : F
  pub reserve_y : F
  pub name : String
  pub storage : List ℕ
  pub current_step : ℕ

-- `result.unwrap_or(0)`
abbrev unwrap_or_zero : Outcome ℕ → ℕ
unwrap_or_zero (Outcome.ok n) = n
unwrap_or_zero (Outcome.err e) = 0

unfoldable pub call_backend : Backend → ℕ → ℕ → ℕ → ℕ → List ℕ → ℕ × Backend
call_backend (bpf exec) side amount rx ry storage =
    let (result, exec') = Vm.execute exec side amount rx ry storage in
    (unwrap_or_zero result, bpf exec')
call_backend (native exec) side amount rx ry storage =
    (Native.execute exec side amount rx ry storage, native exec)

-- The storage and the backend after the hook; an error of the virtual machine is ignored.
unfoldable pub after_swap_backend : Backend → ℕ → ℕ → ℕ → ℕ → ℕ → ℕ → List ℕ → List ℕ × Backend
after_swap_backend (bpf exec) side input output rx ry step storage =
    let (_, storage', exec') = Vm.execute_after_swap exec side input output rx ry step storage in
    (storage', bpf exec')
after_swap_backend (native exec) side input output rx ry step storage =
    (Native.execute_after_swap exec side input output rx ry step storage, native exec)

module _ {F : Type 0} ⦃f : Float F⦄ where
  abbrev pub min_reserve : F
  min_reserve = f.literal 1 12

  unfoldable pub create : BpfProgram → F → F → String → BpfAmm F
  create program reserve_x reserve_y name = record {
    backend = bpf (Vm.create program);
    reserve_x = reserve_x;
    reserve_y = reserve_y;
    name = name;
    storage = zeros storage_size;
    current_step = 0;
  }

  unfoldable pub new_native : SwapFn → Option AfterSwapFn → F → F → String → BpfAmm F
  new_native swap_fn after_swap_fn reserve_x reserve_y name = record {
    backend = native (record { swap_fn = swap_fn; after_swap_fn = after_swap_fn });
    reserve_x = reserve_x;
    reserve_y = reserve_y;
    name = name;
    storage = zeros storage_size;
    current_step = 0;
  }

  unfoldable pub call : BpfAmm F → ℕ → ℕ → ℕ → ℕ → ℕ × BpfAmm F
  call a side amount rx ry =
      let (out, backend') = call_backend a.backend side amount rx ry a.storage in
      (out, record a { backend = backend' })

  unfoldable pub call_after_swap : BpfAmm F → ℕ → ℕ → ℕ → ℕ → ℕ → BpfAmm F
  call_after_swap a side input output rx ry =
      let (storage', backend') =
        after_swap_backend a.backend side input output rx ry a.current_step a.storage in
      record a { backend = backend'; storage = storage' }

  unfoldable pub set_current_step : BpfAmm F → ℕ → BpfAmm F
  set_current_step a step = record a { current_step = step }

  unfoldable pub not_positive : F → Bool
  not_positive x = le x nought || not (is_finite x)

  -- A reserve that is too small or not finite.
  unfoldable pub drained : F → F → Bool
  drained x y = le x min_reserve || (le y min_reserve || (not (is_finite x) || not (is_finite y)))

  unfoldable pub quote_buy_x : BpfAmm F → F → F × BpfAmm F
  quote_buy_x a input_y =
      let (out, a') =
        call a 0 (f64_to_nano input_y) (f64_to_nano a.reserve_x) (f64_to_nano a.reserve_y) in
      let quoted = nano_to_f64 out in
      if not_positive input_y
      then (nought, a)
      else (if drained a.reserve_x a.reserve_y
          then (nought, a)
          else (if not (is_finite quoted) || (le quoted nought || lt a'.reserve_x quoted)
              then (nought, a')
              else (quoted, a')))

  unfoldable pub quote_sell_x : BpfAmm F → F → F × BpfAmm F
  quote_sell_x a input_x =
      let (out, a') =
        call a 1 (f64_to_nano input_x) (f64_to_nano a.reserve_x) (f64_to_nano a.reserve_y) in
      let quoted = nano_to_f64 out in
      if not_positive input_x
      then (nought, a)
      else (if drained a.reserve_x a.reserve_y
          then (nought, a)
          else (if not (is_finite quoted) || (le quoted nought || lt a'.reserve_y quoted)
              then (nought, a')
              else (quoted, a')))

  -- An input or an output that is no trade.
  unfoldable pub no_trade : F → F → Bool
  no_trade input output =
      le input nought || (le output nought || (not (is_finite input) || not (is_finite output)))

  unfoldable pub execute_buy_x : BpfAmm F → F → F × BpfAmm F
  execute_buy_x a input_y =
      let (output_x, a') = quote_buy_x a input_y in
      let new_rx = a'.reserve_x ⊖ output_x in
      let new_ry = a'.reserve_y ⊕ input_y in
      let moved = record a' { reserve_x = new_rx; reserve_y = new_ry } in
      let hooked =
        call_after_swap moved 0 (f64_to_nano input_y) (f64_to_nano output_x) (f64_to_nano new_rx)
          (f64_to_nano new_ry) in
      if no_trade input_y output_x
      then (nought, a')
      else (if le a'.reserve_x output_x
          then (nought, a')
          else (if drained new_rx new_ry then (nought, a') else (output_x, hooked)))

  unfoldable pub execute_sell_x : BpfAmm F → F → F × BpfAmm F
  execute_sell_x a input_x =
      let (output_y, a') = quote_sell_x a input_x in
      let new_rx = a'.reserve_x ⊕ input_x in
      let new_ry = a'.reserve_y ⊖ output_y in
      let moved = record a' { reserve_x = new_rx; reserve_y = new_ry } in
      let hooked =
        call_after_swap moved 1 (f64_to_nano input_x) (f64_to_nano output_y) (f64_to_nano new_rx)
          (f64_to_nano new_ry) in
      if no_trade input_x output_y
      then (nought, a')
      else (if le a'.reserve_y output_y
          then (nought, a')
          else (if drained new_rx new_ry then (nought, a') else (output_y, hooked)))

  unfoldable pub spot_price : BpfAmm F → F
  spot_price a =
      if le a.reserve_x min_reserve || (not (is_finite a.reserve_x) || not (is_finite a.reserve_y))
      then f.nan
      else a.reserve_y ⊘ a.reserve_x

  unfoldable pub set_initial_storage : BpfAmm F → List ℕ → BpfAmm F
  set_initial_storage a bytes =
      let n = min (length bytes) (length a.storage) in
      record a { storage = copy_at 0 (take n bytes) a.storage }

  unfoldable pub reset : BpfAmm F → F → F → BpfAmm F
  reset a reserve_x reserve_y = record a {
    reserve_x = reserve_x;
    reserve_y = reserve_y;
    storage = zeros (length a.storage);
    current_step = 0;
  }
