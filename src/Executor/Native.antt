-- ===== src/Executor/Native.antt =====
-- crates/executor/src/native.rs. A `SwapFn` is a function of the call's bytes. An `AfterSwapFn` maps
-- the call and the storage slice to the slice's new content.
use prop_amm_challenge.Prelude.{ℕ, List, ◌++◌, Option, none, some, length, take, drop, min}
use prop_amm_challenge.Shared.Instruction.{encode_swap_instruction, encode_after_swap, storage_size}

abbrev pub SwapFn : Type 0
SwapFn = List ℕ → ℕ

abbrev pub AfterSwapFn : Type 0
AfterSwapFn = List ℕ → List ℕ → List ℕ

pub record NativeExecutor : Type 0 where
  pub swap_fn : SwapFn
  pub after_swap_fn : Option AfterSwapFn

unfoldable pub execute : NativeExecutor → ℕ → ℕ → ℕ → ℕ → List ℕ → ℕ
execute exec side amount rx ry storage =
    exec.swap_fn (encode_swap_instruction side amount rx ry storage)

-- The storage after the call.
unfoldable pub execute_after_swap : NativeExecutor → ℕ → ℕ → ℕ → ℕ → ℕ → ℕ → List ℕ → List ℕ
execute_after_swap exec side input_amount output_amount rx ry step storage =
    let copy_len = min (length storage) storage_size in
    elim exec.after_swap_fn [
      | none ↦ storage
      | some after_swap ↦
          after_swap (encode_after_swap side input_amount output_amount rx ry step storage)
            (take copy_len storage)
          ++ drop copy_len storage
    ]
