-- ===== src/Shared/Nano.antt =====
-- crates/shared/src/nano.rs: between `f64` amounts and `u64` amounts of 10^-9.
pub mod Laws
use prop_amm_challenge.Prelude.{ℕ, ◌||◌, if◌then◌else◌}
use prop_amm_challenge.Words.{u64_max}
use prop_amm_challenge.Float.{Float, nought, le, ◌⊗◌, ◌⊘◌}

module _ {F : Type 0} ⦃f : Float F⦄ where
  abbrev pub nano_scale_f64 : F
  nano_scale_f64 = f.literal 1000000000 0

  unfoldable pub f64_to_nano : F → ℕ
  f64_to_nano value =
      let scaled = value ⊗ nano_scale_f64 in
      if f.is_nan value || le value nought
      then 0
      else (if f.is_infinite value
          then u64_max
          else (if le (f.of_u64 u64_max) scaled then u64_max else f.to_u64 scaled))

  unfoldable pub nano_to_f64 : ℕ → F
  nano_to_f64 value = f.of_u64 value ⊘ nano_scale_f64
