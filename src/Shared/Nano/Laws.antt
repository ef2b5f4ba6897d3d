-- ===== src/Shared/Nano/Laws.antt =====
-- `f64_to_nano` of crates/shared/src/nano.rs on every kind of value.
use prop_amm_challenge.Prelude.{◌≡◌, true, arith}
use prop_amm_challenge.Words.{IsU64, u64_max}
use prop_amm_challenge.Float.{Float, IsFloat, le, nought, lt, ◌⊗◌}
use prop_amm_challenge.Shared.Nano.{f64_to_nano, nano_scale_f64}

module _ {F : Type 0} ⦃f : Float F⦄ (laws : IsFloat F) where
  -- With a cast from floats to 64-bit integers that stays in range, the conversion to nanos of any
  -- value, NaN and infinities included, is a 64-bit number.
  pub f64_to_nano-IsU64 : (x : F) → IsU64 (f64_to_nano x)
  unfolding f64_to_nano
  f64_to_nano-IsU64 x = ground (arith, laws.to_u64-lt (x ⊗ nano_scale_f64))

  -- A NaN and every value that is not above zero become 0, positive infinity becomes `u64::MAX`, and
  -- so does every number whose scaled value reaches it.
  pub f64_to_nano_special :
      (x : F)
      → (f.is_nan x ≡ true → f64_to_nano x ≡ 0)
        × (le x nought ≡ true → f64_to_nano x ≡ 0)
        × (lt nought x ≡ true → f.is_infinite x ≡ true → f64_to_nano x ≡ u64_max)
        × (lt nought x ≡ true
            → le (f.of_u64 u64_max) (x ⊗ nano_scale_f64) ≡ true
            → f64_to_nano x ≡ u64_max)
  unfolding f64_to_nano
  f64_to_nano_special x = (
    λ h. ground arith,
    λ h. ground arith,
    λ p h. ground (arith, laws.lt_numbers nought x p, laws.le-eq-not-lt x nought),
    λ p h. ground (arith, laws.lt_numbers nought x p, laws.le-eq-not-lt x nought),
  )
