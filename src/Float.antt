-- ===== src/Float.antt =====
-- `f64`, as the interface that the simulator uses of it: the IEEE 754 operations of the language, a
-- decimal literal, the casts from and to `u64`, and `sqrt`, `exp`, `ln`. The code that computes with
-- `f64` is generic over it; the laws are those of the standard that a theorem needs.
pub mod Fixed
use prop_amm_challenge.Prelude.{
  ℕ, ◌≤◌, ◌<◌, ◌^◌, ◌≡◌, Bool, true, false, not, ◌&&◌, ◌||◌, Option, none, some, arith,
  if◌then◌else◌,
}

pub record Float (F : Type 0) : Type 0 where
  pub plus : F → F → F
  pub minus : F → F → F
  pub times : F → F → F
  pub over : F → F → F
  pub sqrt : F → F
  pub exp : F → F
  pub ln : F → F
  pub abs : F → F
  -- `<` and `<=`, which are false on a NaN
  pub lt : F → F → Bool
  pub le : F → F → Bool
  pub is_nan : F → Bool
  pub is_infinite : F → Bool
  pub nan : F
  pub neg_infinity : F
  -- `literal m k` is the literal for `m` divided by `10 ^ k`
  pub literal : ℕ → ℕ → F
  -- `n as f64` for a `u64`, and `x as u64`, which saturates and takes a NaN to 0
  pub of_u64 : ℕ → F
  pub to_u64 : F → ℕ

module _ {F : Type 0} ⦃f : Float F⦄ where
  infixl 65 ◌⊕◌ ◌⊖◌
  infixl 70 ◌⊗◌ ◌⊘◌
  abbrev pub ◌⊕◌ : F → F → F
  a ⊕ b = f.plus a b

  abbrev pub ◌⊖◌ : F → F → F
  a ⊖ b = f.minus a b

  abbrev pub ◌⊗◌ : F → F → F
  a ⊗ b = f.times a b

  abbrev pub ◌⊘◌ : F → F → F
  a ⊘ b = f.over a b

  abbrev pub lt : F → F → Bool
  lt a b = f.lt a b

  abbrev pub le : F → F → Bool
  le a b = f.le a b

  abbrev pub nought : F
  nought = f.literal 0 0

  abbrev pub unit : F
  unit = f.literal 1 0

  abbrev pub is_finite : F → Bool
  is_finite x = not (f.is_nan x || f.is_infinite x)

  -- `f64::max` and `f64::min`: of a number and a NaN, the number.
  unfoldable pub fmax : F → F → F
  fmax a b = if f.is_nan a then b else (if f.is_nan b then a else (if lt a b then b else a))

  unfoldable pub fmin : F → F → F
  fmin a b = if f.is_nan a then b else (if f.is_nan b then a else (if lt b a then b else a))

  -- The body of `x.clamp(lo, hi)`.
  unfoldable pub clamp_to : F → F → F → F
  clamp_to x lo hi = if lt x lo then lo else (if lt hi x then hi else x)

  -- `x.clamp(lo, hi)`, which panics, `none`, unless `lo <= hi`.
  unfoldable pub clamp : F → F → F → Option F
  clamp x lo hi = if le lo hi then some (clamp_to x lo hi) else none

-- IEEE 754: the order is a weak order on the numbers and false on NaN; `-inf` is not a NaN; the cast to
-- `u64` stays in range.
pub record IsFloat (F : Type 0) ⦃f : Float F⦄ : Type 0 where
  pub lt_irrefl : (x : F) → f.lt x x ≡ false
  pub lt_asymm : (x y : F) → f.lt x y ≡ true → f.lt y x ≡ false
  pub lt_trans : (x y z : F) → f.lt x y ≡ true → f.lt y z ≡ true → f.lt x z ≡ true
  pub not-lt_trans :
      (x y z : F) → f.is_nan y ≡ false → f.lt x y ≡ false → f.lt y z ≡ false → f.lt x z ≡ false
  pub lt_numbers : (x y : F) → f.lt x y ≡ true → (f.is_nan x ≡ false) × (f.is_nan y ≡ false)
  pub le_numbers : (x y : F) → f.le x y ≡ true → (f.is_nan x ≡ false) × (f.is_nan y ≡ false)
  pub le-eq-not-lt : (x y : F) → f.is_nan x ≡ false → f.is_nan y ≡ false → f.le x y ≡ not (f.lt y x)
  pub neg_infinity_number : f.is_nan f.neg_infinity ≡ false
  pub literal_number : (m k : ℕ) → f.is_nan (f.literal m k) ≡ false
  pub to_u64-lt : (x : F) → f.to_u64 x < 2 ^ 64
