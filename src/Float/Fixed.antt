-- ===== src/Float/Fixed.antt =====
-- A number format that meets the laws and runs: multiples of 10^-12 with a NaN and two infinities.
-- The examples of the other modules are computed in it; no theorem speaks of it.
use prop_amm_challenge.Prelude.{
  ℕ, zero, suc, ◌+◌, ◌-◌, ◌*◌, ◌/◌, ◌^◌, ◌<◌, ◌≡◌, min, Bool, true, false, not, arith, ltb, leb,
  ◌==◌, if◌then◌else◌,
}
use prop_amm_challenge.Words.{u64_max}
use prop_amm_challenge.Float.{Float, IsFloat}

-- `negsuc n` is the number of -(n + 1) units.
pub data Fixed : Type 0 where
  nan neg_infinity infinity : Fixed
  pos negsuc : ℕ → Fixed

abbrev units : ℕ
units = 10 ^ 12

abbrev difference : ℕ → ℕ → Fixed
difference a b = if leb b a then pos (a - b) else negsuc (b - a - 1)

abbrev pub lt : Fixed → Fixed → Bool
lt nan _ = false
lt neg_infinity nan = false
lt neg_infinity neg_infinity = false
lt neg_infinity _ = true
lt infinity _ = false
lt (pos a) infinity = true
lt (pos a) (pos b) = ltb a b
lt (pos a) _ = false
lt (negsuc a) infinity = true
lt (negsuc a) (pos b) = true
lt (negsuc a) (negsuc b) = ltb b a
lt (negsuc a) _ = false

abbrev pub is_nan : Fixed → Bool
is_nan nan = true
is_nan _ = false

abbrev le : Fixed → Fixed → Bool
le x y = if is_nan x then false else (if is_nan y then false else not (lt y x))

abbrev is_infinite : Fixed → Bool
is_infinite neg_infinity = true
is_infinite infinity = true
is_infinite _ = false

abbrev negate : Fixed → Fixed
negate nan = nan
negate neg_infinity = infinity
negate infinity = neg_infinity
negate (pos zero) = pos zero
negate (pos (suc n)) = negsuc n
negate (negsuc n) = pos (suc n)

abbrev plus : Fixed → Fixed → Fixed
plus nan _ = nan
plus _ nan = nan
plus infinity neg_infinity = nan
plus neg_infinity infinity = nan
plus infinity _ = infinity
plus _ infinity = infinity
plus neg_infinity _ = neg_infinity
plus _ neg_infinity = neg_infinity
plus (pos a) (pos b) = pos (a + b)
plus (pos a) (negsuc b) = difference a (suc b)
plus (negsuc a) (pos b) = difference b (suc a)
plus (negsuc a) (negsuc b) = negsuc (a + b + 1)

abbrev minus : Fixed → Fixed → Fixed
minus x y = plus x (negate y)

-- Products with an infinity are taken for NaN.
abbrev times : Fixed → Fixed → Fixed
times (pos a) (pos b) = pos (a * b / units)
times (pos a) (negsuc b) = difference 0 (a * suc b / units)
times (negsuc a) (pos b) = difference 0 (suc a * b / units)
times (negsuc a) (negsuc b) = pos (suc a * suc b / units)
times _ _ = nan

abbrev over : Fixed → Fixed → Fixed
over (pos a) (pos b) = if b == 0 then nan else pos (a * units / b)
over (pos a) (negsuc b) = difference 0 (a * units / suc b)
over (negsuc a) (pos b) = if b == 0 then nan else difference 0 (suc a * units / b)
over (negsuc a) (negsuc b) = pos (suc a * units / suc b)
over _ _ = nan

-- The integer root by bisection of the bits, highest first.
abbrev root_from : ℕ → ℕ → ℕ → ℕ
root_from zero n r = r
root_from (suc k) n r =
    let next = r + 2 ^ k in root_from k n (if leb (next * next) n then next else r)

abbrev sqrt : Fixed → Fixed
sqrt (pos a) = pos (root_from 128 (a * units) 0)
sqrt infinity = infinity
sqrt _ = nan

abbrev abs : Fixed → Fixed
abs neg_infinity = infinity
abs (negsuc n) = pos (suc n)
abs x = x

abbrev to_u64 : Fixed → ℕ
to_u64 (pos a) = min (a / units) u64_max
to_u64 infinity = u64_max
to_u64 _ = 0

-- `exp` and `ln` are their first-order approximations.
instance abbrev pub fixed_float : Float Fixed
fixed_float = record {
  plus = plus;
  minus = minus;
  times = times;
  over = over;
  sqrt = sqrt;
  exp = plus (pos units);
  ln = λ x. minus x (pos units);
  abs = abs;
  lt = lt;
  le = le;
  is_nan = is_nan;
  is_infinite = is_infinite;
  nan = nan;
  neg_infinity = neg_infinity;
  literal = λ m k. pos (m * units / 10 ^ k);
  of_u64 = λ n. pos (n * units);
  to_u64 = to_u64;
}

not-lt_trans : (x y z : Fixed) → is_nan y ≡ false → lt x y ≡ false → lt y z ≡ false → lt x z ≡ false
not-lt_trans nan y z h k l = ground arith
not-lt_trans neg_infinity y z h k l = ground arith
not-lt_trans infinity y z h k l = ground arith
not-lt_trans (pos a) y z h k l = ground arith
not-lt_trans (negsuc a) y z h k l = ground arith

lt_trans : (x y z : Fixed) → lt x y ≡ true → lt y z ≡ true → lt x z ≡ true
lt_trans nan y z h k = ground arith
lt_trans neg_infinity y z h k = ground arith
lt_trans infinity y z h k = ground arith
lt_trans (pos a) y z h k = ground arith
lt_trans (negsuc a) y z h k = ground arith

to_u64-lt : (x : Fixed) → to_u64 x < 2 ^ 64
to_u64-lt nan = omega arith
to_u64-lt neg_infinity = omega arith
to_u64-lt infinity = omega arith
to_u64-lt (pos a) = omega arith
to_u64-lt (negsuc a) = omega arith

pub Fixed-IsFloat : IsFloat Fixed
Fixed-IsFloat = record {
  lt_irrefl = λ x. ground arith;
  lt_asymm = λ x y h. ground arith;
  lt_trans = lt_trans;
  not-lt_trans = not-lt_trans;
  lt_numbers = λ x y h. ground arith;
  le_numbers = λ x y h. ground arith;
  le-eq-not-lt = λ x y h k. ground arith;
  neg_infinity_number = ground arith;
  literal_number = λ m k. ground arith;
  to_u64-lt = to_u64-lt;
}

-- A value in whole units, for the examples.
abbrev pub fixed : ℕ → Fixed
fixed n = pos (n * units)
