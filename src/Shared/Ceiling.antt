-- ===== src/Shared/Ceiling.antt =====
-- `(k + n - 1) / n`, the rounded-up division of the constant-product curve, and what it makes of
-- the curve. Pure arithmetic, shared by the normalizer and the two on-chain programs.
use prop_amm_challenge.Prelude.{ℕ, ◌+◌, ◌-◌, ◌*◌, ◌/◌, ◌≤◌, ◌<◌, ◌↔◌, arith}
use native.Mathlib.Nat.{
  mul-le-mul_left, mul-le-mul_right, lt-div-mul-add, div-mul-le_self, le_trans, mul-pos,
}

unfoldable pub ceil_div : ℕ → ℕ → ℕ
ceil_div k n = (k + n - 1) / n

pub ceil_div-covers : (k n : ℕ) → 0 < n → k ≤ ceil_div k n * n
unfolding ceil_div
ceil_div-covers k n h = omega (arith, lt-div-mul-add {a = k + n - 1} {b = n} h)

pub ceil_div-tight : (k n : ℕ) → 0 < n → ceil_div k n * n < k + n
unfolding ceil_div
ceil_div-tight k n h = omega (arith, div-mul-le_self (k + n - 1) n)

-- It is the least factor that covers `k`.
pub ceil_div-least : (k n m : ℕ) → 0 < n → k ≤ m * n → ceil_div k n ≤ m
ceil_div-least k n m h c = grind (arith, ceil_div-tight k n h)

pub ceil_div-pos : (k n : ℕ) → 0 < n → 0 < k → 0 < ceil_div k n
ceil_div-pos k n h p = grind (arith, ceil_div-covers k n h)

-- The curve: what a reserve `a` gives up when the other grows from `b` to `n`.
unfoldable pub given : ℕ → ℕ → ℕ → ℕ
given a b n = a - ceil_div (a * b) n

module _ (a b n : ℕ) (pos : 0 < b) (grows : b ≤ n) where
  pub ceil_div-le_reserve : ceil_div (a * b) n ≤ a
  ceil_div-le_reserve = ceil_div-least (a * b) n a (omega arith) (mul-le-mul_left a grows)

  -- An amount can be given up without lowering the product exactly if it is at most `given`.
  pub given_iff : (o : ℕ) → o ≤ a → (a * b ≤ (a - o) * n) ↔ (o ≤ given a b n)
  unfolding given
  given_iff o h = (
    λ c. omega (arith, ceil_div-least (a * b) n (a - o) (omega arith) c),
    λ g.
        le_trans (ceil_div-covers (a * b) n (omega arith))
          (mul-le-mul_right n (omega (arith, ceil_div-le_reserve))),
  )

  pub given-lt : 0 < a → given a b n < a
  unfolding given
  given-lt p = omega (arith, ceil_div-pos (a * b) n (omega arith) (mul-pos p pos))

pub given_mono : (a b n m : ℕ) → 0 < b → b ≤ n → n ≤ m → given a b n ≤ given a b m
unfolding given
given_mono a b n m p h k =
    let q = ceil_div (a * b) n in
    let covers : a * b ≤ q * m =
      le_trans (ceil_div-covers (a * b) n (omega arith)) (mul-le-mul_left q k) in
    omega (arith, ceil_div-least (a * b) m q (omega arith) covers)

convex_arith :
    (q0 q1 q2 k n d : ℕ)
    → k ≤ q0 * n
    → k ≤ q2 * (n + d + d)
    → q1 * (n + d) < k + (n + d)
    → q2 * d ≤ q0 * d
    → 2 * q1 ≤ q0 + q2 + 1
convex_arith q0 q1 q2 k n d low high mid side =
    let m = n + d in
    let top : 2 * q1 * m < (q0 + q2 + 2) * m = omega arith in
    omega (arith, lt_of_mul m (2 * q1) (q0 + q2 + 2) top)
  where
    lt_of_mul : (m x y : ℕ) → x * m < y * m → x < y
    lt_of_mul m x y h = grind arith

-- The rounded-up quotients of `k` by three equally spaced divisors.
ceil_div_convex :
    (k n d : ℕ) → 0 < n → 2 * ceil_div k (n + d) ≤ ceil_div k n + ceil_div k (n + d + d) + 1
ceil_div_convex k n d p =
    let q0 = ceil_div k n in
    let q1 = ceil_div k (n + d) in
    let q2 = ceil_div k (n + d + d) in
    let low : k ≤ q0 * n = ceil_div-covers k n p in
    let high : k ≤ q2 * (n + d + d) = ceil_div-covers k (n + d + d) (omega arith) in
    let mid : q1 * (n + d) < k + (n + d) = ceil_div-tight k (n + d) (omega arith) in
    let falls : q2 ≤ q0 =
      ceil_div-least k (n + d + d) q0 (omega arith)
        (le_trans low (mul-le-mul_left q0 (omega arith))) in
    let side : q2 * d ≤ q0 * d = mul-le-mul_right d falls in
    convex_arith q0 q1 q2 k n d low high mid side

-- Three equally spaced points: the second step gains at most one unit more than the first.
pub given_concave :
    (a b n d : ℕ) → 0 < b → b ≤ n → given a b n + given a b (n + d + d) ≤ 2 * given a b (n + d) + 1
unfolding given
given_concave a b n d p h = omega (
  arith,
  ceil_div_convex (a * b) n d (omega arith),
  ceil_div-le_reserve a b n p h,
  ceil_div-le_reserve a b (n + d) p (omega arith),
  ceil_div-le_reserve a b (n + d + d) p (omega arith),
)
