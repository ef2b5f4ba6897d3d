-- ===== src/Shared/Normalizer/Curve.antt =====
-- The outputs of crates/shared/src/normalizer.rs as a function of the input.
use prop_amm_challenge.Prelude.{ℕ, ◌+◌, ◌-◌, ◌*◌, ◌≤◌, ◌<◌, ◌≡◌, ◌↔◌, arith, ◌==◌, if◌then◌else◌}
use prop_amm_challenge.Words.{IsU64, mul128}
use prop_amm_challenge.Shared.Ceiling.{given, given_iff, given-lt, given_mono, given_concave}
use prop_amm_challenge.Shared.Normalizer.{swap_output}
use prop_amm_challenge.Shared.Normalizer.Bounds.{
  net_of, net_input-eq-net_of, net_of-le, pays-eq-given,
}
use native.Mathlib.Nat.{mul-le-mul_left, mul-le-mul_right, le_trans}

-- The reserve that a side pays into and the one that it takes from.
abbrev pub reserve_in : ℕ → ℕ → ℕ → ℕ
reserve_in side x y = if side == 0 then y else x

abbrev pub reserve_out : ℕ → ℕ → ℕ → ℕ
reserve_out side x y = if side == 0 then x else y

pub record IsCall (fee side input x y : ℕ) : Type 0 where
  pub fee_le : fee ≤ 10000
  pub side_le : side ≤ 1
  pub input_word : IsU64 input
  pub x_word : IsU64 x
  pub y_word : IsU64 y
  pub x_pos : 0 < x
  pub y_pos : 0 < y

-- On a well-formed call the wrapped arithmetic of the code is the curve `given`.
pub swap_output-eq-given :
    (fee side input x y : ℕ)
    → IsCall fee side input x y
    → swap_output fee side input x y
      ≡ given (reserve_out side x y) (reserve_in side x y) (reserve_in side x y + net_of fee input)
unfolding swap_output
swap_output-eq-given fee side input x y c =
    rw (net_input-eq-net_of fee input c.fee_le c.input_word) (
      ground (
        arith,
        net_of-le fee input,
        pays-eq-given y x (net_of fee input),
        pays-eq-given x y (net_of fee input),
        swap_k x y,
      ))
  where
    swap_k : (a b : ℕ) → mul128 a b ≡ mul128 b a
    swap_k a b = omega arith

-- The reserve that is paid into is a positive word.
in_pos : (fee side input x y : ℕ) → IsCall fee side input x y → 0 < reserve_in side x y
in_pos fee side input x y c = ground arith

out_pos : (fee side input x y : ℕ) → IsCall fee side input x y → 0 < reserve_out side x y
out_pos fee side input x y c = ground arith

module _ (fee side input x y : ℕ) (c : IsCall fee side input x y) where
  -- On a call with a fee of at most 10000 bps, side 0 or 1, and positive 64-bit reserves and a
  -- 64-bit input, an output of at most the paying reserve keeps the product of the reserves with
  -- the input after the fee at least as large as before exactly when it is at most the output that
  -- the curve pays: the curve pays the largest such output.
  pub swap_output_largest :
      (o : ℕ)
      → o ≤ reserve_out side x y
      → (reserve_out side x y * reserve_in side x y
          ≤ (reserve_out side x y - o) * (reserve_in side x y + net_of fee input))
        ↔ (o ≤ swap_output fee side input x y)
  swap_output_largest o h = rw (swap_output-eq-given fee side input x y c) (
      given_iff (reserve_out side x y) (reserve_in side x y) _ (in_pos fee side input x y c)
        (omega arith) o h)

  pub swap_output-lt : swap_output fee side input x y < reserve_out side x y
  swap_output-lt = rw (swap_output-eq-given fee side input x y c) (
      given-lt (reserve_out side x y) (reserve_in side x y) _ (in_pos fee side input x y c)
        (omega arith) (out_pos fee side input x y c))

  -- On a call with a fee of at most 10000 bps, side 0 or 1, and positive 64-bit reserves and a
  -- 64-bit input, the product of the reserves after the trade, with the whole input paid in, is at
  -- least the product before it.
  pub swap_output-keeps :
      reserve_out side x y * reserve_in side x y
      ≤ (reserve_out side x y - swap_output fee side input x y) * (reserve_in side x y + input)
  swap_output-keeps =
      let out = swap_output fee side input x y in
      le_trans ((swap_output_largest out (omega (arith, swap_output-lt))).1 (omega arith))
        (mul-le-mul_left (reserve_out side x y - out) (omega (arith, net_of-le fee input)))

net_of_mono : (fee i j : ℕ) → i ≤ j → net_of fee i ≤ net_of fee j
unfolding net_of
net_of_mono fee i j h =
    let p : i * (10000 - fee) ≤ j * (10000 - fee) = mul-le-mul_right (10000 - fee) h in omega arith

-- On a call with a fee of at most 10000 bps, side 0 or 1, and positive 64-bit reserves, a larger
-- 64-bit input never gets a smaller output.
pub swap_output_mono :
    (fee side i j x y : ℕ)
    → i ≤ j
    → IsCall fee side j x y
    → swap_output fee side i x y ≤ swap_output fee side j x y
swap_output_mono fee side i j x y h c =
    let smaller : IsCall fee side i x y = omega arith in
    rw (swap_output-eq-given fee side i x y smaller, swap_output-eq-given fee side j x y c)
      (given_mono (reserve_out side x y) (reserve_in side x y) _ _ (in_pos fee side j x y c)
        (omega arith) (omega (arith, net_of_mono fee i j h)))

-- The step in the input that makes the step after the fee exact.
net_of_step : (fee i k : ℕ) → net_of fee (i + 10000 * k) ≡ net_of fee i + (10000 - fee) * k
unfolding net_of
net_of_step fee i k = omega arith

-- On a call with a fee of at most 10000 bps, side 0 or 1, positive 64-bit reserves, and 64-bit
-- inputs, the outputs at three inputs that are equally spaced by a multiple of 10000 are concave up
-- to one unit: the outer two together are at most twice the middle one plus 1.
pub swap_output_concave :
    (fee side i k x y : ℕ)
    → IsCall fee side (i + 10000 * k + 10000 * k) x y
    → swap_output fee side i x y + swap_output fee side (i + 10000 * k + 10000 * k) x y
      ≤ 2 * swap_output fee side (i + 10000 * k) x y + 1
swap_output_concave fee side i k x y c =
    let c0 : IsCall fee side i x y = omega arith in
    let c1 : IsCall fee side (i + 10000 * k) x y = omega arith in
    rw
      (
        swap_output-eq-given fee side i x y c0,
        swap_output-eq-given fee side (i + 10000 * k) x y c1,
        swap_output-eq-given fee side (i + 10000 * k + 10000 * k) x y c,
        net_of_step fee (i + 10000 * k) k,
        net_of_step fee i k,
      )
      (regroup (reserve_out side x y) (reserve_in side x y) (net_of fee i) ((10000 - fee) * k) (
        given_concave (reserve_out side x y) (reserve_in side x y)
          (reserve_in side x y + net_of fee i) ((10000 - fee) * k)
          (in_pos fee side (i + 10000 * k + 10000 * k) x y c) (omega arith)))
  where
    regroup :
        (a b n d : ℕ)
        → given a b (b + n) + given a b (b + n + d + d) ≤ 2 * given a b (b + n + d) + 1
        → given a b (b + n) + given a b (b + (n + d + d)) ≤ 2 * given a b (b + (n + d)) + 1
    regroup a b n d h =
        let one : b + (n + d) ≡ b + n + d = omega arith in
        let two : b + (n + d + d) ≡ b + n + d + d = omega arith in rw (one, two) h
