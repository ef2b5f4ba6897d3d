-- ===== src/Shared/Normalizer/Bounds.antt =====
-- The `u128` arithmetic of crates/shared/src/normalizer.rs.
use prop_amm_challenge.Prelude.{ℕ, ◌+◌, ◌-◌, ◌*◌, ◌/◌, ◌^◌, ◌≤◌, ◌<◌, ◌≡◌, arith}
use prop_amm_challenge.Words.{IsU64, add128, sub128, mul128, mul-u64}
use prop_amm_challenge.Shared.Ceiling.{ceil_div, given}
use prop_amm_challenge.Shared.Normalizer.{pays, net_input}
use native.Mathlib.Nat.{mul-le-mul, mul-le-mul_left, mod-eq_of_lt}

-- The fee taken off, in plain arithmetic.
unfoldable pub net_of : ℕ → ℕ → ℕ
net_of fee input = input * (10000 - fee) / 10000

pub net_input-eq-net_of :
    (fee input : ℕ) → fee ≤ 10000 → IsU64 input → net_input fee input ≡ net_of fee input
unfolding net_input net_of
net_input-eq-net_of fee input hf hi =
    let p : input * (10000 - fee) ≤ (2 ^ 64 - 1) * 10000 =
      mul-le-mul {n₁ = input} {m₁ = 10000 - fee} {n₂ = 2 ^ 64 - 1} {m₂ = 10000} (omega arith)
        (omega arith) in
    let e : sub128 10000 fee ≡ 10000 - fee = omega arith in
    rw e (
      let f : mul128 input (10000 - fee) ≡ input * (10000 - fee) = mod-eq_of_lt (omega arith) in
      rw f)

pub net_of-le : (fee input : ℕ) → net_of fee input ≤ input
unfolding net_of
net_of-le fee input =
    let p : input * (10000 - fee) ≤ input * 10000 = mul-le-mul_left input (omega arith) in
    omega arith

-- With 64-bit reserves, the paid-in one positive, and a 64-bit net input, the payout that the
-- wrapping 128-bit arithmetic computes is the paying reserve less the product of the reserves
-- divided by the new reserve, rounded up.
pub pays-eq-given :
    (reserve_in reserve_out net : ℕ)
    → IsU64 reserve_in
    → IsU64 reserve_out
    → IsU64 net
    → 0 < reserve_in
    → pays (mul128 reserve_out reserve_in) reserve_in reserve_out net
      ≡ given reserve_out reserve_in (reserve_in + net)
unfolding pays given ceil_div
pays-eq-given b a net hb ha hn pos =
    let p = mul-u64 ha hb in
    let e : mul128 a b ≡ a * b = mod-eq_of_lt (omega arith) in
    let f : add128 b net ≡ b + net = mod-eq_of_lt (omega arith) in
    let g : add128 (a * b) (b + net) ≡ a * b + (b + net) = mod-eq_of_lt (omega arith) in
    let h : sub128 (a * b + (b + net)) 1 ≡ a * b + (b + net) - 1 = omega arith in
    rw (e, f) (rw g (rw h (mod-eq_of_lt (omega arith))))
