-- ===== src/Words.antt =====
-- The machine words of the source, `u8` to `u128`, as natural numbers with their wrap-around written
-- out, and `to_le_bytes` / `from_le_bytes`.
use prop_amm_challenge.Prelude.{
  ℕ, zero, suc, ◌+◌, ◌-◌, ◌*◌, ◌/◌, ◌%◌, ◌^◌, ◌≤◌, ◌<◌, min, ◌≡◌, refl, List, [], ◌∷◌, length, All,
  arith, ap,
}
use native.Mathlib.Nat.{pow-suc, mul-le-mul}

abbrev pub u8_mod : ℕ
u8_mod = 256

abbrev pub u16_mod : ℕ
u16_mod = 2 ^ 16

abbrev pub u64_mod : ℕ
u64_mod = 2 ^ 64

abbrev pub u128_mod : ℕ
u128_mod = 2 ^ 128

abbrev pub u64_max : ℕ
u64_max = 0xffff_ffff_ffff_ffff

abbrev pub IsByte : ℕ → Type 0
IsByte b = b < 256

abbrev pub IsU16 : ℕ → Type 0
IsU16 n = n < 2 ^ 16

abbrev pub IsU64 : ℕ → Type 0
IsU64 n = n < 2 ^ 64

-- The operators on `u128`, which the release profile lets wrap.
abbrev pub add128 : ℕ → ℕ → ℕ
add128 a b = (a + b) % u128_mod

abbrev pub sub128 : ℕ → ℕ → ℕ
sub128 a b = (a + u128_mod - b) % u128_mod

abbrev pub mul128 : ℕ → ℕ → ℕ
mul128 a b = a * b % u128_mod

-- `saturating_add` on `u64`; `saturating_sub` is subtraction on the naturals.
abbrev pub saturating_add64 : ℕ → ℕ → ℕ
saturating_add64 a b = min (a + b) u64_max

-- `n.to_le_bytes()` for a word of `k` bytes.
unfoldable pub to_le_bytes : ℕ → ℕ → List ℕ
to_le_bytes zero n = []
to_le_bytes (suc k) n = n % 256 ∷ to_le_bytes k (n / 256)

-- `from_le_bytes` of an array of any width.
unfoldable pub from_le_bytes : List ℕ → ℕ
from_le_bytes [] = 0
from_le_bytes (b ∷ bs) = b + 256 * from_le_bytes bs

pub length-to_le_bytes : (k n : ℕ) → length (to_le_bytes k n) ≡ k
unfolding to_le_bytes
length-to_le_bytes zero n = refl
length-to_le_bytes (suc k) n = ap suc (length-to_le_bytes k (n / 256))

pub to_le_bytes-IsByte : (k n : ℕ) → All IsByte (to_le_bytes k n)
unfolding to_le_bytes
to_le_bytes-IsByte zero n = tt
to_le_bytes-IsByte (suc k) n = (omega arith, to_le_bytes-IsByte k (n / 256))

below_pow : (k n : ℕ) → n < 256 ^ suc k → n / 256 < 256 ^ k
below_pow k n h = omega (arith, pow-suc 256 k)

-- A word survives the way through its bytes.
pub from_le_bytes-to_le_bytes : (k n : ℕ) → n < 256 ^ k → from_le_bytes (to_le_bytes k n) ≡ n
unfolding to_le_bytes from_le_bytes
from_le_bytes-to_le_bytes zero n h = omega arith
from_le_bytes-to_le_bytes (suc k) n h =
    omega (arith, from_le_bytes-to_le_bytes k (n / 256) (below_pow k n h))

pub from_le_bytes-lt : (bs : List ℕ) → All IsByte bs → from_le_bytes bs < 256 ^ length bs
unfolding from_le_bytes
from_le_bytes-lt [] h = omega arith
from_le_bytes-lt (b ∷ bs) (h, hs) = omega (arith, from_le_bytes-lt bs hs, pow-suc 256 (length bs))

-- Two words multiply within `u128`.
pub mul-u64 : {a b : ℕ} → IsU64 a → IsU64 b → a * b ≤ (2 ^ 64 - 1) * (2 ^ 64 - 1)
mul-u64 {a} {b} ha hb =
    let p : a ≤ 2 ^ 64 - 1 = omega arith in let q : b ≤ 2 ^ 64 - 1 = omega arith in mul-le-mul p q
