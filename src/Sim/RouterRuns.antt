-- ===== src/Sim/RouterRuns.antt =====
-- An order through crates/sim/src/router.rs and an arbitrage of crates/sim/src/arbitrageur.rs, where the
-- submission pays half of what it is given, up to 50.
use text.Mathlib.Text.{◌==◌}
use native.Mathlib.Nat.{mul-le-mul}
use prop_amm_challenge.Prelude.{
  min, ℕ, false, Bool-cases, inl, inr, leb, ◌+◌, ◌-◌, ◌*◌, ◌/◌, ◌≤◌, ◌^◌, ◌≡◌, refl, ap, true, List,
  Option, none, some, arith,
}
use prop_amm_challenge.Float.{fmax, ◌⊗◌, nought, lt, unit, clamp_to}
use prop_amm_challenge.Buffer.{zeros}
use prop_amm_challenge.Words.{IsU64, u64_max}
use prop_amm_challenge.Float.Fixed.{
  Fixed, fixed_float, Fixed-IsFloat, fixed, pos, negsuc, nan, infinity, neg_infinity,
}
use prop_amm_challenge.Shared.Nano.{f64_to_nano, nano_to_f64}
use prop_amm_challenge.Shared.Instruction.{storage_size, decode_instruction}
use prop_amm_challenge.Shared.Instruction.RoundTrip.{decode_instruction-encode_swap_instruction}
use prop_amm_challenge.Executor.Native
use prop_amm_challenge.Sim.Amm.{
  BpfAmm, new_native, quote_buy_x, quote_sell_x, call, call_backend, not_positive, drained,
}
use prop_amm_challenge.Sim.SearchStats.{SearchStats}
use prop_amm_challenge.Sim.Fixtures.{no_stats, counting}
use prop_amm_challenge.Sim.Retail.{RetailOrder}
use prop_amm_challenge.Sim.Router.{RoutedTrade, Markets, route_order, min_trade_size}
use prop_amm_challenge.Sim.CurveChecks.Concave.{Concave, Near}
use prop_amm_challenge.Sim.Router.Shaped.{PaysNear, route_order_near}
use prop_amm_challenge.Sim.CurveChecks.{is_usable}
use prop_amm_challenge.Sim.Arbitrageur.{ArbResult, min_buy_input_y, min_sell_input_x}
use prop_amm_challenge.Sim.Arbitrageur.Plans.{Arbitrageur, execute_arb}
use prop_amm_challenge.Sim.Arbitrageur.Plans.Shaped.{QuotesNear, execute_arb_near}

abbrev half : ℕ → ℕ
half n = min (n / 2) 50_000_000_000

-- A swap function that pays half the input, up to 50.
unfoldable pays_half : List ℕ → ℕ
pays_half instruction = elim (decode_instruction instruction) [
  | none ↦ 0
  | some i ↦ half i.input_amount
]

abbrev half_pool : BpfAmm Fixed
half_pool = new_native pays_half none (fixed 100) (fixed 100) "submission"

half-Concave : Concave 1 half
half-Concave a b c d h k l = elim (Bool-cases (leb 100_000_000_000 c)) [
  | inl t ↦ let flat : half d - half c - 1 ≡ 0 = ground arith in rw flat (omega arith)
  | inr t ↦
      let wide : 2 * (half d - half c - 1) ≤ d - c = ground arith in
      let rise : b - a ≤ 2 * (half b - half a + 1) = ground arith in
      let both : 2 * (half d - half c - 1) * (b - a) ≤ (d - c) * (2 * (half b - half a + 1)) =
        mul-le-mul wide rise in
      omega (arith, both)
]

nanos : (n : ℕ) → f64_to_nano (pos n) ≡ min (n / 1000) u64_max
unfolding f64_to_nano
nanos n = ground arith

abbrev hundred : ℕ
hundred = f64_to_nano (fixed 100)

call-half : (side m : ℕ) → IsU64 m → call half_pool side m hundred hundred ≡ (half m, half_pool)
unfolding f64_to_nano call call_backend Native.execute new_native pays_half
call-half side m u =
    ap (λ read. (elim read [ none ↦ 0 | some i ↦ half i.input_amount ], half_pool))
      (decode_instruction-encode_swap_instruction side m hundred hundred (zeros storage_size) u
        (ground arith) (ground arith))

abbrev paid : ℕ → Fixed
paid n = pos (half (min (n / 1000) u64_max) * 1000)

buy_quote : (n : ℕ) → 10 ^ 9 ≤ n → quote_buy_x half_pool (pos n) ≡ (paid n, half_pool)
unfolding quote_buy_x new_native not_positive drained nano_to_f64
buy_quote n h = rw (nanos n, call-half 0 (min (n / 1000) u64_max) (omega arith)) (ground arith)

sell_quote : (n : ℕ) → 10 ^ 9 ≤ n → quote_sell_x half_pool (pos n) ≡ (paid n, half_pool)
unfolding quote_sell_x new_native not_positive drained nano_to_f64
sell_quote n h = rw (nanos n, call-half 1 (min (n / 1000) u64_max) (omega arith)) (ground arith)

buy_kept : (x : Fixed) → (quote_buy_x half_pool x).1 ≡ half_pool
unfolding quote_buy_x call call_backend new_native
buy_kept x = ground arith

sell_kept : (x : Fixed) → (quote_sell_x half_pool x).1 ≡ half_pool
unfolding quote_sell_x call call_backend new_native
sell_kept x = ground arith

paid-Near : (n : ℕ) → 10 ^ 9 ≤ n → Near 1 half (f64_to_nano (pos n), f64_to_nano (paid n))
paid-Near n h =
    rw (nanos n, nanos (half (min (n / 1000) u64_max) * 1000)) (omega arith, omega arith)

-- The parts of an order of 40.
part_of :
    (alpha : Fixed)
    → lt min_trade_size (fixed 40 ⊗ clamp_to alpha nought unit) ≡ true
    → (n : ℕ) × (10 ^ 9 ≤ n) × (fixed 40 ⊗ clamp_to alpha nought unit ≡ pos n)
unfolding clamp_to
part_of nan h = absurd (ground arith)
part_of neg_infinity h = absurd (ground arith)
part_of infinity h = (40 * 10 ^ 12, omega arith, refl)
part_of (negsuc a) h = absurd (ground arith)
part_of (pos a) h =
    let inside : clamp_to (pos a) nought unit ≡ pos (min a (10 ^ 12)) = ground arith in
    (40 * 10 ^ 12 * min a (10 ^ 12) / 10 ^ 12, ground arith, ap (λ x. fixed 40 ⊗ x) inside)

half_pool-PaysNear : PaysNear (λ b. b ≡ half_pool) quote_buy_x (fixed 40) 1 half
half_pool-PaysNear alpha b e h =
    let (n, large, part) = part_of alpha h in
    rw (e, part, buy_quote n large) (paid-Near n large, refl)

large_of :
    (least : ℕ) (x q : Fixed)
    → 10 ^ 9 ≤ least
    → is_usable (pos least) (x, q) ≡ true
    → (n : ℕ) × (10 ^ 9 ≤ n) × (x ≡ pos n)
unfolding is_usable
large_of least nan q l h = absurd (ground arith)
large_of least neg_infinity q l h = absurd (ground arith)
large_of least infinity q l h = absurd (ground arith)
large_of least (negsuc n) q l h = absurd (ground arith)
large_of least (pos n) q l h = (n, ground arith, refl)

buys-QuotesNear :
    (least : ℕ) → 10 ^ 9 ≤ least → QuotesNear (λ b. b ≡ half_pool) quote_buy_x (pos least) 1 half
buys-QuotesNear least l x b e = rw e (
  λ u.
      let (n, large, is_pos) = large_of least x _ l u in
      rw (is_pos, buy_quote n large) (paid-Near n large),
  buy_kept x,
)

sells-QuotesNear :
    (least : ℕ) → 10 ^ 9 ≤ least → QuotesNear (λ b. b ≡ half_pool) quote_sell_x (pos least) 1 half
sells-QuotesNear least l x b e = rw e (
  λ u.
      let (n, large, is_pos) = large_of least x _ l u in
      rw (is_pos, sell_quote n large) (paid-Near n large),
  sell_kept x,
)

abbrev an_order : RetailOrder Fixed
an_order = record { is_buy = true; size = fixed 40 }

route_order_near_example :
    (result : List (RoutedTrade Fixed) × SearchStats × Markets Fixed) × (route_order an_order
        (fixed 1)
        no_stats
        (half_pool, half_pool)
      ≡ some result)
route_order_near_example =
    route_order_near Fixed-IsFloat 1 half (λ i j h. omega arith) half-Concave (λ b. b ≡ half_pool)
      an_order (fixed 1) no_stats (half_pool, half_pool) (λ _. half_pool-PaysNear)
      (λ h. absurd (ground arith)) refl

abbrev arbitrageur : Arbitrageur Fixed
arbitrageur = record { min_arb_profit = nought; rng = 7; retail_size_dist = (fixed 3, fixed 1) }

not_normalizer : (half_pool.name == "normalizer") ≡ false
unfolding new_native
not_normalizer = refl

execute_arb_near_example :
    (result : Option (ArbResult Fixed) × Arbitrageur Fixed × SearchStats × BpfAmm Fixed)
    × (execute_arb arbitrageur half_pool (fixed 2) no_stats ≡ some result)
unfolding min_buy_input_y min_sell_input_x fmax
execute_arb_near_example =
    execute_arb_near Fixed-IsFloat (λ b. b ≡ half_pool) 1 half half (λ i j h. omega arith)
      half-Concave (λ i j h. omega arith) half-Concave arbitrageur half_pool (fixed 2) no_stats
      not_normalizer (buys-QuotesNear (10 ^ 10) (omega arith))
      (sells-QuotesNear (5 * 10 ^ 9) (omega arith)) refl
