-- ===== src/Sim/Runner/Seeds.antt =====
-- crates/sim/src/runner.rs: the seeds of `default_configs`.
use prop_amm_challenge.Prelude.{
  ℕ, zero, suc, ◌+◌, ◌*◌, ◌^◌, ◌%◌, ◌≤◌, ◌<◌, ◌≡◌, ◌≢◌, refl, ap, ◌∙◌, subst, arith, List, [], ◌∷◌,
  map, length, get_or, Option, ◌>>=◌, Holds, Holds-bind, Anything, anything,
}
use native.Mathlib.Nat.{mul-le-mul}
use prop_amm_challenge.Words.{u64_mod}
use prop_amm_challenge.Float.{Float}
use prop_amm_challenge.Random.{Random}
use prop_amm_challenge.Shared.Config.{
  SimulationConfig, HyperparameterVariance, default_config, default_variance, apply, apply_each,
}
use prop_amm_challenge.Sim.Runner.{default_configs}

-- `seed_of i`, `seed_of (i + 1)`, and so on, `n` of them.
unfoldable pub seeds_from : (ℕ → ℕ) → ℕ → ℕ → List ℕ
seeds_from seed_of zero i = []
seeds_from seed_of (suc n) i = seed_of i ∷ seeds_from seed_of n (i + 1)

pub length-seeds_from : (s : ℕ → ℕ) (n i : ℕ) → length (seeds_from s n i) ≡ n
unfolding seeds_from
length-seeds_from s zero i = refl
length-seeds_from s (suc n) i = ap suc (length-seeds_from s n (i + 1))

pub get_or-seeds_from : (s : ℕ → ℕ) (n i k : ℕ) → k < n → get_or (seeds_from s n i) k 0 ≡ s (i + k)
unfolding seeds_from
get_or-seeds_from s zero i k h = absurd (omega arith)
get_or-seeds_from s (suc n) i zero h = ap s (omega arith)
get_or-seeds_from s (suc n) i (suc k) h =
    get_or-seeds_from s n (i + 1) k (omega arith) ∙ ap s (omega arith)

-- The seed of the simulation with a number.
abbrev pub nth_seed : ℕ → ℕ → ℕ → ℕ
nth_seed seed_start seed_stride i = (seed_start + i * seed_stride) % u64_mod

module _ {F : Type 0} ⦃f : Float F⦄ ⦃rand : Random F⦄ where
  SeededBy : ℕ → SimulationConfig F → Type 0
  SeededBy seed config = config.seed ≡ seed

  apply_seed :
      (v : HyperparameterVariance F) (base : SimulationConfig F) (seed : ℕ)
      → Holds (SeededBy seed) (apply v base seed)
  unfolding apply SeededBy
  apply_seed v base seed =
      let drawn : (low high : F) (rng : rand.Pcg64)
            (k : F × rand.Pcg64 → Option (SimulationConfig F))
          → ((d : F × rand.Pcg64) → Holds (SeededBy seed) (k d))
          → Holds (SeededBy seed) (rand.gen_range low high rng >>= k) =
        λ low high rng k h.
          Holds-bind Anything (SeededBy seed) (rand.gen_range low high rng) k (anything _)
            (λ d _. h d) in
      drawn _ _ _ _ (λ d. drawn _ _ _ _ (λ e. drawn _ _ _ _ (λ g.
        Holds-bind Anything (SeededBy seed) (rand.gen_range_inclusive _ _ _) _ (anything _)
          (λ h _. drawn _ _ _ _ (λ k. refl)))))

  unfoldable pub SeededAll : (ℕ → ℕ) → ℕ → ℕ → List (SimulationConfig F) → Type 0
  SeededAll seed_of n i configs = map (λ c. c.seed) configs ≡ seeds_from seed_of n i

  apply_each_seeds :
      (v : HyperparameterVariance F) (base : SimulationConfig F) (seed_of : ℕ → ℕ) (n i : ℕ)
      → Holds (SeededAll seed_of n i) (apply_each v base seed_of n i)
  unfolding apply_each SeededAll seeds_from SeededBy
  apply_each_seeds v base seed_of zero i = refl
  apply_each_seeds v base seed_of (suc n) i =
      Holds-bind (SeededBy (seed_of i)) (SeededAll seed_of (suc n) i) _ _
        (apply_seed v base (seed_of i))
        (λ config e.
          Holds-bind (SeededAll seed_of n (i + 1)) (SeededAll seed_of (suc n) i) _ _
            (apply_each_seeds v base seed_of n (i + 1)) (λ configs es. λ j. e j ∷ es j))

module _ (F : Type 0) ⦃f : Float F⦄ ⦃rand : Random F⦄ where
  pub default_configs_seeds :
      (n_sims n_steps seed_start seed_stride : ℕ)
      → Holds
          (SeededAll {F = F} (nth_seed seed_start seed_stride) n_sims 0)
          (default_configs n_sims n_steps seed_start seed_stride)
  unfolding default_configs
  default_configs_seeds n_sims n_steps start stride =
      let e : (i : ℕ) → (start + i * stride % u64_mod) % u64_mod ≡ nth_seed start stride i =
        λ i. omega arith in
      subst
        (λ s. Holds (SeededAll {F = F} s n_sims 0) (
          apply_each default_variance (record default_config { n_steps = n_steps })
            (λ i. (start + i * stride % u64_mod) % u64_mod) n_sims 0))
        (λ j i. e i j) (apply_each_seeds {F = F} _ _ _ n_sims 0)

pub distinct_seeds :
    (start stride i j n : ℕ)
    → i < j
    → j < n
    → 0 < stride
    → n * stride ≤ 2 ^ 64
    → nth_seed start stride i ≢ nth_seed start stride j
distinct_seeds start stride i j n lt below positive fits e =
    let s : stride ≤ stride = omega arith in
    let up : suc i * stride ≤ j * stride = mul-le-mul (omega arith) s in
    let top : suc j * stride ≤ n * stride = mul-le-mul (omega arith) s in omega arith
