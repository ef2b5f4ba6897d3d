-- ===== src/Shared/Result.antt =====
-- crates/shared/src/result.rs: the result of a simulation and of a batch.
use prop_amm_challenge.Prelude.{ℕ, List, [], ◌∷◌, foldl, length}
use prop_amm_challenge.Float.{Float, ◌⊕◌, ◌⊘◌, nought}

pub record SimResult (F : Type 0) : Type 0 where
  pub seed : ℕ
  pub submission_edge : F

pub record BatchResult (F : Type 0) : Type 0 where
  pub results : List (SimResult F)
  pub total_edge : F

module _ {F : Type 0} ⦃f : Float F⦄ where
  -- `.sum()` adds in the order of the results, from zero.
  unfoldable pub from_results : List (SimResult F) → BatchResult F
  from_results results = record {
    results = results;
    total_edge = foldl (λ total r. total ⊕ r.submission_edge) nought results;
  }

  unfoldable pub n_sims : BatchResult F → ℕ
  n_sims batch = length batch.results

  unfoldable pub avg_edge : BatchResult F → F
  avg_edge batch = average batch.results
    where
      average : List (SimResult F) → F
      average [] = nought
      average (r ∷ rs) = batch.total_edge ⊘ f.of_u64 (n_sims batch)
