-- ===== src/Scoring/Quintiles.antt =====
-- The nearest-rank cutpoints of one dimension of a cohort.
-- packages/db/src/services/scoring-math.ts, pickPercentilePositions
use win_back_ai.Scoring.{
  CohortRow, Cutpoints, percentile_index, pick_percentile_positions, identity, cutpoints,
}
use win_back_ai.Base.{
  List, ℕ, ◌≤◌, arith, get_elem?, sort_by, ◌<◌, ◌≡◌, length, map, some, get_elem?-some,
  length-sort_by, length-map, refl, sym,
}

percentile_index-lt : (n k : ℕ) → 0 < n → percentile_index n k < n
unfolding percentile_index
percentile_index-lt n k h = omega arith

pub percentile_index_mono : (n k l : ℕ) → k ≤ l → percentile_index n k ≤ percentile_index n l
unfolding percentile_index
percentile_index_mono n k l h = grind arith

-- The nearest-rank cutpoints of a list: the elements at the four indices.
pub record IsNearestRank (xs : List ℕ) (b : Cutpoints) : Type 0 where
  pub at20 : get_elem? xs (percentile_index (length xs) 1) ≡ some b.p20
  pub at40 : get_elem? xs (percentile_index (length xs) 2) ≡ some b.p40
  pub at60 : get_elem? xs (percentile_index (length xs) 3) ≡ some b.p60
  pub at80 : get_elem? xs (percentile_index (length xs) 4) ≡ some b.p80

pick_some :
    (xs : List ℕ)
    → 0 < length xs
    → (b : Cutpoints) × ((pick_percentile_positions xs ≡ some b) × IsNearestRank xs b)
unfolding pick_percentile_positions
pick_some xs h =
    let (a₁, e₁) =
      get_elem?-some xs (percentile_index (length xs) 1) (percentile_index-lt (length xs) 1 h) in
    let (a₂, e₂) =
      get_elem?-some xs (percentile_index (length xs) 2) (percentile_index-lt (length xs) 2 h) in
    let (a₃, e₃) =
      get_elem?-some xs (percentile_index (length xs) 3) (percentile_index-lt (length xs) 3 h) in
    let (a₄, e₄) =
      get_elem?-some xs (percentile_index (length xs) 4) (percentile_index-lt (length xs) 4 h) in
    (
      record { p20 = a₁; p40 = a₂; p60 = a₃; p80 = a₄ },
      (rw e₁ (rw e₂ (rw e₃ (rw e₄ refl))), record { at20 = e₁; at40 = e₂; at60 = e₃; at80 = e₄ }),
    )

-- One dimension of a cohort, ascending.
abbrev pub sorted_dim : (CohortRow → ℕ) → List CohortRow → List ℕ
sorted_dim dim cohort = sort_by identity (map dim cohort)

module _ (dim : CohortRow → ℕ) (cohort : List CohortRow) where
  pub length-sorted_dim : length (sorted_dim dim cohort) ≡ length cohort
  length-sorted_dim =
      ground (arith, length-sort_by identity (map dim cohort), length-map dim cohort)

  pub cutpoints-some :
      0 < length cohort
      → (b : Cutpoints) × ((cutpoints dim cohort ≡ some b)
          × IsNearestRank (sorted_dim dim cohort) b)
  unfolding cutpoints
  cutpoints-some h = pick_some (sorted_dim dim cohort) (ground (arith, length-sorted_dim))

  pub cutpoints-IsNearestRank :
      (b : Cutpoints)
      → 0 < length cohort
      → cutpoints dim cohort ≡ some b
      → IsNearestRank (sorted_dim dim cohort) b
  cutpoints-IsNearestRank b h e =
      let (c, (p, q)) = cutpoints-some h in let same : c ≡ b = cc in rw (sym same) q
