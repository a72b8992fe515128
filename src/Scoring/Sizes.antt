-- ===== src/Scoring/Sizes.antt =====
-- How many customers of a cohort end up above each boundary.
-- packages/db/src/services/scoring-math.ts, computeQuintileBoundaries and assignF/M/RQuintile.
use mathlib.Core.Path.{fun_ext}
use win_back_ai.Scoring.Quintiles.{
  IsNearestRank, sorted_dim, cutpoints-IsNearestRank, percentile_index_mono, length-sorted_dim,
}
use win_back_ai.Scoring.{
  CohortRow, Cutpoints, rank_by_ascending_boundaries, percentile_index, cutpoints, identity,
}
use win_back_ai.Base.{
  List, ℕ, IsAscending, ◌≤◌, get_elem?, get_elem?_mono, ltb, ◌≡◌, arith, length, some, ◌*◌,
  count_if, ◌-◌, suc, ◌<◌, count_above, zero, inl, ◌+◌, ◌⊎◌, IsSorted-sort_by, inr, map, ap, sym,
  ◌∙◌, count_if-map, count_if-sort_by,
}

-- The four cutpoints in their order, from 1.
abbrev cutpoint : Cutpoints → ℕ → ℕ
cutpoint b zero = b.p20
cutpoint b (suc zero) = b.p20
cutpoint b (suc (suc zero)) = b.p40
cutpoint b (suc (suc (suc zero))) = b.p60
cutpoint b (suc (suc (suc (suc k)))) = b.p80

one_to_four : (k : ℕ) → 0 < k → k ≤ 4 → (k ≡ 1) ⊎ ((k ≡ 2) ⊎ ((k ≡ 3) ⊎ (k ≡ 4)))
one_to_four k lo hi = omega arith

record IsOrdered (b : Cutpoints) : Type 0 where
  first : b.p20 ≤ b.p40
  second : b.p40 ≤ b.p60
  third : b.p60 ≤ b.p80

-- What is left behind the nearest-rank index.
behind :
    (k n c : ℕ) → 0 < n → 0 < k → k ≤ 4 → c + suc (percentile_index n k) ≤ n → 5 * c ≤ (5 - k) * n
unfolding percentile_index
behind zero n c pos lo hi h = omega arith
behind (suc zero) n c pos lo hi h = omega arith
behind (suc (suc zero)) n c pos lo hi h = omega arith
behind (suc (suc (suc zero))) n c pos lo hi h = omega arith
behind (suc (suc (suc (suc zero)))) n c pos lo hi h = omega arith
behind (suc (suc (suc (suc (suc k))))) n c pos lo hi h = absurd (omega arith)

module _ (xs : List ℕ) (b : Cutpoints) (s : IsAscending xs) (h : IsNearestRank xs b) where
  ordered : IsOrdered b
  ordered = record {
    first =
        get_elem?_mono xs _ _ s (percentile_index_mono (length xs) 1 2 (omega arith)) h.at20 h.at40;
    second =
        get_elem?_mono xs _ _ s (percentile_index_mono (length xs) 2 3 (omega arith)) h.at40 h.at60;
    third =
        get_elem?_mono xs _ _ s (percentile_index_mono (length xs) 3 4 (omega arith)) h.at60 h.at80;
  }

  above :
      (k a : ℕ)
      → 0 < length xs
      → 0 < k
      → k ≤ 4
      → get_elem? xs (percentile_index (length xs) k) ≡ some a
      → 5 * count_if (λ v. ltb a v) xs ≤ (5 - k) * length xs
  unfolding percentile_index
  above k a pos lo hi e =
      behind k (length xs) _ pos lo hi (count_above xs (percentile_index (length xs) k) s e)

  at_cutpoint :
      (k : ℕ) → 0 < k → k ≤ 4 → get_elem? xs (percentile_index (length xs) k) ≡ some (cutpoint b k)
  at_cutpoint k lo hi = elim (one_to_four k lo hi) [
    | inl q ↦ rw q h.at20
    | inr (inl q) ↦ rw q h.at40
    | inr (inr (inl q)) ↦ rw q h.at60
    | inr (inr (inr q)) ↦ rw q h.at80
  ]

rank-IsOrdered :
    (b : Cutpoints) (v k : ℕ)
    → IsOrdered b
    → 0 < k
    → k ≤ 4
    → ltb k (rank_by_ascending_boundaries v b) ≡ ltb (cutpoint b k) v
unfolding rank_by_ascending_boundaries
rank-IsOrdered b v k h lo hi = elim (one_to_four k lo hi) [
  | inl q ↦ rw q (ground (arith, h.first, h.second, h.third))
  | inr (inl q) ↦ rw q (ground (arith, h.first, h.second, h.third))
  | inr (inr (inl q)) ↦ rw q (ground (arith, h.first, h.second, h.third))
  | inr (inr (inr q)) ↦ rw q (ground (arith, h.first, h.second, h.third))
]

-- How a dimension is split: of `n` customers at most (5 - k) * n / 5 have a rank above k.
module _ (dim : CohortRow → ℕ) (cohort : List CohortRow) (b : Cutpoints) (pos : 0 < length cohort)
    (h : cutpoints dim cohort ≡ some b) where
  split-IsOrdered : IsOrdered b
  split-IsOrdered =
      ordered (sorted_dim dim cohort) b (IsSorted-sort_by identity (map dim cohort))
        (cutpoints-IsNearestRank dim cohort b pos h)

  count_ranked :
      (k : ℕ)
      → 0 < k
      → k ≤ 4
      → count_if (λ row. ltb k (rank_by_ascending_boundaries (dim row) b)) cohort
        ≡ count_if (λ v. ltb (cutpoint b k) v) (sorted_dim dim cohort)
  count_ranked k lo hi =
      ap (λ p. count_if p cohort)
        (fun_ext (λ row. rank-IsOrdered b (dim row) k split-IsOrdered lo hi))
      ∙ sym (count_if-map dim (λ v. ltb (cutpoint b k) v) cohort)
      ∙ sym (count_if-sort_by identity (λ v. ltb (cutpoint b k) v) (map dim cohort))

  pub count_ranked_above :
      (k : ℕ)
      → 0 < k
      → k ≤ 4
      → 5 * count_if (λ row. ltb k (rank_by_ascending_boundaries (dim row) b)) cohort
        ≤ (5 - k) * length cohort
  count_ranked_above k lo hi =
      let xs = sorted_dim dim cohort in
      let near = cutpoints-IsNearestRank dim cohort b pos h in
      let n = length-sorted_dim dim cohort in
      rw (count_ranked k lo hi) (
        rw (sym n) (
          above xs b (IsSorted-sort_by identity (map dim cohort)) near k (cutpoint b k) (rw n pos)
            lo hi (at_cutpoint xs b (IsSorted-sort_by identity (map dim cohort)) near k lo hi)))
