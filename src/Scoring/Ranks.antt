-- ===== src/Scoring/Ranks.antt =====
-- The nearest-rank percentiles of a cohort by counting.
-- packages/db/src/services/scoring-math.ts, pickPercentilePositions
use win_back_ai.Scoring.{
  CohortRow, Cutpoints, QuintileBoundaries, percentile_index, identity, r_of, f_of, m_of,
}
use win_back_ai.Scoring.Quintiles.{IsNearestRank, sorted_dim, length-sorted_dim}
use win_back_ai.Scoring.Split.{IsBoundaries}
use win_back_ai.Base.{
  ℕ, List, ◌≡◌, ◌≤◌, ◌<◌, ◌*◌, ◌+◌, suc, some, length, leb, ltb, count_if, get_elem?, arith, zero,
  ◌∙◌, count_below, count_above, count-leb-ltb, count_if-map, count_if-sort_by, IsSorted-sort_by,
  map, sym,
}

-- `v` is the nearest-rank percentile of k fifths: at least k fifths of the customers have a value of at most `v`,
-- and fewer than k fifths one below `v`. There is at most one such number, and it is one of the values.
abbrev pub IsPercentile : (CohortRow → ℕ) → List CohortRow → ℕ → ℕ → Type 0
IsPercentile dim cohort k v =
    (k * length cohort ≤ 5 * count_if (λ row. leb (dim row) v) cohort)
    × (5 * count_if (λ row. ltb (dim row) v) cohort < k * length cohort)

pub record IsFifths (dim : CohortRow → ℕ) (cohort : List CohortRow) (b : Cutpoints) : Type 0 where
  at20 : IsPercentile dim cohort 1 b.p20
  at40 : IsPercentile dim cohort 2 b.p40
  at60 : IsPercentile dim cohort 3 b.p60
  at80 : IsPercentile dim cohort 4 b.p80

-- The boundaries are the percentiles of each dimension.
pub record IsSplitAt (cohort : List CohortRow) (b : QuintileBoundaries) : Type 0 where
  r_fifths : IsFifths r_of cohort b.r
  f_fifths : IsFifths f_of cohort b.f
  m_fifths : IsFifths m_of cohort b.m

-- The index of the nearest rank, by its place among the fifths.
index_place :
    (n k : ℕ)
    → 0 < n
    → 0 < k
    → k ≤ 4
    → (k * n ≤ 5 * suc (percentile_index n k)) × (5 * percentile_index n k < k * n)
unfolding percentile_index
index_place n zero pos lo hi = absurd (omega arith)
index_place n (suc zero) pos lo hi = omega arith
index_place n (suc (suc zero)) pos lo hi = omega arith
index_place n (suc (suc (suc zero))) pos lo hi = omega arith
index_place n (suc (suc (suc (suc zero)))) pos lo hi = omega arith
index_place n (suc (suc (suc (suc (suc k))))) pos lo hi = absurd (omega arith)

module _ (dim : CohortRow → ℕ) (cohort : List CohortRow) (pos : 0 < length cohort) where
  IsPercentile-at :
      (k v : ℕ)
      → 0 < k
      → k ≤ 4
      → get_elem? (sorted_dim dim cohort) (percentile_index (length (sorted_dim dim cohort)) k)
        ≡ some v
      → IsPercentile dim cohort k v
  IsPercentile-at k v lo hi e = (
    omega (arith, place.0, above, counted_le, n, whole),
    omega (arith, place.1, below, counted_lt, n),
  )
    where
      xs : List ℕ
      xs = sorted_dim dim cohort

      i : ℕ
      i = percentile_index (length xs) k

      n : length xs ≡ length cohort
      n = length-sorted_dim dim cohort

      place :
          (k * length cohort ≤ 5 * suc (percentile_index (length cohort) k))
          × (5 * percentile_index (length cohort) k < k * length cohort)
      place = index_place (length cohort) k pos lo hi

      above : count_if (λ b. ltb v b) xs + suc (percentile_index (length cohort) k) ≤ length cohort
      above = rw (sym n) (count_above xs i {a = v} (IsSorted-sort_by identity (map dim cohort)) e)

      below : count_if (λ b. ltb b v) xs ≤ percentile_index (length cohort) k
      below = rw (sym n) (count_below xs i {a = v} (IsSorted-sort_by identity (map dim cohort)) e)

      whole : count_if (λ b. leb b v) xs + count_if (λ b. ltb v b) xs ≡ length xs
      whole = count-leb-ltb v xs

      counted_le : count_if (λ b. leb b v) xs ≡ count_if (λ row. leb (dim row) v) cohort
      counted_le =
          count_if-sort_by identity (λ b. leb b v) (map dim cohort)
          ∙ count_if-map dim (λ b. leb b v) cohort

      counted_lt : count_if (λ b. ltb b v) xs ≡ count_if (λ row. ltb (dim row) v) cohort
      counted_lt =
          count_if-sort_by identity (λ b. ltb b v) (map dim cohort)
          ∙ count_if-map dim (λ b. ltb b v) cohort

  fifths : (b : Cutpoints) → IsNearestRank (sorted_dim dim cohort) b → IsFifths dim cohort b
  fifths b h = record {
    at20 = IsPercentile-at 1 b.p20 (omega arith) (omega arith) h.at20;
    at40 = IsPercentile-at 2 b.p40 (omega arith) (omega arith) h.at40;
    at60 = IsPercentile-at 3 b.p60 (omega arith) (omega arith) h.at60;
    at80 = IsPercentile-at 4 b.p80 (omega arith) (omega arith) h.at80;
  }

pub boundaries-IsSplitAt :
    (cohort : List CohortRow) (b : QuintileBoundaries)
    → 0 < length cohort
    → IsBoundaries cohort b
    → IsSplitAt cohort b
boundaries-IsSplitAt cohort b pos h = record {
  r_fifths = fifths r_of cohort pos b.r h.r_near;
  f_fifths = fifths f_of cohort pos b.f h.f_near;
  m_fifths = fifths m_of cohort pos b.m h.m_near;
}
