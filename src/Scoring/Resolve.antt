-- ===== src/Scoring/Resolve.antt =====
-- The score of one customer against a cohort, as the single and the bulk path resolve it.
-- packages/db/src/services/scoring-math.ts, resolveScorableCustomer and resolveWithBoundaries
use win_back_ai.Scoring.Split.{IsBoundaries-exist}
use win_back_ai.Scoring.Ranks.{IsSplitAt, boundaries-IsSplitAt}
use win_back_ai.Scoring.{
  CohortRow, resolve_scorable_customer, insufficient_cohort_threshold, resolve_with_boundaries,
  compute_quintile_boundaries, QuintileBoundaries,
}
use win_back_ai.Base.{
  List, ltb, length, ◌≡◌, some, ◌<◌, none, true, ◌⊎◌, false, Bool, inl, arith, refl, ◌∙◌, ap, sym,
  inr,
}

abbrev pub is_insufficient : List CohortRow → Bool
is_insufficient cohort = ltb (length cohort) insufficient_cohort_threshold

module _ (row : CohortRow) (cohort : List CohortRow) where
  single_of_none :
      is_insufficient cohort ≡ true
      → compute_quintile_boundaries cohort ≡ none
      → (resolve_scorable_customer row cohort (is_insufficient cohort)
          ≡ some (resolve_with_boundaries row none true))
        × (resolve_with_boundaries row (compute_quintile_boundaries cohort) (is_insufficient cohort)
            ≡ resolve_with_boundaries row none true)
  unfolding resolve_scorable_customer
  single_of_none e h = (rw e refl, rw e (rw h refl))

  single_of_some :
      (b : QuintileBoundaries)
      → is_insufficient cohort ≡ false
      → compute_quintile_boundaries cohort ≡ some b
      → (resolve_scorable_customer row cohort (is_insufficient cohort)
          ≡ some (resolve_with_boundaries row (some b) false))
        × (resolve_with_boundaries row (compute_quintile_boundaries cohort) (is_insufficient cohort)
            ≡ resolve_with_boundaries row (some b) false)
  unfolding resolve_scorable_customer
  single_of_some b e h = (rw e (rw h refl), rw e (rw h refl))

-- Called with the threshold test of the same cohort, resolveScorableCustomer never throws. It gives
-- what resolveWithBoundaries gives with the boundaries computed once: below five customers the
-- unscored result without boundaries, and else the score against boundaries of which, in each dimension, the
-- k-th is the nearest-rank percentile of k fifths: at least k fifths of the cohort are at most there, and fewer than
-- k fifths below it.
pub single_as_bulk :
    (row : CohortRow) (cohort : List CohortRow)
    → (resolve_scorable_customer row cohort (is_insufficient cohort)
        ≡ some (
            resolve_with_boundaries row
              (compute_quintile_boundaries cohort)
              (is_insufficient cohort)))
      × (((length cohort < 5)
            × (resolve_scorable_customer row cohort (is_insufficient cohort)
                ≡ some (resolve_with_boundaries row none true)))
          ⊎ ((b : QuintileBoundaries) × (IsSplitAt cohort b
                × (resolve_scorable_customer row cohort (is_insufficient cohort)
                    ≡ some (resolve_with_boundaries row (some b) false)))))
single_as_bulk row cohort = elim (IsBoundaries-exist cohort) [
  | inl (few, e) ↦
      let (p, q) = single_of_none row cohort (ground arith) e in (p ∙ ap some (sym q), inl (few, p))
  | inr (enough, (b, (e, near))) ↦
      let (p, q) = single_of_some row cohort b (ground arith) e in
      (p ∙ ap some (sym q), inr (b, (boundaries-IsSplitAt cohort b (omega arith) near, p)))
]
