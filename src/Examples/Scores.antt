-- ===== src/Examples/Scores.antt =====
-- A cohort of five customers and its scores.
use win_back_ai.Scoring.{
  CohortRow, QuintileBoundaries, compute_quintile_boundaries, resolve_scorable_customer,
  resolve_with_boundaries, cutpoints, pick_percentile_positions, assign_f_quintile,
  percentile_index, assign_m_quintile, assign_r_quintile,
}
use win_back_ai.Base.{
  ℕ, List, length, ◌*◌, count_if, some, ◌<◌, ◌∷◌, [], false, ltb, ◌≡◌, none, ◌≤◌, sort_by, true,
  ◌-◌, ◌⊎◌, arith, insert_by, refl,
}
use win_back_ai.Scoring.Resolve.{is_insufficient, single_as_bulk}
use win_back_ai.Scoring.Split.{quintile_sizes}
use win_back_ai.Scoring.Ranks.{IsSplitAt}

abbrev row : ℕ → ℕ → ℕ → ℕ → CohortRow
row id r f m = record { customer_id = id; r_days = r; f_count = f; m_cents = m }

abbrev cohort : List CohortRow
cohort = row 1 10 5 900 ∷ row 2 40 4 500 ∷ row 3 100 3 400 ∷ row 4 200 2 300 ∷ row 5 400 1 100 ∷ []

abbrev boundaries : QuintileBoundaries
boundaries = record {
  r = record { p20 = 10; p40 = 40; p60 = 100; p80 = 200 };
  f = record { p20 = 1; p40 = 2; p60 = 3; p80 = 4 };
  m = record { p20 = 100; p40 = 300; p60 = 400; p80 = 500 };
}

boundaries_of : compute_quintile_boundaries cohort ≡ some boundaries
unfolding compute_quintile_boundaries cutpoints pick_percentile_positions percentile_index sort_by
    insert_by
boundaries_of = refl

quintile_sizes_example :
    (5 * count_if (λ row. ltb 4 (assign_f_quintile row.f_count boundaries.f)) cohort
      ≤ (5 - 4) * length cohort)
    × ((5 * count_if (λ row. ltb 4 (assign_m_quintile row.m_cents boundaries.m)) cohort
          ≤ (5 - 4) * length cohort)
        × (5 * count_if (λ row. ltb (assign_r_quintile row.r_days boundaries.r) (6 - 4)) cohort
            ≤ (5 - 4) * length cohort))
quintile_sizes_example =
    quintile_sizes cohort boundaries 4 boundaries_of (omega arith) (omega arith)

single_as_bulk_example :
    (resolve_scorable_customer (row 1 10 5 900) cohort (is_insufficient cohort)
      ≡ some (
          resolve_with_boundaries
            (row 1 10 5 900)
            (compute_quintile_boundaries cohort)
            (is_insufficient cohort)))
    × (((length cohort < 5)
          × (resolve_scorable_customer (row 1 10 5 900) cohort (is_insufficient cohort)
              ≡ some (resolve_with_boundaries (row 1 10 5 900) none true)))
        ⊎ ((b : QuintileBoundaries) × (IsSplitAt cohort b
              × (resolve_scorable_customer (row 1 10 5 900) cohort (is_insufficient cohort)
                  ≡ some (resolve_with_boundaries (row 1 10 5 900) (some b) false)))))
single_as_bulk_example = single_as_bulk (row 1 10 5 900) cohort
