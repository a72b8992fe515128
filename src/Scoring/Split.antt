-- ===== src/Scoring/Split.antt =====
-- The boundaries that computeQuintileBoundaries returns, and how they split a cohort.
-- packages/db/src/services/scoring-math.ts
use mathlib.Core.Path.{fun_ext}
use win_back_ai.Scoring.{
  CohortRow, compute_quintile_boundaries, QuintileBoundaries, r_of, cutpoints, f_of, m_of,
  assign_f_quintile, assign_r_quintile, assign_m_quintile, Cutpoints, rank_by_ascending_boundaries,
}
use win_back_ai.Base.{
  List, length, ◌<◌, ◌≡◌, none, some, ◌≤◌, ◌⊎◌, Bool-cases, ltb, inl, arith, inr, refl, sym, true,
  false, ℕ, ◌*◌, ◌-◌, count_if,
}
use win_back_ai.Scoring.Quintiles.{IsNearestRank, sorted_dim, cutpoints-some}
use win_back_ai.Scoring.Sizes.{count_ranked_above}

-- The boundaries of a cohort: in each dimension the elements of the sorted values at the four indices.
pub record IsBoundaries (cohort : List CohortRow) (b : QuintileBoundaries) : Type 0 where
  pub r_near : IsNearestRank (sorted_dim r_of cohort) b.r
  pub f_near : IsNearestRank (sorted_dim f_of cohort) b.f
  pub m_near : IsNearestRank (sorted_dim m_of cohort) b.m

record IsComputed (cohort : List CohortRow) (b : QuintileBoundaries) : Type 0 where
  enough : 5 ≤ length cohort
  r_cut : cutpoints r_of cohort ≡ some b.r
  f_cut : cutpoints f_of cohort ≡ some b.f
  m_cut : cutpoints m_of cohort ≡ some b.m
  near : IsBoundaries cohort b

computed :
    (cohort : List CohortRow)
    → 5 ≤ length cohort
    → (b : QuintileBoundaries) × ((compute_quintile_boundaries cohort ≡ some b)
        × IsComputed cohort b)
unfolding compute_quintile_boundaries
computed cohort h =
    let (r, (r_eq, r_near)) = cutpoints-some r_of cohort (omega arith) in
    let (f, (f_eq, f_near)) = cutpoints-some f_of cohort (omega arith) in
    let (m, (m_eq, m_near)) = cutpoints-some m_of cohort (omega arith) in
    let reach : ltb (length cohort) 5 ≡ false = ground arith in
    (
      record { r = r; f = f; m = m },
      (
        rw reach (rw r_eq (rw f_eq (rw m_eq refl))),
        record {
          enough = h;
          r_cut = r_eq;
          f_cut = f_eq;
          m_cut = m_eq;
          near = record { r_near = r_near; f_near = f_near; m_near = m_near };
        },
      ),
    )

too_few : (cohort : List CohortRow) → length cohort < 5 → compute_quintile_boundaries cohort ≡ none
unfolding compute_quintile_boundaries
too_few cohort h = let few : ltb (length cohort) 5 ≡ true = ground arith in rw few refl

-- computeQuintileBoundaries either rejects a cohort of fewer than five customers, or returns, in
-- each dimension, the nearest-rank elements of the sorted values.
pub IsBoundaries-exist :
    (cohort : List CohortRow)
    → ((length cohort < 5) × (compute_quintile_boundaries cohort ≡ none))
      ⊎ ((5 ≤ length cohort)
          × ((b : QuintileBoundaries) × ((compute_quintile_boundaries cohort ≡ some b)
                × IsBoundaries cohort b)))
IsBoundaries-exist cohort = elim (Bool-cases (ltb (length cohort) 5)) [
  | inl e ↦ inl (ground arith, too_few cohort (ground arith))
  | inr e ↦ let (b, (eq, c)) = computed cohort (ground arith) in inr (c.enough, (b, (eq, c.near)))
]

of_some :
    (cohort : List CohortRow) (b : QuintileBoundaries)
    → compute_quintile_boundaries cohort ≡ some b
    → IsComputed cohort b
of_some cohort b h = elim (Bool-cases (ltb (length cohort) 5)) [
  | inl e ↦ let none_eq = too_few cohort (ground arith) in absurd cc
  | inr e ↦
      let (c, (eq, computed_c)) = computed cohort (ground arith) in
      let same : c ≡ b = cc in rw (sym same) computed_c
]

invert-ltb :
    (k v : ℕ) (b : Cutpoints)
    → k ≤ 4
    → ltb (assign_r_quintile v b) (6 - k) ≡ ltb k (rank_by_ascending_boundaries v b)
unfolding assign_r_quintile
invert-ltb k v b h = ground arith

-- Of a cohort with boundaries, at most (5 - k) / 5 of the customers get an F quintile above k, and
-- as many an M quintile above k, and as many an R quintile below 6 - k, for each k from 1 to 4.
pub quintile_sizes :
    (cohort : List CohortRow) (b : QuintileBoundaries) (k : ℕ)
    → compute_quintile_boundaries cohort ≡ some b
    → 0 < k
    → k ≤ 4
    → (5 * count_if (λ row. ltb k (assign_f_quintile row.f_count b.f)) cohort
        ≤ (5 - k) * length cohort)
      × ((5 * count_if (λ row. ltb k (assign_m_quintile row.m_cents b.m)) cohort
            ≤ (5 - k) * length cohort)
          × (5 * count_if (λ row. ltb (assign_r_quintile row.r_days b.r) (6 - k)) cohort
              ≤ (5 - k) * length cohort))
unfolding assign_f_quintile assign_m_quintile rank_by_ascending_boundaries
quintile_sizes cohort b k h lo hi =
    let c = of_some cohort b h in
    (
      count_ranked_above f_of cohort b.f (omega (arith, c.enough)) c.f_cut k lo hi,
      (
        count_ranked_above m_of cohort b.m (omega (arith, c.enough)) c.m_cut k lo hi,
        rw (fun_ext (λ (row : CohortRow). invert-ltb k row.r_days b.r hi))
            (count_ranked_above r_of cohort b.r (omega (arith, c.enough)) c.r_cut k lo hi),
      ),
    )
