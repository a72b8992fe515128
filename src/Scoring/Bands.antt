-- ===== src/Scoring/Bands.antt =====
-- The bands of recency and the churn risk: bounds and order.
-- packages/db/src/services/scoring-math.ts, stateFromRecency, computeChurnRiskScore, resolveWithBoundaries
use win_back_ai.Store.{Band, active, warm, at_risk, dormant, lost, insufficient_data}
use win_back_ai.Scoring.{
  CohortRow, rank_by_ascending_boundaries, resolve_with_boundaries, state_from_recency, Cutpoints,
  active_max, compute_churn_risk_score, assign_r_quintile, assign_f_quintile, warm_max,
  assign_m_quintile, at_risk_max, QuintileBoundaries, dormant_max,
}
use win_back_ai.Base.{List, ℕ, count_if, ◌≤◌, arith, ◌∷◌, ◌≡◌, ltb, ◌≢◌, [], some, false, refl, ◌-◌}

-- How long a customer of a band has been away; a band without data stands first.
abbrev pub severity : Band → ℕ
severity insufficient_data = 0
severity active = 0
severity warm = 1
severity at_risk = 2
severity dormant = 3
severity lost = 4

abbrev pub band_limits : List ℕ
band_limits = active_max ∷ warm_max ∷ at_risk_max ∷ dormant_max ∷ []

-- stateFromRecency gives the band whose severity is the number of the limits 30, 90, 180 and 365
-- that the days since the last order exceed, and never insufficient_data.
pub band_exact :
    (days : ℕ)
    → (severity (state_from_recency days) ≡ count_if (λ limit. ltb limit days) band_limits)
      × (state_from_recency days ≢ insufficient_data)
unfolding state_from_recency count_if
band_exact days = (ground arith, ground arith)

severity_mono :
    (c d : ℕ) → c ≤ d → severity (state_from_recency c) ≤ severity (state_from_recency d)
unfolding state_from_recency
severity_mono c d h = ground arith

rank_mono :
    (v w : ℕ) (b : Cutpoints)
    → v ≤ w
    → rank_by_ascending_boundaries v b ≤ rank_by_ascending_boundaries w b
unfolding rank_by_ascending_boundaries
rank_mono v w b h = ground arith

rank_range :
    (v : ℕ) (b : Cutpoints)
    → (1 ≤ rank_by_ascending_boundaries v b) × (rank_by_ascending_boundaries v b ≤ 5)
unfolding rank_by_ascending_boundaries
rank_range v b = (ground arith, ground arith)

as_ranks :
    (v : ℕ) (b : Cutpoints)
    → (assign_r_quintile v b ≡ 6 - rank_by_ascending_boundaries v b)
      × ((assign_f_quintile v b ≡ rank_by_ascending_boundaries v b)
          × (assign_m_quintile v b ≡ rank_by_ascending_boundaries v b))
unfolding assign_r_quintile assign_f_quintile assign_m_quintile rank_by_ascending_boundaries
as_ranks v b = (refl, (refl, refl))

-- The churn risk of a row against given boundaries.
module _ (x y : CohortRow) (b : QuintileBoundaries) where
  abbrev risk_of : CohortRow → ℕ
  risk_of row =
      compute_churn_risk_score (assign_r_quintile row.r_days b.r)
        (assign_f_quintile row.f_count b.f) (assign_m_quintile row.m_cents b.m)

  risk_mono :
      x.r_days ≤ y.r_days
      → y.f_count ≤ x.f_count
      → y.m_cents ≤ x.m_cents
      → (risk_of x ≤ risk_of y) × (risk_of y ≤ 12)
  unfolding compute_churn_risk_score
  risk_mono hr hf hm = ground (
    arith,
    (as_ranks x.r_days b.r).0,
    (as_ranks y.r_days b.r).0,
    (as_ranks x.f_count b.f).1.0,
    (as_ranks y.f_count b.f).1.0,
    (as_ranks x.m_cents b.m).1.1,
    (as_ranks y.m_cents b.m).1.1,
    rank_mono x.r_days y.r_days b.r hr,
    rank_mono y.f_count x.f_count b.f hf,
    rank_mono y.m_cents x.m_cents b.m hm,
    rank_range y.r_days b.r,
    rank_range y.f_count b.f,
    rank_range y.m_cents b.m,
    rank_range x.r_days b.r,
  )

-- With the same boundaries, a customer who ordered at least as recently, as often and for as much
-- as another has a churn risk and a band that are at most the other's; both get a risk, and it is
-- at most 12 / 15.
pub better_customer_lower_risk :
    (x y : CohortRow) (b : QuintileBoundaries)
    → x.r_days ≤ y.r_days
    → y.f_count ≤ x.f_count
    → y.m_cents ≤ x.m_cents
    → ((c : ℕ) × ((d : ℕ) × (((resolve_with_boundaries x (some b) false).churn_risk ≡ some c)
            × (((resolve_with_boundaries y (some b) false).churn_risk ≡ some d)
                × ((c ≤ d) × (d ≤ 12))))))
      × (severity (resolve_with_boundaries x (some b) false).new_state
          ≤ severity (resolve_with_boundaries y (some b) false).new_state)
unfolding resolve_with_boundaries
better_customer_lower_risk x y b hr hf hm = (
  (risk_of x y b x, (risk_of x y b y, (refl, (refl, risk_mono x y b hr hf hm)))),
  severity_mono x.r_days y.r_days hr,
)
