-- ===== src/Scoring.antt =====
-- packages/db/src/services/scoring-math.ts. Days, counts and cents are natural numbers. The sort of
-- JavaScript is stable, and so is `sort_by`. `Math.ceil(N * p)` at p = k / 5 is (k * N + 4) / 5: the
-- double product is exact at multiples of 5, and its error is far below 1 / 5 elsewhere.
-- The churn risk 1 - sum / 15 is kept as its numerator over 15.
pub mod Quintiles
pub mod Sizes
pub mod Split
pub mod Ranks
pub mod Bands
pub mod Resolve
pub mod Lurkers
use win_back_ai.Base.{
  ℕ, ◌+◌, ◌-◌, ◌*◌, ◌/◌, ◌<◌, Bool, true, false, Option, none, some, List, length, get_elem?,
  sort_by, leb, ltb, if◌then◌else◌, map,
}
use win_back_ai.Store.{Band, active, warm, at_risk, dormant, lost, insufficient_data}
use Prim.Native.Nat.{min, max}

abbrev pub insufficient_cohort_threshold : ℕ
insufficient_cohort_threshold = 5

-- STATE_BOUNDARIES_DAYS
abbrev pub active_max : ℕ
active_max = 30

abbrev pub warm_max : ℕ
warm_max = 90

abbrev pub at_risk_max : ℕ
at_risk_max = 180

abbrev pub dormant_max : ℕ
dormant_max = 365

-- CustomerScoreCohortRow
pub record CohortRow : Type 0 where
  pub customer_id : ℕ
  pub r_days : ℕ
  pub f_count : ℕ
  pub m_cents : ℕ

pub record ResolvedScore : Type 0 where
  pub r_days : ℕ
  pub f_count : ℕ
  pub m_cents : ℕ
  pub r_quintile : Option ℕ
  pub f_quintile : Option ℕ
  pub m_quintile : Option ℕ
  pub churn_risk : Option ℕ
  pub new_state : Band

-- The four cutpoints between five buckets.
pub record Cutpoints : Type 0 where
  pub p20 : ℕ
  pub p40 : ℕ
  pub p60 : ℕ
  pub p80 : ℕ

pub record QuintileBoundaries : Type 0 where
  pub r : Cutpoints
  pub f : Cutpoints
  pub m : Cutpoints

-- max(0, min(N - 1, ceil(N * k / 5) - 1)). At N = 0 the source's index is 0, as here.
unfoldable pub percentile_index : ℕ → ℕ → ℕ
percentile_index n k = min (n - 1) ((k * n + 4) / 5 - 1)

-- `sortedAscending[idx]`; out of range JavaScript gives `undefined`, and so `none` here.
abbrev cut : Option ℕ → Option ℕ → Option ℕ → Option ℕ → Option Cutpoints
cut (some a) (some b) (some c) (some d) = some (record { p20 = a; p40 = b; p60 = c; p80 = d })
cut _ _ _ _ = none

unfoldable pub pick_percentile_positions : List ℕ → Option Cutpoints
unfolding percentile_index
pick_percentile_positions xs =
    let n = length xs in
    cut (get_elem? xs (percentile_index n 1)) (get_elem? xs (percentile_index n 2))
      (get_elem? xs (percentile_index n 3)) (get_elem? xs (percentile_index n 4))

abbrev pub identity : ℕ → ℕ
identity n = n

abbrev pub r_of : CohortRow → ℕ
r_of row = row.r_days

abbrev pub f_of : CohortRow → ℕ
f_of row = row.f_count

abbrev pub m_of : CohortRow → ℕ
m_of row = row.m_cents

-- The cutpoints of one dimension: map, sort ascending, pick.
unfoldable pub cutpoints : (CohortRow → ℕ) → List CohortRow → Option Cutpoints
cutpoints dim cohort = pick_percentile_positions (sort_by identity (map dim cohort))

abbrev join : Option Cutpoints → Option Cutpoints → Option Cutpoints → Option QuintileBoundaries
join (some r) (some f) (some m) = some (record { r = r; f = f; m = m })
join _ _ _ = none

-- `none` is the error thrown for a cohort below the threshold.
unfoldable pub compute_quintile_boundaries : List CohortRow → Option QuintileBoundaries
compute_quintile_boundaries cohort =
    if ltb (length cohort) insufficient_cohort_threshold
    then none
    else join (cutpoints r_of cohort) (cutpoints f_of cohort) (cutpoints m_of cohort)

-- `let rank = 1; if (value > b[0]) rank = 2; …`: the assignments in their order.
unfoldable pub rank_by_ascending_boundaries : ℕ → Cutpoints → ℕ
rank_by_ascending_boundaries value b =
    let r₁ : ℕ = 1 in
    let r₂ = if ltb b.p20 value then 2 else r₁ in
    let r₃ = if ltb b.p40 value then 3 else r₂ in
    let r₄ = if ltb b.p60 value then 4 else r₃ in if ltb b.p80 value then 5 else r₄

unfoldable pub invert : ℕ → ℕ
invert rank = 6 - rank

unfoldable pub assign_r_quintile : ℕ → Cutpoints → ℕ
unfolding invert rank_by_ascending_boundaries
assign_r_quintile r_days b = invert (rank_by_ascending_boundaries r_days b)

unfoldable pub assign_f_quintile : ℕ → Cutpoints → ℕ
unfolding rank_by_ascending_boundaries
assign_f_quintile f_count b = rank_by_ascending_boundaries f_count b

-- The same assignments, on bigint.
unfoldable pub assign_m_quintile : ℕ → Cutpoints → ℕ
assign_m_quintile m_cents b =
    let r₁ : ℕ = 1 in
    let r₂ = if ltb b.p20 m_cents then 2 else r₁ in
    let r₃ = if ltb b.p40 m_cents then 3 else r₂ in
    let r₄ = if ltb b.p60 m_cents then 4 else r₃ in if ltb b.p80 m_cents then 5 else r₄

-- 1 - (r + f + m) / 15, in fifteenths
unfoldable pub compute_churn_risk_score : ℕ → ℕ → ℕ → ℕ
compute_churn_risk_score r f m = 15 - (r + f + m)

unfoldable pub state_from_recency : ℕ → Band
state_from_recency r_days =
    if leb r_days active_max
    then active
    else if leb r_days warm_max
    then warm
    else if leb r_days at_risk_max
    then at_risk
    else if leb r_days dormant_max
    then dormant
    else lost

abbrev pub ms_per_day : ℕ
ms_per_day = 86400000

-- Times are milliseconds since the epoch.
unfoldable pub lurker_r_days : ℕ → ℕ → ℕ
lurker_r_days reference_created_at now =
    if leb now reference_created_at then 0 else (now - reference_created_at) / ms_per_day

abbrev unscored : CohortRow → Band → ResolvedScore
unscored row state = record {
  r_days = row.r_days;
  f_count = row.f_count;
  m_cents = row.m_cents;
  r_quintile = none;
  f_quintile = none;
  m_quintile = none;
  churn_risk = none;
  new_state = state;
}

abbrev scored : CohortRow → ℕ → ℕ → ℕ → ResolvedScore
scored row r f m = record {
  r_days = row.r_days;
  f_count = row.f_count;
  m_cents = row.m_cents;
  r_quintile = some r;
  f_quintile = some f;
  m_quintile = some m;
  churn_risk = some (compute_churn_risk_score r f m);
  new_state = state_from_recency row.r_days;
}

unfoldable pub resolve_with_boundaries :
    CohortRow → Option QuintileBoundaries → Bool → ResolvedScore
resolve_with_boundaries row none insufficient = unscored row insufficient_data
resolve_with_boundaries row (some b) insufficient =
    if insufficient
    then unscored row insufficient_data
    else scored row (assign_r_quintile row.r_days b.r) (assign_f_quintile row.f_count b.f)
        (assign_m_quintile row.m_cents b.m)

-- `isInsufficientCohort ? null : computeQuintileBoundaries(cohort)`; the outer `none` is its error.
abbrev delegate : CohortRow → Option QuintileBoundaries → Option ResolvedScore
delegate row none = none
delegate row (some b) = some (resolve_with_boundaries row (some b) false)

unfoldable pub resolve_scorable_customer : CohortRow → List CohortRow → Bool → Option ResolvedScore
resolve_scorable_customer row cohort insufficient =
    if insufficient
    then some (resolve_with_boundaries row none true)
    else delegate row (compute_quintile_boundaries cohort)

unfoldable pub resolve_lurker : ℕ → ℕ → Bool → ResolvedScore
resolve_lurker reference_created_at now insufficient =
    let r_days = lurker_r_days reference_created_at now in
    record {
      r_days = r_days;
      f_count = 0;
      m_cents = 0;
      r_quintile = none;
      f_quintile = none;
      m_quintile = none;
      churn_risk = none;
      new_state = if insufficient then insufficient_data else state_from_recency r_days;
    }
