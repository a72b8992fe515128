-- ===== src/Scoring/Lurkers.antt =====
-- Customers without orders. packages/db/src/services/scoring-math.ts, lurkerRDays, resolveLurker
use win_back_ai.Scoring.{lurker_r_days, resolve_lurker, ms_per_day, insufficient_data}
use win_back_ai.Scoring.Bands.{severity, band_limits, band_exact}
use win_back_ai.Base.{
  ℕ, Bool, ◌*◌, ◌-◌, ◌≡◌, ◌≤◌, true, ◌<◌, ◌+◌, false, count_if, ltb, none, arith, refl,
}

-- The whole days of a span of time.
pub record IsWholeDays (span days : ℕ) : Type 0 where
  at_least : days * ms_per_day ≤ span
  less_than : span < (days + 1) * ms_per_day

whole_days : (created_at now : ℕ) → IsWholeDays (now - created_at) (lurker_r_days created_at now)
unfolding lurker_r_days
whole_days created_at now = record { at_least = ground arith; less_than = ground arith }

-- A customer without orders is scored on the whole days since the record was created, none if that
-- lies ahead, with no quintile and no churn risk. The band is insufficient_data in a cohort that is
-- too small, and else the one of those days by the limits 30, 90, 180 and 365.
pub lurker_exact :
    (created_at now : ℕ) (insufficient : Bool)
    → (IsWholeDays (now - created_at) (resolve_lurker created_at now insufficient).r_days)
      × ((insufficient ≡ true
            → (resolve_lurker created_at now insufficient).new_state ≡ insufficient_data)
          × ((insufficient ≡ false
                → severity (resolve_lurker created_at now insufficient).new_state
                  ≡ count_if
                      (λ limit. ltb limit (resolve_lurker created_at now insufficient).r_days)
                      band_limits)
              × (((resolve_lurker created_at now insufficient).churn_risk ≡ none)
                  × ((resolve_lurker created_at now insufficient).f_quintile ≡ none))))
unfolding resolve_lurker
lurker_exact created_at now insufficient = (
  whole_days created_at now,
  (λ q. rw q refl, (λ q. rw q (band_exact (lurker_r_days created_at now)).0, (refl, refl))),
)
