-- ===== src/Throttle/Waiting.antt =====
-- How long a query waits, and what its reservation leaves.
use win_back_ai.Throttle.{
  CostTrackerOptions, CostTracker, ShopBucketState, Projected, ceil_div, wait_for,
  ms_until_available, projected_available, reserve,
}
use Prim.Native.Nat.{min}
use win_back_ai.Base.{
  ==_refl, ℕ, Option, none, some, ◌≡◌, ◌≤◌, ◌<◌, ◌+◌, ◌-◌, ◌*◌, ap, ◌∙◌, ◌/◌, refl, arith,
}

ceil_div-close : (a b : ℕ) → 1 ≤ b → ceil_div a b * b < a + b
ceil_div-close a b h = grind arith

ceil_div_pos : (a b : ℕ) → 1 ≤ b → 1 ≤ a → 1 ≤ ceil_div a b
ceil_div_pos a b h k = grind arith

later_level :
    (now w seen rate : ℕ) → seen ≤ now → (now + w - seen) * rate ≡ (now - seen) * rate + w * rate
later_level now w seen rate h = grind arith

-- The state was observed at or before `now`.
abbrev pub IsSeenBy : ℕ → Option ShopBucketState → Type 0
IsSeenBy now none = Unit
IsSeenBy now (some b) = b.observed_at ≤ now

min_again : (m c a b : ℕ) → min m (c + (a + b)) ≡ min m (min m (c + a) + b)
min_again m c a b = omega arith

min_full : (m b : ℕ) → m ≡ min m (m + b)
min_full m b = omega arith

refilled :
    (o : CostTrackerOptions) (now w : ℕ) (s : Option ShopBucketState)
    → IsSeenBy now s
    → (projected_available o (now + w) s).available
      ≡ min
          ((projected_available o now s).max * 1000)
          ((projected_available o now s).available + w * (projected_available o now s).restore_rate)
unfolding projected_available
refilled o now w none h = min_full (o.default_max * 1000) (w * o.default_restore_rate)
refilled o now w (some b) h =
    ap (λ x. min (b.maximum_available * 1000) (b.currently_available + x))
      (later_level now w b.observed_at b.restore_rate h)
    ∙ min_again (b.maximum_available * 1000) b.currently_available
        ((now - b.observed_at) * b.restore_rate) (w * b.restore_rate)

same_max :
    (o : CostTrackerOptions) (now w : ℕ) (s : Option ShopBucketState)
    → ((projected_available o (now + w) s).max ≡ (projected_available o now s).max)
      × ((projected_available o (now + w) s).restore_rate
          ≡ (projected_available o now s).restore_rate)
unfolding projected_available
same_max o now w none = (refl, refl)
same_max o now w (some b) = (refl, refl)

not_much :
    (required : ℕ) (p : Projected)
    → 1 ≤ p.restore_rate
    → 1 ≤ wait_for required p
    → p.available + wait_for required p * p.restore_rate < required * 1000 + 1000 + p.restore_rate
not_much required p r h =
    ground (arith, ceil_div-close ((required - p.available / 1000) * 1000) p.restore_rate r)

level-le-max :
    (o : CostTrackerOptions) (now : ℕ) (s : Option ShopBucketState)
    → (projected_available o now s).available ≤ (projected_available o now s).max * 1000
unfolding projected_available
level-le-max o now none = omega arith
level-le-max o now (some b) = omega arith

too_low :
    (required : ℕ) (p : Projected)
    → 1 ≤ p.restore_rate
    → p.available ≤ p.max * 1000
    → p.max < required
    → 1 ≤ wait_for required p
too_low required p r h l =
    ground (arith, ceil_div_pos ((required - p.available / 1000) * 1000) p.restore_rate r)

no_time : (n r : ℕ) → (n - n) * r ≡ 0
no_time n r = grind arith

-- Right after a reservation the level is what it was, less the cost.
level-reserve :
    (o : CostTrackerOptions) (now shop cost : ℕ) (tracker : CostTracker)
    → (projected_available o now (reserve o now shop cost tracker shop)).available
      ≡ (projected_available o now (tracker shop)).available - cost * 1000
unfolding reserve projected_available
level-reserve o now shop cost tracker = rw (==_refl shop) (
    omega (
      arith,
      level-le-max o now (tracker shop),
      no_time now (projected_available o now (tracker shop)).restore_rate,
    ))

-- A query that does not fit into the bucket is told to wait at every time.
too_large_waits :
    (o : CostTrackerOptions) (now shop cost : ℕ) (tracker : CostTracker)
    → 1 ≤ (projected_available o now (tracker shop)).restore_rate
    → (projected_available o now (tracker shop)).max < cost + o.safety_floor
    → 1 ≤ ms_until_available o now shop cost tracker
unfolding ms_until_available
too_large_waits o now shop cost tracker rate large =
    too_low (cost + o.safety_floor) _ rate (level-le-max o now (tracker shop)) large

-- Two queries of one shop that are told to wait at the same moment wait equally long, and neither is asked again. The
-- second reservation then leaves less than the floor, if the cost is above a point and what is restored in a millisecond.
pub two_waiters_break_floor :
    (o : CostTrackerOptions) (now shop cost : ℕ) (tracker : CostTracker)
    → IsSeenBy now (tracker shop)
    → 1 ≤ (projected_available o now (tracker shop)).restore_rate
    → 1 ≤ ms_until_available o now shop cost tracker
    → 1000 + (projected_available o now (tracker shop)).restore_rate < cost * 1000
    → 1 ≤ o.safety_floor
    → (projected_available o (now + ms_until_available o now shop cost tracker) (
        reserve o
          (now + ms_until_available o now shop cost tracker)
          shop
          cost
          (reserve o (now + ms_until_available o now shop cost tracker) shop cost tracker)
          shop)).available
      < o.safety_floor * 1000
unfolding ms_until_available
two_waiters_break_floor o now shop cost tracker seen rate wait large floor =
    rw
      (
        level-reserve o (now + ms_until_available o now shop cost tracker) shop cost
            (reserve o (now + ms_until_available o now shop cost tracker) shop cost tracker),
        level-reserve o (now + ms_until_available o now shop cost tracker) shop cost tracker,
        refilled o now (ms_until_available o now shop cost tracker) (tracker shop) seen,
      )
      (omega (
        arith,
        large,
        floor,
        not_much (cost + o.safety_floor) (projected_available o now (tracker shop)) rate wait,
      ))
