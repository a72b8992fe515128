-- ===== src/Throttle.antt =====
-- packages/shopify/src/admin/cost-tracker.ts. Points are counted in thousandths, since a rate of points a second adds
-- that many thousandths each millisecond, and the arithmetic is exact where the code's is in floating
-- point. Costs and reported levels are whole points, as the API reports them.
pub mod Waiting
pub mod Client
use Prim.Native.Nat.{min}
use win_back_ai.Base.{ℕ, Option, none, some, ◌+◌, ◌-◌, ◌*◌, ◌/◌, ◌==◌, leb, if◌then◌else◌}

pub record CostTrackerOptions : Type 0 where
  pub default_max : ℕ
  pub default_restore_rate : ℕ
  pub safety_floor : ℕ

-- DEFAULTS
abbrev pub defaults : CostTrackerOptions
defaults = record { default_max = 1000; default_restore_rate = 50; safety_floor = 50 }

-- In points.
pub record ThrottleStatus : Type 0 where
  pub maximum_available : ℕ
  pub currently_available : ℕ
  pub restore_rate : ℕ

-- The level in thousandths.
pub record ShopBucketState : Type 0 where
  pub maximum_available : ℕ
  pub currently_available : ℕ
  pub restore_rate : ℕ
  pub observed_at : ℕ

abbrev pub CostTracker : Type 0
CostTracker = ℕ → Option ShopBucketState

abbrev pub put : ℕ → ShopBucketState → CostTracker → CostTracker
put shop b tracker s = if s == shop then some b else tracker s

pub record Projected : Type 0 where
  pub available : ℕ
  pub max : ℕ
  pub restore_rate : ℕ

unfoldable pub projected_available : CostTrackerOptions → ℕ → Option ShopBucketState → Projected
projected_available o now none = record {
  available = o.default_max * 1000;
  max = o.default_max;
  restore_rate = o.default_restore_rate;
}
projected_available o now (some b) = record {
  available =
      min (b.maximum_available * 1000)
        (b.currently_available + (now - b.observed_at) * b.restore_rate);
  max = b.maximum_available;
  restore_rate = b.restore_rate;
}

unfoldable pub on_response : ℕ → ℕ → ThrottleStatus → CostTracker → CostTracker
on_response now shop t = put shop (record {
  maximum_available = t.maximum_available;
  currently_available = t.currently_available * 1000;
  restore_rate = t.restore_rate;
  observed_at = now;
})

abbrev throttled_base :
    CostTrackerOptions → ℕ → Option ThrottleStatus → Option ShopBucketState → ShopBucketState
throttled_base o now (some t) prior = record {
  maximum_available = t.maximum_available;
  currently_available = 0;
  restore_rate = t.restore_rate;
  observed_at = now;
}
throttled_base o now none none = record {
  maximum_available = o.default_max;
  currently_available = 0;
  restore_rate = o.default_restore_rate;
  observed_at = now;
}
throttled_base o now none (some b) = record b { currently_available = 0; observed_at = now }

unfoldable pub on_throttled :
    CostTrackerOptions → ℕ → ℕ → Option ThrottleStatus → CostTracker → CostTracker
on_throttled o now shop status tracker =
    put shop (throttled_base o now status (tracker shop)) tracker

abbrev pub ceil_div : ℕ → ℕ → ℕ
ceil_div a b = (a + b - 1) / b

abbrev pub wait_for : ℕ → Projected → ℕ
wait_for required p =
    if leb required (p.available / 1000)
    then 0
    else ceil_div ((required - p.available / 1000) * 1000) p.restore_rate

unfoldable pub ms_until_available : CostTrackerOptions → ℕ → ℕ → ℕ → CostTracker → ℕ
unfolding projected_available
ms_until_available o now shop cost tracker =
    wait_for (cost + o.safety_floor) (projected_available o now (tracker shop))

unfoldable pub reserve : CostTrackerOptions → ℕ → ℕ → ℕ → CostTracker → CostTracker
unfolding projected_available
reserve o now shop cost tracker =
    let p = projected_available o now (tracker shop) in
    put shop
      (record {
        maximum_available = p.max;
        currently_available = p.available - cost * 1000;
        restore_rate = p.restore_rate;
        observed_at = now;
      })
      tracker

-- snapshot
abbrev pub snapshot : ℕ → CostTracker → Option ShopBucketState
snapshot shop tracker = tracker shop

unfoldable pub reset : Option ℕ → CostTracker → CostTracker
reset none tracker s = none
reset (some shop) tracker s = if s == shop then none else tracker s
