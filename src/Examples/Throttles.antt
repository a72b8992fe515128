-- ===== src/Examples/Throttles.antt =====
-- A shop whose bucket holds 20 points at time 1000, and replies of its API.
use win_back_ai.Throttle.{CostTracker, defaults, ms_until_available, projected_available, reserve}
use win_back_ai.Throttle.Waiting.{two_waiters_break_floor}
use win_back_ai.Throttle.Client.{
  ClientEnv, ClientState, Reply, graphql, network_error, unauthorized,
}
use win_back_ai.Throttle.Client.Attempts.{graphql_ends, retries, is_unauthorized, outcome_of}
use win_back_ai.Base.{
  ℕ, some, true, false, zero, suc, ◌≡◌, ◌≤◌, ◌<◌, ◌+◌, ◌*◌, arith, if◌then◌else◌,
}

abbrev low_bucket : CostTracker
low_bucket s = some (record {
  maximum_available = 1000;
  currently_available = 20000;
  restore_rate = 50;
  observed_at = 1000;
})

two_waiters_break_floor_example :
    (projected_available defaults (1200 + ms_until_available defaults 1200 7 100 low_bucket) (
      reserve defaults
        (1200 + ms_until_available defaults 1200 7 100 low_bucket)
        7
        100
        (reserve defaults
          (1200 + ms_until_available defaults 1200 7 100 low_bucket)
          7
          100
          low_bucket)
        7)).available
    < 50 * 1000
unfolding projected_available ms_until_available
two_waiters_break_floor_example =
    two_waiters_break_floor defaults 1200 7 100 low_bucket (omega arith) (omega arith) (omega arith)
      (omega arith) (omega arith)

-- A network error, and then a 401.
abbrev replies : ℕ → Reply
replies zero = network_error
replies (suc n) = unauthorized

abbrev env : ClientEnv
env = record {
  options = defaults;
  shop = 7;
  cost = 100;
  reply = replies;
  duration = λ n. 80;
  jitter = λ n. 17;
}

abbrev idle : ClientState
idle = record { tracker = low_bucket; now = 1200; revoked = false; sent = 0 }

graphql_ends_example :
    ((graphql env 3 true idle).1.sent ≡ 0 + retries replies 3 0 + 1)
    × (retries replies 3 0 ≤ 3)
    × ((graphql env 3 true idle).0 ≡ outcome_of (replies (retries replies 3 0)))
    × ((graphql env 3 true idle).1.revoked
        ≡ (if is_unauthorized (replies (retries replies 3 0)) then true else false))
graphql_ends_example = graphql_ends env 3 idle
