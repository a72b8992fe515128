-- ===== src/Throttle/Client.antt =====
-- packages/shopify/src/admin/client.ts. The reply to each attempt, its duration and the jitter of the backoff are
-- parameters; the texts of queries and errors are left out. The retries are counted down.
pub mod Attempts
use Prim.Native.Nat.{min, ◌^◌}
use win_back_ai.Throttle.{
  CostTrackerOptions, CostTracker, ThrottleStatus, ms_until_available, on_response, on_throttled,
  reserve,
}
use win_back_ai.Base.{ℕ, Bool, Option, none, some, true, false, zero, suc, ◌+◌, ◌*◌}

abbrev pub default_estimated_cost : ℕ
default_estimated_cost = 50

abbrev pub default_max_retries : ℕ
default_max_retries = 3

abbrev pub max_backoff_ms : ℕ
max_backoff_ms = 8000

-- The errors of a reply: one of them may be THROTTLED.
pub data GraphqlErrors : Type 0 where
  no_errors throttled other_errors : GraphqlErrors

-- The milliseconds of a Retry-After header that is a positive number, if there is one.
pub data Reply : Type 0 where
  network_error : Reply
  unauthorized : Reply
  too_many : Option ℕ → Reply
  other_status : Reply
  not_json : Reply
  answer : Option ThrottleStatus → GraphqlErrors → Bool → Reply

pub data Outcome : Type 0 where
  success token_revoked rate_limited api_error : Outcome

pub record ClientState : Type 0 where
  pub tracker : CostTracker
  pub now : ℕ
  pub revoked : Bool
  pub sent : ℕ

pub record ClientEnv : Type 0 where
  pub options : CostTrackerOptions
  pub shop : ℕ
  pub cost : ℕ
  pub reply : ℕ → Reply
  pub duration : ℕ → ℕ
  pub jitter : ℕ → ℕ

-- Go on after a sleep, unless the retries are used up and this is the error; or finish.
pub data Verdict : Type 0 where
  retry : ℕ → Outcome → Verdict
  finish : Outcome → Verdict

abbrev pub backoff_ms : ClientEnv → ℕ → ℕ
backoff_ms env attempt = min max_backoff_ms (500 * 2 ^ attempt) + env.jitter attempt

abbrev pub parse_retry_after : Option ℕ → ℕ
parse_retry_after none = 1000
parse_retry_after (some ms) = ms

abbrev pub sleep : ℕ → ClientState → ClientState
sleep ms s = record s { now = s.now + ms }

-- The wait, the reservation and the request.
unfoldable pub send : ClientEnv → ℕ → ClientState → ClientState
send env attempt s =
    let wait = ms_until_available env.options s.now env.shop env.cost s.tracker in
    record s {
      tracker = reserve env.options (s.now + wait) env.shop env.cost s.tracker;
      now = s.now + wait + env.duration attempt;
      sent = s.sent + 1;
    }

abbrev observe : ClientEnv → Option ThrottleStatus → ClientState → ClientState
observe env none s = s
observe env (some t) s = record s { tracker = on_response s.now env.shop t s.tracker }

abbrev mark_throttled : ClientEnv → Option ThrottleStatus → ClientState → ClientState
mark_throttled env t s = record s { tracker = on_throttled env.options s.now env.shop t s.tracker }

unfoldable pub judge : ClientEnv → ℕ → Reply → ClientState → Verdict × ClientState
judge env attempt network_error s = (retry (backoff_ms env attempt) api_error, s)
judge env attempt unauthorized s = (finish token_revoked, record s { revoked = true })
judge env attempt (too_many h) s =
    (retry (parse_retry_after h) rate_limited, mark_throttled env none s)
judge env attempt other_status s = (retry (backoff_ms env attempt) api_error, s)
judge env attempt not_json s = (finish api_error, s)
judge env attempt (answer t throttled d) s =
    (retry (backoff_ms env attempt) rate_limited, mark_throttled env t (observe env t s))
judge env attempt (answer t other_errors d) s = (finish api_error, observe env t s)
judge env attempt (answer t no_errors true) s = (finish success, observe env t s)
judge env attempt (answer t no_errors false) s = (finish api_error, observe env t s)

-- After the last attempt, and after another one.
abbrev pub conclude : Verdict × ClientState → Outcome × ClientState
conclude (retry ms e, s) = (e, s)
conclude (finish o, s) = (o, s)

abbrev pub go_on :
    (ClientState → Outcome × ClientState) → Verdict × ClientState → Outcome × ClientState
go_on next (retry ms e, s) = next (sleep ms s)
go_on next (finish o, s) = (o, s)

unfoldable pub attempts : ClientEnv → ℕ → ℕ → ClientState → Outcome × ClientState
unfolding send judge
attempts env zero attempt s = conclude (judge env attempt (env.reply attempt) (send env attempt s))
attempts env (suc left) attempt s =
    go_on (λ t. attempts env left (attempt + 1) t)
      (judge env attempt (env.reply attempt) (send env attempt s))

-- `usable` says whether the merchant has an offline token.
unfoldable pub graphql : ClientEnv → ℕ → Bool → ClientState → Outcome × ClientState
unfolding attempts
graphql env max_retries false s = (token_revoked, s)
graphql env max_retries true s = attempts env max_retries 0 s
