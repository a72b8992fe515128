-- ===== src/Gates.antt =====
-- The dispatch gates: apps/drainer/src/dispatch/gate-chain.ts and quiet-hours.ts, with the reads
-- `loadDispatchContext`, `isSuppressed` (campaign.repository.ts), `countSentSince`
-- (message.repository.ts) and `hasQualifyingOrderSince` (order.repository.ts).
pub mod Chain
use Prim.Native.String.{String}
use win_back_ai.Base.{
  ℕ, ◌+◌, ◌-◌, ◌*◌, Bool, true, false, not, ◌&&◌, ◌||◌, Option, none, some, List, [], ◌∷◌, ltb, leb,
  ◌==◌, if◌then◌else◌, find_by,
}
use win_back_ai.Store.{
  TargetStatus, MessageStatus, ConsentState, FinancialStatus, Target, Message, Customer, Order,
  Settings, Store, customer_key, target_of, message_of,
}
use win_back_ai.Completion.{QuotaUsage, utc_midnight, get_quota_usage}

-- What the JavaScript runtime gives: the hour that `Intl.DateTimeFormat` prints for an instant in a
-- time zone (`none` where it throws a RangeError), and the first instant of a UTC month.
pub record Runtime : Type 0 where
  pub format_hour : String → ℕ → Option ℕ
  pub first_of_month : ℕ → ℕ

-- Some ICU builds print midnight as 24.
unfoldable pub hour_in_timezone : Runtime → ℕ → String → Option ℕ
hour_in_timezone rt now tz = elim (rt.format_hour tz now) [
  | none ↦ none
  | some h ↦ some (if h == 24 then 0 else h)
]

pub record SendWindow : Type 0 where
  pub in_window : Bool
  pub used_utc_fallback : Bool

abbrev window : ℕ → ℕ → Bool → Option ℕ → Option SendWindow
window start end fallback none = none
window start end fallback (some h) =
    some (record { in_window = leb start h && ltb h end; used_utc_fallback = fallback })

abbrev window_or_utc : Runtime → ℕ → ℕ → ℕ → Option ℕ → Option SendWindow
window_or_utc rt start end now (some h) = window start end false (some h)
window_or_utc rt start end now none = window start end true (hour_in_timezone rt now "UTC")

-- `none` is the error of a runtime that does not know UTC.
unfoldable pub is_within_send_window : Runtime → Option String → ℕ → ℕ → ℕ → Option SendWindow
unfolding hour_in_timezone
is_within_send_window rt none start end now = window start end true (hour_in_timezone rt now "UTC")
is_within_send_window rt (some tz) start end now =
    window_or_utc rt start end now (hour_in_timezone rt now tz)

pub record DispatchContext : Type 0 where
  pub target_status : TargetStatus
  pub customer_id : ℕ
  pub consent_state : ConsentState
  pub generation_created_at : ℕ
  pub timezone : Option String
  pub limits : Settings
  pub open limits use *
  pub customer_email : Option String
  pub generated_text : String

abbrev context_of :
    Option String
    → Option Target
    → Option Message
    → Option Customer
    → Option Settings
    → Option DispatchContext
context_of tz (some t) (some m) (some c) (some limits) = some (record {
  target_status = t.status;
  customer_id = t.customer_id;
  consent_state = c.consent;
  generation_created_at = m.generation_created_at;
  timezone = tz;
  limits = limits;
  customer_email = c.email;
  generated_text = m.generated_text;
})
context_of tz _ _ _ _ = none

abbrev customer_of_target : Option Target → Store → Option Customer
customer_of_target none s = none
customer_of_target (some t) s = find_by customer_key t.customer_id s.customers

-- The nested reads follow foreign keys, and no soft-delete filter applies to them.
unfoldable pub load_dispatch_context : ℕ → Store → Option DispatchContext
load_dispatch_context m s =
    context_of s.timezone (target_of m s) (message_of m s) (customer_of_target (target_of m s) s)
      s.settings

unfoldable pub is_suppressed : ℕ → List ℕ → Bool
is_suppressed customer [] = false
is_suppressed customer (c ∷ cs) = c == customer || is_suppressed customer cs

abbrev is_qualifying : FinancialStatus → Bool
is_qualifying FinancialStatus.paid = true
is_qualifying FinancialStatus.partially_paid = true
is_qualifying FinancialStatus.other_status = false

abbrev pub is_just : ℕ → Option ℕ → Bool
is_just n none = false
is_just n (some k) = k == n

abbrev pub coalesce : Option ℕ → ℕ → ℕ
coalesce none d = d
coalesce (some a) d = a

unfoldable pub has_qualifying_order_since : ℕ → ℕ → List Order → Bool
has_qualifying_order_since customer since [] = false
has_qualifying_order_since customer since (o ∷ os) =
    is_just customer o.customer_id
      && not o.is_test
      && is_qualifying o.financial_status
      && ltb since (coalesce o.shopify_processed_at o.placed_at)
    || has_qualifying_order_since customer since os

abbrev is_sent : MessageStatus → Bool
is_sent MessageStatus.sent = true
is_sent _ = false

abbrev sent_since : ℕ → Option ℕ → Bool
sent_since since none = false
sent_since since (some at) = leb since at

unfoldable pub count_sent_since : ℕ → ℕ → List Message → ℕ
count_sent_since customer since [] = 0
count_sent_since customer since (m ∷ ms) =
    (if m.customer_id == customer && is_sent m.status && sent_since since m.sent_at then 1 else 0)
    + count_sent_since customer since ms

pub data TerminalGate : Type 0 where
  suppression consent freshness frequency : TerminalGate

pub data TransientGate : Type 0 where
  quiet_hours quota : TransientGate

pub data GateOutcome : Type 0 where
  suppressed : TerminalGate → GateOutcome
  deferred : TransientGate → GateOutcome
  passed : GateOutcome

abbrev pub ms_per_hour : ℕ
ms_per_hour = 3600000

abbrev pub is_subscribed : ConsentState → Bool
is_subscribed ConsentState.subscribed = true
is_subscribed _ = false

-- `new Date(now - defaultCooldownHours * MS_PER_HOUR)`; an instant before the epoch counts as it,
-- which compares the same with every recorded time.
abbrev pub cooldown_since : DispatchContext → ℕ → ℕ
cooldown_since ctx now = now - ctx.default_cooldown_hours * ms_per_hour

-- The daily and the monthly cap against the usage.
unfoldable pub over_quota : DispatchContext → QuotaUsage → Bool
over_quota ctx usage =
    leb ctx.daily_send_cap usage.day_sent_count || leb ctx.monthly_sends_cap usage.month_sent_count

abbrev transient_gates : DispatchContext → QuotaUsage → Option SendWindow → Option GateOutcome
transient_gates ctx usage none = none
transient_gates ctx usage (some w) = some (
    if not w.in_window
    then deferred quiet_hours
    else if over_quota ctx usage
    then deferred quota
    else passed)

-- `none` is an error thrown by the clock's formatter.
unfoldable pub run_gate_chain : Runtime → ℕ → DispatchContext → Store → Option GateOutcome
run_gate_chain rt now ctx s =
    if is_suppressed ctx.customer_id s.suppressions
    then some (suppressed suppression)
    else if not (is_subscribed ctx.consent_state)
    then some (suppressed consent)
    else if has_qualifying_order_since ctx.customer_id ctx.generation_created_at s.orders
    then some (suppressed freshness)
    else if ltb 0 (count_sent_since ctx.customer_id (cooldown_since ctx now) s.messages)
    then some (suppressed frequency)
    else if leb ctx.max_daily_sends_per_customer
        (count_sent_since ctx.customer_id (utc_midnight now) s.messages)
    then some (suppressed frequency)
    else transient_gates ctx (get_quota_usage rt.first_of_month now s)
        (is_within_send_window rt ctx.timezone ctx.send_time_start_hour ctx.send_time_end_hour now)
