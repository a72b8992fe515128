-- ===== src/Generation/Handler.antt =====
-- apps/drainer/src/handlers/customer-state-changed.ts: the gates before a generation, and the
-- two writes and the job of one that passes. Reads that only feed the prompt or the log are left out.
use win_back_ai.Store.{Band, GenerationStatus, band_code}
use win_back_ai.Base.{
  ℕ, Bool, Option, if◌then◌else◌, ◌*◌, ◌++◌, List, false, none, not, some, true, ◌∷◌, [], find_by,
  ltb, ◌==◌, ◌+◌,
}
use win_back_ai.Generation.{
  Draft, Generation, Provider, increment_and_check, sum_month_spend, Model,
  estimate_cost_microcents, Counter, SpendBucket,
}

pub data BillingStatus : Type 0 where
  trialing active past_due cancelled paused : BillingStatus

-- `ai_tone_is_valid` tells whether the stored tone passes its schema.
pub record AiSettings : Type 0 where
  pub monthly_ai_spend_cap_cents : ℕ
  pub hourly_generation_cap : ℕ
  pub ai_tone_is_valid : Bool
  pub winback_discount_enabled : Bool
  pub winback_discount_percent : ℕ

pub data GenerationAudit : Type 0 where
  rate_limited : (customer_id current_count hourly_cap event_id : ℕ) → GenerationAudit
  spend_cap_exceeded : (customer_id current_spend cap estimate event_id : ℕ) → GenerationAudit
  generation_blocked generation_failed : (generation_id : ℕ) → GenerationAudit
  discount_created : (generation_id value_percent : ℕ) → GenerationAudit

-- A customer, with whether it was deleted.
pub record Recipient : Type 0 where
  pub id : ℕ
  pub is_deleted : Bool

abbrev pub recipient_key : Recipient → ℕ
recipient_key r = r.id

-- The tables of one merchant, its counters in Redis and the queue of its jobs.
pub record GenerationDb : Type 0 where
  pub billing : Option BillingStatus
  pub merchant_exists : Bool
  pub settings : Option AiSettings
  pub recipients : List Recipient
  pub counters : List Counter
  pub buckets : List SpendBucket
  pub generations : List Generation
  pub drafts : List Draft
  pub jobs : List ℕ
  pub audit : List GenerationAudit

pub record AiConfig : Type 0 where
  pub ai_provider : Provider
  pub ai_model : Model
  pub ai_max_tokens : ℕ

-- What a run of the handler gets from outside: the time, the id of a new row, the calendar, and
-- whether Redis and the queue answer.
pub record HandlerEnv : Type 0 where
  pub now : ℕ
  pub fresh_id : ℕ
  pub month_start : ℕ → ℕ
  pub config : AiConfig
  pub redis_is_up : Bool
  pub queue_is_up : Bool

pub record StateEvent : Type 0 where
  pub event_id : ℕ
  pub customer_id : ℕ
  pub old_state : Band
  pub new_state : Band

-- How a run ends; the last five are errors that it throws.
pub data HandlerEnd : Type 0 where
  not_a_trigger same_state billing_inactive merchant_missing settings_missing : HandlerEnd
  hourly_cap_exceeded monthly_cap_exceeded customer_missing enqueued : HandlerEnd
  redis_failed unknown_model invalid_tone enqueue_failed : HandlerEnd

unfoldable pub is_winback_trigger_state : Band → Bool
is_winback_trigger_state Band.at_risk = true
is_winback_trigger_state Band.dormant = true
is_winback_trigger_state Band.lost = true
is_winback_trigger_state _ = false

abbrev is_billed : Option BillingStatus → Bool
is_billed (some BillingStatus.active) = true
is_billed (some BillingStatus.trialing) = true
is_billed _ = false

abbrev pub estimated_input_tokens : ℕ
estimated_input_tokens = 500

abbrev log_entry : GenerationAudit → GenerationDb → GenerationDb
log_entry a db = record db { audit = db.audit ++ a ∷ [] }

-- The customer of a read that hides the deleted ones.
abbrev is_readable : Option Recipient → Bool
is_readable none = false
is_readable (some r) = not r.is_deleted

-- `winbackDiscountEnabled ? winbackDiscountPercent : null`
abbrev discount_intent : AiSettings → Option ℕ
discount_intent st = if st.winback_discount_enabled then some st.winback_discount_percent else none

abbrev pub new_generation : HandlerEnv → StateEvent → AiSettings → Generation
new_generation env e st = record {
  id = env.fresh_id;
  customer_id = e.customer_id;
  trigger_state = e.new_state;
  previous_state = e.old_state;
  discount_value_percent = discount_intent st;
  created_at = env.now;
  status = GenerationStatus.pending;
  generated_text = none;
  cost_microcents = none;
  discount_code = none;
  last_error = none;
}

abbrev pub new_draft : HandlerEnv → StateEvent → Draft
new_draft env e = record {
  generation_id = env.fresh_id;
  customer_id = e.customer_id;
  generated_text = "";
}

-- Steps 8 and 9: the two writes of one transaction, then the job.
unfoldable pub create_generation :
    HandlerEnv → StateEvent → AiSettings → GenerationDb → GenerationDb × HandlerEnd
create_generation env e st db =
    let db' : GenerationDb = record db {
      generations = db.generations ++ new_generation env e st ∷ [];
      drafts = db.drafts ++ new_draft env e ∷ [];
    } in
    if env.queue_is_up
    then (record db' { jobs = db'.jobs ++ env.fresh_id ∷ [] }, enqueued)
    else (db', enqueue_failed)

-- Steps 6 to 9.
unfoldable pub generate_for :
    HandlerEnv → StateEvent → AiSettings → GenerationDb → GenerationDb × HandlerEnd
unfolding create_generation
generate_for env e st db =
    if not (is_readable (find_by recipient_key e.customer_id db.recipients))
    then (db, customer_missing)
    else if not st.ai_tone_is_valid
    then (db, invalid_tone)
    else create_generation env e st db

abbrev pub cap_microcents : AiSettings → ℕ
cap_microcents st = st.monthly_ai_spend_cap_cents * 100000

-- Step 5, with the estimate of the call: `none` is an error of the cost table.
unfoldable pub check_estimate :
    HandlerEnv → StateEvent → AiSettings → GenerationDb → Option ℕ → GenerationDb × HandlerEnd
unfolding generate_for sum_month_spend
check_estimate env e st db none = (db, unknown_model)
check_estimate env e st db (some estimate) =
    let spent = sum_month_spend env.month_start env.now db.buckets in
    if ltb (cap_microcents st) (spent + estimate)
    then (
      log_entry (spend_cap_exceeded e.customer_id spent (cap_microcents st) estimate e.event_id) db,
      monthly_cap_exceeded,
    )
    else generate_for env e st db

unfoldable pub check_spend :
    HandlerEnv → StateEvent → AiSettings → GenerationDb → GenerationDb × HandlerEnd
unfolding check_estimate estimate_cost_microcents
check_spend env e st db = check_estimate env e st db (
    estimate_cost_microcents env.config.ai_provider env.config.ai_model estimated_input_tokens
      env.config.ai_max_tokens)

-- Step 4.5: the hourly cap, then the spend ceiling.
unfoldable pub check_rate :
    HandlerEnv → StateEvent → AiSettings → GenerationDb → GenerationDb × HandlerEnd
unfolding increment_and_check check_spend
check_rate env e st db =
    if not env.redis_is_up
    then (db, redis_failed)
    else (let (cs, limit) = increment_and_check env.now st.hourly_generation_cap db.counters in
        let db' : GenerationDb = record db { counters = cs } in
        if not limit.allowed
        then (
          log_entry
              (rate_limited e.customer_id limit.current_count st.hourly_generation_cap e.event_id)
              db',
          hourly_cap_exceeded,
        )
        else check_spend env e st db')

unfoldable pub check_settings :
    HandlerEnv → StateEvent → GenerationDb → Option AiSettings → GenerationDb × HandlerEnd
unfolding check_rate
check_settings env e db none = (db, settings_missing)
check_settings env e db (some st) = check_rate env e st db

unfoldable pub handle_customer_state_changed :
    HandlerEnv → StateEvent → GenerationDb → GenerationDb × HandlerEnd
unfolding check_settings is_winback_trigger_state
handle_customer_state_changed env e db =
    if not (is_winback_trigger_state e.new_state)
    then (db, not_a_trigger)
    else if band_code e.old_state == band_code e.new_state
    then (db, same_state)
    else if not (is_billed db.billing)
    then (db, billing_inactive)
    else if not db.merchant_exists
    then (db, merchant_missing)
    else check_settings env e db db.settings
