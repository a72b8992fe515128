-- ===== src/Generation.antt =====
-- The parts of AI generation for one merchant: the cost table (packages/ai/src/cost-rates.ts), the
-- hourly counter (packages/queue/src/rate-limiter.ts), and the generations, drafts and spend buckets
-- (packages/db/src/repositories/ai-generation.repository.ts, message.repository.ts and
-- ai-spend-bucket.repository.ts). The prompt's text is left out. Redis holds one script, whose reload
-- is left out; a counter is dead from its expiry on.
pub mod Handler
pub mod Job
pub mod Costs
pub mod Hourly
pub mod Spend
pub mod Completed
pub mod Once
pub mod Runs
pub mod Finished
pub mod Echo
use Prim.Native.String.{String}
use win_back_ai.Store.{Band, GenerationStatus}
use win_back_ai.Completion.{utc_midnight}
use win_back_ai.Base.{
  ℕ, Bool, List, Option, some, upsert_by, ◌*◌, ◌+◌, find_by, if◌then◌else◌, none, true, update_by,
  ◌/◌, ◌∷◌, false, leb, ltb, [],
}

pub data Provider : Type 0 where
  openai anthropic deepseek : Provider

pub data Model : Type 0 where
  gpt_4_1 gpt_4_1_mini gpt_4_1_nano : Model
  claude_opus_4_7 claude_sonnet_4_6 claude_haiku_4_5 : Model
  deepseek_v4_flash deepseek_v4_pro : Model
  other_model : Model

pub record ModelCostRate : Type 0 where
  pub input_per_1m : ℕ
  pub output_per_1m : ℕ

abbrev rate : ℕ → ℕ → Option ModelCostRate
rate i o = some (record { input_per_1m = i; output_per_1m = o })

unfoldable pub provider_cost_rates : Provider → Model → Option ModelCostRate
provider_cost_rates Provider.openai Model.gpt_4_1 = rate 500000000 1500000000
provider_cost_rates Provider.openai Model.gpt_4_1_mini = rate 40000000 160000000
provider_cost_rates Provider.openai Model.gpt_4_1_nano = rate 10000000 40000000
provider_cost_rates Provider.anthropic Model.claude_opus_4_7 = rate 500000000 2500000000
provider_cost_rates Provider.anthropic Model.claude_sonnet_4_6 = rate 300000000 1500000000
provider_cost_rates Provider.anthropic Model.claude_haiku_4_5 = rate 100000000 500000000
provider_cost_rates Provider.deepseek Model.deepseek_v4_flash = rate 14000000 28000000
provider_cost_rates Provider.deepseek Model.deepseek_v4_pro = rate 174000000 348000000
provider_cost_rates _ _ = none

abbrev pub cost_at : ModelCostRate → ℕ → ℕ → ℕ
cost_at r input output = input * r.input_per_1m / 1000000 + output * r.output_per_1m / 1000000

-- `none` is the error for a model that the provider does not have.
unfoldable pub estimate_cost_microcents : Provider → Model → ℕ → ℕ → Option ℕ
estimate_cost_microcents p m input output = elim (provider_cost_rates p m) [
  | none ↦ none
  | some r ↦ some (cost_at r input output)
]

-- A key of Redis: the counter of an hour, with the time at which it expires.
pub record Counter : Type 0 where
  pub bucket : ℕ
  pub count : ℕ
  pub expires_at : ℕ

abbrev pub counter_key : Counter → ℕ
counter_key c = c.bucket

abbrev pub hour_bucket_ms : ℕ
hour_bucket_ms = 3600000

abbrev hour_ttl_seconds : ℕ
hour_ttl_seconds = 3600

abbrev pub new_counter : ℕ → ℕ → Counter
new_counter now b = record { bucket = b; count = 1; expires_at = now + hour_ttl_seconds * 1000 }

-- The script: INCR, and EXPIRE only for a key that it created.
unfoldable pub incr_with_ttl : ℕ → ℕ → List Counter → List Counter
unfolding upsert_by
incr_with_ttl now b cs =
    upsert_by counter_key b
      (λ c. if ltb now c.expires_at then record c { count = c.count + 1 } else new_counter now b)
      (new_counter now b) cs

abbrev pub count_of : Option Counter → ℕ
count_of none = 0
count_of (some c) = c.count

pub record RateLimit : Type 0 where
  pub allowed : Bool
  pub current_count : ℕ

-- The calls of one merchant.
unfoldable pub increment_and_check : ℕ → ℕ → List Counter → List Counter × RateLimit
increment_and_check now cap cs =
    let b = now / hour_bucket_ms in
    let cs' = incr_with_ttl now b cs in
    let n = count_of (find_by counter_key b cs') in
    (cs', record { allowed = leb n cap; current_count = n })

pub data GenerationError : Type 0 where
  generation_stale discount_customer_redacted content_blocked auth invalid_request : GenerationError

-- A row of AiGeneration. The scores, the token counts and the latency are only recorded, and left out.
pub record Generation : Type 0 where
  pub id : ℕ
  pub customer_id : ℕ
  pub trigger_state : Band
  pub previous_state : Band
  pub discount_value_percent : Option ℕ
  pub created_at : ℕ
  pub status : GenerationStatus
  pub generated_text : Option String
  pub cost_microcents : Option ℕ
  pub discount_code : Option String
  pub last_error : Option GenerationError

-- A row of Message that has not been dispatched.
pub record Draft : Type 0 where
  pub generation_id : ℕ
  pub customer_id : ℕ
  pub generated_text : String

pub record SpendBucket : Type 0 where
  pub date : ℕ
  pub spent_microcents : ℕ
  pub generation_count : ℕ

abbrev pub generation_key : Generation → ℕ
generation_key g = g.id

abbrev pub draft_key : Draft → ℕ
draft_key d = d.generation_id

abbrev pub spend_key : SpendBucket → ℕ
spend_key b = b.date

abbrev pub add_spend : ℕ → SpendBucket → SpendBucket
add_spend delta b = record b {
  spent_microcents = b.spent_microcents + delta;
  generation_count = b.generation_count + 1;
}

unfoldable pub increment_spend : ℕ → ℕ → List SpendBucket → List SpendBucket
unfolding utc_midnight upsert_by
increment_spend date delta bs =
    let day = utc_midnight date in
    upsert_by spend_key day (add_spend delta)
      (record { date = day; spent_microcents = delta; generation_count = 1 }) bs

-- The sum over the buckets from a day on.
unfoldable pub spent_since : ℕ → List SpendBucket → ℕ
spent_since start [] = 0
spent_since start (b ∷ bs) =
    (if leb start b.date then b.spent_microcents else 0) + spent_since start bs

-- `month_start` is `toUtcMonthStart`, which the runtime's calendar gives.
unfoldable pub sum_month_spend : (ℕ → ℕ) → ℕ → List SpendBucket → ℕ
sum_month_spend month_start as_of bs = spent_since (month_start as_of) bs

abbrev pub is_pending : GenerationStatus → Bool
is_pending GenerationStatus.pending = true
is_pending _ = false

-- `updateMany` on the id and the status 'pending', with its count.
unfoldable pub update_pending :
    ℕ → (Generation → Generation) → List Generation → Bool × List Generation
update_pending x f gs = (
  (elim (find_by generation_key x gs) [ none ↦ false | some g ↦ is_pending g.status ]),
  update_by generation_key x (λ g. if is_pending g.status then f g else g) gs,
)

abbrev pub completed_with : String → ℕ → Option String → Generation → Generation
completed_with text cost code g = record g {
  status = GenerationStatus.completed;
  generated_text = some text;
  cost_microcents = some cost;
  discount_code = code;
}

unfoldable pub mark_completed :
    ℕ → String → ℕ → Option String → List Generation → Bool × List Generation
unfolding update_pending
mark_completed x text cost code gs = update_pending x (completed_with text cost code) gs

abbrev pub failed_with : GenerationError → Generation → Generation
failed_with e g = record g { status = GenerationStatus.failed; last_error = some e }

unfoldable pub mark_failed : ℕ → GenerationError → List Generation → Bool × List Generation
unfolding update_pending
mark_failed x e gs = update_pending x (failed_with e) gs

abbrev pub with_text : String → Draft → Draft
with_text text d = record d { generated_text = text }

unfoldable pub update_generated_text : ℕ → String → List Draft → List Draft
update_generated_text x text ds = update_by draft_key x (with_text text) ds
