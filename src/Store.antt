-- ===== src/Store.antt =====
-- The tables that the campaign dispatch reads and writes (packages/db/prisma/schema.prisma), as
-- they stand for one merchant: the tenant extension restricts every query to the active merchant.
-- Ids are numbers, since the code only compares them; times are milliseconds since the epoch.
use Prim.Native.String.{String}
use win_back_ai.Base.{ℕ, Bool, Option, none, some, List, find_by}

pub data TargetStatus : Type 0 where
  pending sending sent suppressed deferred failed : TargetStatus

pub data MessageStatus : Type 0 where
  draft sent suppressed failed bounced opened clicked : MessageStatus

pub data GenerationStatus : Type 0 where
  pending completed failed : GenerationStatus

pub data ConsentState : Type 0 where
  subscribed not_subscribed pending unsubscribed : ConsentState

pub data CampaignStatus : Type 0 where
  draft active paused archived : CampaignStatus

-- CustomerState, the band of a customer
pub data Band : Type 0 where
  active warm at_risk dormant lost insufficient_data : Band

-- The bands as numbers, to compare them.
abbrev pub band_code : Band → ℕ
band_code Band.active = 0
band_code Band.warm = 1
band_code Band.at_risk = 2
band_code Band.dormant = 3
band_code Band.lost = 4
band_code Band.insufficient_data = 5

pub record Target : Type 0 where
  pub message_id : ℕ
  pub campaign_id : ℕ
  pub customer_id : ℕ
  pub status : TargetStatus
  pub suppressed_by_gate : Option String
  pub sent_at : Option ℕ
  pub send_started_at : Option ℕ
  pub created_at : ℕ

-- A message with the columns of its AiGeneration row that dispatch reads.
pub record Message : Type 0 where
  pub id : ℕ
  pub customer_id : ℕ
  pub status : MessageStatus
  pub sent_at : Option ℕ
  pub generated_text : String
  pub provider_message_id : Option ℕ
  pub generation_status : GenerationStatus
  pub trigger_state : Band
  pub generation_created_at : ℕ

pub record Campaign : Type 0 where
  pub id : ℕ
  pub status : CampaignStatus
  pub trigger_states : List Band
  pub created_at : ℕ

pub record Customer : Type 0 where
  pub id : ℕ
  pub consent : ConsentState
  pub email : Option String
  pub deleted : Bool

pub data FinancialStatus : Type 0 where
  paid partially_paid other_status : FinancialStatus

pub record Order : Type 0 where
  pub customer_id : Option ℕ
  pub is_test : Bool
  pub financial_status : FinancialStatus
  pub shopify_processed_at : Option ℕ
  pub placed_at : ℕ
  pub total_amount_cents : ℕ

pub record QuotaBucket : Type 0 where
  pub date : ℕ
  pub sent_count : ℕ

pub record Settings : Type 0 where
  pub send_time_start_hour : ℕ
  pub send_time_end_hour : ℕ
  pub default_cooldown_hours : ℕ
  pub max_daily_sends_per_customer : ℕ
  pub daily_send_cap : ℕ
  pub monthly_sends_cap : ℕ

pub data AuditEntry : Type 0 where
  dispatch_sent : (message_id campaign_id customer_id provider_message_id : ℕ) → AuditEntry
  suppressed_by_ses : (message_id campaign_id customer_id : ℕ) → AuditEntry

pub record Store : Type 0 where
  pub targets : List Target
  pub messages : List Message
  pub campaigns : List Campaign
  pub customers : List Customer
  pub orders : List Order
  pub suppressions : List ℕ
  pub buckets : List QuotaBucket
  pub settings : Option Settings
  pub timezone : Option String
  pub audit : List AuditEntry

-- The unique keys.
abbrev pub target_key : Target → ℕ
target_key t = t.message_id

abbrev pub message_key : Message → ℕ
message_key m = m.id

abbrev pub customer_key : Customer → ℕ
customer_key c = c.id

abbrev pub campaign_key : Campaign → ℕ
campaign_key c = c.id

abbrev pub bucket_key : QuotaBucket → ℕ
bucket_key b = b.date

abbrev pub target_of : ℕ → Store → Option Target
target_of m s = find_by target_key m s.targets

abbrev pub message_of : ℕ → Store → Option Message
message_of m s = find_by message_key m s.messages

abbrev pub status_of : Option Target → Option TargetStatus
status_of none = none
status_of (some t) = some t.status
