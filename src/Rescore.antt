-- ===== src/Rescore.antt =====
-- packages/db/src/services/customer-score.service.ts and the cohort and the upsert of
-- packages/db/src/repositories/customer-score.repository.ts, for one merchant that exists and is in
-- scope. The customers are those that are not deleted, since the soft-delete filter hides the
-- others. The currency, which is only copied onto the score, is left out, and so are the fields of
-- the log entry besides the payload, and the shop's own id of the customer. Amounts are not
-- negative, and an order is not placed or processed after `now`.
pub mod Passes
pub mod Cohort
pub mod Visits
pub mod Pages
pub mod Ends
pub mod Scored
pub mod Bulk
pub mod Decay
pub mod Skipped
pub mod Single
use Prim.Native.Nat.{max}
use win_back_ai.Store.{Band, Order, FinancialStatus, band_code}
use win_back_ai.Scoring.{
  CohortRow, QuintileBoundaries, ResolvedScore, insufficient_cohort_threshold, ms_per_day,
  resolve_lurker, compute_quintile_boundaries, resolve_scorable_customer, resolve_with_boundaries,
}
use win_back_ai.Base.{
  upsert_by, ℕ, Bool, List, Option, find_by, if◌then◌else◌, ltb, some, suc, ◌*◌, ◌++◌, ◌-◌, false,
  has_key, length, map, none, not, take, true, update_by, ◌&&◌, ◌+◌, ◌/◌, ◌==◌, ◌∷◌, [], leb,
  sort_by, zero, ◌||◌, filter,
}
use win_back_ai.Gates.{coalesce}
use win_back_ai.Outbox.{is_none}

-- The columns of Customer that scoring reads.
pub record ScoredCustomer : Type 0 where
  pub id : ℕ
  pub state : Band
  pub shopify_created_at : Option ℕ
  pub created_at : ℕ

-- A row of CustomerScore.
pub record ScoreRow : Type 0 where
  pub customer_id : ℕ
  pub score : ResolvedScore
  pub computed_at : ℕ

-- The payload of customer.state_changed, which is also what the log entry shows.
pub record StateChanged : Type 0 where
  pub customer_id : ℕ
  pub old_state : Band
  pub new_state : Band
  pub computed_at : ℕ
  pub score : ResolvedScore

-- The actor and the trigger of a log entry of a change: recompute writes the actor `drainer` and no trigger, and
-- decayRescore the actor that its caller names and the trigger `decay_sweep`.
pub data Origin : Type 0 where
  by_recompute : Origin
  by_sweep : (actor : ℕ) → Origin

pub data ScoreAudit : Type 0 where
  state_changed : Origin → StateChanged → ScoreAudit
  scoring_initialized : (customers_scored batches cohort_size : ℕ) → Bool → ScoreAudit

pub record ScoreDb : Type 0 where
  pub scoring_initialized_at : Option ℕ
  pub customers : List ScoredCustomer
  pub orders : List Order
  pub scores : List ScoreRow
  pub audit : List ScoreAudit
  pub outbox : List StateChanged

abbrev pub customer_id : ScoredCustomer → ℕ
customer_id c = c.id

abbrev pub score_key : ScoreRow → ℕ
score_key r = r.customer_id

abbrev pub cohort_key : CohortRow → ℕ
cohort_key r = r.customer_id

abbrev pub window_ms : ℕ
window_ms = 365 * 24 * 60 * 60 * 1000

-- The groups of `GROUP BY "customerId"`.
pub record Group : Type 0 where
  pub customer_id : ℕ
  pub latest : ℕ
  pub count : ℕ
  pub cents : ℕ

abbrev pub group_key : Group → ℕ
group_key g = g.customer_id

abbrev is_paid : FinancialStatus → Bool
is_paid FinancialStatus.paid = true
is_paid _ = false

-- COALESCE("shopifyProcessedAt", "placedAt")
abbrev pub order_time : Order → ℕ
order_time o = coalesce o.shopify_processed_at o.placed_at

-- The customer of an order that the WHERE clause keeps.
unfoldable pub counted_for : ℕ → Order → Option ℕ
counted_for now o =
    if is_paid o.financial_status && not o.is_test && leb (now - window_ms) o.placed_at
    then o.customer_id
    else none

abbrev pub join_group : Order → Group → Group
join_group o g = record g {
  latest = max g.latest (order_time o);
  count = g.count + 1;
  cents = g.cents + o.total_amount_cents;
}

abbrev new_group : ℕ → Order → Group
new_group x o = record {
  customer_id = x;
  latest = order_time o;
  count = 1;
  cents = o.total_amount_cents;
}

unfoldable pub add_order : Option ℕ → Order → List Group → List Group
unfolding upsert_by
add_order none o gs = gs
add_order (some x) o gs = upsert_by group_key x (join_group o) (new_group x o) gs

unfoldable pub group_orders : ℕ → List Order → List Group → List Group
group_orders now [] gs = gs
group_orders now (o ∷ os) gs = group_orders now os (add_order (counted_for now o) o gs)

abbrev pub cohort_row : ℕ → Group → CohortRow
cohort_row now g = record {
  customer_id = g.customer_id;
  r_days = (now - g.latest) / ms_per_day;
  f_count = g.count;
  m_cents = g.cents;
}

unfoldable pub read_cohort : ℕ → List Order → List CohortRow
read_cohort now orders = map (cohort_row now) (group_orders now orders [])

unfoldable pub upsert_score : ScoreRow → List ScoreRow → List ScoreRow
unfolding upsert_by
upsert_score row rows = upsert_by score_key row.customer_id (λ old. row) row rows

abbrev pub with_state : Band → ScoredCustomer → ScoredCustomer
with_state b c = record c { state = b }

-- What a pass reads once, before its first batch.
pub record Snapshot : Type 0 where
  pub now : ℕ
  pub cohort : List CohortRow
  pub insufficient : Bool
  pub boundaries : Option QuintileBoundaries

unfoldable pub take_snapshot : ℕ → ScoreDb → Snapshot
take_snapshot now db =
    let cohort = read_cohort now db.orders in
    let insufficient = ltb (length cohort) insufficient_cohort_threshold in
    record {
      now = now;
      cohort = cohort;
      insufficient = insufficient;
      boundaries = if insufficient then none else compute_quintile_boundaries cohort;
    }

abbrev reference_time : ScoredCustomer → ℕ
reference_time c = coalesce c.shopify_created_at c.created_at

unfoldable pub resolve_member : Snapshot → ScoredCustomer → ResolvedScore
resolve_member s c = elim (find_by cohort_key c.id s.cohort) [
  | none ↦ resolve_lurker (reference_time c) s.now s.insufficient
  | some row ↦ resolve_with_boundaries row s.boundaries s.insufficient
]

abbrev pub score_row : ℕ → ScoredCustomer → ResolvedScore → ScoreRow
score_row now c r = record { customer_id = c.id; score = r; computed_at = now }

abbrev pub same_band : Band → Band → Bool
same_band a b = band_code a == band_code b

-- The two writes of a scored customer: the score always, the state where it differs.
unfoldable pub write_score : ℕ → ScoredCustomer → ResolvedScore → ScoreDb → ScoreDb
unfolding upsert_score
write_score now c r db = record db {
  scores = upsert_score (score_row now c r) db.scores;
  customers =
      if same_band c.state r.new_state
      then db.customers
      else update_by customer_id c.id (with_state r.new_state) db.customers;
}

abbrev pub event_of : ℕ → ScoredCustomer → ResolvedScore → StateChanged
event_of now c r = record {
  customer_id = c.id;
  old_state = c.state;
  new_state = r.new_state;
  computed_at = now;
  score = r;
}

-- The log entry and the event of a transition.
unfoldable pub announce : Origin → StateChanged → ScoreDb → ScoreDb
announce o e db = record db {
  audit = db.audit ++ state_changed o e ∷ [];
  outbox = db.outbox ++ e ∷ [];
}
