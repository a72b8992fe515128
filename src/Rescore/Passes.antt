-- ===== src/Rescore/Passes.antt =====
-- The passes of packages/db/src/services/customer-score.service.ts: recompute for one customer,
-- bulkRescore and decayRescore by pages of customers.
use mathlib.Core.Option
use win_back_ai.Base.{
  ℕ, Bool, List, Option, false, find_by, ltb, none, not, some, suc, take, true, ◌+◌, ◌∷◌, [],
  if◌then◌else◌, length, zero, ◌++◌, ◌||◌, last_key, rest_from, has_key,
}
use win_back_ai.Scoring.{resolve_scorable_customer}
use win_back_ai.Rescore.{
  ScoreDb, ScoredCustomer, Snapshot, CohortRow, ResolvedScore, resolve_member, take_snapshot,
  write_score, customer_id, is_none, by_sweep, by_recompute, insufficient_cohort_threshold,
  read_cohort, same_band, scoring_initialized, announce, cohort_key, event_of, resolve_lurker,
  reference_time, StateChanged, score_key,
}
use win_back_ai.Store.{Band}

-- Where a pass stands: the tables and its counters of transitions.
pub record Pass : Type 0 where
  pub db : ScoreDb
  pub transitions : ℕ
  pub emitted : ℕ

-- The counters of the loop over the pages.
pub record Totals : Type 0 where
  pub customers_seen : ℕ
  pub batches : ℕ

-- One customer of bulkRescore.
unfoldable pub bulk_step : Snapshot → ScoredCustomer → Pass → Pass
bulk_step s c p = record p { db = write_score s.now c (resolve_member s c) p.db }

-- What decayRescore does with a customer whose rows `db'` has: `same` when the band did not change.
unfoldable pub settle : ℕ → Bool → Bool → StateChanged → ScoreDb → Pass → Pass
unfolding announce
settle actor same emit e db' p =
    if same
    then record p { db = db' }
    else if not emit
    then record p { db = db'; transitions = p.transitions + 1 }
    else record p {
      db = announce (by_sweep actor) e db';
      transitions = p.transitions + 1;
      emitted = p.emitted + 1;
    }

-- One customer of decayRescore.
unfoldable pub decay_step : ℕ → Bool → Snapshot → ScoredCustomer → Pass → Pass
decay_step actor emit s c p =
    let r = resolve_member s c in
    settle actor (same_band c.state r.new_state) emit (event_of s.now c r)
      (write_score s.now c r p.db) p

unfoldable pub run_rows : (ScoredCustomer → Pass → Pass) → List ScoredCustomer → Pass → Pass
run_rows step [] p = p
run_rows step (c ∷ cs) p = run_rows step cs (step c p)

-- `findMany`: the first rows in the order of their ids that pass the filter. With a cursor they start at the cursor's
-- id, and `skip: 1` leaves out the first of them, whichever it is: the cursor's own row is among them only if it
-- still passes the filter. No pass deletes a row, so that the cursor's row is there.
unfoldable pub page :
    (ScoredCustomer → Bool) → ℕ → Option ℕ → List ScoredCustomer → List ScoredCustomer
unfolding rest_from
page keep n cursor t = take n (rest_from customer_id keep cursor t)

-- `customers.at(-1)?.id`
abbrev pub last_id : List ScoredCustomer → Option ℕ
last_id cs = last_key customer_id cs

unfoldable pub is_final : ℕ → List ScoredCustomer → Bool
is_final n rows = ltb (length rows) n || is_none (last_id rows)

abbrev pub end_batch : List ScoredCustomer → Totals → Totals
end_batch rows k = record {
  customers_seen = k.customers_seen + length rows;
  batches = k.batches + 1;
}

-- The `while (!done)` of both passes; `none` is running out of fuel.
unfoldable pub run_pages :
    (ScoredCustomer → Bool)
    → ℕ
    → (ScoredCustomer → Pass → Pass)
    → ℕ
    → Option ℕ
    → Totals
    → Pass
    → Option (Totals × Pass)
run_pages keep n step zero cursor k p = none
run_pages keep n step (suc fuel) cursor k p =
    let rows = page keep n cursor p.db.customers in
    elim (is_final n rows) [
      | true ↦ some (end_batch rows k, run_rows step rows p)
      | false ↦ run_pages keep n step fuel (last_id rows) (end_batch rows k) (run_rows step rows p)
    ]

abbrev pub begin : ScoreDb → Pass
begin db = record { db = db; transitions = 0; emitted = 0 }

abbrev pub no_totals : Totals
no_totals = record { customers_seen = 0; batches = 0 }

-- One round for each customer, and one that finds nothing left.
abbrev pub enough_fuel : ScoreDb → ℕ
enough_fuel db = suc (length db.customers)

abbrev pub everyone : ScoredCustomer → Bool
everyone c = true

-- The end of bulkRescore: the scoring is initialised, with a log entry.
abbrev pub finish_bulk : Snapshot → Totals × Pass → Totals × Pass
finish_bulk s (k, p) = (
  k,
  record p {
    db = record p.db {
      scoring_initialized_at = some s.now;
      audit =
          p.db.audit
          ++ scoring_initialized k.customers_seen k.batches (length s.cohort) s.insufficient ∷ [];
    };
  },
)

-- bulkRescore
unfoldable pub bulk_rescore : ℕ → ℕ → ScoreDb → Option (Totals × Pass)
bulk_rescore now batch_size db =
    let s = take_snapshot now db in
    Option.map (finish_bulk s)
      (run_pages everyone batch_size (bulk_step s) (enough_fuel db) none no_totals (begin db))

-- DECAY_WORKING_SET_STATES
abbrev pub decays : Band → Bool
decays Band.lost = false
decays Band.insufficient_data = false
decays _ = true

abbrev pub in_working_set : ScoredCustomer → Bool
in_working_set c = decays c.state

-- decayRescore, for the actor that its caller names
unfoldable pub decay_rescore : (actor now batch_size : ℕ) → ScoreDb → Option (Totals × Pass)
decay_rescore actor now batch_size db =
    run_pages in_working_set batch_size
      (decay_step actor (not (is_none db.scoring_initialized_at)) (take_snapshot now db))
      (enough_fuel db) none no_totals (begin db)

-- recompute's result, with the branch taken.
pub data Branch : Type 0 where
  scorable : Branch
  lurker : Branch

pub data RecomputeResult : Type 0 where
  customer_not_found : RecomputeResult
  applied :
      (previous_state new_state : Band)
      → (state_has_changed is_new_score : Bool) → Branch
      → (cohort_size : ℕ) → RecomputeResult

-- The score of recompute: `none` is the error of computeQuintileBoundaries.
abbrev pub resolve_single : ℕ → List CohortRow → ScoredCustomer → Option ResolvedScore
resolve_single now cohort c =
    let insufficient = ltb (length cohort) insufficient_cohort_threshold in
    elim (find_by cohort_key c.id cohort) [
      | none ↦ some (resolve_lurker (reference_time c) now insufficient)
      | some row ↦ resolve_scorable_customer row cohort insufficient
    ]

abbrev pub branch_of : Option CohortRow → Branch
branch_of none = lurker
branch_of (some row) = scorable

abbrev pub recompute_writes : ℕ → ScoredCustomer → ResolvedScore → ScoreDb → ScoreDb
recompute_writes now c r db =
    let db' = write_score now c r db in
    if same_band c.state r.new_state
    then db'
    else if is_none db.scoring_initialized_at
    then db'
    else announce by_recompute (event_of now c r) db'

-- recompute, within the caller's transaction
unfoldable pub recompute : ℕ → ℕ → ScoreDb → Option (ScoreDb × RecomputeResult)
recompute now id db = elim (find_by customer_id id db.customers) [
  | none ↦ some (db, customer_not_found)
  | some c ↦
      (let cohort = read_cohort now db.orders in
        Option.map
          (λ r. (
            recompute_writes now c r db,
            applied c.state r.new_state (not (same_band c.state r.new_state))
                (not (has_key score_key c.id db.scores))
                (branch_of (find_by cohort_key c.id cohort)) (length cohort),
          ))
          (resolve_single now cohort c))
]
