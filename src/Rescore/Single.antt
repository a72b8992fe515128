-- ===== src/Rescore/Single.antt =====
-- recompute: the score of one customer, against the cohort of all, and what it announces.
use mathlib.Core.Option
use mathlib.Core.Path.{subst}
use mathlib.Core.List.{append-nil}
use win_back_ai.Rescore.{
  ScoredCustomer, ScoreDb, customer_id, resolve_member, take_snapshot, announce, same_band,
  cohort_key, read_cohort, CohortRow, write_score, is_none, event_of, resolve_lurker,
  reference_time, state_changed, by_recompute, ResolvedScore, resolve_scorable_customer,
  resolve_with_boundaries, score_key,
}
use win_back_ai.Scoring.{compute_quintile_boundaries}
use win_back_ai.Scoring.Resolve.{is_insufficient, single_as_bulk}
use win_back_ai.Base.{
  ℕ, not, find_by, ◌≡◌, some, Bool, Option, if◌then◌else◌, ap, ◌∙◌, true, false, none, refl, sym,
  List, Bool-cases, inl, inr, has_key, length, find_by_key, ◌++◌, ◌==◌, map, [], ◌∷◌,
}
use win_back_ai.Rescore.Passes.{
  RecomputeResult, recompute, applied, branch_of, resolve_single, recompute_writes,
}
use win_back_ai.Rescore.Decay.{is_initialized, announced, change_of}
use win_back_ai.Rescore.Scored.{find_by-write_score, find_by-scores}

-- The boundaries of a snapshot.
boundaries_of :
    (cohort : List CohortRow)
    → (if is_insufficient cohort then none else compute_quintile_boundaries cohort)
      ≡ compute_quintile_boundaries cohort
unfolding compute_quintile_boundaries
boundaries_of cohort = elim (Bool-cases (is_insufficient cohort)) [
  | inl e ↦ rw e refl
  | inr e ↦ rw e refl
]

-- One customer resolves as a member of the snapshot.
resolve_single-resolve_member :
    (now : ℕ) (db : ScoreDb) (c : ScoredCustomer)
    → resolve_single now (read_cohort now db.orders) c
      ≡ some (resolve_member (take_snapshot now db) c)
unfolding resolve_member take_snapshot
resolve_single-resolve_member now db c = go (find_by cohort_key c.id (read_cohort now db.orders))
  where
    go :
        (o : Option CohortRow)
        → elim o [
          | none ↦
              some (
                resolve_lurker (reference_time c) now (is_insufficient (read_cohort now db.orders)))
          | some row ↦
              resolve_scorable_customer row
                (read_cohort now db.orders)
                (is_insufficient (read_cohort now db.orders))
        ]
          ≡ some (elim o [
            | none ↦
                resolve_lurker (reference_time c) now (is_insufficient (read_cohort now db.orders))
            | some row ↦
                resolve_with_boundaries row
                  (if is_insufficient (read_cohort now db.orders)
                    then none
                    else compute_quintile_boundaries (read_cohort now db.orders))
                  (is_insufficient (read_cohort now db.orders))
          ])
    go none = refl
    go (some row) =
        (single_as_bulk row (read_cohort now db.orders)).0
        ∙ ap
            (λ b.
              some (resolve_with_boundaries row b (is_insufficient (read_cohort now db.orders))))
            (sym (boundaries_of (read_cohort now db.orders)))

-- What recompute answers for a customer.
abbrev pub answer_for : ℕ → ScoreDb → ScoredCustomer → RecomputeResult
answer_for now db c =
    let r = resolve_member (take_snapshot now db) c in
    applied c.state r.new_state (not (same_band c.state r.new_state))
      (not (has_key score_key c.id db.scores))
      (branch_of (find_by cohort_key c.id (take_snapshot now db).cohort))
      (length (take_snapshot now db).cohort)

-- What recompute leaves of the tables for the customer `c`: its state and its score are those that the cohort gives,
-- every other customer and score stands, and the change of the band, if there is one and the scoring is
-- initialised, is in the outbox and in the log, without a trigger.
pub record IsRecomputed (now : ℕ) (c : ScoredCustomer) (db db' : ScoreDb) : Type 0 where
  pub customers :
      (y : ℕ)
      → find_by customer_id y db'.customers ≡ (
          if c.id == y
          then some (record c { state = (resolve_member (take_snapshot now db) c).new_state })
          else find_by customer_id y db.customers)
  pub scores :
      (y : ℕ)
      → find_by score_key y db'.scores ≡ (
          if c.id == y
          then some (record {
            customer_id = c.id;
            score = resolve_member (take_snapshot now db) c;
            computed_at = now;
          })
          else find_by score_key y db.scores)
  pub outbox :
      db'.outbox ≡ db.outbox ++ announced (is_initialized db) (change_of (take_snapshot now db) c)
  pub audit :
      db'.audit
      ≡ db.audit
        ++ map
            (state_changed by_recompute)
            (announced (is_initialized db) (change_of (take_snapshot now db) c))
  pub orders : db'.orders ≡ db.orders
  pub initialized : db'.scoring_initialized_at ≡ db.scoring_initialized_at

module _ (now : ℕ) (c : ScoredCustomer) (db : ScoreDb) where
  new_score : ResolvedScore
  new_score = resolve_member (take_snapshot now db) c

  written : ScoreDb
  written = write_score now c new_score db

  -- The tables that an announcement leaves alone.
  announced_after : Bool → Option ℕ → ScoreDb
  announced_after same o =
      if same
      then written
      else if is_none o
      then written
      else announce by_recompute (event_of now c new_score) written

  same_customers :
      (same : Bool) (o : Option ℕ)
      → ((announced_after same o).customers ≡ written.customers)
        × ((announced_after same o).scores ≡ written.scores)
        × ((announced_after same o).orders ≡ db.orders)
        × ((announced_after same o).scoring_initialized_at ≡ db.scoring_initialized_at)
  unfolding announced_after announce written write_score
  same_customers true o = (refl, refl, refl, refl)
  same_customers false none = (refl, refl, refl, refl)
  same_customers false (some t) = (refl, refl, refl, refl)

  new_entries :
      (same : Bool) (o : Option ℕ)
      → ((announced_after same o).outbox
          ≡ db.outbox
            ++ announced (not (is_none o)) (if same then [] else event_of now c new_score ∷ []))
        × ((announced_after same o).audit
            ≡ db.audit
              ++ map (state_changed by_recompute) (
                  announced (not (is_none o)) (if same then [] else event_of now c new_score ∷ [])))
  unfolding announced_after announce written write_score
  new_entries true none = (sym (append-nil db.outbox), sym (append-nil db.audit))
  new_entries true (some t) = (sym (append-nil db.outbox), sym (append-nil db.audit))
  new_entries false none = (sym (append-nil db.outbox), sym (append-nil db.audit))
  new_entries false (some t) = (refl, refl)

  recomputed :
      find_by customer_id c.id db.customers ≡ some c
      → IsRecomputed now c db (recompute_writes now c new_score db)
  unfolding announced_after written new_score take_snapshot
  recomputed e = record {
    customers = λ y.
        ap (find_by customer_id y) (same_customers same db.scoring_initialized_at).0
        ∙ find_by-write_score now y c new_score db e;
    scores = λ y.
        ap (find_by score_key y) (same_customers same db.scoring_initialized_at).1
        ∙ find_by-scores now y c new_score db;
    outbox = (new_entries same db.scoring_initialized_at).0;
    audit = (new_entries same db.scoring_initialized_at).1;
    orders = (same_customers same db.scoring_initialized_at).2;
    initialized = (same_customers same db.scoring_initialized_at).3;
  }
    where
      same : Bool
      same = same_band c.state new_score.new_state

-- recompute of a customer that exists never fails. It gives the customer the state and the score that the cohort gives
-- it, and leaves every other customer and score as it was. The change of the band, if there is one, is in the outbox
-- and in the log when the scoring is initialised, and otherwise nothing is. It answers with the two states and
-- whether they differ, whether the score is new, the branch and the size of the cohort.
pub recompute_exact :
    (now x : ℕ) (db : ScoreDb) (c : ScoredCustomer)
    → find_by customer_id x db.customers ≡ some c
    → (db' : ScoreDb) × (recompute now x db ≡ some (db', answer_for now db c))
      × IsRecomputed now c db db'
unfolding recompute new_score take_snapshot
recompute_exact now x db c e = (
  recompute_writes now c (new_score now c db) db,
  rw (e, recompute)
      (ap
        (Option.map (λ r. (
          recompute_writes now c r db,
          applied c.state r.new_state (not (same_band c.state r.new_state))
              (not (has_key score_key c.id db.scores))
              (branch_of (find_by cohort_key c.id (read_cohort now db.orders)))
              (length (read_cohort now db.orders)),
        )))
        (resolve_single-resolve_member now db c)),
  recomputed now c db (
      subst (λ k. find_by customer_id k db.customers ≡ some c)
        (sym (find_by_key customer_id x db.customers {a = c} e)) e),
)
