-- ===== src/Examples/Events.antt =====
-- Outbox events, ticks of the drainer and operator commands over them.
use win_back_ai.Outbox.{
  OutboxEvent, EventType, merchant_installed, customer_created, done, is_claimable, system, is_none,
  claim_batch, scope_error,
}
use win_back_ai.Base.{
  ℕ, count_if, ◌+◌, [], none, ◌∷◌, ◌≤◌, arith, ◌≡◌, some, true, false, find_by, refl, List, ◌≢◌,
  ◌⊎◌, length,
}
use win_back_ai.Drainer.Bound.{Drained, TickEnv, run_ticks, dispatches, dispatch_bounded}
use win_back_ai.Drainer.Rows.{named, row_of}
use win_back_ai.Drainer.{
  mark_before_invoke, failed, app_error, Dispatcher, Failure, Tick, drain_row,
}
use win_back_ai.Operator.{
  Db, replay_event, not_in_dlq, summary_of, replayed, force_dead_letter, dead_lettered,
  EventSummary,
}
use win_back_ai.Drainer.Outcome.{IsFailed, failure_outcome}
use win_back_ai.Outbox.Claim.{IsBatch, claim_exact}
use win_back_ai.Operator.Replay.{IsReplaced, requeued, replay_exact}
use win_back_ai.Operator.DeadLetter.{dead_letter_then_replay}

abbrev event : ℕ → EventType → OutboxEvent
event id type = record {
  id = id;
  merchant_id = 9;
  event_type = type;
  created_at = 100 + id;
  processed_at = none;
  attempts = 0;
  last_error = none;
  dead_lettered_at = none;
  deferred_failed_at = none;
}

abbrev before : Drained
before = record { calls = []; events = event 1 merchant_installed ∷ event 2 customer_created ∷ [] }

-- A replica whose handlers fail with a retryable error.
abbrev failing : TickEnv
failing = record {
  dispatch = λ calls row. failed (app_error true []);
  locked = λ id. false;
  now = 500;
  batch_size = 100;
}

one_row : count_if (named 1) before.events ≤ 1
unfolding count_if
one_row = omega arith

dispatch_bounded_example :
    (e : Drained) × ((run_ticks (failing ∷ failing ∷ []) before ≡ done e)
      × ((dispatches 1 e ≤ dispatches 1 before + 10)
          × ((row : OutboxEvent)
              → row_of 1 before.events ≡ some row
              → (mark_before_invoke row.event_type ≡ true
                  → dispatches 1 e ≤ dispatches 1 before + 1)
                × (is_claimable row ≡ false → dispatches 1 e ≤ dispatches 1 before))))
dispatch_bounded_example = dispatch_bounded (failing ∷ failing ∷ []) before 1 one_row

claim_exact_example :
    ((system ≡ system)
      × ((rows : List OutboxEvent) × ((rest : List OutboxEvent) × ((claim_batch system
                  (λ id. false)
                  1
                  before.events
                ≡ done rows)
              × IsBatch (λ id. false) 1 before.events rows rest))))
    ⊎ ((system ≢ system) × (claim_batch system (λ id. false) 1 before.events ≡ scope_error))
claim_exact_example = claim_exact system (λ id. false) 1 before.events

-- The second event, open, and its handler's failure.
abbrev failure : Failure
failure = app_error true (70 ∷ [])

abbrev fails : Dispatcher
fails calls row = failed failure

second_found : row_of 2 before.events ≡ some (event 2 customer_created)
unfolding find_by
second_found = refl

second_open : is_claimable (event 2 customer_created) ≡ true
unfolding is_claimable
second_open = refl

abbrev tick : Tick
tick = record { events = before.events; calls = []; deferred = [] }

second_after : mark_before_invoke customer_created ≡ false
unfolding mark_before_invoke
second_after = refl

failure_outcome_example :
    (u : Tick) × ((drain_row fails 500 (event 2 customer_created) tick ≡ done u)
      × ((e : OutboxEvent) × ((row_of 2 u.events ≡ some e)
            × (IsFailed (event 2 customer_created) failure e
                × ((x : ℕ) → x ≢ 2 → row_of x u.events ≡ row_of x before.events)))))
failure_outcome_example =
    failure_outcome fails 500 (event 2 customer_created) tick failure second_found second_open
      second_after refl

-- A dead-lettered event that was processed before.
abbrev dead_event : OutboxEvent
dead_event = record (event 3 merchant_installed) {
  processed_at = some 400;
  attempts = 1;
  last_error = some (70 ∷ []);
  dead_lettered_at = some 450;
}

abbrev db : Db
db = record { events = dead_event ∷ []; log = [] }

dead_found : row_of 3 db.events ≡ some dead_event
unfolding find_by
dead_found = refl

replay_exact_example :
    (db' : Db) × (((is_none dead_event.dead_lettered_at ≡ true)
        × ((replay_event 8 3 [] db ≡ done (db', not_in_dlq (summary_of dead_event)))
            × (IsReplaced 3 dead_event db.events db'.events × (db'.log ≡ db.log))))
      ⊎ ((is_none dead_event.dead_lettered_at ≡ false)
          × ((replay_event 8 3 [] db ≡ done (db', replayed (summary_of dead_event)))
              × (IsReplaced 3 (requeued dead_event) db.events db'.events
                  × ((length db'.log ≡ length db.log + 1)
                      × (is_claimable (requeued dead_event) ≡ is_none dead_event.processed_at))))))
replay_exact_example = replay_exact 8 3 [] db dead_event dead_found

abbrev open_db : Db
open_db = record { events = before.events; log = [] }

dead_letter_then_replay_example :
    (dead : Db) × ((force_dead_letter 600 8 2 [] open_db
        ≡ done (dead, dead_lettered (summary_of (event 2 customer_created))))
      × (((a : OutboxEvent) × ((row_of 2 dead.events ≡ some a) × (is_claimable a ≡ false)))
          × ((back : Db) × ((s : EventSummary) × ((replay_event 8 2 [] dead
                    ≡ done (back, replayed s))
                  × (IsReplaced 2 (requeued (event 2 customer_created)) before.events back.events
                      × ((length back.log ≡ length open_db.log + 2)
                          × (is_claimable (requeued (event 2 customer_created)) ≡ true))))))))
dead_letter_then_replay_example =
    dead_letter_then_replay 600 8 2 [] [] open_db (event 2 customer_created) second_found refl
