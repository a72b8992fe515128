-- ===== src/Operator.antt =====
-- The operator's commands on the outbox: apps/cli/src/commands/replay.ts and dead-letter.ts. The
-- shop of the merchant, which is only copied to the log entry, is left out.
pub mod Replay
pub mod DeadLetter
use win_back_ai.Outbox.{
  OutboxEvent, Units, EventType, Result, event_id, done, and_then, mark_dead_lettered,
  requeue_dead_lettered, system,
}
use win_back_ai.Base.{none, ℕ, List, ◌∷◌, Bool, [], find_by, if◌then◌else◌, ◌++◌, some}

pub record EventSummary : Type 0 where
  pub id : ℕ
  pub merchant_id : ℕ
  pub event_type : EventType

pub data Action : Type 0 where
  outbox_replay : Action
  outbox_dead_letter_forced : Action

-- The row of AuditLog that a command appends.
pub record LogEntry : Type 0 where
  pub actor_id : ℕ
  pub action : Action
  pub summary : EventSummary
  pub reason : Units

pub record Db : Type 0 where
  pub events : List OutboxEvent
  pub log : List LogEntry

pub data ReplayResult : Type 0 where
  not_found : ReplayResult
  not_in_dlq : EventSummary → ReplayResult
  replayed : EventSummary → ReplayResult

pub data DeadLetterResult : Type 0 where
  not_found : DeadLetterResult
  already_dead_lettered : EventSummary → DeadLetterResult
  dead_lettered : EventSummary → DeadLetterResult

abbrev pub summary_of : OutboxEvent → EventSummary
summary_of e = record { id = e.id; merchant_id = e.merchant_id; event_type = e.event_type }

abbrev pub replay_entry : ℕ → Units → OutboxEvent → LogEntry
replay_entry actor reason e = record {
  actor_id = actor;
  action = outbox_replay;
  summary = summary_of e;
  reason = reason;
}

abbrev force_entry : ℕ → Units → OutboxEvent → LogEntry
force_entry actor reason e = record {
  actor_id = actor;
  action = outbox_dead_letter_forced;
  summary = summary_of e;
  reason = reason;
}

-- The transaction, once the event is found.
abbrev replay_found :
    ℕ → ℕ → Units → Db → OutboxEvent → List OutboxEvent × Bool → Result (Db × ReplayResult)
replay_found actor id reason db e (events, was_dead_lettered) =
    if was_dead_lettered
    then done (
      record { events = events; log = db.log ++ replay_entry actor reason e ∷ [] },
      replayed (summary_of e),
    )
    else done (record db { events = events }, not_in_dlq (summary_of e))

-- replayEvent
unfoldable pub replay_event : ℕ → ℕ → Units → Db → Result (Db × ReplayResult)
replay_event actor id reason db = elim (find_by event_id id db.events) [
  | none ↦ done (db, ReplayResult.not_found)
  | some e ↦
      and_then (requeue_dead_lettered system id db.events) (replay_found actor id reason db e)
]

-- "operator-forced: "
abbrev pub operator_forced : Units
operator_forced =
    111 ∷ 112 ∷ 101 ∷ 114 ∷ 97 ∷ 116 ∷ 111 ∷ 114 ∷ 45 ∷ 102 ∷ 111 ∷ 114 ∷ 99 ∷ 101 ∷ 100 ∷ 58 ∷ 32
    ∷ []

abbrev force_found :
    ℕ → ℕ → Units → Db → OutboxEvent → List OutboxEvent × Bool → Result (Db × DeadLetterResult)
force_found actor id reason db e (events, was_already) =
    if was_already
    then done (record db { events = events }, already_dead_lettered (summary_of e))
    else done (
      record { events = events; log = db.log ++ force_entry actor reason e ∷ [] },
      dead_lettered (summary_of e),
    )

-- forceDeadLetter
unfoldable pub force_dead_letter : ℕ → ℕ → ℕ → Units → Db → Result (Db × DeadLetterResult)
force_dead_letter now actor id reason db = elim (find_by event_id id db.events) [
  | none ↦ done (db, DeadLetterResult.not_found)
  | some e ↦
      and_then (mark_dead_lettered system now id (operator_forced ++ reason) db.events)
        (force_found actor id reason db e)
]
