-- ===== src/Operator/Replay.antt =====
-- What a replay does to an event. apps/cli/src/commands/replay.ts
use mathlib.Core.Path.{subst}
use win_back_ai.Outbox.{
  OutboxEvent, Units, requeue_dead_lettered, as_requeued, is_claimable, is_none,
}
use win_back_ai.Base.{
  ℕ, List, none, find_by, ◌≡◌, arith, if◌then◌else◌, some, update_by, ◌≢◌, find_by-update_by, refl,
  true, ◌∙◌, ◌==◌, false, ◌⊎◌, length, ◌+◌, Bool-cases, inl, inr, ◌++◌, ◌∷◌, [], length-append, not,
}
use win_back_ai.Operator.{
  replay_event, Db, event_id, done, not_in_dlq, summary_of, replayed, replay_entry, system,
}

as_requeued-event_id : (e : OutboxEvent) → event_id (as_requeued e) ≡ event_id e
unfolding as_requeued
as_requeued-event_id e = ground arith

-- How a dead-lettered event stands after its replay.
abbrev pub requeued : OutboxEvent → OutboxEvent
requeued e = record e { dead_lettered_at = none; attempts = 0; last_error = none }

as_requeued_lem :
    (e : OutboxEvent) → as_requeued e ≡ (if is_none e.dead_lettered_at then e else requeued e)
unfolding as_requeued
as_requeued_lem e = refl

-- The event `id` is `e'` now, and the other events are as they were.
pub record IsReplaced (id : ℕ) (e' : OutboxEvent) (before after : List OutboxEvent) : Type 0 where
  pub own : find_by event_id id after ≡ some e'
  pub others : (x : ℕ) → x ≢ id → find_by event_id x after ≡ find_by event_id x before

replaced :
    (id : ℕ) (e : OutboxEvent) (es : List OutboxEvent)
    → find_by event_id id es ≡ some e
    → IsReplaced id (as_requeued e) es (update_by event_id id as_requeued es)
replaced id e es h = record {
  own =
      find_by-update_by event_id id id as_requeued es as_requeued-event_id
      ∙ (let q : (id == id) ≡ true = ground arith in rw q (rw h refl));
  others = λ x n.
      find_by-update_by event_id id x as_requeued es as_requeued-event_id
      ∙ (let q : (id == x) ≡ false = ground arith in rw q refl);
}

requeue_found :
    (id : ℕ) (e : OutboxEvent) (es : List OutboxEvent)
    → find_by event_id id es ≡ some e
    → requeue_dead_lettered system id es
      ≡ done (update_by event_id id as_requeued es, not (is_none e.dead_lettered_at))
unfolding requeue_dead_lettered
requeue_found id e es h = rw h refl

-- replayEvent on an event that exists: one that is not dead-lettered is reported as such, and
-- neither the events nor the log change; a dead-lettered one gets zero attempts and no error, the
-- other events stay, and one entry is logged. A replayed event can be claimed again exactly if it
-- is not marked as processed.
pub replay_exact :
    (actor id : ℕ) (reason : Units) (db : Db) (e : OutboxEvent)
    → find_by event_id id db.events ≡ some e
    → (db' : Db) × (((is_none e.dead_lettered_at ≡ true)
          × ((replay_event actor id reason db ≡ done (db', not_in_dlq (summary_of e)))
              × (IsReplaced id e db.events db'.events × (db'.log ≡ db.log))))
        ⊎ ((is_none e.dead_lettered_at ≡ false)
            × ((replay_event actor id reason db ≡ done (db', replayed (summary_of e)))
                × (IsReplaced id (requeued e) db.events db'.events
                    × ((length db'.log ≡ length db.log + 1)
                        × (is_claimable (requeued e) ≡ is_none e.processed_at))))))
unfolding replay_event is_claimable
replay_exact actor id reason db e h = elim (Bool-cases (is_none e.dead_lettered_at)) [
  | inl q ↦ (
    record db { events = update_by event_id id as_requeued db.events },
    inl (
      q,
      (
        rw (h, replay_event) (rw (requeue_found id e db.events h) (rw q refl)),
        (
          subst (λ y. IsReplaced id y db.events (update_by event_id id as_requeued db.events))
              (as_requeued_lem e ∙ rw q refl) (replaced id e db.events h),
          refl,
        ),
      ),
    ),
  )
  | inr q ↦ (
    record {
      events = update_by event_id id as_requeued db.events;
      log = db.log ++ replay_entry actor reason e ∷ [];
    },
    inr (
      q,
      (
        rw (h, replay_event) (rw (requeue_found id e db.events h) (rw q refl)),
        (
          subst (λ y. IsReplaced id y db.events (update_by event_id id as_requeued db.events))
              (as_requeued_lem e ∙ rw q refl) (replaced id e db.events h),
          (length-append db.log (replay_entry actor reason e ∷ []), ground arith),
        ),
      ),
    ),
  )
]
