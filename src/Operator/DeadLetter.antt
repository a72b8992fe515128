-- ===== src/Operator/DeadLetter.antt =====
-- Dead-lettering by force, and the replay that takes it back.
-- apps/cli/src/commands/dead-letter.ts, replay.ts
use win_back_ai.Operator.{
  event_id, operator_forced, system, done, force_dead_letter, Db, dead_lettered, summary_of,
  EventSummary, replay_event, replayed, force_entry,
}
use win_back_ai.Operator.Replay.{requeued, IsReplaced, replay_exact}
use win_back_ai.Outbox.{
  OutboxEvent, Units, mark_dead_lettered, as_dead_lettered, is_none, is_claimable,
}
use win_back_ai.Base.{
  ◌==◌, ℕ, List, find_by, update_by, ◌++◌, ◌≡◌, ◌≢◌, arith, find_by-update_by, some, true, false,
  ◌∙◌, refl, not, length, ◌+◌, ◌∷◌, [], inl, inr, ap, length-append,
}

module _ (now id : ℕ) (reason : Units) (e : OutboxEvent) where
  -- The event after forceDeadLetter.
  abbrev pub forced : OutboxEvent
  forced = as_dead_lettered now (operator_forced ++ reason) e

  as_dead_lettered-event_id :
      (a : OutboxEvent) → event_id (as_dead_lettered now (operator_forced ++ reason) a) ≡ event_id a
  unfolding as_dead_lettered
  as_dead_lettered-event_id a = ground arith

  abbrev dead_table : List OutboxEvent → List OutboxEvent
  dead_table es = update_by event_id id (as_dead_lettered now (operator_forced ++ reason)) es

  forced_found :
      (es : List OutboxEvent)
      → find_by event_id id es ≡ some e
      → find_by event_id id (dead_table es) ≡ some forced
  forced_found es h =
      find_by-update_by event_id id id (as_dead_lettered now (operator_forced ++ reason)) es
        as_dead_lettered-event_id
      ∙ (let q : (id == id) ≡ true = ground arith in rw q (rw h refl))

  forced_others :
      (es : List OutboxEvent) (x : ℕ)
      → x ≢ id
      → find_by event_id x (dead_table es) ≡ find_by event_id x es
  forced_others es x n =
      find_by-update_by event_id id x (as_dead_lettered now (operator_forced ++ reason)) es
        as_dead_lettered-event_id
      ∙ (let q : (id == x) ≡ false = ground arith in rw q refl)

  mark_found :
      (es : List OutboxEvent)
      → find_by event_id id es ≡ some e
      → mark_dead_lettered system now id (operator_forced ++ reason) es
        ≡ done (dead_table es, not (is_none e.dead_lettered_at))
  unfolding mark_dead_lettered
  mark_found es h = rw h refl

  requeued-forced :
      is_none e.dead_lettered_at ≡ true
      → (is_none forced.dead_lettered_at ≡ false)
        × ((requeued forced ≡ requeued e) × (forced.processed_at ≡ e.processed_at))
  unfolding as_dead_lettered
  requeued-forced h = rw h ((refl, (refl, refl)))

-- An event that is not dead-lettered can be dead-lettered by force, which closes it, and then
-- replayed: it comes back with zero attempts and no error, otherwise as it was, and the other
-- events are untouched. Each command logs one entry. It is open again exactly if it is not marked
-- as processed.
pub dead_letter_then_replay :
    (now actor id : ℕ) (reason why : Units) (db : Db) (e : OutboxEvent)
    → find_by event_id id db.events ≡ some e
    → is_none e.dead_lettered_at ≡ true
    → (dead : Db) × ((force_dead_letter now actor id reason db
          ≡ done (dead, dead_lettered (summary_of e)))
        × (((a : OutboxEvent) × ((find_by event_id id dead.events ≡ some a)
                × (is_claimable a ≡ false)))
            × ((back : Db) × ((s : EventSummary) × ((replay_event actor id why dead
                      ≡ done (back, replayed s))
                    × (IsReplaced id (requeued e) db.events back.events
                        × ((length back.log ≡ length db.log + 2)
                            × (is_claimable (requeued e) ≡ is_none e.processed_at))))))))
unfolding force_dead_letter is_claimable
dead_letter_then_replay now actor id reason why db e h alive =
    let es = dead_table now id reason e db.events in
    let dead : Db = record { events = es; log = db.log ++ force_entry actor reason e ∷ [] } in
    let here = forced_found now id reason e db.events h in
    let (shut, (same, processed)) = requeued-forced now id reason e alive in
    let (back, result) = replay_exact actor id why dead (forced now id reason e) here in
    elim result [
      | inl (q, r) ↦ absurd cc
      | inr (q, (r, (replaced, (log, claim)))) ↦ (
        dead,
        (
          rw (h, force_dead_letter) (rw (mark_found now id reason e db.events h) (rw alive refl)),
          (
            (forced now id reason e, (here, ground arith)),
            (
              back,
              (
                summary_of (forced now id reason e),
                (
                  r,
                  (
                    record {
                      own = replaced.own ∙ ap some same;
                      others =
                          λ x n. replaced.others x n ∙ forced_others now id reason e db.events x n;
                    },
                    (
                      omega (arith, log, length-append db.log (force_entry actor reason e ∷ [])),
                      ground arith,
                    ),
                  ),
                ),
              ),
            ),
          ),
        ),
      )
    ]
