-- ===== src/Drainer/Rows.antt =====
-- How the operations of the outbox and the rows of Phase 1 change one row of the table.
-- packages/db/src/repositories/outbox.repository.ts, apps/drainer/src/drainer.ts
use Prim.Native.Nat.{max}
use win_back_ai.Outbox.{
  mark_failed, mark_dead_lettered, mark_processed, OutboxEvent, event_id, is_claimable,
  as_processed, as_failed, as_dead_lettered,
}
use win_back_ai.Base.{
  Option, ℕ, Bool, List, some, count_if, find_by, if◌then◌else◌, ◌==◌, ◌≡◌, update_by, ◌+◌, mapped,
  true, find_by-update_by, ◌++◌, ◌∷◌, [], arith, has_key, Bool-cases, ◌-◌, inl, none, inr, refl,
}
use win_back_ai.Drainer.{
  drain_row, Dispatcher, Tick, done, mark_before_invoke, Reply, attempt, mark_processed, failed,
  on_failure, mark_failed, should_dead_letter, mark_dead_lettered, message_of, handled, called,
  max_outbox_attempts, deferring, system,
}

abbrev pub named : ℕ → OutboxEvent → Bool
named x e = e.id == x

-- How many more times `dispatch` may be called on a row.
abbrev pub budget : Option OutboxEvent → ℕ
budget none = 0
budget (some e) =
    if is_claimable e
    then if mark_before_invoke e.event_type then 1 else max 1 (max_outbox_attempts - e.attempts)
    else 0

abbrev pub row_of : ℕ → List OutboxEvent → Option OutboxEvent
row_of x es = find_by event_id x es

abbrev pub weight : ℕ → Tick → ℕ
weight x t = count_if (named x) t.calls + count_if (named x) t.deferred + budget (row_of x t.events)

-- The outcome of an update by id.
updated :
    (x id : ℕ) (f : OutboxEvent → OutboxEvent) (es : List OutboxEvent)
    → ((e : OutboxEvent) → event_id (f e) ≡ event_id e)
    → row_of x (update_by event_id id f es)
      ≡ (if id == x then mapped f (row_of x es) else row_of x es)
updated x id f es h = find_by-update_by event_id id x f es h

-- The change that a row of Phase 1 makes to its event, by the reply of `dispatch`.
abbrev pub replied : ℕ → OutboxEvent → Reply → OutboxEvent → OutboxEvent
replied now row handled = as_processed now
replied now row (failed err) =
    if should_dead_letter row err
    then as_dead_lettered now (message_of err)
    else as_failed (message_of err)

abbrev pub change : Dispatcher → ℕ → OutboxEvent → Tick → OutboxEvent → OutboxEvent
change dispatch now row t =
    if mark_before_invoke row.event_type
    then as_processed now
    else replied now row (dispatch t.calls row)

-- The tick after a row.
abbrev pub after_row : Dispatcher → ℕ → OutboxEvent → Tick → Tick
after_row dispatch now row t = record {
  events = update_by event_id row.id (change dispatch now row t) t.events;
  calls = if mark_before_invoke row.event_type then t.calls else t.calls ++ row ∷ [];
  deferred = if mark_before_invoke row.event_type then t.deferred ++ row ∷ [] else t.deferred;
}

mark_processed_lem :
    (now id : ℕ) (events : List OutboxEvent)
    → has_key event_id id events ≡ true
    → mark_processed system now id events ≡ done (update_by event_id id (as_processed now) events)
unfolding mark_processed
mark_processed_lem now id events h = rw h refl

attempt_lem :
    (now : ℕ) (row : OutboxEvent) (reply : Reply) (t : Tick)
    → has_key event_id row.id t.events ≡ true
    → attempt now row reply t
      ≡ done (record t { events = update_by event_id row.id (replied now row reply) t.events })
unfolding attempt on_failure mark_failed mark_dead_lettered
attempt_lem now row handled t h = rw (mark_processed_lem now row.id t.events h, attempt) refl
attempt_lem now row (failed err) t h = elim (Bool-cases (should_dead_letter row err)) [
  | inl e ↦ rw e refl
  | inr e ↦ rw e (rw h refl)
]

pub drain_row_lem :
    (dispatch : Dispatcher) (now : ℕ) (row : OutboxEvent) (t : Tick)
    → has_key event_id row.id t.events ≡ true
    → drain_row dispatch now row t ≡ done (after_row dispatch now row t)
unfolding drain_row mark_processed called deferring
drain_row_lem dispatch now row t h = elim (Bool-cases (mark_before_invoke row.event_type)) [
  | inl e ↦ rw e (rw h refl)
  | inr e ↦ rw e (attempt_lem now row (dispatch t.calls row) (called row t) h)
]

pub change-event_id :
    (dispatch : Dispatcher) (now : ℕ) (row : OutboxEvent) (t : Tick) (e : OutboxEvent)
    → event_id (change dispatch now row t e) ≡ event_id e
unfolding as_processed as_failed as_dead_lettered
change-event_id dispatch now row t e = ground arith
