-- ===== src/Drainer.antt =====
-- The drainer tick: apps/drainer/src/{drainer,ordering,dispatch}.ts, with isRetryable of
-- packages/errors/src/classify.ts. The handlers are not modelled: `Dispatcher` is the tick's
-- injectable `dispatch`, which may answer each call differently, since it sees the calls made so
-- far. A handler's own writes to other tables are not part of the state, and neither is the
-- deletion of a merchant's events by the handler of gdpr.shop_redacted.
pub mod Rows
pub mod Budget
pub mod Bounded
pub mod Ticks
pub mod Bound
pub mod Outcome
use win_back_ai.Outbox.{
  OutboxEvent, EventType, Result, Units, and_then, done, other, claim_batch, gdpr_shop_redacted,
  mark_deferred_failed, mark_processed, merchant_installed, scope_error, mark_dead_lettered,
  merchant_uninstalled, record_not_found, system, mark_failed, max_outbox_attempts,
  merchant_needs_reauth, merchant_shop_details_fetched, merchant_backfill_completed,
  merchant_scopes_updated, customer_created, customer_updated, customer_deleted, customer_redacted,
  customer_state_changed, order_placed, order_updated, order_cancelled, order_refunded,
  product_created, product_updated, product_deleted, gdpr_customer_data_requested,
  gdpr_customer_redacted,
}
use win_back_ai.Base.{
  Bool, List, false, ◌++◌, [], not, true, ℕ, ◌∷◌, if◌then◌else◌, ◌==◌, ◌||◌, leb, length, ◌+◌,
}

-- A thrown value: an AppError with its `retryable`, or anything else; and its message.
pub data Failure : Type 0 where
  app_error : Bool → Units → Failure
  unknown_error : Units → Failure

unfoldable pub is_retryable : Failure → Bool
is_retryable (app_error retryable message) = retryable
is_retryable (unknown_error message) = true

unfoldable pub message_of : Failure → Units
message_of (app_error retryable message) = message
message_of (unknown_error message) = message

pub data Reply : Type 0 where
  handled : Reply
  failed : Failure → Reply

-- What a call of `dispatch` on a row answers after the given calls.
abbrev pub Dispatcher : Type 0
Dispatcher = List OutboxEvent → OutboxEvent → Reply

-- MARK_BEFORE_INVOKE_EVENTS
unfoldable pub mark_before_invoke : EventType → Bool
mark_before_invoke gdpr_shop_redacted = true
mark_before_invoke merchant_installed = true
mark_before_invoke _ = false

-- The handlers of apps/drainer/src/handlers.
pub data Handler : Type 0 where
  on_merchant_installed : Handler
  on_merchant_uninstalled : Handler
  on_customer_created : Handler
  on_customer_updated : Handler
  on_customer_deleted : Handler
  on_customer_state_changed : Handler
  on_order_event : Handler
  on_customer_data_requested : Handler
  on_customer_redacted : Handler
  on_shop_redacted : Handler

-- The branches of dispatchEvent: a handler, a no-op that only logs, or an unknown type.
pub data Route : Type 0 where
  to_handler : Handler → Route
  noop : Route
  unknown_type : Route

unfoldable pub route : EventType → Route
route merchant_installed = to_handler on_merchant_installed
route merchant_uninstalled = to_handler on_merchant_uninstalled
route merchant_needs_reauth = noop
route merchant_shop_details_fetched = noop
route merchant_backfill_completed = noop
route merchant_scopes_updated = noop
route customer_created = to_handler on_customer_created
route customer_updated = to_handler on_customer_updated
route customer_deleted = to_handler on_customer_deleted
route customer_redacted = noop
route customer_state_changed = to_handler on_customer_state_changed
route order_placed = to_handler on_order_event
route order_updated = to_handler on_order_event
route order_cancelled = noop
route order_refunded = noop
route product_created = noop
route product_updated = noop
route product_deleted = noop
route gdpr_customer_data_requested = to_handler on_customer_data_requested
route gdpr_customer_redacted = to_handler on_customer_redacted
route gdpr_shop_redacted = to_handler on_shop_redacted
route (other name) = unknown_type

-- The `ValidationError` of an unknown type is not retryable. `handlers` stands for the handlers.
unfoldable pub dispatch_event : (Handler → Dispatcher) → Dispatcher
unfolding route
dispatch_event handlers calls row = elim (route row.event_type) [
  | to_handler h ↦ handlers h calls row
  | noop ↦ handled
  | unknown_type ↦ failed (app_error false [])
]

-- The state of a tick: the table, the calls of `dispatch` in their order, and deferredRows.
pub record Tick : Type 0 where
  pub events : List OutboxEvent
  pub calls : List OutboxEvent
  pub deferred : List OutboxEvent

abbrev with_events : Tick → Result (List OutboxEvent) → Result Tick
with_events t r = and_then r (λ events. done (record t { events = events }))

unfoldable pub should_dead_letter : OutboxEvent → Failure → Bool
unfolding is_retryable
should_dead_letter row err = not (is_retryable err) || leb max_outbox_attempts (row.attempts + 1)

-- The catch block of Phase 1.
unfoldable pub on_failure : ℕ → OutboxEvent → Failure → Tick → Result Tick
unfolding should_dead_letter message_of
on_failure now row err t =
    if should_dead_letter row err
    then and_then (mark_dead_lettered system now row.id (message_of err) t.events)
        (λ r. done (record t { events = r.0 }))
    else with_events t (mark_failed system row.id (message_of err) t.events)

-- The try block: `dispatch`, then markProcessed, whose error the same catch takes. An error of the
-- database is no AppError; its message is left empty here.
unfoldable pub attempt : ℕ → OutboxEvent → Reply → Tick → Result Tick
unfolding on_failure
attempt now row (failed err) t = on_failure now row err t
attempt now row handled t = elim (mark_processed system now row.id t.events) [
  | done events ↦ done (record t { events = events })
  | scope_error ↦ on_failure now row (unknown_error []) t
  | record_not_found ↦ on_failure now row (unknown_error []) t
]

unfoldable pub called : OutboxEvent → Tick → Tick
called row t = record t { calls = t.calls ++ row ∷ [] }

unfoldable pub deferring : OutboxEvent → Tick → Tick
deferring row t = record t { deferred = t.deferred ++ row ∷ [] }

-- One row of Phase 1.
unfoldable pub drain_row : Dispatcher → ℕ → OutboxEvent → Tick → Result Tick
unfolding called deferring attempt
drain_row dispatch now row t =
    if mark_before_invoke row.event_type
    then with_events (deferring row t) (mark_processed system now row.id t.events)
    else attempt now row (dispatch t.calls row) (called row t)

unfoldable pub drain_rows : Dispatcher → ℕ → List OutboxEvent → Tick → Result Tick
unfolding drain_row
drain_rows dispatch now [] t = done t
drain_rows dispatch now (row ∷ rows) t =
    and_then (drain_row dispatch now row t) (drain_rows dispatch now rows)

-- What is left of the table when markDeferredFailed throws, which is logged only.
abbrev or_same : List OutboxEvent → Result (List OutboxEvent) → List OutboxEvent
or_same events (done e) = e
or_same events scope_error = events
or_same events record_not_found = events

unfoldable pub deferred_reply : ℕ → OutboxEvent → Reply → List OutboxEvent → List OutboxEvent
deferred_reply now row handled events = events
deferred_reply now row (failed err) events =
    or_same events (mark_deferred_failed system now row.id (message_of err) events)

-- Phase 2, after the transaction of Phase 1 has committed.
unfoldable pub run_deferred : Dispatcher → ℕ → List OutboxEvent → Tick → Tick
unfolding deferred_reply called
run_deferred dispatch now [] t = t
run_deferred dispatch now (row ∷ rows) t = run_deferred dispatch now rows (record t {
  calls = t.calls ++ row ∷ [];
  events = deferred_reply now row (dispatch t.calls row) t.events;
})

pub record TickResult : Type 0 where
  pub after : Tick
  pub claimed : ℕ
  pub has_more : Bool

abbrev start : List OutboxEvent → List OutboxEvent → Tick
start events calls = record { events = events; calls = calls; deferred = [] }

abbrev finish : Dispatcher → ℕ → ℕ → ℕ → Tick → TickResult
finish dispatch now batch_size claimed t = record {
  after = run_deferred dispatch now t.deferred t;
  claimed = claimed;
  has_more = claimed == batch_size;
}

-- runDrainTick. An error of Phase 1 rolls its transaction back and leaves the tick.
unfoldable pub run_drain_tick :
    Dispatcher → (ℕ → Bool) → ℕ → ℕ → List OutboxEvent → List OutboxEvent → Result TickResult
unfolding drain_rows run_deferred
run_drain_tick dispatch locked now batch_size calls events =
    and_then (claim_batch system locked batch_size events) (λ rows.
      and_then (drain_rows dispatch now rows (start events calls))
        (λ t. done (finish dispatch now batch_size (length rows) t)))
