-- ===== src/Outbox.antt =====
-- The outbox: packages/db/src/repositories/outbox.repository.ts, with the scope test of
-- packages/db/src/tenant-scope.ts and the events of packages/contracts/src/events.ts.
-- Ids, merchants and times are numbers, a string is its list of UTF-16 units, and a payload is
-- left out: the repository stores it and hands it on unread.
pub mod Claim
use win_back_ai.Base.{
  ℕ, Bool, List, Option, if◌then◌else◌, some, ◌+◌, false, has_key, none, take, true, update_by,
  ◌&&◌, ◌++◌, ◌==◌, find_by, not, sort_by, ◌∷◌, [], filter,
}

-- OUTBOX_EVENTS; `other` is a string that the registry does not have.
pub data EventType : Type 0 where
  merchant_installed : EventType
  merchant_uninstalled : EventType
  merchant_needs_reauth : EventType
  merchant_shop_details_fetched : EventType
  merchant_backfill_completed : EventType
  merchant_scopes_updated : EventType
  customer_created : EventType
  customer_updated : EventType
  customer_deleted : EventType
  customer_redacted : EventType
  customer_state_changed : EventType
  order_placed : EventType
  order_updated : EventType
  order_cancelled : EventType
  order_refunded : EventType
  product_created : EventType
  product_updated : EventType
  product_deleted : EventType
  gdpr_customer_data_requested : EventType
  gdpr_customer_redacted : EventType
  gdpr_shop_redacted : EventType
  other : ℕ → EventType

abbrev pub max_outbox_attempts : ℕ
max_outbox_attempts = 10

abbrev pub Units : Type 0
Units = List ℕ

pub record OutboxEvent : Type 0 where
  pub id : ℕ
  pub merchant_id : ℕ
  pub event_type : EventType
  pub created_at : ℕ
  pub processed_at : Option ℕ
  pub attempts : ℕ
  pub last_error : Option Units
  pub dead_lettered_at : Option ℕ
  pub deferred_failed_at : Option ℕ

abbrev pub event_id : OutboxEvent → ℕ
event_id e = e.id

abbrev pub created : OutboxEvent → ℕ
created e = e.created_at

-- The active tenant scope (getTenantScope).
pub data Scope : Type 0 where
  no_scope : Scope
  system : Scope
  merchant : ℕ → Scope

-- A call that returns, or the error that it throws.
pub data Result {ℓ} (A : Type ℓ) : Type ℓ where
  done : A → Result A
  scope_error : Result A
  record_not_found : Result A

abbrev pub and_then {ℓ κ} : {A : Type ℓ} {B : Type κ} → Result A → (A → Result B) → Result B
and_then (done a) f = f a
and_then scope_error f = scope_error
and_then record_not_found f = record_not_found

-- `if (scope?.kind !== 'system') throw`
abbrev in_system {ℓ} : {A : Type ℓ} → Scope → Result A → Result A
in_system no_scope a = scope_error
in_system system a = a
in_system (merchant m) a = scope_error

-- assertScopeMatchesMerchant
unfoldable assert_scope_matches_merchant : Scope → ℕ → Result {0} Unit
assert_scope_matches_merchant no_scope merchant_id = scope_error
assert_scope_matches_merchant system merchant_id = done tt
assert_scope_matches_merchant (merchant m) merchant_id =
    if m == merchant_id then done tt else scope_error

-- The new row gets the id and the time that the database chooses.
unfoldable pub publish_standalone :
    Scope → ℕ → EventType → ℕ → ℕ → List OutboxEvent → Result (List OutboxEvent)
unfolding assert_scope_matches_merchant
publish_standalone scope merchant_id event_type id now events =
    and_then (assert_scope_matches_merchant scope merchant_id) (λ u. done (
      events
      ++ record {
        id = id;
        merchant_id = merchant_id;
        event_type = event_type;
        created_at = now;
        processed_at = none;
        attempts = 0;
        last_error = none;
        dead_lettered_at = none;
        deferred_failed_at = none;
      }
        ∷ []))

abbrev pub is_none {ℓ} : {A : Type ℓ} → Option A → Bool
is_none none = true
is_none (some a) = false

-- The `WHERE` clause of claimBatch.
unfoldable pub is_claimable : OutboxEvent → Bool
is_claimable e = is_none e.processed_at && is_none e.dead_lettered_at

-- `locked` tells the rows that another replica's transaction has locked (SKIP LOCKED).
unfoldable pub is_free : (ℕ → Bool) → OutboxEvent → Bool
unfolding is_claimable
is_free locked e = is_claimable e && not (locked e.id)

unfoldable pub claim_batch : Scope → (ℕ → Bool) → ℕ → List OutboxEvent → Result (List OutboxEvent)
claim_batch scope locked limit events =
    in_system scope (done (take limit (sort_by created (filter (is_free locked) events))))

-- Prisma's `update`: an error where no row has the id.
abbrev update : ℕ → (OutboxEvent → OutboxEvent) → List OutboxEvent → Result (List OutboxEvent)
update id f events =
    if has_key event_id id events then done (update_by event_id id f events) else record_not_found

unfoldable pub as_processed : ℕ → OutboxEvent → OutboxEvent
as_processed now e = record e { processed_at = some now }

unfoldable pub mark_processed : Scope → ℕ → ℕ → List OutboxEvent → Result (List OutboxEvent)
unfolding as_processed
mark_processed scope now id events = in_system scope (update id (as_processed now) events)

unfoldable pub as_failed : Units → OutboxEvent → OutboxEvent
as_failed error e = record e { attempts = e.attempts + 1; last_error = some (take 1000 error) }

unfoldable pub mark_failed : Scope → ℕ → Units → List OutboxEvent → Result (List OutboxEvent)
mark_failed scope id error events = in_system scope (update id (as_failed error) events)

-- `updateMany` with `deadLetteredAt: null`: a row that is dead-lettered stays as it is.
unfoldable pub as_dead_lettered : ℕ → Units → OutboxEvent → OutboxEvent
as_dead_lettered now error e =
    if is_none e.dead_lettered_at
    then record e {
      dead_lettered_at = some now;
      attempts = e.attempts + 1;
      last_error = some (take 1000 error);
    }
    else e

abbrev is_dead : Option OutboxEvent → Bool
is_dead none = false
is_dead (some e) = not (is_none e.dead_lettered_at)

abbrev is_alive : Option OutboxEvent → Bool
is_alive none = false
is_alive (some e) = is_none e.dead_lettered_at

-- The rows after the call, and `wasAlreadyDeadLettered`, which is that no row was updated.
unfoldable pub mark_dead_lettered :
    Scope → ℕ → ℕ → Units → List OutboxEvent → Result (List OutboxEvent × Bool)
unfolding as_dead_lettered
mark_dead_lettered scope now id error events = in_system scope (
    done (
      update_by event_id id (as_dead_lettered now error) events,
      not (is_alive (find_by event_id id events)),
    ))

unfoldable pub as_deferred_failed : ℕ → Units → OutboxEvent → OutboxEvent
as_deferred_failed now error e = record e {
  deferred_failed_at = some now;
  last_error = some (take 1000 error);
}

unfoldable pub mark_deferred_failed :
    Scope → ℕ → ℕ → Units → List OutboxEvent → Result (List OutboxEvent)
unfolding as_deferred_failed
mark_deferred_failed scope now id error events =
    in_system scope (update id (as_deferred_failed now error) events)

unfoldable pub as_requeued : OutboxEvent → OutboxEvent
as_requeued e =
    if is_none e.dead_lettered_at
    then e
    else record e { dead_lettered_at = none; attempts = 0; last_error = none }

-- The rows after the call, and `wasDeadLettered`.
unfoldable pub requeue_dead_lettered :
    Scope → ℕ → List OutboxEvent → Result (List OutboxEvent × Bool)
unfolding as_requeued
requeue_dead_lettered scope id events =
    in_system scope
      (done (update_by event_id id as_requeued events, is_dead (find_by event_id id events)))
