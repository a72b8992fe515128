-- ===== src/Campaign.antt =====
-- packages/db/src/repositories/campaign.repository.ts: the writes of CampaignRepository.
-- `CampaignTarget.messageId` and `Message.id` are unique, so an `updateMany` on one of them
-- touches at most one row: its `count` is 1 exactly when that row is there and passes the rest of
-- the `where` clause.
pub mod Transitions
use Prim.Native.String.{String}
use win_back_ai.Base.{
  ℕ, Bool, ◌&&◌, true, false, Option, none, some, List, [], ◌∷◌, ◌++◌, if◌then◌else◌, find_by,
  update_by,
}
use win_back_ai.Store.{
  TargetStatus, MessageStatus, Target, Message, Store, target_key, message_key, customer_key,
  campaign_key, target_of, message_of,
}

-- `status: { in: [...] }` of the guarded writes
abbrev pub is_pending : TargetStatus → Bool
is_pending TargetStatus.pending = true
is_pending _ = false

abbrev pub is_sending : TargetStatus → Bool
is_sending TargetStatus.sending = true
is_sending _ = false

abbrev pub is_waiting : TargetStatus → Bool
is_waiting TargetStatus.pending = true
is_waiting TargetStatus.deferred = true
is_waiting _ = false

abbrev pub is_open : TargetStatus → Bool
is_open TargetStatus.pending = true
is_open TargetStatus.deferred = true
is_open TargetStatus.sending = true
is_open _ = false

abbrev pub is_draft : MessageStatus → Bool
is_draft MessageStatus.draft = true
is_draft _ = false

-- `count > 0` of an `updateMany` with `where: { messageId, status: { in } }`
unfoldable pub target_passes : (TargetStatus → Bool) → Option Target → Bool
target_passes ok none = false
target_passes ok (some t) = ok t.status

unfoldable pub message_passes : (MessageStatus → Bool) → Option Message → Bool
message_passes ok none = false
message_passes ok (some m) = ok m.status

-- The row of a guarded update: unchanged where the guard fails.
abbrev pub guarded_target : (TargetStatus → Bool) → (Target → Target) → Target → Target
guarded_target ok f t = if ok t.status then f t else t

abbrev pub guarded_message : (MessageStatus → Bool) → (Message → Message) → Message → Message
guarded_message ok f m = if ok m.status then f m else m

-- `campaignTarget.updateMany` and `message.updateMany`
unfoldable pub write_target : ℕ → (TargetStatus → Bool) → (Target → Target) → Store → Store
write_target m ok f s = record s {
  targets = update_by target_key m (guarded_target ok f) s.targets;
}

unfoldable pub write_message : ℕ → (MessageStatus → Bool) → (Message → Message) → Store → Store
write_message m ok f s = record s {
  messages = update_by message_key m (guarded_message ok f) s.messages;
}

pub data ClaimTargetResult : Type 0 where
  claimed already_claimed : ClaimTargetResult

abbrev pub is_some {ℓ} : {A : Type ℓ} → Option A → Bool
is_some none = false
is_some (some a) = true

-- the row that `claimTarget` creates, with the defaults of the schema
abbrev new_target : ℕ → ℕ → ℕ → ℕ → Target
new_target m campaign customer now = record {
  message_id = m;
  campaign_id = campaign;
  customer_id = customer;
  status = TargetStatus.pending;
  suppressed_by_gate = none;
  sent_at = none;
  send_started_at = none;
  created_at = now;
}

-- The rows that a new target refers to by foreign key.
has_parents : ℕ → ℕ → ℕ → Store → Bool
has_parents m campaign customer s =
    if is_some (message_of m s)
    then if is_some (find_by campaign_key campaign s.campaigns)
      then is_some (find_by customer_key customer s.customers)
      else false
    else false

-- `none` is an error that is thrown on: a foreign key with no row behind it.
unfoldable pub claim_target : ℕ → ℕ → ℕ → ℕ → Store → Option (ClaimTargetResult × Store)
unfolding has_parents
claim_target m campaign customer now s =
    if is_some (target_of m s)
    then some (already_claimed, s)
    else if has_parents m campaign customer s
    then some (claimed, record s { targets = s.targets ++ new_target m campaign customer now ∷ [] })
    else none

-- The terminal status that a target and its message take together.
pub data Terminal : Type 0 where
  suppressed failed : Terminal

abbrev pub target_terminal : Terminal → TargetStatus
target_terminal suppressed = TargetStatus.suppressed
target_terminal failed = TargetStatus.failed

abbrev pub message_terminal : Terminal → MessageStatus
message_terminal suppressed = MessageStatus.suppressed
message_terminal failed = MessageStatus.failed

-- The `data` of the writes to a target.
abbrev pub set_terminal : Terminal → String → Target → Target
set_terminal terminal reason t = record t {
  status = target_terminal terminal;
  suppressed_by_gate = some reason;
}

abbrev pub set_sending : ℕ → Target → Target
set_sending now t = record t { status = TargetStatus.sending; send_started_at = some now }

abbrev pub set_pending : Target → Target
set_pending t = record t { status = TargetStatus.pending; send_started_at = none }

abbrev pub set_deferred : Target → Target
set_deferred t = record t { status = TargetStatus.deferred }

unfoldable pub resolve_terminal : ℕ → String → Terminal → Store → Bool × Store
unfolding target_passes
resolve_terminal m reason terminal s =
    if target_passes is_open (target_of m s)
    then (
      true,
      write_message m is_draft (λ r. record r { status = message_terminal terminal })
          (write_target m is_open (set_terminal terminal reason) s),
    )
    else (false, s)

pub data StartResult : Type 0 where
  started : StartResult
  noop_not_pending : TargetStatus → StartResult
  noop_target_missing : StartResult

abbrev reread : Option Target → StartResult
reread none = noop_target_missing
reread (some t) = noop_not_pending t.status

unfoldable pub start_sending : ℕ → ℕ → Store → StartResult × Store
unfolding target_passes
start_sending m now s =
    if target_passes is_pending (target_of m s)
    then (started, write_target m is_pending (set_sending now) s)
    else (reread (target_of m s), s)

unfoldable pub revert_to_pending : ℕ → Store → Bool × Store
unfolding target_passes
revert_to_pending m s =
    (target_passes is_sending (target_of m s), write_target m is_sending set_pending s)

unfoldable pub defer_target : ℕ → Store → Bool × Store
unfolding target_passes
defer_target m s =
    (target_passes is_waiting (target_of m s), write_target m is_waiting set_deferred s)
