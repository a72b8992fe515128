-- ===== src/Completion.antt =====
-- `markSentWithQuota` and the quota reads of
-- packages/db/src/repositories/campaign.repository.ts.
pub mod Effect
pub mod Once
use win_back_ai.Base.{
  ℕ, ◌+◌, ◌*◌, ◌/◌, Bool, Option, none, some, List, [], ◌∷◌, ◌++◌, leb, if◌then◌else◌, find_by,
  update_by,
}
use win_back_ai.Store.{
  TargetStatus, MessageStatus, Target, Message, QuotaBucket, AuditEntry, dispatch_sent, Store,
  bucket_key, target_of, message_of, status_of,
}
use win_back_ai.Campaign.{
  is_sending, is_draft, is_some, target_passes, message_passes, write_target, write_message,
}

abbrev pub ms_per_day : ℕ
ms_per_day = 86400000

-- `utcMidnight`: a UTC day has 86,400,000 ms in `Date`.
unfoldable pub utc_midnight : ℕ → ℕ
utc_midnight now = now / ms_per_day * ms_per_day

pub record QuotaUsage : Type 0 where
  pub day_sent_count : ℕ
  pub month_sent_count : ℕ

abbrev count_or_zero : Option QuotaBucket → ℕ
count_or_zero none = 0
count_or_zero (some b) = b.sent_count

-- `_sum: { sentCount }` over the buckets with `date >= start`
unfoldable pub sum_since : ℕ → List QuotaBucket → ℕ
sum_since start [] = 0
sum_since start (b ∷ bs) = (if leb start b.date then b.sent_count else 0) + sum_since start bs

-- `first_of_month` stands for `Date.UTC(y, m, 1)` of the JavaScript runtime.
unfoldable pub get_quota_usage : (first_of_month : ℕ → ℕ) → ℕ → Store → QuotaUsage
unfolding sum_since utc_midnight
get_quota_usage first_of_month now s = record {
  day_sent_count = count_or_zero (find_by bucket_key (utc_midnight now) s.buckets);
  month_sent_count = sum_since (first_of_month now) s.buckets;
}

-- INSERT … ON CONFLICT DO NOTHING
unfoldable pub ensure_bucket : ℕ → List QuotaBucket → List QuotaBucket
ensure_bucket day bs =
    if is_some (find_by bucket_key day bs)
    then bs
    else bs ++ record { date = day; sent_count = 0 } ∷ []

pub record SentArgs : Type 0 where
  pub message_id : ℕ
  pub campaign_id : ℕ
  pub customer_id : ℕ
  pub provider_message_id : ℕ
  pub now : ℕ

abbrev pub bump : QuotaBucket → QuotaBucket
bump b = record b { sent_count = b.sent_count + 1 }

abbrev pub set_sent : ℕ → Target → Target
set_sent now t = record t { status = TargetStatus.sent; sent_at = some now }

abbrev pub set_message_sent : ℕ → ℕ → Message → Message
set_message_sent now provider_id m = record m {
  status = MessageStatus.sent;
  sent_at = some now;
  provider_message_id = some provider_id;
}

abbrev entry_of : SentArgs → AuditEntry
entry_of a = dispatch_sent a.message_id a.campaign_id a.customer_id a.provider_message_id

-- The body of the transaction, in the order of its statements; `none` is the CAS-miss marker,
-- thrown to roll all of it back.
unfoldable pub sent_tx : SentArgs → Store → Option Store
unfolding target_passes message_passes
sent_tx a s =
    let day = utc_midnight a.now in
    let s₁ : Store = record s { buckets = ensure_bucket day s.buckets } in
    let s₂ = write_target a.message_id is_sending (set_sent a.now) s₁ in
    let s₃ =
      write_message a.message_id is_draft (set_message_sent a.now a.provider_message_id) s₂ in
    let s₄ : Store = record s₃ { buckets = update_by bucket_key day bump s₃.buckets } in
    if target_passes is_sending (target_of a.message_id s₁)
    then if message_passes is_draft (message_of a.message_id s₂)
      then some (record s₄ { audit = s₄.audit ++ entry_of a ∷ [] })
      else none
    else none

pub data CompletionResult : Type 0 where
  sent : CompletionResult
  noop_already_terminal : TargetStatus → CompletionResult

-- `current?.status ?? 'sent'`
abbrev pub status_or_sent : Option TargetStatus → TargetStatus
status_or_sent none = TargetStatus.sent
status_or_sent (some x) = x

abbrev finish : ℕ → Store → Option Store → CompletionResult × Store
finish m s none = (noop_already_terminal (status_or_sent (status_of (target_of m s))), s)
finish m s (some s') = (sent, s')

unfoldable pub mark_sent_with_quota : SentArgs → Store → CompletionResult × Store
mark_sent_with_quota a s = finish a.message_id s (sent_tx a s)
