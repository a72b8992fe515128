-- ===== src/Completion/Effect.antt =====
-- What the transaction of markSentWithQuota does to the status of a target.
-- packages/db/src/repositories/campaign.repository.ts
use win_back_ai.Base.{ℕ, ◌≡◌, some, arith}
use win_back_ai.Store.{TargetStatus, Store, target_of, status_of}
use win_back_ai.Campaign.{is_sending, write_message}
use win_back_ai.Campaign.Transitions.{status-write_target, moved_at}
use win_back_ai.Completion.{SentArgs, sent_tx, set_sent, ensure_bucket, utc_midnight}

abbrev buckets_ready : SentArgs → Store → Store
buckets_ready a s = record s { buckets = ensure_bucket (utc_midnight a.now) s.buckets }

-- A commit was from `sending`, and moved this target alone to `sent`.
pub status-sent_tx :
    (a : SentArgs) (j : ℕ) (s : Store) {s' : Store}
    → sent_tx a s ≡ some s'
    → (status_of (target_of a.message_id s) ≡ some TargetStatus.sending)
      × (status_of (target_of j s')
          ≡ moved_at a.message_id j is_sending TargetStatus.sent (status_of (target_of j s)))
unfolding sent_tx write_message
status-sent_tx a j s h = ground (
  arith,
  status-write_target a.message_id j is_sending (set_sent a.now) TargetStatus.sent
      (buckets_ready a s) (λ t. ground arith),
)
