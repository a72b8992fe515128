-- ===== src/Completion/Once.antt =====
-- When the transaction of markSentWithQuota commits, and what it then changes.
-- packages/db/src/repositories/campaign.repository.ts
use win_back_ai.Store.{
  TargetStatus, MessageStatus, Store, target_of, message_of, dispatch_sent, status_of, bucket_key,
  message_key, target_key,
}
use win_back_ai.Campaign.{
  is_draft, is_sending, write_message, write_target, message_passes, target_passes, guarded_message,
  is_some, guarded_target,
}
use win_back_ai.Completion.{
  SentArgs, sent_tx, mark_sent_with_quota, set_sent, set_message_sent, ensure_bucket, utc_midnight,
  count_or_zero, bump, QuotaBucket, sent, entry_of, noop_already_terminal, status_or_sent,
}
use win_back_ai.Base.{
  find_by, ℕ, ◌≡◌, Bool, List, true, some, ◌&&◌, arith, update_by, find_by-append, if◌then◌else◌,
  ◌==◌, ◌∷◌, [], ◌+◌, find_by-update_by, mapped, none, ◌≢◌, ◌⊎◌, false, ◌++◌, refl, Bool-cases, inl,
  inr,
}

-- The e-mails counted for a day.
abbrev pub day_count : ℕ → Store → ℕ
day_count d s = count_or_zero (find_by bucket_key d s.buckets)

count-ensure_bucket :
    (day d : ℕ) (bs : List QuotaBucket)
    → count_or_zero (find_by bucket_key d (ensure_bucket day bs))
      ≡ count_or_zero (find_by bucket_key d bs)
unfolding ensure_bucket find_by
count-ensure_bucket day d bs =
    ground (arith, find_by-append bucket_key d bs (record { date = day; sent_count = 0 } ∷ []))

found-ensure_bucket :
    (day : ℕ) (bs : List QuotaBucket)
    → is_some (find_by bucket_key day (ensure_bucket day bs)) ≡ true
unfolding ensure_bucket find_by
found-ensure_bucket day bs =
    ground (arith, find_by-append bucket_key day bs (record { date = day; sent_count = 0 } ∷ []))

count-bump :
    (day d : ℕ) (bs : List QuotaBucket)
    → count_or_zero (find_by bucket_key d (update_by bucket_key day bump (ensure_bucket day bs)))
      ≡ (if day == d
          then count_or_zero (find_by bucket_key d bs) + 1
          else count_or_zero (find_by bucket_key d bs))
count-bump day d bs = ground (
  arith,
  find_by-update_by bucket_key day d bump (ensure_bucket day bs) (λ b. ground arith),
  count-ensure_bucket day d bs,
  found-ensure_bucket day bs,
)

-- The guards of the two compare-and-sets.
abbrev pub can_complete : ℕ → Store → Bool
can_complete m s =
    target_passes is_sending (target_of m s) && message_passes is_draft (message_of m s)

-- The tables after a commit.
abbrev pub committed : SentArgs → Store → Store
committed a s = record s {
  targets =
      update_by target_key a.message_id (guarded_target is_sending (set_sent a.now)) s.targets;
  messages =
      update_by message_key a.message_id
        (guarded_message is_draft (set_message_sent a.now a.provider_message_id)) s.messages;
  buckets =
      update_by bucket_key (utc_midnight a.now) bump (ensure_bucket (utc_midnight a.now) s.buckets);
  audit = s.audit ++ entry_of a ∷ [];
}

sent_tx_lem :
    (a : SentArgs) (s : Store)
    → sent_tx a s ≡ (if can_complete a.message_id s then some (committed a s) else none)
unfolding sent_tx write_target write_message
sent_tx_lem a s = ground arith

-- What a commit shows: the target and the message are sent, with the time and the provider's id, those of
-- other messages stand, the day of the send counts one e-mail more, every other day as many as before,
-- one entry is logged, and the tables besides these four stand.
pub record IsCommit (a : SentArgs) (s s' : Store) : Type 0 where
  pub target :
      target_of a.message_id s'
      ≡ mapped
          (λ t. record t { status = TargetStatus.sent; sent_at = some a.now })
          (target_of a.message_id s)
  pub other_targets : (j : ℕ) → j ≢ a.message_id → target_of j s' ≡ target_of j s
  pub message :
      message_of a.message_id s'
      ≡ mapped
          (λ m. record m {
            status = MessageStatus.sent;
            sent_at = some a.now;
            provider_message_id = some a.provider_message_id;
          })
          (message_of a.message_id s)
  pub other_messages : (j : ℕ) → j ≢ a.message_id → message_of j s' ≡ message_of j s
  pub today : day_count (utc_midnight a.now) s' ≡ day_count (utc_midnight a.now) s + 1
  pub other_days : (d : ℕ) → d ≢ utc_midnight a.now → day_count d s' ≡ day_count d s
  pub logged :
      s'.audit
      ≡ s.audit ++ dispatch_sent a.message_id a.campaign_id a.customer_id a.provider_message_id ∷ []
  pub unchanged :
      record s' { targets = s.targets; messages = s.messages; buckets = s.buckets; audit = s.audit }
      ≡ s

module _ (a : SentArgs) (s : Store) where
  committed-IsCommit : can_complete a.message_id s ≡ true → IsCommit a s (committed a s)
  unfolding target_passes message_passes
  committed-IsCommit h = record {
    target = ground (
      arith,
      find_by-update_by target_key a.message_id a.message_id
          (guarded_target is_sending (set_sent a.now)) s.targets (λ t. ground arith),
    );
    message = ground (
      arith,
      find_by-update_by message_key a.message_id a.message_id
          (guarded_message is_draft (set_message_sent a.now a.provider_message_id)) s.messages
          (λ t. ground arith),
    );
    today = ground (arith, count-bump (utc_midnight a.now) (utc_midnight a.now) s.buckets);
    other_days = λ d other. ground (arith, count-bump (utc_midnight a.now) d s.buckets);
    logged = refl;
    other_targets = λ j other. ground (
      arith,
      find_by-update_by target_key a.message_id j (guarded_target is_sending (set_sent a.now))
          s.targets (λ t. ground arith),
    );
    other_messages = λ j other. ground (
      arith,
      find_by-update_by message_key a.message_id j
          (guarded_message is_draft (set_message_sent a.now a.provider_message_id)) s.messages
          (λ t. ground arith),
    );
    unchanged = refl;
  }

  -- The completion commits exactly where the target is `sending` and the message a draft. Target and message
  -- then are `sent` at the time of the call, the message with the provider's id, the day's bucket counts one
  -- more, one entry is logged, and all other rows and tables stand. On every other state the completion
  -- changes nothing and reports the target's status.
  pub completion_exact :
      ((can_complete a.message_id s ≡ true)
        × ((mark_sent_with_quota a s).0 ≡ sent)
        × IsCommit a s (mark_sent_with_quota a s).1)
      ⊎ ((can_complete a.message_id s ≡ false)
          × ((mark_sent_with_quota a s).0
              ≡ noop_already_terminal (status_or_sent (status_of (target_of a.message_id s))))
          × ((mark_sent_with_quota a s).1 ≡ s))
  unfolding mark_sent_with_quota
  completion_exact = elim (Bool-cases (can_complete a.message_id s)) [
    | inl e ↦ inl (rw (sent_tx_lem a s, e) ((refl, refl, committed-IsCommit e)))
    | inr e ↦ inr (rw (sent_tx_lem a s, e) ((refl, refl, refl)))
  ]

  -- A repetition of the completion finds the target `sent` and changes nothing.
  pub mark_sent_idem :
      (mark_sent_with_quota a (mark_sent_with_quota a s).1).1 ≡ (mark_sent_with_quota a s).1
  unfolding mark_sent_with_quota target_passes
  mark_sent_idem = elim (Bool-cases (can_complete a.message_id s)) [
    | inl e ↦ rw (sent_tx_lem a s, e) (rw (sent_tx_lem a (committed a s), done e) refl)
    | inr e ↦ rw (sent_tx_lem a s, e) (rw (sent_tx_lem a s, e) refl)
  ]
    where
      done : can_complete a.message_id s ≡ true → can_complete a.message_id (committed a s) ≡ false
      done e = ground (arith, (committed-IsCommit e).target)
