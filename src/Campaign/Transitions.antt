-- ===== src/Campaign/Transitions.antt =====
-- The state machine of a campaign target: the status of each target after each write of
-- packages/db/src/repositories/campaign.repository.ts.
use Prim.Native.String.{String}
use win_back_ai.Base.{
  ℕ, ◌≡◌, Bool, Option, none, some, arith, ◌==◌, if◌then◌else◌, find_by-update_by, find_by-append,
  mapped, find_by, [], ◌∷◌,
}
use win_back_ai.Store.{TargetStatus, Target, Store, target_key, target_of, status_of}
use win_back_ai.Campaign.{
  is_pending, is_sending, is_waiting, is_open, Terminal, target_terminal, guarded_target,
  write_target, write_message, set_sending, set_pending, set_deferred, set_terminal, new_target,
  ClaimTargetResult, claim_target, resolve_terminal, start_sending, revert_to_pending, defer_target,
  StartResult,
}

-- What a compare-and-set does to a status: it moves to `to` if the guard lets it.
abbrev pub moved : (TargetStatus → Bool) → TargetStatus → Option TargetStatus → Option TargetStatus
moved ok to none = none
moved ok to (some x) = some (if ok x then to else x)

-- The same, for the target of message `m` as it is seen from message `j`.
abbrev pub moved_at :
    ℕ → ℕ → (TargetStatus → Bool) → TargetStatus → Option TargetStatus → Option TargetStatus
moved_at m j ok to o = if m == j then moved ok to o else o

pub status-write_target :
    (m j : ℕ) (ok : TargetStatus → Bool) (f : Target → Target) (to : TargetStatus) (s : Store)
    → ((t : Target) → ((f t).message_id ≡ t.message_id) × ((f t).status ≡ to))
    → status_of (target_of j (write_target m ok f s))
      ≡ moved_at m j ok to (status_of (target_of j s))
unfolding write_target
status-write_target m j ok f to s h =
    rw (find_by-update_by target_key m j (guarded_target ok f) s.targets (λ t. ground (arith, h t)))
      (go (find_by target_key j s.targets))
  where
    go :
        (o : Option Target)
        → status_of (if m == j then mapped (guarded_target ok f) o else o)
          ≡ moved_at m j ok to (status_of o)
    go none = ground arith
    go (some t) = ground (arith, h t)

abbrev pub status_or_pending : Option TargetStatus → TargetStatus
status_or_pending none = TargetStatus.pending
status_or_pending (some x) = x

module _ (m j : ℕ) (s : Store) where
  pub status-start_sending :
      (now : ℕ)
      → status_of (target_of j (start_sending m now s).1)
        ≡ moved_at m j is_pending TargetStatus.sending (status_of (target_of j s))
  unfolding start_sending
  status-start_sending now = ground (
    arith,
    status-write_target m j is_pending (set_sending now) TargetStatus.sending s (λ t. ground arith),
  )

  pub status-revert_to_pending :
      status_of (target_of j (revert_to_pending m s).1)
      ≡ moved_at m j is_sending TargetStatus.pending (status_of (target_of j s))
  unfolding revert_to_pending
  status-revert_to_pending =
      status-write_target m j is_sending set_pending TargetStatus.pending s (λ t. ground arith)

  pub status-defer_target :
      status_of (target_of j (defer_target m s).1)
      ≡ moved_at m j is_waiting TargetStatus.deferred (status_of (target_of j s))
  unfolding defer_target
  status-defer_target =
      status-write_target m j is_waiting set_deferred TargetStatus.deferred s (λ t. ground arith)

  pub status-resolve_terminal :
      (reason : String) (terminal : Terminal)
      → status_of (target_of j (resolve_terminal m reason terminal s).1)
        ≡ moved_at m j is_open (target_terminal terminal) (status_of (target_of j s))
  unfolding resolve_terminal write_message
  status-resolve_terminal reason terminal = ground (
    arith,
    status-write_target m j is_open (set_terminal terminal reason) (target_terminal terminal) s
        (λ t. ground arith),
  )

  -- A claim makes a pending target where there was none, and only there.
  pub status-claim_target :
      (campaign customer now : ℕ) {r : ClaimTargetResult} {s' : Store}
      → claim_target m campaign customer now s ≡ some (r, s')
      → status_of (target_of j s') ≡ (
          if m == j
          then some (status_or_pending (status_of (target_of j s)))
          else status_of (target_of j s))
  unfolding claim_target find_by
  status-claim_target campaign customer now h =
      ground
        (arith, find_by-append target_key j s.targets (new_target m campaign customer now ∷ []))

-- A pass starts a send only from `pending`.
pub pending-start_sending :
    (m now : ℕ) (s : Store)
    → (start_sending m now s).0 ≡ StartResult.started
    → status_of (target_of m s) ≡ some TargetStatus.pending
unfolding start_sending
pending-start_sending m now s h = ground arith
