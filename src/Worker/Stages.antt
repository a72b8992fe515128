-- ===== src/Worker/Stages.antt =====
-- What each stage of a dispatch pass does to the statuses of the targets, and how often the
-- provider accepts an e-mail in it. apps/drainer/src/workers/dispatch.worker.ts
use Prim.Native.String.{String}
use win_back_ai.Base.{
  ℕ, zero, suc, ◌≡◌, ◌≢◌, ◌≤◌, ◌+◌, Option, some, arith, inl, inr, Option-cases, le_refl,
  if◌then◌else◌, ◌==◌, refl, none,
}
use mathlib.Core.Path.{subst}
use win_back_ai.Store.{TargetStatus, Store, target_of, status_of}
use win_back_ai.Campaign.{
  resolve_terminal, start_sending, revert_to_pending, defer_target, claim_target, ClaimTargetResult,
  Terminal, StartResult,
}
use win_back_ai.Campaign.Transitions.{
  status-start_sending, status-revert_to_pending, status-defer_target, status-resolve_terminal,
  status-claim_target, pending-start_sending,
}
use win_back_ai.Completion.{SentArgs, mark_sent_with_quota, sent_tx}
use win_back_ai.Completion.Effect.{status-sent_tx}
use win_back_ai.Worker.{
  TxFault, complete, Job, PassEnv, Pass, after_accept, handle_ses_error, Crash, append_audit,
  code_text, sent_args, retryable, EmailErrorCode, send_and_complete, SesReply, ack_lost, accepted,
  rejected, after_start_result, apply_outcome, guard_stage, send_stage, DispatchContext, Runtime,
  GateOutcome, run_gate_chain, gate_text, after_claim_result, after_start,
  process_campaign_dispatch_job, unknown_error, load_dispatch_context, after_claim,
}

-- 1 for a status from which the worker never sends (the replay guard stops a pass at it), else 0.
abbrev pub locked : Option TargetStatus → ℕ
locked (some TargetStatus.sending) = 1
locked (some TargetStatus.sent) = 1
locked (some TargetStatus.suppressed) = 1
locked (some TargetStatus.failed) = 1
locked _ = 0

abbrev pub lock_of : ℕ → Store → ℕ
lock_of j s = locked (status_of (target_of j s))

-- No write but `revertToPending` unlocks a target.
module _ (m j : ℕ) (s : Store) where
  lock-start_sending : (now : ℕ) → lock_of j s ≤ lock_of j (start_sending m now s).1
  lock-start_sending now = ground (arith, status-start_sending m j s now)

  lock-defer_target : lock_of j s ≤ lock_of j (defer_target m s).1
  lock-defer_target = ground (arith, status-defer_target m j s)

  lock-resolve_terminal :
      (reason : String) (terminal : Terminal)
      → lock_of j s ≤ lock_of j (resolve_terminal m reason terminal s).1
  lock-resolve_terminal reason terminal =
      ground (arith, status-resolve_terminal m j s reason terminal)

  lock-claim_target :
      (campaign customer now : ℕ) {r : ClaimTargetResult} {s' : Store}
      → claim_target m campaign customer now s ≡ some (r, s')
      → lock_of j s ≤ lock_of j s'
  lock-claim_target campaign customer now h =
      ground (arith, status-claim_target m j s campaign customer now h)

  -- A revert leaves every other target alone.
  lock-revert_to_pending : m ≢ j → lock_of j s ≤ lock_of j (revert_to_pending m s).1
  lock-revert_to_pending h = ground (arith, status-revert_to_pending m j s)

-- The completion loop keeps every lock.
module _ (a : SentArgs) (j : ℕ) where
  lock-sent_tx : (s s' : Store) → sent_tx a s ≡ some s' → lock_of j s ≤ lock_of j s'
  lock-sent_tx s s' h = ground (arith, status-sent_tx a j s h)

  lock-mark_sent : (s : Store) → lock_of j s ≤ lock_of j (mark_sent_with_quota a s).1
  unfolding mark_sent_with_quota
  lock-mark_sent s = elim (Option-cases (sent_tx a s)) [
    | inl e ↦ rw e (le_refl _)
    | inr (s', e) ↦ rw e (lock-sent_tx s s' e)
  ]

  lock-complete :
      (n i : ℕ) (fault : ℕ → TxFault) (s : Store)
      → lock_of j s ≤ lock_of j (complete n i fault a s).0
  unfolding complete
  lock-complete zero i fault s = omega arith
  lock-complete (suc n) i fault s = ground (
    arith,
    lock-mark_sent s,
    lock-complete n (i + 1) fault s,
    lock-complete n (i + 1) fault (mark_sent_with_quota a s).1,
  )

-- The e-mails of a pass that count for message `j`.
abbrev pub charge : Job → ℕ → Pass → ℕ
charge job j p = if job.message_id == j then p.accepts else 0

-- The two halves of what holds after the send: other targets keep their locks, and an accepted
-- e-mail leaves the job's own target locked.
abbrev Settles : Job → ℕ → Store → Pass → Type 0
Settles job j s p =
    (job.message_id ≢ j → lock_of j s ≤ lock_of j p.store)
    × (job.message_id ≡ j → p.accepts ≤ lock_of j p.store)

module _ (env : PassEnv) (job : Job) (j : ℕ) (s : Store) where
  Settles-handle_ses_error : (code : EmailErrorCode) → Settles job j s (handle_ses_error job code s)
  unfolding handle_ses_error append_audit code_text retryable
  Settles-handle_ses_error code = ground (
    arith,
    lock-resolve_terminal job.message_id j s "ses_suppressed" Terminal.suppressed,
    lock-resolve_terminal job.message_id j s (code_text code) Terminal.failed,
    lock-revert_to_pending job.message_id j s,
  )

  Settles-after_accept :
      (provider_id : ℕ) (crash : Crash)
      → (job.message_id ≡ j → lock_of j s ≡ 1)
      → Settles job j s (after_accept env job provider_id crash s)
  unfolding after_accept
  Settles-after_accept provider_id crash h =
      ground (arith, lock-complete (sent_args env job provider_id) j 3 1 env.fault s)

  Settles-send_and_complete :
      (reply : SesReply)
      → reply ≢ ack_lost
      → (job.message_id ≡ j → lock_of j s ≡ 1)
      → Settles job j s (send_and_complete env job reply s)
  unfolding send_and_complete
  Settles-send_and_complete (accepted provider_id) clean h =
      Settles-after_accept provider_id env.crash h
  Settles-send_and_complete ack_lost clean h = absurd (clean refl)
  Settles-send_and_complete (rejected code) clean h = Settles-handle_ses_error code
  Settles-send_and_complete unknown_error clean h =
      ground (arith, lock-revert_to_pending job.message_id j s)

-- The e-mails that a stage adds to the count of message `j` are paid for by its lock.
abbrev pub Pays : Job → ℕ → Store → Pass → Type 0
Pays job j s p = charge job j p + lock_of j s ≤ lock_of j p.store

Pays-of_Settles :
    (job : Job) (j : ℕ) (s s' : Store) (p : Pass)
    → (job.message_id ≡ j → lock_of j s ≡ 0)
    → lock_of j s ≤ lock_of j s'
    → Settles job j s' p
    → Pays job j s p
Pays-of_Settles job j s s' p free step h = ground (arith, h.0, h.1)

start_from_pending :
    (m now : ℕ) (s : Store)
    → (start_sending m now s).0 ≡ StartResult.started
    → (lock_of m s ≡ 0) × (lock_of m (start_sending m now s).1 ≡ 1)
start_from_pending m now s h =
    ground (arith, pending-start_sending m now s h, status-start_sending m m s now)

-- Each later stage is stated for the store that it is given.
module _ (env : PassEnv) (job : Job) (j : ℕ) (clean : env.reply ≢ ack_lost) where
  Pays-after_start :
      (crash : Crash) (s : Store) (start : StartResult × Store)
      → lock_of j s ≤ lock_of j start.1
      → (start.0 ≡ StartResult.started
          → job.message_id ≡ j
          → (lock_of j s ≡ 0) × (lock_of j start.1 ≡ 1))
      → Pays job j s (after_start_result env job crash start)
  unfolding after_start_result
  Pays-after_start after_start s (StartResult.started, s') step own = ground arith
  Pays-after_start _ s (StartResult.started, s') step own =
      Pays-of_Settles job j s s' (send_and_complete env job env.reply s') (λ e. (own refl e).0) step
        (Settles-send_and_complete env job j s' env.reply clean (λ e. (own refl e).1))
  Pays-after_start _ s (_, s') step own = ground arith

  Pays-after_start_result :
      (crash : Crash) (s : Store)
      → Pays job j s (after_start_result env job crash (start_sending job.message_id env.sent_at s))
  Pays-after_start_result crash s =
      Pays-after_start crash s (start_sending job.message_id env.sent_at s)
        (lock-start_sending job.message_id j s env.sent_at)
        (λ h e.
          subst
            (λ k.
              (lock_of k s ≡ 0) × (lock_of k (start_sending job.message_id env.sent_at s).1 ≡ 1))
            e (start_from_pending job.message_id env.sent_at s h))

  Pays-send_stage : (ctx : DispatchContext) (s : Store) → Pays job j s (send_stage env job ctx s)
  unfolding send_stage
  Pays-send_stage ctx s =
      ground (arith, Pays-after_start_result env.crash s, lock-defer_target job.message_id j s)

  Pays-apply_outcome :
      (ctx : DispatchContext) (outcome : Option GateOutcome) (s : Store)
      → Pays job j s (apply_outcome env job ctx outcome s)
  unfolding apply_outcome
  Pays-apply_outcome ctx none s = ground arith
  Pays-apply_outcome ctx (some (GateOutcome.suppressed g)) s =
      ground (arith, lock-resolve_terminal job.message_id j s (gate_text g) Terminal.suppressed)
  Pays-apply_outcome ctx (some (GateOutcome.deferred g)) s =
      ground (arith, lock-defer_target job.message_id j s)
  Pays-apply_outcome ctx (some GateOutcome.passed) s = Pays-send_stage ctx s

  Pays-guard_stage :
      (rt : Runtime) (ctx : Option DispatchContext) (s : Store)
      → Pays job j s (guard_stage rt env job ctx s)
  unfolding guard_stage
  Pays-guard_stage rt none s = ground arith
  Pays-guard_stage rt (some ctx) s =
      ground (arith, Pays-apply_outcome ctx (run_gate_chain rt env.gated_at ctx s) s)

  Pays-after_claim :
      (rt : Runtime) (crash : Crash) (s : Store) (claim : Option (ClaimTargetResult × Store))
      → claim_target job.message_id job.campaign_id job.customer_id env.claimed_at s ≡ claim
      → Pays job j s (after_claim_result rt env job crash s claim)
  unfolding after_claim_result
  Pays-after_claim rt crash s none e = ground arith
  Pays-after_claim rt after_claim s (some (r, s')) e =
      ground (
        arith,
        lock-claim_target job.message_id j s job.campaign_id job.customer_id env.claimed_at e,
      )
  Pays-after_claim rt _ s (some (r, s')) e = ground (
    arith,
    lock-claim_target job.message_id j s job.campaign_id job.customer_id env.claimed_at e,
    Pays-guard_stage rt (load_dispatch_context job.message_id s') s',
  )

  -- A whole pass pays for what it sends.
  pub Pays-process :
      (rt : Runtime) (s : Store) → Pays job j s (process_campaign_dispatch_job rt env job s)
  unfolding process_campaign_dispatch_job
  Pays-process rt s = Pays-after_claim rt env.crash s _ refl
