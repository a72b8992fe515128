-- ===== src/Worker/Deferred.antt =====
-- What becomes of a target once it is `deferred`: startSending of
-- packages/db/src/repositories/campaign.repository.ts under the passes of
-- apps/drainer/src/workers/dispatch.worker.ts.
use win_back_ai.Store.{TargetStatus, Store, target_of, status_of}
use win_back_ai.Worker.AtMostOnce.{run_passes, accepted_for}
use win_back_ai.Worker.Stages.{charge}
use win_back_ai.Base.{
  Option, Bool, ℕ, List, some, ◌≡◌, Option-cases, [], arith, true, ◌∷◌, false, inl, refl, suc, inr,
  none, ◌+◌, ◌≢◌, zero,
}
use win_back_ai.Completion.{SentArgs, mark_sent_with_quota, sent_tx}
use win_back_ai.Gates.{Runtime, DispatchContext, GateOutcome, load_dispatch_context, run_gate_chain}
use win_back_ai.Worker.{
  Job, PassEnv, ClaimTargetResult, Pass, String, after_claim_result, after_start_result,
  apply_outcome, complete, defer_target, guard_stage, handle_ses_error,
  process_campaign_dispatch_job, revert_to_pending, send_and_complete, send_stage, start_sending,
  Crash, Terminal, TxFault, after_accept, append_audit, claim_target, SesReply, StartResult,
  code_text, resolve_terminal, accepted, gate_text, retryable, EmailErrorCode, after_claim,
  after_start, sent_args, email_transient, rejected, ack_lost, unknown_error,
}
use win_back_ai.Campaign.Transitions.{
  pending-start_sending, status-claim_target, status-defer_target, status-revert_to_pending,
  status-start_sending, status-resolve_terminal,
}
use win_back_ai.Completion.Effect.{status-sent_tx}

-- Statuses that no pass leads out of to a send.
abbrev pub dead : Option TargetStatus → Bool
dead (some TargetStatus.deferred) = true
dead (some TargetStatus.suppressed) = true
dead (some TargetStatus.failed) = true
dead _ = false

abbrev pub IsDead : ℕ → Store → Type 0
IsDead j s = dead (status_of (target_of j s)) ≡ true

module _ (m j : ℕ) (s : Store) (h : IsDead j s) where
  IsDead-start_sending : (now : ℕ) → IsDead j (start_sending m now s).1
  IsDead-start_sending now = ground (arith, status-start_sending m j s now)

  IsDead-revert_to_pending : IsDead j (revert_to_pending m s).1
  IsDead-revert_to_pending = ground (arith, status-revert_to_pending m j s)

  IsDead-defer_target : IsDead j (defer_target m s).1
  IsDead-defer_target = ground (arith, status-defer_target m j s)

  IsDead-resolve_terminal :
      (reason : String) (terminal : Terminal) → IsDead j (resolve_terminal m reason terminal s).1
  IsDead-resolve_terminal reason terminal =
      ground (arith, status-resolve_terminal m j s reason terminal)

  IsDead-claim_target :
      (campaign customer now : ℕ) {r : ClaimTargetResult} {s' : Store}
      → claim_target m campaign customer now s ≡ some (r, s')
      → IsDead j s'
  IsDead-claim_target campaign customer now e =
      ground (arith, status-claim_target m j s campaign customer now e)

module _ (a : SentArgs) (j : ℕ) where
  IsDead-sent_tx : (s s' : Store) → IsDead j s → sent_tx a s ≡ some s' → IsDead j s'
  IsDead-sent_tx s s' h e = ground (arith, status-sent_tx a j s e)

  IsDead-mark_sent : (s : Store) → IsDead j s → IsDead j (mark_sent_with_quota a s).1
  unfolding mark_sent_with_quota
  IsDead-mark_sent s h = elim (Option-cases (sent_tx a s)) [
    | inl e ↦ rw e h
    | inr (s', e) ↦ rw e (IsDead-sent_tx s s' h e)
  ]

  IsDead-complete :
      (n i : ℕ) (fault : ℕ → TxFault) (s : Store) → IsDead j s → IsDead j (complete n i fault a s).0
  unfolding complete
  IsDead-complete zero i fault s h = h
  IsDead-complete (suc n) i fault s h = ground (
    arith,
    IsDead-mark_sent s h,
    IsDead-complete n (i + 1) fault s h,
    IsDead-complete n (i + 1) fault (mark_sent_with_quota a s).1,
  )

-- A stage sends nothing for a dead target and leaves it dead.
abbrev StaysDead : Job → ℕ → Pass → Type 0
StaysDead job j p = (charge job j p ≡ 0) × IsDead j p.store

module _ (env : PassEnv) (job : Job) (j : ℕ) where
  IsDead-handle_ses_error :
      (code : EmailErrorCode) (s : Store)
      → IsDead j s
      → IsDead j (handle_ses_error job code s).store
  unfolding handle_ses_error append_audit code_text retryable
  IsDead-handle_ses_error code s h = ground (
    arith,
    IsDead-resolve_terminal job.message_id j s h "ses_suppressed" Terminal.suppressed,
    IsDead-resolve_terminal job.message_id j s h (code_text code) Terminal.failed,
    IsDead-revert_to_pending job.message_id j s h,
  )

  IsDead-send_and_complete :
      (reply : SesReply) (s : Store)
      → IsDead j s
      → IsDead j (send_and_complete env job reply s).store
  unfolding send_and_complete after_accept
  IsDead-send_and_complete (accepted provider_id) s h =
      ground (arith, IsDead-complete (sent_args env job provider_id) j 3 1 env.fault s h)
  IsDead-send_and_complete ack_lost s h = IsDead-handle_ses_error email_transient s h
  IsDead-send_and_complete (rejected code) s h = IsDead-handle_ses_error code s h
  IsDead-send_and_complete unknown_error s h = IsDead-revert_to_pending job.message_id j s h

  dead_after_start :
      (crash : Crash) (start : StartResult × Store)
      → IsDead j start.1
      → (start.0 ≡ StartResult.started → job.message_id ≢ j)
      → StaysDead job j (after_start_result env job crash start)
  unfolding after_start_result
  dead_after_start after_start (StartResult.started, s) h other = ground arith
  dead_after_start _ (StartResult.started, s) h other =
      ground (arith, other refl, IsDead-send_and_complete env.reply s h)
  dead_after_start _ (_, s) h other = ground arith

  dead-send_stage :
      (ctx : DispatchContext) (s : Store) → IsDead j s → StaysDead job j (send_stage env job ctx s)
  unfolding send_stage
  dead-send_stage ctx s h = ground (
    arith,
    dead_after_start env.crash (start_sending job.message_id env.sent_at s)
        (IsDead-start_sending job.message_id j s h env.sent_at)
        (λ st e. ground (arith, pending-start_sending job.message_id env.sent_at s st)),
    IsDead-defer_target job.message_id j s h,
  )

  dead-apply_outcome :
      (ctx : DispatchContext) (outcome : Option GateOutcome) (s : Store)
      → IsDead j s
      → StaysDead job j (apply_outcome env job ctx outcome s)
  unfolding apply_outcome
  dead-apply_outcome ctx none s h = ground arith
  dead-apply_outcome ctx (some (GateOutcome.suppressed g)) s h =
      ground (arith, IsDead-resolve_terminal job.message_id j s h (gate_text g) Terminal.suppressed)
  dead-apply_outcome ctx (some (GateOutcome.deferred g)) s h =
      ground (arith, IsDead-defer_target job.message_id j s h)
  dead-apply_outcome ctx (some GateOutcome.passed) s h = dead-send_stage ctx s h

  dead-guard_stage :
      (rt : Runtime) (ctx : Option DispatchContext) (s : Store)
      → IsDead j s
      → StaysDead job j (guard_stage rt env job ctx s)
  unfolding guard_stage
  dead-guard_stage rt none s h = ground arith
  dead-guard_stage rt (some ctx) s h =
      ground (arith, dead-apply_outcome ctx (run_gate_chain rt env.gated_at ctx s) s h)

  dead_after_claim :
      (rt : Runtime) (crash : Crash) (s : Store) (claim : Option (ClaimTargetResult × Store))
      → IsDead j s
      → claim_target job.message_id job.campaign_id job.customer_id env.claimed_at s ≡ claim
      → StaysDead job j (after_claim_result rt env job crash s claim)
  unfolding after_claim_result
  dead_after_claim rt crash s none h e = ground arith
  dead_after_claim rt after_claim s (some (r, s')) h e = ground (
    arith,
    IsDead-claim_target job.message_id j s h job.campaign_id job.customer_id env.claimed_at e,
  )
  dead_after_claim rt _ s (some (r, s')) h e =
      dead-guard_stage rt (load_dispatch_context job.message_id s') s'
        (IsDead-claim_target job.message_id j s h job.campaign_id job.customer_id env.claimed_at e)

  dead-process :
      (rt : Runtime) (s : Store)
      → IsDead j s
      → StaysDead job j (process_campaign_dispatch_job rt env job s)
  unfolding process_campaign_dispatch_job
  dead-process rt s h = dead_after_claim rt env.crash s _ h refl

-- Once a target is deferred, no sequence of passes, whatever the gates say and however the sends
-- end, makes the provider accept an e-mail for it; it stays deferred or ends suppressed or failed.
pub deferred_never_sent :
    (rt : Runtime) (j : ℕ) (passes : List (PassEnv × Job)) (s : Store)
    → IsDead j s
    → (accepted_for rt j passes s ≡ 0) × IsDead j (run_passes rt passes s)
unfolding run_passes accepted_for
deferred_never_sent rt j [] s h = (refl, h)
deferred_never_sent rt j ((env, job) ∷ passes) s h =
    let p = process_campaign_dispatch_job rt env job s in
    let (none_now, still) = dead-process env job j rt s h in
    let (none_later, dead_after) = deferred_never_sent rt j passes p.store still in
    (omega arith, dead_after)
