-- ===== src/Worker/LostAck.antt =====
-- A pass of apps/drainer/src/workers/dispatch.worker.ts whose acknowledgement of the provider is lost,
-- which `mapSesError` makes a retryable error, and the pass that retries it.
use win_back_ai.Store.{TargetStatus, Target, Store, target_of, target_key}
use win_back_ai.Campaign.{
  claim_target, start_sending, ClaimTargetResult, StartResult, set_pending, write_target,
  is_sending, set_sending, is_pending, guarded_target, revert_to_pending,
}
use win_back_ai.Gates.{Runtime, DispatchContext, load_dispatch_context, run_gate_chain, passed}
use win_back_ai.Worker.{
  PassEnv, Job, never, process_campaign_dispatch_job, after_claim_result, guard_stage,
  apply_outcome, has_address, send_stage, after_start_result, send_and_complete, ack_lost, ends,
  thrown, accepted, after_accept, handle_ses_error, retryable,
}
use win_back_ai.Base.{ℕ, ◌≡◌, some, true, arith, find_by-update_by, refl, ◌∙◌, update_by, ◌∷◌, []}
use win_back_ai.Completion.{get_quota_usage}
use win_back_ai.Worker.AtMostOnce.{accepted_for}

-- The job's target is pending, all gates are clear at `now`, and the customer has an address.
pub record IsClear (rt : Runtime) (now : ℕ) (job : Job) (s : Store) : Type 0 where
  pub target : Target
  pub found : target_of job.message_id s ≡ some target
  pub is_pending : target.status ≡ TargetStatus.pending
  pub ctx : DispatchContext
  pub loaded : load_dispatch_context job.message_id s ≡ some ctx
  pub gates : run_gate_chain rt now ctx s ≡ some passed
  pub address : has_address ctx.customer_email ≡ true

context-status :
    (m : ℕ) (s : Store) (t : Target) (ctx : DispatchContext)
    → target_of m s ≡ some t
    → load_dispatch_context m s ≡ some ctx
    → ctx.target_status ≡ t.status
unfolding load_dispatch_context
context-status m s t ctx found loaded = ground arith

module _ (rt : Runtime) (env : PassEnv) (job : Job) (s : Store) (lives : env.crash ≡ never) where
  clear_start :
      IsClear rt env.gated_at job s
      → (start_sending job.message_id env.sent_at s).0 ≡ StartResult.started
  unfolding start_sending
  clear_start c = ground (arith, c.found, c.is_pending)

  clear_claim :
      IsClear rt env.gated_at job s
      → claim_target job.message_id job.campaign_id job.customer_id env.claimed_at s
        ≡ some (ClaimTargetResult.already_claimed, s)
  unfolding claim_target
  clear_claim c = ground (arith, c.found)

  -- A pass over a clear target that does not crash comes to the send.
  clear_pass :
      IsClear rt env.gated_at job s
      → process_campaign_dispatch_job rt env job s
        ≡ send_and_complete env job env.reply (start_sending job.message_id env.sent_at s).1
  unfolding process_campaign_dispatch_job after_claim_result guard_stage apply_outcome send_stage
      after_start_result
  clear_pass c = ground (
    arith,
    clear_claim c,
    clear_start c,
    context-status job.message_id s c.target c.ctx c.found c.loaded,
  )

-- The state after a send that failed and was reverted.
reverted : ℕ → ℕ → Store → Store
reverted m now s =
    write_target m is_sending set_pending (write_target m is_pending (set_sending now) s)

module _ (rt : Runtime) (now : ℕ) (job : Job) (s : Store) (c : IsClear rt now job s) (at : ℕ) where
  found_again :
      target_of job.message_id (reverted job.message_id at s)
      ≡ some (set_pending (set_sending at c.target))
  unfolding reverted write_target
  found_again = ground (
    arith,
    c.found,
    c.is_pending,
    find_by-update_by target_key job.message_id job.message_id
        (guarded_target is_pending (set_sending at)) s.targets (λ t. ground arith),
    find_by-update_by target_key job.message_id job.message_id
        (guarded_target is_sending set_pending)
        (update_by target_key job.message_id (guarded_target is_pending (set_sending at)) s.targets)
        (λ t. ground arith),
  )

  loaded_again :
      load_dispatch_context job.message_id (reverted job.message_id at s)
      ≡ load_dispatch_context job.message_id s
  unfolding load_dispatch_context reverted write_target
  loaded_again = ground (arith, found_again, c.found, c.is_pending)

  gates_again :
      run_gate_chain rt now c.ctx (reverted job.message_id at s) ≡ run_gate_chain rt now c.ctx s
  unfolding run_gate_chain reverted write_target get_quota_usage
  gates_again = refl

  IsClear-again : IsClear rt now job (reverted job.message_id at s)
  IsClear-again = record {
    target = set_pending (set_sending at c.target);
    found = found_again;
    is_pending = refl;
    ctx = c.ctx;
    loaded = loaded_again ∙ c.loaded;
    gates = gates_again ∙ c.gates;
    address = c.address;
  }

started_store :
    (rt : Runtime) (now : ℕ) (job : Job) (s : Store) (at : ℕ)
    → IsClear rt now job s
    → (start_sending job.message_id at s).1
      ≡ write_target job.message_id is_pending (set_sending at) s
unfolding start_sending
started_store rt now job s at c = ground (arith, c.found, c.is_pending)

lost_send :
    (env : PassEnv) (job : Job) (s : Store)
    → send_and_complete env job ack_lost
        (write_target job.message_id is_pending (set_sending env.sent_at) s)
      ≡ ends (reverted job.message_id env.sent_at s) 1 thrown
unfolding send_and_complete handle_ses_error retryable revert_to_pending reverted
lost_send env job s = refl

-- The pass whose acknowledgement is lost: one e-mail, and the target is pending again.
lost_pass :
    (rt : Runtime) (env : PassEnv) (job : Job) (s : Store)
    → IsClear rt env.gated_at job s
    → env.crash ≡ never
    → env.reply ≡ ack_lost
    → process_campaign_dispatch_job rt env job s
      ≡ ends (reverted job.message_id env.sent_at s) 1 thrown
lost_pass rt env job s c lives lost =
    clear_pass rt env job s lives c
    ∙ rw (started_store rt env.gated_at job s env.sent_at c) (simp lost (lost_send env job s))

accepts-of_send :
    (env : PassEnv) (job : Job) (id : ℕ) (s : Store)
    → (send_and_complete env job (accepted id) s).accepts ≡ 1
unfolding send_and_complete after_accept
accepts-of_send env job id s = ground arith

next_accepts :
    (rt : Runtime) (env : PassEnv) (job : Job) (id : ℕ) (s : Store)
    → IsClear rt env.gated_at job s
    → env.crash ≡ never
    → env.reply ≡ accepted id
    → (process_campaign_dispatch_job rt env job s).accepts ≡ 1
next_accepts rt env job id s c lives ok =
    rw (clear_pass rt env job s lives c)
      (simp ok (accepts-of_send env job id (start_sending job.message_id env.sent_at s).1))

-- If the acknowledgement of a send is lost, and the retry, at whatever time it comes, finds the gates clear
-- for the tables as they were before the first attempt, and is acknowledged, then the provider has accepted two
-- e-mails for the one message.
pub lost_ack_sends_twice :
    (rt : Runtime) (first retry : PassEnv) (job : Job) (id : ℕ) (s : Store)
    → IsClear rt first.gated_at job s
    → first.crash ≡ never
    → first.reply ≡ ack_lost
    → IsClear rt retry.gated_at job s
    → retry.crash ≡ never
    → retry.reply ≡ accepted id
    → accepted_for rt job.message_id ((first, job) ∷ (retry, job) ∷ []) s ≡ 2
unfolding accepted_for
lost_ack_sends_twice rt first retry job id s c lives lost again lives' ok =
    rw (lost_pass rt first job s c lives lost) (
      ground (
        arith,
        next_accepts rt retry job id (reverted job.message_id first.sent_at s)
            (IsClear-again rt retry.gated_at job s again first.sent_at) lives' ok,
      ))
