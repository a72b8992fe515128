-- ===== src/Worker.antt =====
-- apps/drainer/src/workers/dispatch.worker.ts: one pass of the dispatch worker over one job, and
-- the codes of packages/email/src/providers/interface.ts.
pub mod Stages
pub mod AtMostOnce
pub mod Deferred
pub mod LostAck
pub mod Retry
use Prim.Native.String.{String, [] as empty_text}
use text.Mathlib.Text.{◌==◌ as str_eq}
use win_back_ai.Base.{
  ℕ, zero, suc, ◌+◌, Bool, true, false, Option, none, some, List, [], ◌∷◌, ◌++◌, if◌then◌else◌,
}
use win_back_ai.Store.{TargetStatus, AuditEntry, suppressed_by_ses, Store}
use win_back_ai.Campaign
use win_back_ai.Campaign.{
  claim_target, resolve_terminal, start_sending, revert_to_pending, defer_target, StartResult,
  Terminal, ClaimTargetResult,
}
use win_back_ai.Completion
use win_back_ai.Completion.{SentArgs, CompletionResult, mark_sent_with_quota}
use win_back_ai.Gates.{
  Runtime, DispatchContext, TerminalGate, suppression, consent, freshness, frequency, GateOutcome,
  suppressed, deferred, passed, load_dispatch_context, run_gate_chain,
}

pub data EmailErrorCode : Type 0 where
  email_rate_limit email_transient email_auth email_invalid_request : EmailErrorCode
  email_account_suspended email_recipient_suppressed : EmailErrorCode

pub retryable : EmailErrorCode → Bool
retryable email_rate_limit = true
retryable email_transient = true
retryable _ = false

code_text : EmailErrorCode → String
code_text email_rate_limit = "email_rate_limit"
code_text email_transient = "email_transient"
code_text email_auth = "email_auth"
code_text email_invalid_request = "email_invalid_request"
code_text email_account_suspended = "email_account_suspended"
code_text email_recipient_suppressed = "email_recipient_suppressed"

gate_text : TerminalGate → String
gate_text suppression = "suppression"
gate_text consent = "consent"
gate_text freshness = "freshness"
gate_text frequency = "frequency"

-- What `emailProvider.send` does: it returns the provider's message id, or throws an
-- `EmailProviderError`, or anything else. With `ack_lost` the provider has accepted the e-mail and
-- the connection fails before the answer is read: `mapSesError` turns that into `email_transient`.
pub data SesReply : Type 0 where
  accepted : ℕ → SesReply
  ack_lost : SesReply
  rejected : EmailErrorCode → SesReply
  unknown_error : SesReply

-- What the database does with one attempt at the completion transaction: it answers, or it rolls
-- back with an error, or it commits and the answer is lost.
pub data TxFault : Type 0 where
  answered rolled_back answer_lost : TxFault

-- Where the process dies, if it does.
pub data Crash : Type 0 where
  never after_claim after_start after_send : Crash

-- What one pass meets outside the code: its clocks, the provider, the database, its own death.
pub record PassEnv : Type 0 where
  pub claimed_at : ℕ
  pub gated_at : ℕ
  pub sent_at : ℕ
  pub reply : SesReply
  pub fault : ℕ → TxFault
  pub crash : Crash

-- CampaignDispatchJobPayload, within the merchant's scope
pub record Job : Type 0 where
  pub message_id : ℕ
  pub campaign_id : ℕ
  pub customer_id : ℕ

pub data PassResult : Type 0 where
  returned thrown crashed : PassResult

-- The state that a pass leaves, the e-mails that the provider accepted in it, and how it ended.
pub record Pass : Type 0 where
  pub store : Store
  pub accepts : ℕ
  pub result : PassResult

abbrev pub ends : Store → ℕ → PassResult → Pass
ends s n r = record { store = s; accepts = n; result = r }

abbrev pub completion_tx_retries : ℕ
completion_tx_retries = 3

-- The loop over `attempt`; `attempts` counts those left.
pub complete : ℕ → ℕ → (ℕ → TxFault) → SentArgs → Store → Store × Option CompletionResult
complete zero attempt fault a s = (s, none)
complete (suc attempts) attempt fault a s = elim (fault attempt) [
  | answered ↦ (let (r, s') = mark_sent_with_quota a s in (s', some r))
  | rolled_back ↦ complete attempts (attempt + 1) fault a s
  | answer_lost ↦ complete attempts (attempt + 1) fault a (mark_sent_with_quota a s).1
]

append_audit : AuditEntry → Store → Store
append_audit e s = record s { audit = s.audit ++ e ∷ [] }

-- `handleSesError` on an EmailProviderError
handle_ses_error : Job → EmailErrorCode → Store → Pass
handle_ses_error j email_recipient_suppressed s =
    ends
      (append_audit (suppressed_by_ses j.message_id j.campaign_id j.customer_id)
        (resolve_terminal j.message_id "ses_suppressed" Terminal.suppressed s).1)
      0 returned
handle_ses_error j code s =
    if retryable code
    then ends (revert_to_pending j.message_id s).1 0 thrown
    else ends (resolve_terminal j.message_id (code_text code) Terminal.failed s).1 0 returned

abbrev sent_args : PassEnv → Job → ℕ → SentArgs
sent_args env j provider_id = record {
  message_id = j.message_id;
  campaign_id = j.campaign_id;
  customer_id = j.customer_id;
  provider_message_id = provider_id;
  now = env.sent_at;
}

-- After an accepted send: the completion, unless the process dies first.
after_accept : PassEnv → Job → ℕ → Crash → Store → Pass
after_accept env j provider_id after_send s = ends s 1 crashed
after_accept env j provider_id _ s =
    ends (complete completion_tx_retries 1 env.fault (sent_args env j provider_id) s).0 1 returned

-- The send, and what follows it. An unknown error is taken as transient.
send_and_complete : PassEnv → Job → SesReply → Store → Pass
send_and_complete env j (accepted provider_id) s = after_accept env j provider_id env.crash s
send_and_complete env j (rejected code) s = handle_ses_error j code s
send_and_complete env j ack_lost s = record (handle_ses_error j email_transient s) { accepts = 1 }
send_and_complete env j unknown_error s = ends (revert_to_pending j.message_id s).1 0 thrown

after_start_result : PassEnv → Job → Crash → StartResult × Store → Pass
after_start_result env j after_start (StartResult.started, s) = ends s 0 crashed
after_start_result env j _ (StartResult.started, s) = send_and_complete env j env.reply s
after_start_result env j crash (_, s) = ends s 0 returned

abbrev has_address : Option String → Bool
has_address none = false
has_address (some e) = if str_eq e "" then false else true

-- Stage 5: all gates are clear.
send_stage : PassEnv → Job → DispatchContext → Store → Pass
send_stage env j ctx s =
    if has_address ctx.customer_email
    then after_start_result env j env.crash (start_sending j.message_id env.sent_at s)
    else ends (defer_target j.message_id s).1 0 returned

-- Stage 4: apply the outcome.
apply_outcome : PassEnv → Job → DispatchContext → Option GateOutcome → Store → Pass
apply_outcome env j ctx none s = ends s 0 thrown
apply_outcome env j ctx (some (suppressed g)) s =
    ends (resolve_terminal j.message_id (gate_text g) Terminal.suppressed s).1 0 returned
apply_outcome env j ctx (some (deferred g)) s = ends (defer_target j.message_id s).1 0 returned
apply_outcome env j ctx (some passed) s = send_stage env j ctx s

-- The replay guard lets only these through.
abbrev pub is_dispatchable : TargetStatus → Bool
is_dispatchable TargetStatus.pending = true
is_dispatchable TargetStatus.deferred = true
is_dispatchable _ = false

-- Stages 2 and 3: the context, the replay guard, the gates.
guard_stage : Runtime → PassEnv → Job → Option DispatchContext → Store → Pass
guard_stage rt env j none s = ends s 0 returned
guard_stage rt env j (some ctx) s =
    if is_dispatchable ctx.target_status
    then apply_outcome env j ctx (run_gate_chain rt env.gated_at ctx s) s
    else ends s 0 returned

-- Stage 1, and all of the pass.
after_claim_result :
    Runtime → PassEnv → Job → Crash → Store → Option (ClaimTargetResult × Store) → Pass
after_claim_result rt env j crash s none = ends s 0 thrown
after_claim_result rt env j after_claim s (some (r, s')) = ends s' 0 crashed
after_claim_result rt env j _ s (some (r, s')) =
    guard_stage rt env j (load_dispatch_context j.message_id s') s'

pub process_campaign_dispatch_job : Runtime → PassEnv → Job → Store → Pass
process_campaign_dispatch_job rt env j s =
    after_claim_result rt env j env.crash s
      (claim_target j.message_id j.campaign_id j.customer_id env.claimed_at s)
