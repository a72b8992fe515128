-- ===== src/Examples/Dispatch.antt =====
-- The dispatch of one message: a store with a pending target whose gates are clear, and passes of
-- the worker, the sweep and the completion over it.
use win_back_ai.Base.{
  ℕ, find_by, ◌∷◌, [], none, some, false, refl, All, IsKeyed, ◌≡◌, true, ◌↔◌, ◌+◌, ◌⊎◌, ◌≤◌,
}
use win_back_ai.Completion.{
  sum_since, utc_midnight, get_quota_usage, SentArgs, mark_sent_with_quota, CompletionResult,
  noop_already_terminal, status_or_sent,
}
use win_back_ai.Gates.{
  load_dispatch_context, run_gate_chain, is_suppressed, has_qualifying_order_since,
  count_sent_since, is_within_send_window, hour_in_timezone, over_quota, passed, DispatchContext,
  Runtime, SendWindow,
}
use win_back_ai.Store.{
  Store, TargetStatus, MessageStatus, GenerationStatus, ConsentState, CampaignStatus, Band,
  Settings, Target, status_of, target_of, target_key,
}
use win_back_ai.Worker.{
  Job, SesReply, PassEnv, answered, never, accepted, ack_lost, rejected, email_transient,
}
use win_back_ai.Worker.LostAck.{IsClear, lost_ack_sends_twice}
use win_back_ai.Completion.Once.{can_complete, IsCommit, completion_exact}
use win_back_ai.Worker.AtMostOnce.{NoAckLost, accepted_for, run_passes, sends_at_most_once}
use win_back_ai.Worker.Deferred.{IsDead, deferred_never_sent}
use win_back_ai.Sweep.{sweep_merchant}
use win_back_ai.Sweep.Arms.{MayEnqueue, sweep_enqueues_only}
use win_back_ai.Gates.Chain.{Explains, gate_chain_exact, window_of}
use win_back_ai.Worker.Stages.{lock_of}

abbrev limits : Settings
limits = record {
  send_time_start_hour = 9;
  send_time_end_hour = 17;
  default_cooldown_hours = 24;
  max_daily_sends_per_customer = 1;
  daily_send_cap = 100;
  monthly_sends_cap = 1000;
}

abbrev target : TargetStatus → Target
target status = record {
  message_id = 1;
  campaign_id = 2;
  customer_id = 3;
  status = status;
  suppressed_by_gate = none;
  sent_at = none;
  send_started_at = none;
  created_at = 1000;
}

abbrev store : TargetStatus → Store
store status = record {
  targets = target status ∷ [];
  messages =
      record {
        id = 1;
        customer_id = 3;
        status = MessageStatus.draft;
        sent_at = none;
        generated_text = "We miss you";
        provider_message_id = none;
        generation_status = GenerationStatus.completed;
        trigger_state = Band.lost;
        generation_created_at = 900;
      }
      ∷ [];
  campaigns =
      record {
        id = 2;
        status = CampaignStatus.active;
        trigger_states = Band.lost ∷ [];
        created_at = 800;
      }
      ∷ [];
  customers =
      record {
        id = 3;
        consent = ConsentState.subscribed;
        email = some "a@example.com";
        deleted = false;
      }
      ∷ [];
  orders = [];
  suppressions = [];
  buckets = [];
  settings = some limits;
  timezone = none;
  audit = [];
}

abbrev runtime : Runtime
runtime = record { format_hour = λ tz now. some 10; first_of_month = λ now. 0 }

abbrev job : Job
job = record { message_id = 1; campaign_id = 2; customer_id = 3 }

abbrev pass : SesReply → PassEnv
pass reply = record {
  claimed_at = 2000;
  gated_at = 2001;
  sent_at = 2002;
  reply = reply;
  fault = λ i. answered;
  crash = never;
}

-- The retry comes after the backoff of 5000 ms.
abbrev retry_pass : PassEnv
retry_pass = record (pass (accepted 77)) { claimed_at = 7003; gated_at = 7004; sent_at = 7005 }

abbrev ctx : DispatchContext
ctx = record {
  target_status = TargetStatus.pending;
  customer_id = 3;
  consent_state = ConsentState.subscribed;
  generation_created_at = 900;
  timezone = none;
  limits = limits;
  customer_email = some "a@example.com";
  generated_text = "We miss you";
}

abbrev args : SentArgs
args = record {
  message_id = 1;
  campaign_id = 2;
  customer_id = 3;
  provider_message_id = 77;
  now = 2002;
}

clear : (now : ℕ) → IsClear runtime now job (store TargetStatus.pending)
unfolding find_by load_dispatch_context run_gate_chain is_suppressed has_qualifying_order_since
    count_sent_since get_quota_usage sum_since is_within_send_window hour_in_timezone over_quota
    utc_midnight
clear now = record {
  target = target TargetStatus.pending;
  found = refl;
  is_pending = refl;
  ctx = ctx;
  loaded = refl;
  gates = refl;
  address = refl;
}

keyed : (status : TargetStatus) → IsKeyed target_key (store status).targets
unfolding find_by
keyed status = (refl, tt)

abbrev deferred_store : Store
deferred_store = store TargetStatus.deferred

abbrev open_window : SendWindow
open_window = record { in_window = true; used_utc_fallback = true }

window_open : window_of runtime 2001 ctx ≡ some open_window
unfolding is_within_send_window hour_in_timezone
window_open = refl

rejected_clean : NoAckLost (pass (rejected email_transient), job)
rejected_clean h = cc

accepted_clean : NoAckLost (pass (accepted 77), job)
accepted_clean h = cc

deferred-IsDead : IsDead 1 deferred_store
unfolding find_by
deferred-IsDead = refl

sends_at_most_once_example :
    accepted_for runtime 1
        ((pass (rejected email_transient), job) ∷ (pass (accepted 77), job) ∷ [])
        (store TargetStatus.pending)
      + lock_of 1 (store TargetStatus.pending)
    ≤ 1
sends_at_most_once_example =
    sends_at_most_once runtime 1
      ((pass (rejected email_transient), job) ∷ (pass (accepted 77), job) ∷ [])
      (store TargetStatus.pending) (rejected_clean, (accepted_clean, tt))

deferred_never_sent_example :
    (accepted_for runtime 1 ((pass (accepted 77), job) ∷ []) deferred_store ≡ 0)
    × IsDead 1 (run_passes runtime ((pass (accepted 77), job) ∷ []) deferred_store)
deferred_never_sent_example =
    deferred_never_sent runtime 1 ((pass (accepted 77), job) ∷ []) deferred_store deferred-IsDead

lost_ack_sends_twice_example :
    accepted_for runtime 1
      ((pass ack_lost, job) ∷ (retry_pass, job) ∷ [])
      (store TargetStatus.pending)
    ≡ 2
lost_ack_sends_twice_example =
    lost_ack_sends_twice runtime (pass ack_lost) retry_pass job 77 (store TargetStatus.pending)
      (clear 2001) refl refl (clear 7004) refl refl

completion_exact_example :
    ((can_complete 1 (store TargetStatus.sending) ≡ true)
      × ((mark_sent_with_quota args (store TargetStatus.sending)).0 ≡ CompletionResult.sent)
      × IsCommit args
          (store TargetStatus.sending)
          (mark_sent_with_quota args (store TargetStatus.sending)).1)
    ⊎ ((can_complete 1 (store TargetStatus.sending) ≡ false)
        × ((mark_sent_with_quota args (store TargetStatus.sending)).0
            ≡ noop_already_terminal
                (status_or_sent (status_of (target_of 1 (store TargetStatus.sending)))))
        × ((mark_sent_with_quota args (store TargetStatus.sending)).1 ≡ store TargetStatus.sending))
completion_exact_example = completion_exact args (store TargetStatus.sending)

gate_chain_exact_example :
    (run_gate_chain runtime 2001 ctx (store TargetStatus.pending) ≡ some passed)
    ↔ Explains runtime 2001 ctx open_window (store TargetStatus.pending) passed
gate_chain_exact_example =
    gate_chain_exact runtime 2001 ctx (store TargetStatus.pending) open_window window_open passed

sweep_enqueues_only_example :
    All (MayEnqueue deferred_store) (sweep_merchant 5000 deferred_store).to_enqueue
sweep_enqueues_only_example = sweep_enqueues_only deferred_store 5000 (keyed TargetStatus.deferred)
