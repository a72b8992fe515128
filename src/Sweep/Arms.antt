-- ===== src/Sweep/Arms.antt =====
-- What the dispatch sweep enqueues, and what becomes of each deferred target.
-- apps/scheduler/src/handlers/dispatch-sweep.ts
use win_back_ai.Store.{
  TargetStatus, Store, target_of, status_of, Message, Campaign, Target, target_key, CampaignStatus,
}
use win_back_ai.Campaign.Transitions.{moved}
use win_back_ai.Worker.{Job}
use win_back_ai.Sweep.{
  drafts_of, is_ready, winning_campaign, job_of, arm_two, Swept, is_deferred, Verdict, arm_two_step,
  verdict, find_deferred_targets, sweep_merchant, target_job, find_dispatchable_drafts, stale,
  paused, default_dispatch_take, reenter,
}
use win_back_ai.Base.{
  List, ℕ, ◌≡◌, All, none, true, ◌++◌, ◌∷◌, ◌⊎◌, Bool-cases, [], inl, some, Option-cases, arith,
  inr, Option, IsKeyed, All-filter, Bool, false, All-take, ltb, ◌*◌, ◌-◌,
}
use win_back_ai.Campaign.{is_open}

-- A message that has no target, or one that waits as `deferred`.
abbrev pub MayEnqueue : Store → Job → Type 0
MayEnqueue s job =
    (status_of (target_of job.message_id s) ≡ none)
    ⊎ (status_of (target_of job.message_id s) ≡ some TargetStatus.deferred)

module _ {ℓ κ} {A : Type ℓ} (P : A → Type κ) where
  All-append : (xs ys : List A) → All P xs → All P ys → All P (xs ++ ys)
  All-append [] ys hx hy = hy
  All-append (x ∷ xs) ys hx hy = (hx.0, All-append xs ys hx.1 hy)

module _ (s : Store) where
  ready-MayEnqueue : (m : Message) (c : Campaign) → is_ready s m ≡ true → MayEnqueue s (job_of m c)
  unfolding is_ready job_of
  ready-MayEnqueue m c h = inl (ground arith)

  drafts-MayEnqueue : (ms : List Message) → All (MayEnqueue s) (drafts_of s ms)
  unfolding drafts_of
  drafts-MayEnqueue [] = tt
  drafts-MayEnqueue (m ∷ ms) = elim (Bool-cases (is_ready s m)) [
    | inl ready ↦ elim (Option-cases (winning_campaign m.trigger_state s.campaigns)) [
      | inl e ↦ rw (ready, e) (drafts-MayEnqueue ms)
      | inr (c, e) ↦ rw (ready, e) ((ready-MayEnqueue m c ready, drafts-MayEnqueue ms))
    ]
    | inr busy ↦ rw busy (drafts-MayEnqueue ms)
  ]

-- A row that the deferred query returns.
abbrev IsDeferredRow : Store → Target → Type 0
IsDeferredRow s t = (target_of t.message_id s ≡ some t) × (is_deferred t.status ≡ true)

step-MayEnqueue :
    (s : Store) (v : Verdict) (t : Target) (w : Swept)
    → IsDeferredRow s t
    → All (MayEnqueue s) w.to_enqueue
    → All (MayEnqueue s) (arm_two_step v t w).to_enqueue
unfolding arm_two_step target_job
step-MayEnqueue s stale t w h k = k
step-MayEnqueue s paused t w h k = k
step-MayEnqueue s reenter t w h k =
    All-append (MayEnqueue s) w.to_enqueue (target_job t ∷ []) k
      (inr (ground (arith, h.0, h.1)), tt)

module _ (s : Store) (started_at : ℕ) where
  arm_two-MayEnqueue :
      (ts : List Target) (w : Swept)
      → All (IsDeferredRow s) ts
      → All (MayEnqueue s) w.to_enqueue
      → All (MayEnqueue s) (arm_two started_at s.campaigns ts w).to_enqueue
  unfolding arm_two
  arm_two-MayEnqueue [] w h k = k
  arm_two-MayEnqueue (t ∷ ts) w h k =
      arm_two-MayEnqueue ts (arm_two_step (verdict started_at s.campaigns t) t w) h.1
        (step-MayEnqueue s (verdict started_at s.campaigns t) t w h.0 k)

  deferred_rows : IsKeyed target_key s.targets → All (IsDeferredRow s) (find_deferred_targets s)
  unfolding find_deferred_targets
  deferred_rows keyed =
      All-filter (λ t. target_of t.message_id s ≡ some t) (λ t. is_deferred t.status) s.targets
        keyed

  -- With at most one target for a message, the sweep enqueues only messages that have no target or
  -- a deferred one. So a target left `pending`, as by a job whose retries are used up, or left
  -- `sending` by a crash, is enqueued by no sweep.
  pub sweep_enqueues_only :
      IsKeyed target_key s.targets → All (MayEnqueue s) (sweep_merchant started_at s).to_enqueue
  unfolding sweep_merchant find_dispatchable_drafts
  sweep_enqueues_only keyed =
      arm_two-MayEnqueue (find_deferred_targets s) _ (deferred_rows keyed)
        (All-take (MayEnqueue s) default_dispatch_take _ (drafts-MayEnqueue s _))

-- The target was claimed more than three days, in milliseconds, before the sweep.
unfoldable pub is_too_old : ℕ → Target → Bool
is_too_old started_at t = ltb (3 * 24 * 60 * 60 * 1000) (started_at - t.created_at)

-- The campaign is there, and active.
unfoldable pub is_running : Option Campaign → Bool
is_running none = false
is_running (some c) = elim c.status [ CampaignStatus.active ↦ true | _ ↦ false ]

-- What a verdict makes of a status.
abbrev ruled : Verdict → Option TargetStatus → Option TargetStatus
ruled reenter o = o
ruled _ o = moved is_open TargetStatus.suppressed o

abbrev is_reenter : Verdict → Bool
is_reenter reenter = true
is_reenter _ = false

abbrev pub job_key : Job → ℕ
job_key job = job.message_id
