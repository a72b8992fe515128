-- ===== src/Sweep.antt =====
-- The producer half of the dispatch: `findDispatchableDrafts` and `findDeferredTargets` of
-- packages/db/src/repositories/campaign.repository.ts, and the pass over one merchant of
-- apps/scheduler/src/handlers/dispatch-sweep.ts. Every campaign here is an e-mail campaign, the one
-- channel of the schema.
pub mod Arms
use Prim.Native.String.{String}
use text.Mathlib.Text.{◌==◌ as str_eq}
use win_back_ai.Store.{
  MessageStatus, GenerationStatus, CampaignStatus, TargetStatus, Band, Target, Message, Campaign,
  Store, target_of, customer_key, campaign_key, band_code,
}
use win_back_ai.Campaign.{is_some, is_draft, resolve_terminal, Terminal}
use win_back_ai.Worker.{Job}
use win_back_ai.Base.{
  Bool, List, Option, ◌+◌, false, filter, ltb, none, some, true, ℕ, ◌&&◌, ◌++◌, ◌∷◌, [], find_by,
  if◌then◌else◌, not, take, ◌==◌, ◌||◌, leb, sort_by, ◌-◌,
}

abbrev pub default_dispatch_take : ℕ
default_dispatch_take = 500

-- MAX_DISPATCH_AGE_MS, 3 days
abbrev pub max_dispatch_age_ms : ℕ
max_dispatch_age_ms = 259200000

-- `"triggerState" = ANY ("triggerStates")`
has_band : Band → List Band → Bool
has_band b [] = false
has_band b (c ∷ cs) = band_code c == band_code b || has_band b cs

abbrev pub is_active : CampaignStatus → Bool
is_active CampaignStatus.active = true
is_active _ = false

-- `ORDER BY c."createdAt", c."id"`
earlier : Campaign → Campaign → Bool
earlier c d = ltb c.created_at d.created_at || c.created_at == d.created_at && leb c.id d.id

abbrev older_of : Campaign → Option Campaign → Campaign
older_of c none = c
older_of c (some d) = if earlier c d then c else d

-- The campaign that `DISTINCT ON (m."id")` keeps for a draft of this band.
winning_campaign : Band → List Campaign → Option Campaign
unfolding has_band
winning_campaign b [] = none
winning_campaign b (c ∷ cs) =
    let rest = winning_campaign b cs in
    if is_active c.status && has_band b c.trigger_states then some (older_of c rest) else rest

abbrev is_completed : GenerationStatus → Bool
is_completed GenerationStatus.completed = true
is_completed _ = false

-- the joined customer row, not soft-deleted
customer_is_live : ℕ → Store → Bool
customer_is_live c s = elim (find_by customer_key c s.customers) [
  | none ↦ false
  | some r ↦ not r.deleted
]

-- The WHERE clause, without the campaign.
is_ready : Store → Message → Bool
is_ready s m =
    is_draft m.status
    && is_completed m.generation_status
    && not (str_eq m.generated_text "")
    && customer_is_live m.customer_id s
    && not (is_some (target_of m.id s))

job_of : Message → Campaign → Job
job_of m c = record { message_id = m.id; campaign_id = c.id; customer_id = m.customer_id }

-- The rows of the join that the WHERE clause keeps, one for each message.
drafts_of : Store → List Message → List Job
drafts_of s [] = []
drafts_of s (m ∷ ms) =
    let rest = drafts_of s ms in
    if is_ready s m
    then elim (winning_campaign m.trigger_state s.campaigns) [
      | none ↦ rest
      | some c ↦ job_of m c ∷ rest
    ]
    else rest

abbrev message_id_of : Message → ℕ
message_id_of m = m.id

pub find_dispatchable_drafts : ℕ → Store → List Job
find_dispatchable_drafts limit s = take limit (drafts_of s (sort_by message_id_of s.messages))

abbrev pub is_deferred : TargetStatus → Bool
is_deferred TargetStatus.deferred = true
is_deferred _ = false

-- `findDeferredTargets`: the rows; the campaign's status is read with each.
find_deferred_targets : Store → List Target
find_deferred_targets s = filter (λ t. is_deferred t.status) s.targets

-- the campaign behind the foreign key
campaign_active : List Campaign → ℕ → Bool
campaign_active cs c = elim (find_by campaign_key c cs) [
  | none ↦ false
  | some r ↦ is_active r.status
]

-- What arm 2 does with one deferred target.
pub data Verdict : Type 0 where
  stale paused reenter : Verdict

pub verdict : ℕ → List Campaign → Target → Verdict
unfolding campaign_active
verdict started_at cs t =
    if ltb max_dispatch_age_ms (started_at - t.created_at)
    then stale
    else if campaign_active cs t.campaign_id
    then reenter
    else paused

pub record Swept : Type 0 where
  pub store : Store
  pub to_enqueue : List Job
  pub stale_expired : ℕ
  pub paused_resolved : ℕ

target_job : Target → Job
target_job t = record {
  message_id = t.message_id;
  campaign_id = t.campaign_id;
  customer_id = t.customer_id;
}

-- One round of the loop over the deferred targets.
arm_two_step : Verdict → Target → Swept → Swept
arm_two_step stale t w = record w {
  store = (resolve_terminal t.message_id "deferred_stale" Terminal.suppressed w.store).1;
  stale_expired = w.stale_expired + 1;
}
arm_two_step paused t w = record w {
  store = (resolve_terminal t.message_id "campaign_paused" Terminal.suppressed w.store).1;
  paused_resolved = w.paused_resolved + 1;
}
arm_two_step reenter t w = record w { to_enqueue = w.to_enqueue ++ target_job t ∷ [] }

arm_two : ℕ → List Campaign → List Target → Swept → Swept
arm_two started_at cs [] w = w
arm_two started_at cs (t ∷ ts) w =
    arm_two started_at cs ts (arm_two_step (verdict started_at cs t) t w)

-- Before the loop: arm 1's drafts are already in the list of jobs.
abbrev pub start_sweep : Store → Swept
start_sweep s = record {
  store = s;
  to_enqueue = find_dispatchable_drafts default_dispatch_take s;
  stale_expired = 0;
  paused_resolved = 0;
}

-- The pass over one merchant: what it writes, and the jobs that it enqueues.
pub sweep_merchant : ℕ → Store → Swept
sweep_merchant started_at s =
    arm_two started_at s.campaigns (find_deferred_targets s) (start_sweep s)
