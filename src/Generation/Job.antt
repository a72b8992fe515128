-- ===== src/Generation/Job.antt =====
-- apps/drainer/src/workers/ai-generate.worker.ts: one run of an ai.generate job. The provider, the
-- minting of a discount and the text with the discount's tokens replaced are parameters, and so is
-- what other workers do to the tables while this one waits for the provider.
use Prim.Native.String.{String}
use win_back_ai.Base.{
  ℕ, Bool, Option, ◌*◌, List, find_by, if◌then◌else◌, some, true, [], false, none, ◌++◌, not, ◌∷◌,
  ltb, ◌-◌,
}
use win_back_ai.Generation.{
  Generation, GenerationError, estimate_cost_microcents, mark_completed, mark_failed,
  update_generated_text, generation_key, increment_spend, is_pending,
}
use win_back_ai.Generation.Handler.{
  AiConfig, GenerationAudit, GenerationDb, Recipient, generation_blocked, generation_failed,
  discount_created, recipient_key,
}

-- packages/ai/src/providers/interface.ts
pub data AiProviderErrorCode : Type 0 where
  rate_limit transient content_blocked auth invalid_request : AiProviderErrorCode

abbrev pub is_retryable_error : AiProviderErrorCode → Bool
is_retryable_error AiProviderErrorCode.rate_limit = true
is_retryable_error AiProviderErrorCode.transient = true
is_retryable_error _ = false

pub data ProviderReply : Type 0 where
  generated : (content : String) → (input_tokens output_tokens : ℕ) → ProviderReply
  provider_error : AiProviderErrorCode → ProviderReply
  unknown_error : ProviderReply

-- `code` is the code of this generation, and `minted` whether the shop has it in the end.
pub record JobEnv : Type 0 where
  pub picked_at : ℕ
  pub completed_at : ℕ
  pub config : AiConfig
  pub reply : ProviderReply
  pub code : String
  pub minted : Bool
  pub substitute : String → String → ℕ → String
  pub meanwhile : GenerationDb → GenerationDb

-- How a run ends; a retry follows the last three, which throw.
pub data JobEnd : Type 0 where
  row_missing already_terminal stale redacted failed_for_good lost_race completed_job : JobEnd
  rethrown mint_failed cost_unknown : JobEnd

abbrev pub generation_staleness_ms : ℕ
generation_staleness_ms = 24 * 60 * 60 * 1000

-- The id of the row's error for a code that is not retried.
abbrev last_error_of : AiProviderErrorCode → GenerationError
last_error_of AiProviderErrorCode.auth = GenerationError.auth
last_error_of AiProviderErrorCode.invalid_request = GenerationError.invalid_request
last_error_of _ = GenerationError.content_blocked

abbrev audit_of : AiProviderErrorCode → ℕ → GenerationAudit
audit_of AiProviderErrorCode.content_blocked x = generation_blocked x
audit_of _ x = generation_failed x

unfoldable pub fail_generation : ℕ → GenerationError → GenerationDb → GenerationDb
unfolding mark_failed
fail_generation x e db = record db { generations = (mark_failed x e db.generations).1 }

-- handleProviderError
unfoldable pub handle_provider_error :
    ℕ → AiProviderErrorCode → GenerationDb → GenerationDb × JobEnd
unfolding fail_generation
handle_provider_error x c db = if is_retryable_error c then (db, rethrown) else (
  (let db' = fail_generation x (last_error_of c) db in
      record db' { audit = db'.audit ++ audit_of c x ∷ [] }),
  failed_for_good,
)

abbrev mint_audit : ℕ → Option ℕ → List GenerationAudit
mint_audit x none = []
mint_audit x (some percent) = discount_created x percent ∷ []

-- The code that goes with a discount.
abbrev pub code_for : String → Option ℕ → Option String
code_for code none = none
code_for code (some percent) = some code

-- The three writes of one transaction, and the log entry of a discount.
unfoldable pub complete_generation :
    JobEnv → ℕ → Option ℕ → String → ℕ → GenerationDb → GenerationDb × JobEnd
unfolding mark_completed update_generated_text increment_spend
complete_generation env x discount text cost db =
    let (is_updated, gs) = mark_completed x text cost (code_for env.code discount) db.generations in
    if is_updated
    then (
      record db {
        generations = gs;
        drafts = update_generated_text x text db.drafts;
        buckets = increment_spend env.completed_at cost db.buckets;
        audit = db.audit ++ mint_audit x discount;
      },
      completed_job,
    )
    else (db, lost_race)

abbrev pub was_deleted : Option Recipient → Bool
was_deleted none = false
was_deleted (some r) = r.is_deleted

-- Steps 3.5 and 4 for the row `x`, with the discount of its row. `deleted` is what the pick-up read of
-- the customer.
unfoldable pub deliver :
    JobEnv → ℕ → Bool → String → ℕ → GenerationDb → Option ℕ → GenerationDb × JobEnd
unfolding complete_generation fail_generation
deliver env x deleted content cost db none = complete_generation env x none content cost db
deliver env x deleted content cost db (some percent) =
    if deleted
    then (fail_generation x GenerationError.discount_customer_redacted db, redacted)
    else if not env.minted
    then (db, mint_failed)
    else complete_generation env x (some percent) (env.substitute content env.code percent) cost db

-- Steps 2 and 3, on the tables as they are after the call.
unfoldable pub after_reply :
    JobEnv → Generation → Bool → ProviderReply → GenerationDb → GenerationDb × JobEnd
unfolding handle_provider_error deliver estimate_cost_microcents
after_reply env g deleted unknown_error db = (db, rethrown)
after_reply env g deleted (provider_error c) db = handle_provider_error g.id c db
after_reply env g deleted (generated content input output) db =
    elim (estimate_cost_microcents env.config.ai_provider env.config.ai_model input output) [
      | none ↦ (db, cost_unknown)
      | some cost ↦ deliver env g.id deleted content cost db g.discount_value_percent
    ]

unfoldable pub process_ai_generate_job : JobEnv → ℕ → GenerationDb → GenerationDb × JobEnd
unfolding after_reply fail_generation
process_ai_generate_job env x db = elim (find_by generation_key x db.generations) [
  | none ↦ (db, row_missing)
  | some g ↦
      (if not (is_pending g.status)
        then (db, already_terminal)
        else if ltb generation_staleness_ms (env.picked_at - g.created_at)
        then (fail_generation x GenerationError.generation_stale db, stale)
        else after_reply env g (was_deleted (find_by recipient_key g.customer_id db.recipients))
            env.reply (env.meanwhile db))
]
