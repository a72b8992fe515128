-- ===== src/Generation/Runs.antt =====
-- Every order of runs of the handler and of jobs: what they keep of the generations and the drafts.
use mathlib.Core.Path.{subst}
use win_back_ai.Base.{
  ℕ, ◌≡◌, ◌⊎◌, Bool-cases, inl, inr, ◌++◌, ◌∷◌, [], none, refl, arith, Option, some, Option-cases,
  Bool, find_by, true, false, if◌then◌else◌, not, find_by_key, ltb, ◌-◌,
}
use win_back_ai.Generation.Handler.{
  GenerationDb, create_generation, generate_for, HandlerEnd, HandlerEnv, StateEvent, AiSettings,
  handle_customer_state_changed, new_generation, new_draft, check_estimate, check_settings,
  check_rate, check_spend, estimated_input_tokens, recipient_key,
}
use win_back_ai.Generation.{
  Generation, Draft, increment_and_check, estimate_cost_microcents, GenerationError, mark_completed,
  String, generation_key, mark_failed, update_pending, completed_with, failed_with,
  update_generated_text, generation_stale, is_pending,
}
use win_back_ai.Generation.Job.{
  JobEnv, process_ai_generate_job, JobEnd, after_reply, complete_generation, deliver,
  handle_provider_error, fail_generation, ProviderReply, AiProviderErrorCode, provider_error,
  code_for, generated, rate_limit, transient, unknown_error, content_blocked, auth, invalid_request,
  already_terminal, stale, was_deleted, generation_staleness_ms,
}

-- The tables that runs lead to. While a job waits for its provider, other runs may happen.
pub data Run : GenerationDb → GenerationDb → Type 0 where
  start : {db : GenerationDb} → Run db db
  handle :
      {db : GenerationDb} (mid : GenerationDb) (env : HandlerEnv) (e : StateEvent)
      → Run db mid
      → Run db (handle_customer_state_changed env e mid).0
  job :
      {db : GenerationDb} (mid : GenerationDb) (env : JobEnv) (x : ℕ)
      → Run db mid
      → Run mid (env.meanwhile mid)
      → Run db (process_ai_generate_job env x mid).0

-- A new generation with its draft, or nothing new.
abbrev pub IsAdded : GenerationDb → GenerationDb × HandlerEnd → Type 0
IsAdded db (db', k) =
    ((db'.generations ≡ db.generations) × (db'.drafts ≡ db.drafts))
    ⊎ ((g : Generation) × (d : Draft) × (db'.generations ≡ db.generations ++ g ∷ [])
        × (db'.drafts ≡ db.drafts ++ d ∷ [])
        × (g.id ≡ d.generation_id)
        × (g.generated_text ≡ none)
        × (d.generated_text ≡ ""))

IsAdded-create_generation :
    (env : HandlerEnv) (e : StateEvent) (st : AiSettings) (db : GenerationDb)
    → IsAdded db (create_generation env e st db)
unfolding create_generation
IsAdded-create_generation env e st db = elim (Bool-cases env.queue_is_up) [
  | inl q ↦ rw q (inr (new_generation env e st, new_draft env e, refl, refl, refl, refl, refl))
  | inr q ↦ rw q (inr (new_generation env e st, new_draft env e, refl, refl, refl, refl, refl))
]

IsAdded-generate_for :
    (env : HandlerEnv) (e : StateEvent) (st : AiSettings) (db : GenerationDb)
    → IsAdded db (generate_for env e st db)
unfolding generate_for
IsAdded-generate_for env e st db = ground (arith, IsAdded-create_generation env e st db)

IsAdded-check_estimate :
    (env : HandlerEnv) (e : StateEvent) (st : AiSettings) (db : GenerationDb) (o : Option ℕ)
    → IsAdded db (check_estimate env e st db o)
unfolding check_estimate
IsAdded-check_estimate env e st db none = inl (refl, refl)
IsAdded-check_estimate env e st db (some estimate) =
    ground (arith, IsAdded-generate_for env e st db)

IsAdded-check_settings :
    (env : HandlerEnv) (e : StateEvent) (db : GenerationDb) (o : Option AiSettings)
    → IsAdded db (check_settings env e db o)
unfolding check_settings check_rate check_spend
IsAdded-check_settings env e db none = inl (refl, refl)
IsAdded-check_settings env e db (some st) = ground (
  arith,
  IsAdded-check_estimate env e st
      (record db {
        counters = (increment_and_check env.now st.hourly_generation_cap db.counters).0;
      })
      (estimate_cost_microcents env.config.ai_provider env.config.ai_model estimated_input_tokens
        env.config.ai_max_tokens),
)

pub IsAdded-handle :
    (env : HandlerEnv) (e : StateEvent) (db : GenerationDb)
    → IsAdded db (handle_customer_state_changed env e db)
unfolding handle_customer_state_changed
IsAdded-handle env e db = ground (arith, IsAdded-check_settings env e db db.settings)

-- What a run of the job for the row `x` writes of the generations and the drafts.
abbrev pub IsWritten : ℕ → GenerationDb → GenerationDb × JobEnd → Type 0
IsWritten x db (db', k) =
    ((db'.generations ≡ db.generations) × (db'.drafts ≡ db.drafts))
    ⊎ (((err : GenerationError) × (db'.generations
            ≡ (update_pending x (failed_with err) db.generations).1)
          × (db'.drafts ≡ db.drafts))
        ⊎ ((text : String) × (cost : ℕ) × (code : Option String) × ((update_pending x
                (completed_with text cost code) db.generations).0
              ≡ true)
            × (db'.generations
                ≡ (update_pending x (completed_with text cost code) db.generations).1)
            × (db'.drafts ≡ update_generated_text x text db.drafts)))

IsWritten-handle_provider_error :
    (x : ℕ) (c : AiProviderErrorCode) (db : GenerationDb)
    → IsWritten x db (handle_provider_error x c db)
unfolding handle_provider_error fail_generation mark_failed
IsWritten-handle_provider_error x rate_limit db = inl (refl, refl)
IsWritten-handle_provider_error x transient db = inl (refl, refl)
IsWritten-handle_provider_error x content_blocked db =
    inr (inl (GenerationError.content_blocked, refl, refl))
IsWritten-handle_provider_error x auth db = inr (inl (GenerationError.auth, refl, refl))
IsWritten-handle_provider_error x invalid_request db =
    inr (inl (GenerationError.invalid_request, refl, refl))

IsWritten-complete_generation :
    (env : JobEnv) (x : ℕ) (discount : Option ℕ) (text : String) (cost : ℕ) (db : GenerationDb)
    → IsWritten x db (complete_generation env x discount text cost db)
unfolding complete_generation mark_completed
IsWritten-complete_generation env x discount text cost db =
    elim (Bool-cases
      (update_pending x (completed_with text cost (code_for env.code discount)) db.generations).0) [
        | inl q ↦ rw q (inr (inr (text, cost, code_for env.code discount, refl, refl, refl)))
        | inr q ↦ rw q (inl (refl, refl))
      ]

IsWritten-deliver :
    (env : JobEnv) (x : ℕ) (deleted : Bool) (content : String) (cost : ℕ) (db : GenerationDb)
    (o : Option ℕ)
    → IsWritten x db (deliver env x deleted content cost db o)
unfolding deliver fail_generation mark_failed
IsWritten-deliver env x deleted content cost db none =
    IsWritten-complete_generation env x none content cost db
IsWritten-deliver env x true content cost db (some percent) =
    inr (inl (GenerationError.discount_customer_redacted, refl, refl))
IsWritten-deliver env x false content cost db (some percent) = elim (Bool-cases env.minted) [
  | inl q ↦ rw q (
      IsWritten-complete_generation env x (some percent) (env.substitute content env.code percent)
        cost db)
  | inr q ↦ rw q (inl (refl, refl))
]

IsWritten-after_reply :
    (env : JobEnv) (g : Generation) (deleted : Bool) (r : ProviderReply) (db : GenerationDb)
    → IsWritten g.id db (after_reply env g deleted r db)
unfolding after_reply
IsWritten-after_reply env g deleted unknown_error db = inl (refl, refl)
IsWritten-after_reply env g deleted (provider_error c) db =
    IsWritten-handle_provider_error g.id c db
IsWritten-after_reply env g deleted (generated content i o) db =
    elim (Option-cases (estimate_cost_microcents env.config.ai_provider env.config.ai_model i o)) [
      | inl q ↦ rw (q, after_reply) (inl (refl, refl))
      | inr (cost, q) ↦
          rw (q, after_reply)
            (IsWritten-deliver env g.id deleted content cost db g.discount_value_percent)
    ]

pub IsWritten-process :
    (env : JobEnv) (x : ℕ) (db : GenerationDb)
    → IsWritten x db (process_ai_generate_job env x db)
      ⊎ IsWritten x (env.meanwhile db) (process_ai_generate_job env x db)
unfolding process_ai_generate_job fail_generation mark_failed
IsWritten-process env x db = elim (Option-cases (find_by generation_key x db.generations)) [
  | inl q ↦ rw (q, process_ai_generate_job) (inl (inl (refl, refl)))
  | inr (g, q) ↦
      rw (q, process_ai_generate_job)
        (found_row g (find_by_key generation_key x db.generations {a = g} q) (is_pending g.status)
          (ltb generation_staleness_ms (env.picked_at - g.created_at)))
]
  where
    found_row :
        (g : Generation)
        → g.id ≡ x
        → (b c : Bool)
        → IsWritten x db (
            if not b
            then (db, already_terminal)
            else if c
            then (fail_generation x generation_stale db, stale)
            else after_reply env g
                (was_deleted (find_by recipient_key g.customer_id db.recipients))
                env.reply
                (env.meanwhile db))
          ⊎ IsWritten x (env.meanwhile db) (
              if not b
              then (db, already_terminal)
              else if c
              then (fail_generation x generation_stale db, stale)
              else after_reply env g
                  (was_deleted (find_by recipient_key g.customer_id db.recipients))
                  env.reply
                  (env.meanwhile db))
    found_row g k false c = inl (inl (refl, refl))
    found_row g k true true = inl (inr (inl (generation_stale, refl, refl)))
    found_row g k true false = inr (
        subst
          (λ y. IsWritten y (env.meanwhile db) (
            after_reply env g (was_deleted (find_by recipient_key g.customer_id db.recipients))
              env.reply (env.meanwhile db)))
          k
          (IsWritten-after_reply env g
            (was_deleted (find_by recipient_key g.customer_id db.recipients)) env.reply
            (env.meanwhile db)))
