-- ===== src/Generation/Once.antt =====
-- A generation is completed once: later runs of its job, and runs that lose the race for it, write nothing.
use Prim.Native.String.{String}
use mathlib.Core.Path.{subst}
use win_back_ai.Base.{
  ℕ, Bool, List, Option, find_by, ◌≡◌, some, true, IsUnique, false, ◌-◌, ◌≤◌, refl, ltb, arith, ap,
  sym, ◌∙◌, find_by_key,
}
use win_back_ai.Generation.{
  update_pending, Generation, mark_completed, is_pending, estimate_cost_microcents, generation_key,
  spend_key, completed_with,
}
use win_back_ai.Generation.Job.{
  JobEnv, after_reply, complete_generation, process_ai_generate_job, generated, deliver, lost_race,
  was_deleted, code_for, completed_job, generation_staleness_ms, already_terminal,
}
use win_back_ai.Generation.Handler.{GenerationDb, recipient_key}
use win_back_ai.Generation.Completed.{
  text_for, IsCompletion, can_deliver, complete_generation-pending, process-terminal,
  deliver_complete,
}

-- The run of a job for the row `g` gets a text at a known cost, and can deliver it.
abbrev pub IsReady : JobEnv → GenerationDb → Generation → String → ℕ → ℕ → ℕ → Type 0
IsReady env db g content input output cost =
    (is_pending g.status ≡ true)
    × (env.picked_at - g.created_at ≤ generation_staleness_ms)
    × (env.reply ≡ generated content input output)
    × (estimate_cost_microcents env.config.ai_provider env.config.ai_model input output ≡ some cost)
    × (can_deliver env (was_deleted (find_by recipient_key g.customer_id db.recipients))
          g.discount_value_percent
        ≡ true)

reply_delivers :
    (env : JobEnv) (g : Generation) (deleted : Bool) (db : GenerationDb) (content : String)
    (i o : ℕ) {cost : ℕ}
    → estimate_cost_microcents env.config.ai_provider env.config.ai_model i o ≡ some cost
    → after_reply env g deleted (generated content i o) db
      ≡ deliver env g.id deleted content cost db g.discount_value_percent
unfolding after_reply
reply_delivers env g deleted db content i o c = rw (c, after_reply) refl

process-ready :
    (env : JobEnv) (x : ℕ) (db : GenerationDb) {g : Generation} {content : String} {i o cost : ℕ}
    → find_by generation_key x db.generations ≡ some g
    → IsReady env db g content i o cost
    → process_ai_generate_job env x db
      ≡ complete_generation env x g.discount_value_percent
          (text_for env g.discount_value_percent content)
          cost
          (env.meanwhile db)
unfolding process_ai_generate_job after_reply
process-ready env x db {g} {content} {i} {o} {cost} e (p, s, r, c, d) =
    rw (e, process_ai_generate_job)
      (rw p (
        rw fresh (
          ap (λ v. after_reply env g deleted v (env.meanwhile db)) r
          ∙ reply_delivers env g deleted (env.meanwhile db) content i o c
          ∙ deliver_complete env g.id deleted content cost (env.meanwhile db)
              g.discount_value_percent d
          ∙ ap
              (λ k.
                complete_generation env k g.discount_value_percent
                  (text_for env g.discount_value_percent content) cost (env.meanwhile db))
              (find_by_key generation_key x db.generations {a = g} e))))
  where
    deleted : Bool
    deleted = was_deleted (find_by recipient_key g.customer_id db.recipients)

    fresh : ltb generation_staleness_ms (env.picked_at - g.created_at) ≡ false
    fresh = ground arith

module _ (env : JobEnv) (x start : ℕ) (db : GenerationDb) {g : Generation} {content : String}
    {i o cost : ℕ} where
  -- A run of a job that is ready, on a row that no other worker has finished meanwhile, completes
  -- the generation: the row and its message get the text, and each sum of the spend from a day not behind
  -- the run's goes up by the cost. Every later run of the job leaves the tables as they are.
  pub job_completes :
      (env' : JobEnv) {g' : Generation}
      → find_by generation_key x db.generations ≡ some g
      → IsReady env db g content i o cost
      → find_by generation_key x (env.meanwhile db).generations ≡ some g'
      → is_pending g'.status ≡ true
      → IsUnique spend_key (env.meanwhile db).buckets
      → ((process_ai_generate_job env x db).1 ≡ completed_job)
        × IsCompletion env x start g' g.discount_value_percent
            (text_for env g.discount_value_percent content)
            cost
            (env.meanwhile db)
            (process_ai_generate_job env x db).0
        × (process_ai_generate_job env' x (process_ai_generate_job env x db).0
            ≡ ((process_ai_generate_job env x db).0, already_terminal))
  job_completes env' {g'} e r e' p' u =
      subst
        (λ q.
          (q.1 ≡ completed_job)
          × IsCompletion env x start g' g.discount_value_percent
              (text_for env g.discount_value_percent content) cost (env.meanwhile db) q.0
          × (process_ai_generate_job env' x q.0 ≡ (q.0, already_terminal)))
        (sym (process-ready env x db {g = g} {content = content} {i = i} {o = o} {cost = cost} e r))
        (done.0, done.1, process-terminal env' x _ done.1.0 refl)
    where
      done :
          ((complete_generation env x g.discount_value_percent
              (text_for env g.discount_value_percent content)
              cost
              (env.meanwhile db)).1
            ≡ completed_job)
          × IsCompletion env x start g' g.discount_value_percent
              (text_for env g.discount_value_percent content)
              cost
              (env.meanwhile db)
              (complete_generation env x g.discount_value_percent
                (text_for env g.discount_value_percent content)
                cost
                (env.meanwhile db)).0
      done =
          complete_generation-pending env x start g.discount_value_percent
            (text_for env g.discount_value_percent content) cost (env.meanwhile db) {g = g'} e' p' u

update_pending-lost :
    (x : ℕ) (f : Generation → Generation) (gs : List Generation) {g : Generation}
    → find_by generation_key x gs ≡ some g
    → is_pending g.status ≡ false
    → (update_pending x f gs).0 ≡ false
unfolding update_pending
update_pending-lost x f gs e p = rw (e, update_pending) p

complete_generation-lost :
    (env : JobEnv) (x : ℕ) (discount : Option ℕ) (text : String) (cost : ℕ) (db : GenerationDb)
    {g : Generation}
    → find_by generation_key x db.generations ≡ some g
    → is_pending g.status ≡ false
    → complete_generation env x discount text cost db ≡ (db, lost_race)
unfolding complete_generation mark_completed
complete_generation-lost env x discount text cost db {g} e p = rw missed refl
  where
    missed : (mark_completed x text cost (code_for env.code discount) db.generations).0 ≡ false
    missed =
        update_pending-lost x (completed_with text cost (code_for env.code discount)) db.generations
          {g = g} e p

-- Two workers pick up the same row, and the first completes it while the second waits for its
-- provider. The second run then ends without a write: the tables are those of the first run.
pub double_pickup :
    (first second : JobEnv) (x : ℕ) (db : GenerationDb) (content content' : String)
    (i o cost i' o' cost' : ℕ) {g : Generation}
    → find_by generation_key x db.generations ≡ some g
    → IsReady first db g content i o cost
    → first.meanwhile db ≡ db
    → IsReady second db g content' i' o' cost'
    → second.meanwhile db ≡ (process_ai_generate_job first x db).0
    → IsUnique spend_key db.buckets
    → process_ai_generate_job second x db ≡ ((process_ai_generate_job first x db).0, lost_race)
double_pickup first second x db content content' i o cost i' o' cost' {g} e r m r' m' u =
    process-ready second x db {g = g} {content = content'} {i = i'} {o = o'} {cost = cost'} e r'
    ∙ ap
        (complete_generation second x g.discount_value_percent
          (text_for second g.discount_value_percent content') cost')
        m'
    ∙ complete_generation-lost second x g.discount_value_percent _ cost'
        (process_ai_generate_job first x db).0 finished.1.0 refl
  where
    finished :
        ((process_ai_generate_job first x db).1 ≡ completed_job)
        × IsCompletion first x 0 g g.discount_value_percent
            (text_for first g.discount_value_percent content)
            cost
            (first.meanwhile db)
            (process_ai_generate_job first x db).0
        × (process_ai_generate_job first x (process_ai_generate_job first x db).0
            ≡ ((process_ai_generate_job first x db).0, already_terminal))
    finished =
        job_completes first x 0 db {g = g} {content = content} {i = i} {o = o} {cost = cost} first
          {g' = g} e r (subst (λ t. find_by generation_key x t.generations ≡ some g) (sym m) e) r.0
          (subst (λ t. IsUnique spend_key t.buckets) (sym m) u)
