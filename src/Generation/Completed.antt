-- ===== src/Generation/Completed.antt =====
-- The completion of a generation: what a run of its job that gets a text leaves behind.
use Prim.Native.String.{String}
use win_back_ai.Base.{
  ℕ, Option, List, some, find_by, none, ◌≡◌, true, IsUnique, find_by-update_by, if◌then◌else◌,
  mapped, ◌∙◌, ◌+◌, leb, Bool, update_by, ==_refl, false, not, ◌&&◌, refl, arith,
}
use win_back_ai.Generation.{
  update_pending, Generation, mark_completed, update_generated_text, generation_key, completed_with,
  is_pending, draft_key, spend_key, with_text, spent_since, utc_midnight,
}
use win_back_ai.Generation.Job.{
  JobEnv, complete_generation, code_for, completed_job, deliver, process_ai_generate_job,
  already_terminal,
}
use win_back_ai.Generation.Handler.{GenerationDb}
use win_back_ai.Generation.Spend.{spent_since-increment_spend}

find_by-update_pending :
    (x : ℕ) (f : Generation → Generation) (gs : List Generation) {g : Generation}
    → ((a : Generation) → (f a).id ≡ a.id)
    → find_by generation_key x gs ≡ some g
    → is_pending g.status ≡ true
    → ((update_pending x f gs).0 ≡ true)
      × (find_by generation_key x (update_pending x f gs).1 ≡ some (f g))
unfolding update_pending
find_by-update_pending x f gs {g} k e p = (
  rw (e, update_pending) p,
  find_by-update_by generation_key x x (λ g. if is_pending g.status then f g else g) gs
        (λ a. ground (arith, k a))
      ∙ rw (==_refl x, e, p) refl,
)

-- The text of a delivery, with the tokens of a discount replaced.
abbrev pub text_for : JobEnv → Option ℕ → String → String
text_for env none content = content
text_for env (some percent) content = env.substitute content env.code percent

-- What the completion of `x` leaves behind.
abbrev pub IsCompletion :
    JobEnv → ℕ → ℕ → Generation → Option ℕ → String → ℕ → GenerationDb → GenerationDb → Type 0
IsCompletion env x start g discount text cost db db' =
    (find_by generation_key x db'.generations
      ≡ some (completed_with text cost (code_for env.code discount) g))
    × (find_by draft_key x db'.drafts ≡ mapped (with_text text) (find_by draft_key x db.drafts))
    × (spent_since start db'.buckets
        ≡ spent_since start db.buckets
          + (if leb start (utc_midnight env.completed_at) then cost else 0))

pub complete_generation-pending :
    (env : JobEnv) (x start : ℕ) (discount : Option ℕ) (text : String) (cost : ℕ)
    (db : GenerationDb) {g : Generation}
    → find_by generation_key x db.generations ≡ some g
    → is_pending g.status ≡ true
    → IsUnique spend_key db.buckets
    → ((complete_generation env x discount text cost db).1 ≡ completed_job)
      × IsCompletion env x start g discount text cost db
          (complete_generation env x discount text cost db).0
unfolding complete_generation mark_completed update_generated_text
complete_generation-pending env x start discount text cost db {g} e p u =
    rw marked.0 (
      refl,
      (marked.1, drafts, spent_since-increment_spend start env.completed_at cost db.buckets u),
    )
  where
    marked :
        ((mark_completed x text cost (code_for env.code discount) db.generations).0 ≡ true)
        × (find_by generation_key x
              (mark_completed x text cost (code_for env.code discount) db.generations).1
            ≡ some (completed_with text cost (code_for env.code discount) g))
    marked =
        find_by-update_pending x (completed_with text cost (code_for env.code discount))
          db.generations {g = g} (λ a. refl) e p

    drafts :
        find_by draft_key x (update_by draft_key x (with_text text) db.drafts)
        ≡ mapped (with_text text) (find_by draft_key x db.drafts)
    drafts =
        find_by-update_by draft_key x x (with_text text) db.drafts (λ a. refl) ∙ rw (==_refl x) refl

-- A generation can be delivered: it has no discount, or the shop has its code and the customer was
-- not deleted.
abbrev pub can_deliver : JobEnv → Bool → Option ℕ → Bool
can_deliver env deleted none = true
can_deliver env deleted (some percent) = not deleted && env.minted

pub deliver_complete :
    (env : JobEnv) (x : ℕ) (deleted : Bool) (content : String) (cost : ℕ) (db : GenerationDb)
    (o : Option ℕ)
    → can_deliver env deleted o ≡ true
    → deliver env x deleted content cost db o
      ≡ complete_generation env x o (text_for env o content) cost db
unfolding deliver
deliver_complete env x deleted content cost db none h = refl
deliver_complete env x deleted content cost db (some percent) h = ground (arith, h)

-- A second run of a job whose row is not pending changes nothing.
pub process-terminal :
    (env : JobEnv) (x : ℕ) (db : GenerationDb) {g : Generation}
    → find_by generation_key x db.generations ≡ some g
    → is_pending g.status ≡ false
    → process_ai_generate_job env x db ≡ (db, already_terminal)
unfolding process_ai_generate_job
process-terminal env x db e p = rw (e, process_ai_generate_job) (rw p refl)
