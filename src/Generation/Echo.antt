-- ===== src/Generation/Echo.antt =====
-- What every order of runs keeps: the drafts show the text of their generations.
use Prim.Native.String.{String}
use mathlib.Core.Path.{subst}
use win_back_ai.Base.{
  ℕ, Option, find_by, List, some, Bool, none, ◌≡◌, false, if◌then◌else◌, inl, true, ap, ◌==◌,
  mapped, ◌∙◌, sym, find_by-update_by, inr, or_else, refl, arith, ◌∷◌, [], find_by-append, ==_iff,
}
use win_back_ai.Generation.{
  update_generated_text, update_pending, Draft, Generation, draft_key, generation_key, is_pending,
  with_text, failed_with, completed_with,
}
use win_back_ai.Generation.Handler.{GenerationDb, HandlerEnd, handle_customer_state_changed}
use win_back_ai.Generation.Job.{JobEnd, process_ai_generate_job}
use win_back_ai.Generation.Runs.{
  Run, IsAdded, IsWritten, handle, IsAdded-handle, job, IsWritten-process, start,
}
use win_back_ai.Generation.Finished.{find_by-pending}

abbrev pub or_empty : Option String → String
or_empty none = ""
or_empty (some text) = text

-- The text that a generation has for its draft.
abbrev pub text_of : Option Generation → Option String
text_of none = none
text_of (some g) = some (or_empty g.generated_text)

abbrev pub draft_text : Option Draft → Option String
draft_text none = none
draft_text (some d) = some d.generated_text

-- The draft of every id has the text of its generation; neither is there without the other.
abbrev pub IsEchoed : GenerationDb → Type 0
IsEchoed db =
    (y : ℕ)
    → draft_text (find_by draft_key y db.drafts) ≡ text_of (find_by generation_key y db.generations)

echo-added :
    (db : GenerationDb) (r : GenerationDb × HandlerEnd) → IsAdded db r → IsEchoed db → IsEchoed r.0
unfolding find_by
echo-added db r (inl (h, k)) e y =
    ap (λ t. draft_text (find_by draft_key y t)) k
    ∙ e y
    ∙ sym (ap (λ t. text_of (find_by generation_key y t)) h)
echo-added db r (inr (g, d, h, k, l, m, n)) e y =
    ap (λ t. draft_text (find_by draft_key y t)) k
    ∙ ap draft_text (find_by-append draft_key y db.drafts (d ∷ []))
    ∙ joined (find_by draft_key y db.drafts) (find_by generation_key y db.generations) (e y)
    ∙ sym (ap text_of (find_by-append generation_key y db.generations (g ∷ [])))
    ∙ sym (ap (λ t. text_of (find_by generation_key y t)) h)
  where
    joined :
        (o : Option Draft) (p : Option Generation)
        → draft_text o ≡ text_of p
        → draft_text (or_else o (find_by draft_key y (d ∷ [])))
          ≡ text_of (or_else p (find_by generation_key y (g ∷ [])))
    joined none none q = ground (arith, l, m, n)
    joined none (some b) q = cc
    joined (some a) none q = cc
    joined (some a) (some b) q = q

-- A row that is there and pending.
abbrev is_open : Option Generation → Bool
is_open none = false
is_open (some g) = is_pending g.status

update_pending-open :
    (x : ℕ) (f : Generation → Generation) (gs : List Generation)
    → (update_pending x f gs).0 ≡ true
    → is_open (find_by generation_key x gs) ≡ true
unfolding update_pending
update_pending-open x f gs h = go (find_by generation_key x gs) h
  where
    go :
        (o : Option Generation)
        → elim o [ none ↦ false | some g ↦ is_pending g.status ] ≡ true
        → is_open o ≡ true
    go none h = h
    go (some g) h = h

find_by-update_generated_text :
    (x y : ℕ) (text : String) (ds : List Draft)
    → find_by draft_key y (update_generated_text x text ds) ≡ (
        if x == y then mapped (with_text text) (find_by draft_key y ds) else find_by draft_key y ds)
unfolding update_generated_text
find_by-update_generated_text x y text ds =
    find_by-update_by draft_key x y (with_text text) ds (λ a. refl)

echo-written :
    (x : ℕ) (db : GenerationDb) (r : GenerationDb × JobEnd)
    → IsWritten x db r
    → IsEchoed db
    → IsEchoed r.0
echo-written x db r (inl (h, k)) e y =
    ap (λ t. draft_text (find_by draft_key y t)) k
    ∙ e y
    ∙ sym (ap (λ t. text_of (find_by generation_key y t)) h)
echo-written x db r (inr (inl (err, h, k))) e y =
    ap (λ t. draft_text (find_by draft_key y t)) k
    ∙ e y
    ∙ failed (find_by generation_key y db.generations)
    ∙ sym (ap text_of (find_by-pending x y (failed_with err) db.generations (λ a. refl)))
    ∙ sym (ap (λ t. text_of (find_by generation_key y t)) h)
  where
    failed :
        (o : Option Generation)
        → text_of o
          ≡ text_of (
              if x == y
              then mapped (λ g. if is_pending g.status then failed_with err g else g) o
              else o)
    failed none = ground arith
    failed (some g) = ground arith
echo-written x db r (inr (inr (text, cost, code, q, h, k))) e y =
    ap (λ t. draft_text (find_by draft_key y t)) k
    ∙ ap draft_text (find_by-update_generated_text x y text db.drafts)
    ∙ written (x == y) (find_by draft_key y db.drafts) (find_by generation_key y db.generations)
        (λ b.
          subst (λ z. is_open (find_by generation_key z db.generations) ≡ true) ((==_iff x y).0 b)
            (update_pending-open x (completed_with text cost code) db.generations q))
        (e y)
    ∙ sym (
        ap text_of (find_by-pending x y (completed_with text cost code) db.generations (λ a. refl)))
    ∙ sym (ap (λ t. text_of (find_by generation_key y t)) h)
  where
    written :
        (b : Bool) (o : Option Draft) (p : Option Generation)
        → (b ≡ true → is_open p ≡ true)
        → draft_text o ≡ text_of p
        → draft_text (if b then mapped (with_text text) o else o)
          ≡ text_of (
              if b
              then mapped
                  (λ g. if is_pending g.status then completed_with text cost code g else g)
                  p
              else p)
    written false o p u t = t
    written true none none u t = refl
    written true none (some g) u t = cc t
    written true (some d) none u t = cc t
    written true (some d) (some g) u t = rw (u refl) refl

-- Every order of runs of the handler and of jobs keeps the drafts in step with the generations: each
-- generation has a draft and each draft a generation, and the draft shows the generation's text, which is
-- empty until the generation is completed.
pub drafts_echo : (db db' : GenerationDb) → Run db db' → IsEchoed db → IsEchoed db'
drafts_echo db db' start h = h
drafts_echo db db' (handle mid env ev r) h =
    echo-added mid (handle_customer_state_changed env ev mid) (IsAdded-handle env ev mid)
      (drafts_echo db mid r h)
drafts_echo db db' (job mid env x r w) h = elim (IsWritten-process env x mid) [
  | inl k ↦ echo-written x mid (process_ai_generate_job env x mid) k (drafts_echo db mid r h)
  | inr k ↦
      echo-written x (env.meanwhile mid) (process_ai_generate_job env x mid) k
        (drafts_echo mid (env.meanwhile mid) w (drafts_echo db mid r h))
]
