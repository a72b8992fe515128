-- ===== src/Generation/Finished.antt =====
-- What every order of runs keeps: a finished generation stays as it is.
use win_back_ai.Base.{
  ℕ, List, ◌≡◌, false, find_by, if◌then◌else◌, some, Bool, ◌==◌, inl, mapped, ap, find_by-update_by,
  ◌∙◌, arith, inr, true, find_by-append, refl, ◌∷◌, [], or_else,
}
use win_back_ai.Generation.{
  Generation, update_pending, is_pending, generation_key, failed_with, completed_with,
}
use win_back_ai.Generation.Handler.{GenerationDb, HandlerEnd, handle_customer_state_changed}
use win_back_ai.Generation.Job.{JobEnd, process_ai_generate_job}
use win_back_ai.Generation.Runs.{
  Run, IsAdded, IsWritten, handle, job, start, IsAdded-handle, IsWritten-process,
}

-- A row after an update of a pending row.
pub find_by-pending :
    (x y : ℕ) (f : Generation → Generation) (gs : List Generation)
    → ((a : Generation) → (f a).id ≡ a.id)
    → find_by generation_key y (update_pending x f gs).1 ≡ (
        if x == y
        then mapped (λ g. if is_pending g.status then f g else g) (find_by generation_key y gs)
        else find_by generation_key y gs)
unfolding update_pending
find_by-pending x y f gs k =
    find_by-update_by generation_key x y (λ g. if is_pending g.status then f g else g) gs
      (λ a. ground (arith, k a))

keeps-pending :
    (x y : ℕ) (f : Generation → Generation) (gs : List Generation) {g : Generation}
    → ((a : Generation) → (f a).id ≡ a.id)
    → find_by generation_key y gs ≡ some g
    → is_pending g.status ≡ false
    → find_by generation_key y (update_pending x f gs).1 ≡ some g
keeps-pending x y f gs {g} k e p = find_by-pending x y f gs k ∙ rw e (go (x == y))
  where
    go :
        (b : Bool)
        → (if b then mapped (λ a. if is_pending a.status then f a else a) (some g) else some g)
          ≡ some g
    go true = rw p refl
    go false = refl

module _ (y : ℕ) {g : Generation} (p : is_pending g.status ≡ false) where
  keeps-added :
      (db : GenerationDb) (r : GenerationDb × HandlerEnd)
      → IsAdded db r
      → find_by generation_key y db.generations ≡ some g
      → find_by generation_key y r.0.generations ≡ some g
  keeps-added db r (inl (h, k)) e = ap (find_by generation_key y) h ∙ e
  keeps-added db r (inr (a, d, h, k, l, m, n)) e =
      ap (find_by generation_key y) h
      ∙ find_by-append generation_key y db.generations (a ∷ [])
      ∙ ap (λ o. or_else o (find_by generation_key y (a ∷ []))) e

  keeps-written :
      (x : ℕ) (db : GenerationDb) (r : GenerationDb × JobEnd)
      → IsWritten x db r
      → find_by generation_key y db.generations ≡ some g
      → find_by generation_key y r.0.generations ≡ some g
  keeps-written x db r (inl (h, k)) e = ap (find_by generation_key y) h ∙ e
  keeps-written x db r (inr (inl (err, h, k))) e =
      ap (find_by generation_key y) h
      ∙ keeps-pending x y (failed_with err) db.generations {g = g} (λ a. refl) e p
  keeps-written x db r (inr (inr (text, cost, code, q, h, k))) e =
      ap (find_by generation_key y) h
      ∙ keeps-pending x y (completed_with text cost code) db.generations {g = g} (λ a. refl) e p

  -- A generation that is completed or failed stays exactly as it is, whatever runs of the handler and
  -- of jobs follow, in any order and with any of them between a job's pick-up and its end.
  pub finished_stays :
      (db db' : GenerationDb)
      → Run db db'
      → find_by generation_key y db.generations ≡ some g
      → find_by generation_key y db'.generations ≡ some g
  finished_stays db db' start e = e
  finished_stays db db' (handle mid env ev r) e =
      keeps-added mid (handle_customer_state_changed env ev mid) (IsAdded-handle env ev mid)
        (finished_stays db mid r e)
  finished_stays db db' (job mid env x r w) e = elim (IsWritten-process env x mid) [
    | inl h ↦ keeps-written x mid (process_ai_generate_job env x mid) h (finished_stays db mid r e)
    | inr h ↦
        keeps-written x (env.meanwhile mid) (process_ai_generate_job env x mid) h
          (finished_stays mid (env.meanwhile mid) w (finished_stays db mid r e))
  ]
