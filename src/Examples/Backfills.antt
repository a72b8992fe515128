-- ===== src/Examples/Backfills.antt =====
-- A shop that lists three pages of numbers, which the store collects.
use win_back_ai.Backfill.{
  BackfillDb, BackfillEnv, Fault, ResourcePage, mark_failed, mark_started, run, thrown,
  token_revoked,
}
use win_back_ai.Backfill.Pages.{process_all, items_of, advanced}
use win_back_ai.Backfill.Resume.{IsComplete, failing, job_of, resume_exact, limit_fails}
use win_back_ai.Base.{
  ℕ, List, Option, none, some, true, false, zero, suc, [], ◌∷◌, ◌++◌, ◌≡◌, refl, arith,
}

abbrev first_page : ResourcePage ℕ
first_page = record { items = 11 ∷ 12 ∷ []; end_cursor = some 1; has_next_page = true }

abbrev second_page : ResourcePage ℕ
second_page = record { items = 21 ∷ []; end_cursor = some 2; has_next_page = true }

abbrev last_page : ResourcePage ℕ
last_page = record { items = 31 ∷ 32 ∷ []; end_cursor = some 3; has_next_page = false }

abbrev page_of : Option ℕ → ResourcePage ℕ
page_of none = first_page
page_of (some zero) = first_page
page_of (some (suc zero)) = second_page
page_of (some (suc (suc n))) = last_page

abbrev collecting : BackfillEnv ℕ (List ℕ)
collecting = record {
  page_at = page_of;
  process_items = λ new d. some (d ++ new);
  fault_at = λ n. none;
  completion_fails = false;
}

abbrev empty : BackfillDb (List ℕ)
empty = record { job = none; store = []; outbox = [] }

-- The token is revoked at the second call.
abbrev revoked_second : ℕ → Option Fault
revoked_second (suc zero) = some token_revoked
revoked_second n = none

resume_exact_example :
    ((run (failing collecting revoked_second) 10 50 empty).1.store ≡ 11 ∷ 12 ∷ [])
    × IsComplete collecting 3 5
        (11 ∷ 12 ∷ 21 ∷ 31 ∷ 32 ∷ [])
        []
        (run collecting 10 50 (run (failing collecting revoked_second) 10 50 empty).1)
    × IsComplete collecting 3 5 (11 ∷ 12 ∷ 21 ∷ 31 ∷ 32 ∷ []) [] (run collecting 10 50 empty)
unfolding process_all items_of
resume_exact_example =
    resume_exact collecting revoked_second 10 50 empty (first_page ∷ []) second_page
      (last_page ∷ []) (11 ∷ 12 ∷ []) (11 ∷ 12 ∷ 21 ∷ 31 ∷ 32 ∷ []) token_revoked refl
      (refl, refl, (refl, refl, (refl, refl))) (refl, tt) refl (refl, (refl, (refl, tt)))
      (refl, (refl, tt)) refl refl refl (omega arith)

limit_fails_example :
    ((run collecting 3 50 empty).0 ≡ thrown)
    × ((run collecting 3 50 empty).1.store ≡ 11 ∷ 12 ∷ 21 ∷ 31 ∷ 32 ∷ [])
    × ((run collecting 3 50 empty).1.job
        ≡ some (
            mark_failed (
              advanced collecting
                (first_page ∷ second_page ∷ last_page ∷ [])
                (mark_started (job_of 50 empty)))))
    × ((run collecting 3 50 empty).1.outbox ≡ [])
unfolding process_all
limit_fails_example =
    limit_fails collecting 3 50 empty (first_page ∷ second_page ∷ last_page ∷ [])
      (11 ∷ 12 ∷ 21 ∷ 31 ∷ 32 ∷ []) refl (refl, refl, (refl, refl, (refl, refl)))
      (refl, (refl, (refl, tt))) refl refl
