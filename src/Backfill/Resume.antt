-- ===== src/Backfill/Resume.antt =====
-- Whole runs: one that meets no fault, one that goes on behind a fault, and one that reaches the limit.
use win_back_ai.Backfill.{
  mark_paused, mark_failed, resume, BackfillDb, BackfillEnv, BackfillJob, BackfillStatus, Fault,
  ResourcePage, RunResult, Running, Summary, finished, get_or_create, mark_started, run, run_pages,
  saved, stop, token_revoked, other_error, thrown,
}
use win_back_ai.Backfill.Pages.{
  IsListing, NoFaults, process_all, items_of, advanced, items-advanced, whole_listing, cut_listing,
  IsListing-rest, process_all-append, items_of-append,
}
use mathlib.Core.Path.{subst}
use native.Mathlib.Nat.{zero-add}
use win_back_ai.Base.{
  ℕ, Bool, List, Option, some, true, false, suc, [], ◌∷◌, ◌++◌, ◌+◌, ◌-◌, ◌≡◌, ◌<◌, length,
  length-append, refl, ap, sym, ◌∙◌, arith,
}

abbrev pub is_completed : BackfillStatus → Bool
is_completed BackfillStatus.completed = true
is_completed s = false

-- The job that a run starts with.
abbrev pub job_of : {D : Type 0} → ℕ → BackfillDb D → BackfillJob
job_of size db = get_or_create size db.job

-- The same environment with other faults.
abbrev pub failing : {A D : Type 0} → BackfillEnv A D → (ℕ → Option Fault) → BackfillEnv A D
failing env faults = record env { fault_at = faults }

module _ {A D : Type 0} (env : BackfillEnv A D) where
  abbrev started : ℕ → BackfillDb D → Running D
  started size db = record {
    job = mark_started (job_of size db);
    store = db.store;
    outbox = db.outbox;
  }

  begun :
      (limit size : ℕ) (db : BackfillDb D)
      → is_completed (job_of size db).status ≡ false
      → run env limit size db ≡ saved env (run_pages env limit 0 (started size db))
  unfolding run
  begun limit size db h = go (job_of size db).status h
    where
      go :
          (s : BackfillStatus)
          → is_completed s ≡ false
          → resume env limit s (job_of size db) db
            ≡ saved env (run_pages env limit 0 (started size db))
      go BackfillStatus.pending e = refl
      go BackfillStatus.running e = refl
      go BackfillStatus.paused e = refl
      go BackfillStatus.failed e = refl
      go BackfillStatus.completed e = cc

module _ {A D : Type 0} (env : BackfillEnv A D) where
  -- A completed run: its counters, its store and its summary.
  abbrev pub IsComplete : ℕ → ℕ → D → List Summary → RunResult × BackfillDb D → Type 0
  IsComplete pages items d outbox (res, db) =
      (res ≡ finished BackfillStatus.completed pages items)
      × (db.store ≡ d)
      × (db.outbox ≡ outbox ++ record { pages_processed = pages; items_processed = items } ∷ [])

  full_run :
      (limit size : ℕ) (db : BackfillDb D) (ps : List (ResourcePage A)) (d : D)
      → is_completed (job_of size db).status ≡ false
      → IsListing env (job_of size db).cursor ps
      → NoFaults env 0 (length ps)
      → env.completion_fails ≡ false
      → process_all env ps db.store ≡ some d
      → length ps < limit
      → IsComplete
          ((job_of size db).pages_processed + length ps)
          ((job_of size db).items_processed + items_of env ps)
          d
          db.outbox
          (run env limit size db)
  unfolding advanced items_of
  full_run limit size db ps d h l k c e b =
      let more : limit ≡ length ps + suc (limit - length ps - 1) = omega arith in
      let counts = items-advanced env ps (mark_started (job_of size db)) in
      rw
        (
          begun env limit size db h,
          whole_listing env limit 0 (suc (limit - length ps - 1)) (started env size db) ps d l k e
              more,
          c,
          counts.0,
          counts.1,
        )
        (refl, refl, refl)

  -- A run that fails behind the first pages keeps them, and can be run again.
  cut_run :
      (faults : ℕ → Option Fault) (limit size : ℕ) (db : BackfillDb D)
      (done : List (ResourcePage A)) (q : ResourcePage A) (qs : List (ResourcePage A)) (d : D)
      (f : Fault)
      → is_completed (job_of size db).status ≡ false
      → IsListing env (job_of size db).cursor (done ++ q ∷ qs)
      → NoFaults (failing env faults) 0 (length done)
      → faults (length done) ≡ some f
      → process_all env done db.store ≡ some d
      → length done < limit
      → run (failing env faults) limit size db
        ≡ saved env (
            stop env f (record {
              job = advanced env done (mark_started (job_of size db));
              store = d;
              outbox = db.outbox;
            }))
  unfolding advanced process_all
  cut_run faults limit size db done q qs d token_revoked h l k c e b =
      begun (failing env faults) limit size db h
      ∙ ap (saved env) (
          cut_listing (failing env faults) limit 0 (started env size db) done q qs d token_revoked l
            k (rw (zero-add (length done)) c) e b)
  cut_run faults limit size db done q qs d other_error h l k c e b =
      begun (failing env faults) limit size db h
      ∙ ap (saved env) (
          cut_listing (failing env faults) limit 0 (started env size db) done q qs d other_error l k
            (rw (zero-add (length done)) c) e b)

  -- A second run from a job that stands behind the first pages.
  resumed :
      (limit size : ℕ) (db : BackfillDb D) (done : List (ResourcePage A)) (q : ResourcePage A)
      (qs : List (ResourcePage A)) (d1 d2 : D) (j : BackfillJob)
      → is_completed j.status ≡ false
      → j.cursor ≡ (advanced env done (mark_started (job_of size db))).cursor
      → j.pages_processed ≡ (advanced env done (mark_started (job_of size db))).pages_processed
      → j.items_processed ≡ (advanced env done (mark_started (job_of size db))).items_processed
      → IsListing env (job_of size db).cursor (done ++ q ∷ qs)
      → NoFaults env 0 (length (q ∷ qs))
      → env.completion_fails ≡ false
      → process_all env (q ∷ qs) d1 ≡ some d2
      → length (done ++ q ∷ qs) < limit
      → IsComplete
          ((job_of size db).pages_processed + length (done ++ q ∷ qs))
          ((job_of size db).items_processed + items_of env (done ++ q ∷ qs))
          d2
          db.outbox
          (run env limit size (record { job = some j; store = d1; outbox = db.outbox }))
  resumed limit size db done q qs d1 d2 j h c p i l k e r b =
      let counts = items-advanced env done (mark_started (job_of size db)) in
      let pages : j.pages_processed + length (q ∷ qs)
          ≡ (job_of size db).pages_processed + length (done ++ q ∷ qs) =
        omega (arith, counts.1, p, length-append done (q ∷ qs)) in
      let items : j.items_processed + items_of env (q ∷ qs)
          ≡ (job_of size db).items_processed + items_of env (done ++ q ∷ qs) =
        omega (arith, counts.0, i, items_of-append env done (q ∷ qs)) in
      let ends =
        full_run limit size (record { job = some j; store = d1; outbox = db.outbox }) (q ∷ qs) d2 h
          (subst (λ x. IsListing env x (q ∷ qs)) (sym c)
            (IsListing-rest env (mark_started (job_of size db)) done q qs l))
          k e r (omega (arith, length-append done (q ∷ qs))) in
      subst
        (λ n.
          IsComplete n ((job_of size db).items_processed + items_of env (done ++ q ∷ qs)) d2
            db.outbox
            (run env limit size (record { job = some j; store = d1; outbox = db.outbox })))
        pages
        (subst
          (λ n.
            IsComplete (j.pages_processed + length (q ∷ qs)) n d2 db.outbox
              (run env limit size (record { job = some j; store = d1; outbox = db.outbox })))
          items ends)

-- A run fails at a call behind the first pages of a listing, because the token is revoked or by any other
-- error, and a second run then meets no fault. The first run keeps those pages. The second run completes, with the
-- same counters, store and summary as one run over the whole listing without the fault.
pub resume_exact :
    {A D : Type 0} (env : BackfillEnv A D) (faults : ℕ → Option Fault) (limit size : ℕ)
    (db : BackfillDb D) (done : List (ResourcePage A)) (q : ResourcePage A)
    (qs : List (ResourcePage A)) (d1 d2 : D) (f : Fault)
    → is_completed (job_of size db).status ≡ false
    → IsListing env (job_of size db).cursor (done ++ q ∷ qs)
    → NoFaults (failing env faults) 0 (length done)
    → faults (length done) ≡ some f
    → NoFaults env 0 (length (done ++ q ∷ qs))
    → NoFaults env 0 (length (q ∷ qs))
    → env.completion_fails ≡ false
    → process_all env done db.store ≡ some d1
    → process_all env (q ∷ qs) d1 ≡ some d2
    → length (done ++ q ∷ qs) < limit
    → ((run (failing env faults) limit size db).1.store ≡ d1)
      × IsComplete env
          ((job_of size db).pages_processed + length (done ++ q ∷ qs))
          ((job_of size db).items_processed + items_of env (done ++ q ∷ qs))
          d2
          db.outbox
          (run env limit size (run (failing env faults) limit size db).1)
      × IsComplete env
          ((job_of size db).pages_processed + length (done ++ q ∷ qs))
          ((job_of size db).items_processed + items_of env (done ++ q ∷ qs))
          d2
          db.outbox
          (run env limit size db)
resume_exact env faults limit size db done q qs d1 d2 token_revoked h l k c k2 k3 e p1 p2 b =
    let cut =
      cut_run env faults limit size db done q qs d1 token_revoked h l k c p1
        (omega (arith, length-append done (q ∷ qs))) in
    (
      ap (λ x. x.1.store) cut,
      subst
          (λ x.
            IsComplete env ((job_of size db).pages_processed + length (done ++ q ∷ qs))
              ((job_of size db).items_processed + items_of env (done ++ q ∷ qs)) d2 db.outbox
              (run env limit size x.1))
          (sym cut)
          (resumed env limit size db done q qs d1 d2
            (mark_paused (advanced env done (mark_started (job_of size db)))) refl refl refl refl l
            k3 e p2 b),
      full_run env limit size db (done ++ q ∷ qs) d2 h l k2 e
          (process_all-append env done (q ∷ qs) db.store d1 d2 p1 p2) b,
    )
resume_exact env faults limit size db done q qs d1 d2 other_error h l k c k2 k3 e p1 p2 b =
    let cut =
      cut_run env faults limit size db done q qs d1 other_error h l k c p1
        (omega (arith, length-append done (q ∷ qs))) in
    (
      ap (λ x. x.1.store) cut,
      subst
          (λ x.
            IsComplete env ((job_of size db).pages_processed + length (done ++ q ∷ qs))
              ((job_of size db).items_processed + items_of env (done ++ q ∷ qs)) d2 db.outbox
              (run env limit size x.1))
          (sym cut)
          (resumed env limit size db done q qs d1 d2
            (mark_failed (advanced env done (mark_started (job_of size db)))) refl refl refl refl l
            k3 e p2 b),
      full_run env limit size db (done ++ q ∷ qs) d2 h l k2 e
          (process_all-append env done (q ∷ qs) db.store d1 d2 p1 p2) b,
    )

-- A run over a listing of exactly as many pages as the limit meets no fault and processes every page, and yet it fails:
-- the job is marked as failed behind the last page, and no summary is published.
pub limit_fails :
    {A D : Type 0} (env : BackfillEnv A D) (limit size : ℕ) (db : BackfillDb D)
    (ps : List (ResourcePage A)) (d : D)
    → is_completed (job_of size db).status ≡ false
    → IsListing env (job_of size db).cursor ps
    → NoFaults env 0 (length ps)
    → process_all env ps db.store ≡ some d
    → limit ≡ length ps
    → ((run env limit size db).0 ≡ thrown)
      × ((run env limit size db).1.store ≡ d)
      × ((run env limit size db).1.job
          ≡ some (mark_failed (advanced env ps (mark_started (job_of size db)))))
      × ((run env limit size db).1.outbox ≡ db.outbox)
limit_fails env limit size db ps d h l k e b =
    let ends =
      begun env limit size db h
      ∙ ap (saved env)
          (whole_listing env limit 0 0 (started env size db) ps d l k e (omega (arith, b))) in
    (
      ap (λ x. x.0) ends,
      ap (λ x. x.1.store) ends,
      ap (λ x. x.1.job) ends,
      ap (λ x. x.1.outbox) ends,
    )
