-- ===== src/Backfill.antt =====
-- packages/shopify/src/backfill/runner.ts with packages/db/src/repositories/backfill-job.repository.ts, for one
-- merchant and one resource. What the shop lists behind a cursor, the processor of items, and which call
-- fails are parameters. The loop counts down from MAX_PAGES_HARD_LIMIT. The texts of errors and the
-- times of the job are left out.
pub mod Pages
pub mod Resume
use win_back_ai.Base.{
  ℕ, Bool, List, Option, none, some, true, false, zero, suc, [], ◌∷◌, ◌++◌, ◌+◌, length,
}

pub data BackfillStatus : Type 0 where
  pending running paused completed failed : BackfillStatus

pub record BackfillJob : Type 0 where
  pub status : BackfillStatus
  pub page_size : ℕ
  pub cursor : Option ℕ
  pub pages_processed : ℕ
  pub items_processed : ℕ
  pub attempts : ℕ
  pub has_error : Bool

pub record ResourcePage (A : Type 0) : Type 0 where
  pub items : List A
  pub end_cursor : Option ℕ
  pub has_next_page : Bool

-- ShopifyTokenRevokedError, or any other error of the fetch or of the page's transaction.
pub data Fault : Type 0 where
  token_revoked other_error : Fault

pub record Summary : Type 0 where
  pub pages_processed : ℕ
  pub items_processed : ℕ

pub record BackfillDb (D : Type 0) : Type 0 where
  pub job : Option BackfillJob
  pub store : D
  pub outbox : List Summary

pub record BackfillEnv (A D : Type 0) : Type 0 where
  pub page_at : Option ℕ → ResourcePage A
  pub process_items : List A → D → Option D
  pub fault_at : ℕ → Option Fault
  pub completion_fails : Bool

pub data RunResult : Type 0 where
  finished : BackfillStatus → (pages items : ℕ) → RunResult
  thrown : RunResult

abbrev pub max_pages_hard_limit : ℕ
max_pages_hard_limit = 10000

abbrev pub new_job : ℕ → BackfillJob
new_job size = record {
  status = pending;
  page_size = size;
  cursor = none;
  pages_processed = 0;
  items_processed = 0;
  attempts = 0;
  has_error = false;
}

abbrev pub get_or_create : ℕ → Option BackfillJob → BackfillJob
get_or_create size none = new_job size
get_or_create size (some j) = j

abbrev pub mark_started : BackfillJob → BackfillJob
mark_started j = record j { status = running; has_error = false }

abbrev pub mark_paused : BackfillJob → BackfillJob
mark_paused j = record j { status = paused; has_error = true }

abbrev pub mark_failed : BackfillJob → BackfillJob
mark_failed j = record j { status = failed; attempts = j.attempts + 1; has_error = true }

abbrev pub mark_completed : BackfillJob → BackfillJob
mark_completed j = record j { status = completed; has_error = false }

abbrev pub commit_page : Option ℕ → ℕ → BackfillJob → BackfillJob
commit_page c n j = record j {
  cursor = c;
  items_processed = j.items_processed + n;
  pages_processed = j.pages_processed + 1;
}

-- The job and the store while a run goes on, with the outbox. The counters of the run are those of the job.
pub record Running (D : Type 0) : Type 0 where
  pub job : BackfillJob
  pub store : D
  pub outbox : List Summary

module _ {A D : Type 0} (env : BackfillEnv A D) where
  abbrev stop : Fault → Running D → RunResult × Running D
  stop token_revoked r = (
    finished paused r.job.pages_processed r.job.items_processed,
    record r { job = mark_paused r.job },
  )
  stop other_error r = (thrown, record r { job = mark_failed r.job })

  -- The transaction that completes the job and publishes the summary.
  abbrev complete : Bool → Running D → RunResult × Running D
  complete true r = stop other_error r
  complete false r = (
    finished completed r.job.pages_processed r.job.items_processed,
    record r {
      job = mark_completed r.job;
      outbox =
          r.outbox
          ++ record {
            pages_processed = r.job.pages_processed;
            items_processed = r.job.items_processed;
          }
            ∷ [];
    },
  )

  -- The processor is called for a page with items only.
  abbrev pub process_page : List A → D → Option D
  process_page [] d = some d
  process_page (a ∷ rest) d = env.process_items (a ∷ rest) d

  abbrev pub committed : ResourcePage A → D → Running D → Running D
  committed p d r = record r { job = commit_page p.end_cursor (length p.items) r.job; store = d }

  -- After a page: the loop goes on where there is a next page; else it ends, and fails where the limit is reached.
  abbrev pub turn :
      Bool → ℕ → (Running D → RunResult × Running D) → Running D → RunResult × Running D
  turn true left next r = next r
  turn false zero next r = stop other_error r
  turn false (suc left) next r = complete env.completion_fails r

  abbrev pub on_page :
      ResourcePage A
      → ℕ
      → (Running D → RunResult × Running D)
      → Option D
      → Running D
      → RunResult × Running D
  on_page p left next none r = stop other_error r
  on_page p left next (some d) r = turn p.has_next_page left next (committed p d r)

  abbrev pub on_fetch :
      Option Fault
      → ResourcePage A
      → ℕ
      → (Running D → RunResult × Running D)
      → Running D
      → RunResult × Running D
  on_fetch (some f) p left next r = stop f r
  on_fetch none p left next r = on_page p left next (process_page p.items r.store) r

  -- `left` pages may still be read, and `n` is the number of the call.
  unfoldable pub run_pages : ℕ → ℕ → Running D → RunResult × Running D
  run_pages zero n r = stop other_error r
  run_pages (suc left) n r =
      on_fetch (env.fault_at n) (env.page_at r.job.cursor) left (λ r'. run_pages left (n + 1) r') r

  abbrev saved : RunResult × Running D → RunResult × BackfillDb D
  saved (res, r) = (res, record { job = some r.job; store = r.store; outbox = r.outbox })

  abbrev resume : ℕ → BackfillStatus → BackfillJob → BackfillDb D → RunResult × BackfillDb D
  unfolding run_pages
  resume limit completed j db =
      (finished completed j.pages_processed j.items_processed, record db { job = some j })
  resume limit status j db =
      saved
        (run_pages limit 0 (record { job = mark_started j; store = db.store; outbox = db.outbox }))

  unfoldable pub run : ℕ → ℕ → BackfillDb D → RunResult × BackfillDb D
  unfolding run_pages
  run limit size db = resume limit (get_or_create size db.job).status (get_or_create size db.job) db
