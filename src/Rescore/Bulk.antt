-- ===== src/Rescore/Bulk.antt =====
-- bulkRescore: it ends, scores every customer and announces nothing.
use win_back_ai.Rescore.{
  ScoredCustomer, ScoreDb, customer_id, Snapshot, write_score, take_snapshot, scoring_initialized,
}
use win_back_ai.Base.{
  ℕ, zero, suc, rest_from, Option, rest, ◌≤◌, IsUnique, List, passing, length, refl, none, ◌≡◌, All,
  some, ◌∷◌, [], ◌&&◌, true, length-sort_by, arith, filter, ◌∙◌, ap, ◌++◌, filter-all,
}
use win_back_ai.Rescore.Passes.{
  bulk_step, run_rows, Pass, Totals, everyone, bulk_rescore, run_pages, begin, enough_fuel,
  no_totals, finish_bulk,
}
use win_back_ai.Rescore.Scored.{IsScoring, IsScoring-IsLocal, IsRescored, run_rows-IsRescored}
use win_back_ai.Rescore.Pages.{IsLocal}
use win_back_ai.Rescore.Ends.{EndsAs, run_pages-ends, stays}
use win_back_ai.Rescore.Visits.{visits-all}
use mathlib.Core.Path.{subst}
use mathlib.Core.Option

pub bulk_step-IsScoring : (s : Snapshot) → IsScoring s (bulk_step s)
unfolding bulk_step
bulk_step-IsScoring s = record { writes_customers = λ c p. refl; writes_scores = λ c p. refl }

-- The tables and fields that scoring alone leaves as they are.
bulk_step-quiet :
    (s : Snapshot) (cs : List ScoredCustomer) (p : Pass)
    → ((run_rows (bulk_step s) cs p).db.outbox ≡ p.db.outbox)
      × ((run_rows (bulk_step s) cs p).db.audit ≡ p.db.audit)
unfolding run_rows bulk_step write_score
bulk_step-quiet s [] p = (refl, refl)
bulk_step-quiet s (c ∷ cs) p = bulk_step-quiet s cs (bulk_step s c p)

length-everyone : (t : List ScoredCustomer) → length (rest customer_id everyone none t) ≡ length t
unfolding rest
length-everyone t =
    length-sort_by customer_id (filter (λ c. everyone c && true) t)
    ∙ ap length (filter-all (λ c. everyone c && true) t (always t))
  where
    always : (t : List ScoredCustomer) → All (λ c. (everyone c && true) ≡ true) t
    always [] = tt
    always (c ∷ t) = (refl, always t)

passing-everyone : (o : Option ScoredCustomer) → passing everyone o ≡ o
passing-everyone none = refl
passing-everyone (some c) = refl

-- The loop of bulkRescore ends, and has done what one run over every customer does.
bulk_pages :
    (n : ℕ) (s : Snapshot) (db : ScoreDb)
    → 1 ≤ n
    → IsUnique customer_id db.customers
    → EndsAs
        (run_pages everyone n (bulk_step s) (enough_fuel db) none no_totals (begin db))
        no_totals
        (bulk_step s)
        (rest customer_id everyone none db.customers)
        (begin db)
unfolding rest_from
bulk_pages zero s db h u = absurd (omega arith)
bulk_pages (suc n) s db h u =
    subst
      (λ v.
        EndsAs (run_pages everyone (suc n) (bulk_step s) (enough_fuel db) none no_totals (begin db))
          no_totals (bulk_step s) v (begin db))
      (visits-all n (stays everyone n (bulk_step s) local) n
        (rest customer_id everyone none db.customers) (λ c. refl))
      (run_pages-ends everyone n (bulk_step s) local (enough_fuel db) none no_totals (begin db) 0 u
        refl (omega (arith, length-everyone db.customers)))
  where
    local : IsLocal (bulk_step s)
    local = IsScoring-IsLocal s (bulk_step s) (bulk_step-IsScoring s)

-- What bulkRescore leaves behind, for the customer with the id `x`.
abbrev pub IsBulkResult : ℕ → ℕ → ScoreDb → Totals × Pass → Type 0
IsBulkResult now x db (k, p) =
    IsRescored everyone (take_snapshot now db) x db p.db
    × (p.db.outbox ≡ db.outbox)
    × (p.db.audit
        ≡ db.audit
          ++ scoring_initialized (length db.customers) k.batches
              (length (take_snapshot now db).cohort) (take_snapshot now db).insufficient
            ∷ [])
    × (p.db.scoring_initialized_at ≡ some now)

-- Whatever the size of the pages, which is at least one, bulkRescore comes to an end on a table of
-- customers with unique ids. Each customer then has the state and the score that the cohort as it
-- was at the start gives it, with `now` as the score's time; no event is written; the log gets one
-- entry, with the number of all customers; and the scoring is marked as initialised.
pub bulk_rescore_exact :
    (now n x : ℕ) (db : ScoreDb)
    → 1 ≤ n
    → IsUnique customer_id db.customers
    → (r : Totals × Pass) × (bulk_rescore now n db ≡ some r) × IsBulkResult now x db r
unfolding bulk_rescore take_snapshot
bulk_rescore_exact now n x db h u = go (bulk_pages n (take_snapshot now db) db h u)
  where
    go :
        EndsAs
          (run_pages everyone n
            (bulk_step (take_snapshot now db))
            (enough_fuel db)
            none
            no_totals
            (begin db))
          no_totals
          (bulk_step (take_snapshot now db))
          (rest customer_id everyone none db.customers)
          (begin db)
        → (r : Totals × Pass) × (bulk_rescore now n db ≡ some r) × IsBulkResult now x db r
    go (k, e, c) = (
      finish_bulk (take_snapshot now db) (
        k,
        run_rows (bulk_step (take_snapshot now db)) (rest customer_id everyone none db.customers)
            (begin db),
      ),
      ap (Option.map (finish_bulk (take_snapshot now db))) e,
      (
        run_rows-IsRescored everyone (take_snapshot now db) (bulk_step (take_snapshot now db)) x db
            (bulk_step-IsScoring (take_snapshot now db)) u,
        (bulk_step-quiet (take_snapshot now db) (rest customer_id everyone none db.customers)
            (begin db)).0,
        ap
              (λ a.
                a
                ++ scoring_initialized k.customers_seen k.batches
                    (length (take_snapshot now db).cohort) (take_snapshot now db).insufficient
                  ∷ [])
              (bulk_step-quiet (take_snapshot now db) (rest customer_id everyone none db.customers)
                (begin db)).1
            ∙ ap
                (λ i.
                  db.audit
                  ++ scoring_initialized i k.batches (length (take_snapshot now db).cohort)
                      (take_snapshot now db).insufficient
                    ∷ [])
                (omega (arith, c, length-everyone db.customers)),
        refl,
      ),
    )
