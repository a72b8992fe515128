-- ===== src/Rescore/Skipped.antt =====
-- The customer that decayRescore passes over: `skip: 1` of its findMany leaves it out when the cursor's own row does
-- not pass the filter any more.
-- packages/db/src/services/customer-score.service.ts
use mathlib.Core.Path.{subst}
use mathlib.Core.Option
use win_back_ai.Rescore.{ScoredCustomer, ScoreDb, customer_id, score_key, take_snapshot}
use win_back_ai.Rescore.Passes.{Totals, Pass, decay_rescore, in_working_set}
use win_back_ai.Rescore.Visits.{visits, All-visits}
use win_back_ai.Rescore.Decay.{decay_rescore_exact, IsDecayResult, working_set, remains, evaluated}
use win_back_ai.Base.{
  ℕ, Bool, List, All, IsStrict, IsUnique, IsStrict-rest, All-rest, find_by, find_by-below, length,
  ◌≡◌, ◌<◌, ◌++◌, ◌∷◌, [], ◌==◌, some, none, Option, false, suc, refl, ap, ◌∙◌, arith, or_else,
}

visits-skip :
    (n : ℕ) (stays : ScoredCustomer → Bool) (page : List ScoredCustomer) (c d : ScoredCustomer)
    (ds : List ScoredCustomer)
    → stays c ≡ false
    → visits n stays (length page) (page ++ c ∷ d ∷ ds) ≡ page ++ c ∷ visits n stays n ds
unfolding visits
visits-skip n stays [] c d ds h = rw h refl
visits-skip n stays (a ∷ page) c d ds h = ap (λ v. a ∷ v) (visits-skip n stays page c d ds h)

module _ {κ} (P : ScoredCustomer → Type κ) where
  All-second :
      (page : List ScoredCustomer) (c d : ScoredCustomer) (ds : List ScoredCustomer)
      → All P (page ++ c ∷ d ∷ ds)
      → P d
  All-second [] c d ds h = h.1.0
  All-second (a ∷ page) c d ds h = All-second page c d ds h.1

earlier : (c : ScoredCustomer) (x : ℕ) → c.id < x → (c.id == x) ≡ false
earlier c x h = ground arith

later_ones :
    (page : List ScoredCustomer) (c d : ScoredCustomer) (ds : List ScoredCustomer)
    → IsStrict customer_id (page ++ c ∷ d ∷ ds)
    → All (λ b. d.id < b.id) ds
later_ones [] c d ds h = h.1.0
later_ones (a ∷ page) c d ds h = later_ones page c d ds h.1

not_found :
    (page : List ScoredCustomer) (c d : ScoredCustomer) (ds vs : List ScoredCustomer)
    → IsStrict customer_id (page ++ c ∷ d ∷ ds)
    → All (λ b. d.id < b.id) vs
    → find_by customer_id d.id (page ++ c ∷ vs) ≡ none
unfolding find_by
not_found [] c d ds vs h l = rw (earlier c d.id h.0.0) (find_by-below customer_id d.id vs l)
not_found (a ∷ page) c d ds vs h l =
    rw (earlier a d.id (All-second (λ b. a.id < b.id) page c d ds h.0))
      (not_found page c d ds vs h.1 l)

or_else-none :
    {B : Type 0} (f : ScoredCustomer → B) (o : Option ScoredCustomer) (old : Option B)
    → o ≡ none
    → or_else (Option.map f o) old ≡ old
or_else-none f o old e = ap (λ v. or_else (Option.map f v) old) e

-- On a table of customers with unique ids, let the working set begin with a full page, whose last customer leaves the
-- working set, and go on with another customer. decayRescore then ends, and that other customer still has the state
-- and the score, if any, that it had before.
pub next_is_skipped :
    (actor now : ℕ) (db : ScoreDb) (page : List ScoredCustomer) (c d : ScoredCustomer)
    (ds : List ScoredCustomer)
    → IsUnique customer_id db.customers
    → working_set db ≡ page ++ c ∷ d ∷ ds
    → remains (take_snapshot now db) c ≡ false
    → (r : Totals × Pass) × (decay_rescore actor now (suc (length page)) db ≡ some r)
      × (find_by customer_id d.id r.1.db.customers ≡ some d)
      × (find_by score_key d.id r.1.db.scores ≡ find_by score_key d.id db.scores)
next_is_skipped actor now db page c d ds u w leaves =
    go (decay_rescore_exact actor now (suc (length page)) d.id db (omega arith) u)
  where
    strict : IsStrict customer_id (page ++ c ∷ d ∷ ds)
    strict =
        subst (IsStrict customer_id) w
          (IsStrict-rest customer_id in_working_set none db.customers u)

    there : find_by customer_id d.id db.customers ≡ some d
    there =
        All-second (λ b. find_by customer_id b.id db.customers ≡ some b) page c d ds
          (subst (All (λ b. find_by customer_id b.id db.customers ≡ some b)) w
            (All-rest customer_id in_working_set none db.customers u))

    absent : find_by customer_id d.id (evaluated now (suc (length page)) db) ≡ none
    absent =
        ap
          (λ v.
            find_by customer_id d.id
              (visits (length page) (remains (take_snapshot now db)) (length page) v))
          w
        ∙ ap (find_by customer_id d.id)
            (visits-skip (length page) (remains (take_snapshot now db)) page c d ds leaves)
        ∙ not_found page c d ds _ strict (
            All-visits (λ b. d.id < b.id) (length page) (remains (take_snapshot now db))
              (length page) ds (later_ones page c d ds strict))

    go :
        (r : Totals × Pass) × (decay_rescore actor now (suc (length page)) db ≡ some r)
          × IsDecayResult actor now (suc (length page)) d.id db r
        → (r : Totals × Pass) × (decay_rescore actor now (suc (length page)) db ≡ some r)
          × (find_by customer_id d.id r.1.db.customers ≡ some d)
          × (find_by score_key d.id r.1.db.scores ≡ find_by score_key d.id db.scores)
    go (r, e, h) = (
      r,
      e,
      h.customer
          ∙ or_else-none _ (find_by customer_id d.id (evaluated now (suc (length page)) db))
              (find_by customer_id d.id db.customers) absent
          ∙ there,
      h.score
          ∙ or_else-none _ (find_by customer_id d.id (evaluated now (suc (length page)) db))
              (find_by score_key d.id db.scores) absent,
    )
