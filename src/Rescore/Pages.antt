-- ===== src/Rescore/Pages.antt =====
-- The pages of bulkRescore and decayRescore: what a run over one page leaves alone, and when a page is the last.
use win_back_ai.Rescore.{ScoredCustomer, customer_id, is_none}
use mathlib.Core.Option
use win_back_ai.Base.{
  ℕ, Bool, List, Option, rows_of, ◌≤◌, All, ◌++◌, ◌≡◌, filter, ◌∷◌, [], ltb, ◌∙◌, refl, length,
  some, ◌+◌, arith, suc, Bool-cases, inl, inr, zero, take, false, true, none, take-short, drop,
  last_key-none, length-take, length-drop, find_by, IsStrict, or_else, rest_from,
}
use win_back_ai.Rescore.Passes.{
  Pass, run_rows, run_pages, page, is_final, Totals, end_batch, last_id,
}

-- The rows are what a table holds.
abbrev pub IsHeldBy : List ScoredCustomer → List ScoredCustomer → Type 0
IsHeldBy t cs = All (λ c. find_by customer_id c.id t ≡ some c) cs

-- A step that leaves the ids alone, and the rows of other ids, and makes `after c` of the row `c`.
pub record IsLocal (step : ScoredCustomer → Pass → Pass) : Type 0 where
  pub same_ids :
      (x : ℕ) (c : ScoredCustomer) (p : Pass)
      → rows_of customer_id x (step c p).db.customers ≡ rows_of customer_id x p.db.customers
  pub same_behind :
      (k : ℕ) (c : ScoredCustomer) (p : Pass)
      → c.id ≤ k
      → filter (λ d. ltb k d.id) (step c p).db.customers ≡ filter (λ d. ltb k d.id) p.db.customers
  pub after : ScoredCustomer → ScoredCustomer
  pub rows_after :
      (x : ℕ) (cs : List ScoredCustomer) (p : Pass)
      → IsStrict customer_id cs
      → IsHeldBy p.db.customers cs
      → find_by customer_id x (run_rows step cs p).db.customers
        ≡ or_else
            (Option.map after (find_by customer_id x cs))
            (find_by customer_id x p.db.customers)

module _ (step : ScoredCustomer → Pass → Pass) (l : IsLocal step) where
  pub run_rows-ids :
      (x : ℕ) (cs : List ScoredCustomer) (p : Pass)
      → rows_of customer_id x (run_rows step cs p).db.customers
        ≡ rows_of customer_id x p.db.customers
  unfolding run_rows
  run_rows-ids x [] p = refl
  run_rows-ids x (c ∷ cs) p = run_rows-ids x cs (step c p) ∙ l.same_ids x c p

  pub run_rows-behind :
      (k : ℕ) (cs : List ScoredCustomer) (p : Pass)
      → All (λ c. c.id ≤ k) cs
      → filter (λ d. ltb k d.id) (run_rows step cs p).db.customers
        ≡ filter (λ d. ltb k d.id) p.db.customers
  unfolding run_rows
  run_rows-behind k [] p h = refl
  run_rows-behind k (c ∷ cs) p h = run_rows-behind k cs (step c p) h.1 ∙ l.same_behind k c p h.0

pub run_rows-append :
    (step : ScoredCustomer → Pass → Pass) (cs ds : List ScoredCustomer) (p : Pass)
    → run_rows step (cs ++ ds) p ≡ run_rows step ds (run_rows step cs p)
unfolding run_rows
run_rows-append step [] ds p = refl
run_rows-append step (c ∷ cs) ds p = run_rows-append step cs ds (step c p)

-- The rows of a pass that are left behind a cursor.
abbrev pub left : (ScoredCustomer → Bool) → Option ℕ → Pass → List ScoredCustomer
left keep cursor p = rest_from customer_id keep cursor p.db.customers

abbrev pub rows_at : (ScoredCustomer → Bool) → ℕ → Option ℕ → Pass → List ScoredCustomer
rows_at keep n cursor p = take n (left keep cursor p)

is_none-none {ℓ} : {A : Type ℓ} (o : Option A) → is_none o ≡ true → o ≡ none
is_none-none none h = refl
is_none-none (some a) h = cc

empty_page {ℓ} : {A : Type ℓ} (n : ℕ) (s : List A) → 1 ≤ n → take n s ≡ [] → take n s ≡ s
empty_page zero s h e = absurd (omega arith)
empty_page (suc n) [] h e = refl
empty_page (suc n) (a ∷ s) h e = cc

not_none {ℓ} : {A : Type ℓ} (o : Option A) → is_none o ≡ false → (a : A) × (o ≡ some a)
not_none none h = cc
not_none (some a) h = (a, refl)

-- The last page has all that is left.
pub final_rows :
    (n : ℕ) (s : List ScoredCustomer) → 1 ≤ n → is_final n (take n s) ≡ true → take n s ≡ s
unfolding is_final
final_rows n s h e = elim (Bool-cases (ltb (length (take n s)) n)) [
  | inl q ↦ take-short customer_id n s q
  | inr q ↦
      empty_page n s h
        (last_key-none customer_id (take n s) (is_none-none _ (ground (arith, q, e))))
]

-- Another page is full.
pub next_rows :
    (n : ℕ) (s : List ScoredCustomer)
    → is_final n (take n s) ≡ false
    → ((k : ℕ) × (last_id (take n s) ≡ some k)) × (length (drop n s) + n ≡ length s)
unfolding is_final
next_rows n s e = (
  not_none (last_id (take n s)) (ground (arith, e)),
  ground (arith, e, length-take n s, length-drop n s),
)

module _ (keep : ScoredCustomer → Bool) (n : ℕ) (step : ScoredCustomer → Pass → Pass) where
  pub run_pages-final :
      (fuel : ℕ) (cursor : Option ℕ) (k : Totals) (p : Pass)
      → is_final n (rows_at keep n cursor p) ≡ true
      → run_pages keep n step (suc fuel) cursor k p
        ≡ some (end_batch (rows_at keep n cursor p) k, run_rows step (rows_at keep n cursor p) p)
  unfolding run_pages page
  run_pages-final fuel cursor k p e = rw (e, run_pages) refl

  pub run_pages-next :
      (fuel : ℕ) (cursor : Option ℕ) (k : Totals) (p : Pass)
      → is_final n (rows_at keep n cursor p) ≡ false
      → run_pages keep n step (suc fuel) cursor k p
        ≡ run_pages keep n step fuel
            (last_id (rows_at keep n cursor p))
            (end_batch (rows_at keep n cursor p) k)
            (run_rows step (rows_at keep n cursor p) p)
  unfolding run_pages page
  run_pages-next fuel cursor k p e = rw (e, run_pages) refl
