-- ===== src/Rescore/Ends.antt =====
-- The loop over pages of bulkRescore and decayRescore: with a batch size of at least one it ends, and
-- it does what one run over the rows that it comes to does.
use win_back_ai.Rescore.{ScoredCustomer, customer_id}
use mathlib.Core.Path.{subst}
use mathlib.Core.Option
use win_back_ai.Base.{
  ℕ, Bool, List, Option, ◌≤◌, All, rest, ◌++◌, ◌≡◌, ◌∷◌, [], ◌∙◌, refl, length, ◌<◌, some, ◌+◌,
  arith, suc, Bool-cases, inl, inr, zero, take, false, true, none, drop, sym, ap, length-append,
  find_by, IsStrict, IsUnique, or_else, rest_from-rest, rest-drop_page, IsStrict-rest,
  IsStrict-drop_rows, IsStrict-take, IsStrict-bound, All-rest, All-drop, All-take, if◌then◌else◌,
  ◌==◌, ==_refl,
}
use win_back_ai.Rescore.Visits.{visits, last_row, behind_page, visits-page, visits-last}
use win_back_ai.Rescore.Passes.{Pass, run_rows, run_pages, is_final, Totals, end_batch, last_id}
use win_back_ai.Rescore.Pages.{
  IsLocal, IsHeldBy, run_rows-ids, run_rows-behind, run_rows-append, left, rows_at, final_rows,
  next_rows, run_pages-final, run_pages-next,
}

-- What a pass comes to: one run over the rows `s`, which it counts.
abbrev pub EndsAs :
    Option (Totals × Pass)
    → Totals
    → (ScoredCustomer → Pass → Pass)
    → List ScoredCustomer
    → Pass
    → Type 0
EndsAs o k step s p =
    (k' : Totals) × (o ≡ some (k', run_rows step s p))
    × (k'.customers_seen ≡ k.customers_seen + length s)

last_row_key :
    (u : List ScoredCustomer) {j : ℕ}
    → last_id u ≡ some j
    → (c : ScoredCustomer) × (last_row u ≡ some c) × (c.id ≡ j)
last_row_key [] e = cc
last_row_key (c ∷ []) e = (c, refl, cc)
last_row_key (c ∷ d ∷ u) {j} e = last_row_key (d ∷ u) {j = j} e

not_first : (c : ScoredCustomer) (x : ℕ) → c.id < x → (c.id == x) ≡ false
not_first c x h = ground arith

found_last :
    (u : List ScoredCustomer) (c : ScoredCustomer)
    → IsStrict customer_id u
    → last_row u ≡ some c
    → find_by customer_id c.id u ≡ some c
unfolding find_by
found_last [] c s e = cc
found_last (b ∷ []) c s e =
    let same : b ≡ c = cc in
    subst (λ d. find_by customer_id d.id (b ∷ []) ≡ some d) same (rw (==_refl b.id) refl)
found_last (b ∷ d ∷ u) c s e =
    rw (not_first b c.id (All-last u d c s.0 e)) (found_last (d ∷ u) c s.1 e)
  where
    All-last :
        (u : List ScoredCustomer) (d c : ScoredCustomer)
        → All (λ a. b.id < a.id) (d ∷ u)
        → last_row (d ∷ u) ≡ some c
        → b.id < c.id
    All-last [] d c h e = let same : d ≡ c = cc in subst (λ a. b.id < a.id) same h.0
    All-last (a ∷ u) d c h e = All-last u a c h.1 e

module _ (keep : ScoredCustomer → Bool) (n : ℕ) (step : ScoredCustomer → Pass → Pass)
    (l : IsLocal step) where
  abbrev pub stays : ScoredCustomer → Bool
  stays c = keep (l.after c)

  -- A part of the rows behind a cursor: all but the first `m`.
  abbrev pub IsPart : Option ℕ → Pass → ℕ → Type 0
  IsPart cursor p m = left keep cursor p ≡ drop m (rest customer_id keep cursor p.db.customers)

  abbrev pub page_rows : Option ℕ → Pass → List ScoredCustomer
  page_rows cursor p = rows_at keep (suc n) cursor p

  page-IsStrict :
      (cursor : Option ℕ) (p : Pass) (m : ℕ)
      → IsUnique customer_id p.db.customers
      → IsPart cursor p m
      → IsStrict customer_id (page_rows cursor p)
  page-IsStrict cursor p m u e = IsStrict-take customer_id (suc n) (left keep cursor p) (
      subst (IsStrict customer_id) (sym e) (
        IsStrict-drop_rows customer_id m _
          (IsStrict-rest customer_id keep cursor p.db.customers u)))

  page_held :
      (cursor : Option ℕ) (p : Pass) (m : ℕ)
      → IsUnique customer_id p.db.customers
      → IsPart cursor p m
      → IsHeldBy p.db.customers (page_rows cursor p)
  page_held cursor p m u e =
      All-take (λ c. find_by customer_id c.id p.db.customers ≡ some c) (suc n) (left keep cursor p)
        (subst (IsHeldBy p.db.customers) (sym e) (
          All-drop (λ c. find_by customer_id c.id p.db.customers ≡ some c) m _
            (All-rest customer_id keep cursor p.db.customers u)))

  -- The rows past the page, which the next page is cut from.
  past_page :
      (cursor : Option ℕ) (p : Pass) (m : ℕ) {j : ℕ}
      → IsUnique customer_id p.db.customers
      → IsPart cursor p m
      → last_id (page_rows cursor p) ≡ some j
      → rest customer_id keep (some j) (run_rows step (page_rows cursor p) p).db.customers
        ≡ drop (suc n) (left keep cursor p)
  past_page cursor p m {j} u e r =
      rest-drop_page customer_id keep cursor p.db.customers _ m (suc n) {k = j} u
        (subst (λ v. last_id (take (suc n) v) ≡ some j) e r)
        (run_rows-behind step l j (page_rows cursor p) p (
          IsStrict-bound customer_id (page_rows cursor p) {k = j} (page-IsStrict cursor p m u e) r))
      ∙ ap (drop (suc n)) (sym e)

  -- The last row of a page, as the page leaves it.
  last_after :
      (cursor : Option ℕ) (p : Pass) (m : ℕ) (c : ScoredCustomer)
      → IsUnique customer_id p.db.customers
      → IsPart cursor p m
      → last_row (page_rows cursor p) ≡ some c
      → find_by customer_id c.id (run_rows step (page_rows cursor p) p).db.customers
        ≡ some (l.after c)
  last_after cursor p m c u e r =
      l.rows_after c.id (page_rows cursor p) p (page-IsStrict cursor p m u e)
        (page_held cursor p m u e)
      ∙ ap (λ o. or_else (Option.map l.after o) (find_by customer_id c.id p.db.customers))
          (found_last (page_rows cursor p) c (page-IsStrict cursor p m u e) r)

  next-IsUnique :
      (cursor : Option ℕ) (p : Pass)
      → IsUnique customer_id p.db.customers
      → IsUnique customer_id (run_rows step (page_rows cursor p) p).db.customers
  next-IsUnique cursor p u x =
      subst (λ i. i ≤ 1) (sym (run_rows-ids step l x (page_rows cursor p) p)) (u x)

  abbrev one_or_none : Bool → ℕ
  one_or_none true = 0
  one_or_none false = 1

  -- What the next page starts from.
  next_left :
      (cursor : Option ℕ) (p : Pass) (m : ℕ) (c : ScoredCustomer) {j : ℕ}
      → IsUnique customer_id p.db.customers
      → IsPart cursor p m
      → last_id (page_rows cursor p) ≡ some j
      → last_row (page_rows cursor p) ≡ some c
      → c.id ≡ j
      → (left keep (some j) (run_rows step (page_rows cursor p) p)
          ≡ behind_page stays (some c) (drop (suc n) (left keep cursor p)))
        × IsPart (some j) (run_rows step (page_rows cursor p) p) (one_or_none (stays c))
  next_left cursor p m c {j} u e r s i = (start ∙ past, start ∙ cut (stays c))
    where
      q : Pass
      q = run_rows step (page_rows cursor p) p

      others : List ScoredCustomer
      others = rest customer_id keep (some j) q.db.customers

      start : left keep (some j) q ≡ (if stays c then others else drop 1 others)
      start =
          rest_from-rest customer_id keep j q.db.customers {a = l.after c}
            (next-IsUnique cursor p u)
            (subst (λ k. find_by customer_id k q.db.customers ≡ some (l.after c)) i
              (last_after cursor p m c u e s))

      past :
          (if stays c then others else drop 1 others)
          ≡ behind_page stays (some c) (drop (suc n) (left keep cursor p))
      past = ap (λ v. if stays c then v else drop 1 v) (past_page cursor p m {j = j} u e r)

      cut : (b : Bool) → (if b then others else drop 1 others) ≡ drop (one_or_none b) others
      cut true = refl
      cut false = refl

  joined :
      (cursor : Option ℕ) (k : Totals) (p : Pass) (c : ScoredCustomer) (next : List ScoredCustomer)
      (k' : Totals)
      → last_row (page_rows cursor p) ≡ some c
      → next ≡ behind_page stays (some c) (drop (suc n) (left keep cursor p))
      → k'.customers_seen
        ≡ (end_batch (page_rows cursor p) k).customers_seen + length (visits n stays n next)
      → (run_rows step (visits n stays n next) (run_rows step (page_rows cursor p) p)
          ≡ run_rows step (visits n stays n (left keep cursor p)) p)
        × (k'.customers_seen ≡ k.customers_seen + length (visits n stays n (left keep cursor p)))
  joined cursor k p c next k' s e h = (
    sym (run_rows-append step (page_rows cursor p) (visits n stays n next) p)
        ∙ ap (λ v. run_rows step v p) whole,
    omega (arith, h, length-append (page_rows cursor p) (visits n stays n next), ap length whole),
  )
    where
      whole : page_rows cursor p ++ visits n stays n next ≡ visits n stays n (left keep cursor p)
      whole =
          ap (λ v. page_rows cursor p ++ visits n stays n v)
            (e ∙ ap (λ o. behind_page stays o (drop (suc n) (left keep cursor p))) (sym s))
          ∙ sym (visits-page n stays n (left keep cursor p))

  behind_page-le :
      (o : Option ScoredCustomer) (cs : List ScoredCustomer)
      → length (behind_page stays o cs) ≤ length cs
  behind_page-le none cs = omega arith
  behind_page-le (some c) cs = go (stays c) cs
    where
      go : (b : Bool) (cs : List ScoredCustomer) → length (if b then cs else drop 1 cs) ≤ length cs
      go true cs = omega arith
      go false [] = omega arith
      go false (d ∷ cs) = omega arith

  -- The rest of the loop behind a page ends.
  abbrev NextEnds : ℕ → Option ℕ → Totals → Pass → Type 0
  NextEnds fuel cursor k p =
      (j m' : ℕ)
      → IsUnique customer_id (run_rows step (page_rows cursor p) p).db.customers
      → IsPart (some j) (run_rows step (page_rows cursor p) p) m'
      → length (left keep (some j) (run_rows step (page_rows cursor p) p)) < fuel
      → EndsAs
          (run_pages keep (suc n) step fuel (some j) (end_batch (page_rows cursor p) k)
            (run_rows step (page_rows cursor p) p))
          (end_batch (page_rows cursor p) k) step
          (visits n stays n (left keep (some j) (run_rows step (page_rows cursor p) p)))
          (run_rows step (page_rows cursor p) p)

  goes_on :
      (fuel : ℕ) (cursor : Option ℕ) (k : Totals) (p : Pass) (m : ℕ)
      → IsUnique customer_id p.db.customers
      → IsPart cursor p m
      → length (left keep cursor p) < suc fuel
      → NextEnds fuel cursor k p
      → is_final (suc n) (page_rows cursor p) ≡ false
      → ((j : ℕ) × (last_id (page_rows cursor p) ≡ some j))
        × (length (drop (suc n) (left keep cursor p)) + suc n ≡ length (left keep cursor p))
      → EndsAs
          (run_pages keep (suc n) step (suc fuel) cursor k p)
          k
          step
          (visits n stays n (left keep cursor p))
          p
  goes_on fuel cursor k p m u e f again q ((j, r), shorter) =
      let (c, s, i) = last_row_key (page_rows cursor p) {j = j} r in
      let (next, part) = next_left cursor p m c {j = j} u e r s i in
      let (k', ran, seen) = again j (one_or_none (stays c)) (next-IsUnique cursor p u) part (
        subst (λ v. length v < fuel) (sym next)
          (omega (arith, behind_page-le (some c) (drop (suc n) (left keep cursor p))))) in
      let (same, count) = joined cursor k p c _ k' s next seen in
      (
        k',
        run_pages-next keep (suc n) step fuel cursor k p q
            ∙ ap
                (λ o.
                  run_pages keep (suc n) step fuel o (end_batch (page_rows cursor p) k)
                    (run_rows step (page_rows cursor p) p))
                r
            ∙ ran
            ∙ ap (λ v. some (k', v)) same,
        count,
      )

  -- The loop ends, and does what one run over the rows that it comes to does.
  pub run_pages-ends :
      (fuel : ℕ) (cursor : Option ℕ) (k : Totals) (p : Pass) (m : ℕ)
      → IsUnique customer_id p.db.customers
      → IsPart cursor p m
      → length (left keep cursor p) < fuel
      → EndsAs
          (run_pages keep (suc n) step fuel cursor k p)
          k
          step
          (visits n stays n (left keep cursor p))
          p
  run_pages-ends zero cursor k p m u e f = absurd (omega arith)
  run_pages-ends (suc fuel) cursor k p m u e f =
      elim (Bool-cases (is_final (suc n) (page_rows cursor p))) [
        | inl q ↦ ends_here q
        | inr q ↦
            goes_on fuel cursor k p m u e f
              (λ j m'.
                run_pages-ends fuel (some j) (end_batch (page_rows cursor p) k)
                  (run_rows step (page_rows cursor p) p) m')
              q (next_rows (suc n) (left keep cursor p) q)
      ]
    where
      ends_here :
          is_final (suc n) (page_rows cursor p) ≡ true
          → EndsAs
              (run_pages keep (suc n) step (suc fuel) cursor k p)
              k
              step
              (visits n stays n (left keep cursor p))
              p
      ends_here q =
          let all = final_rows (suc n) (left keep cursor p) (omega arith) q in
          let same = all ∙ sym (visits-last n stays n (left keep cursor p) all) in
          (
            end_batch (page_rows cursor p) k,
            run_pages-final keep (suc n) step fuel cursor k p q
                ∙ ap (λ r. some (end_batch (page_rows cursor p) k, run_rows step r p)) same,
            ap (λ r. k.customers_seen + length r) same,
          )
