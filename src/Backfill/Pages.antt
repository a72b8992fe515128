-- ===== src/Backfill/Pages.antt =====
-- A run over a listing of pages.
use win_back_ai.Backfill.{
  BackfillEnv, BackfillJob, ResourcePage, process_page, Running, commit_page, run_pages, turn,
  committed, thrown, RunResult, Fault, stop,
}
use win_back_ai.Base.{
  ℕ, List, Option, none, some, true, false, [], ◌∷◌, ◌+◌, ◌≡◌, length, arith, refl, suc, zero, ◌∙◌,
  ap, ◌++◌, ◌<◌,
}

some_injective : {A : Type 0} {a b : A} → some a ≡ some b → a ≡ b
some_injective h = cc

module _ {A D : Type 0} (env : BackfillEnv A D) where
  -- The pages that the shop lists from a cursor on, up to one without a next page; the rest of a listing may be behind
  -- a further cursor.
  abbrev pub IsListing : Option ℕ → List (ResourcePage A) → Type 0
  IsListing c [] = ⊥
  IsListing c (p ∷ []) = (env.page_at c ≡ p) × (p.has_next_page ≡ false)
  IsListing c (p ∷ q ∷ ps) =
      (env.page_at c ≡ p) × (p.has_next_page ≡ true) × IsListing p.end_cursor (q ∷ ps)

  -- The pages processed one after another.
  unfoldable pub process_all : List (ResourcePage A) → D → Option D
  process_all [] d = some d
  process_all (p ∷ ps) d = elim (process_page env p.items d) [
    | none ↦ none
    | some d' ↦ process_all ps d'
  ]

  unfoldable pub items_of : List (ResourcePage A) → ℕ
  items_of [] = 0
  items_of (p ∷ ps) = length p.items + items_of ps

  -- The job behind the pages.
  unfoldable pub advanced : List (ResourcePage A) → BackfillJob → BackfillJob
  advanced [] j = j
  advanced (p ∷ ps) j = advanced ps (commit_page p.end_cursor (length p.items) j)

  -- The state behind the pages.
  abbrev pub passed : List (ResourcePage A) → D → Running D → Running D
  passed ps d r = record r { job = advanced ps r.job; store = d }

  -- The next `k` calls do not fail.
  abbrev pub NoFaults : ℕ → ℕ → Type 0
  NoFaults n zero = Unit
  NoFaults n (suc k) = (env.fault_at n ≡ none) × NoFaults (n + 1) k

  pub items-advanced :
      (ps : List (ResourcePage A)) (j : BackfillJob)
      → ((advanced ps j).items_processed ≡ j.items_processed + items_of ps)
        × ((advanced ps j).pages_processed ≡ j.pages_processed + length ps)
  unfolding advanced items_of
  items-advanced [] j = (omega arith, omega arith)
  items-advanced (p ∷ ps) j =
      let ih = items-advanced ps (commit_page p.end_cursor (length p.items) j) in
      (omega (arith, ih.0), omega (arith, ih.1))

  IsListing-tail :
      (c : Option ℕ) (p : ResourcePage A) (ps : List (ResourcePage A)) (q : ResourcePage A)
      (qs : List (ResourcePage A))
      → IsListing c (p ∷ (ps ++ q ∷ qs))
      → (env.page_at c ≡ p) × (p.has_next_page ≡ true) × IsListing p.end_cursor (ps ++ q ∷ qs)
  IsListing-tail c p [] q qs l = l
  IsListing-tail c p (x ∷ ps) q qs l = l

  -- The first page of a chain of pages is processed.
  first_processed :
      (p : ResourcePage A) (ps : List (ResourcePage A)) (d d' : D)
      → process_all (p ∷ ps) d ≡ some d'
      → (e : D) × (process_page env p.items d ≡ some e) × (process_all ps e ≡ some d')
  unfolding process_all
  first_processed p ps d d' h = go (process_page env p.items d) h
    where
      go :
          (o : Option D)
          → elim o [ none ↦ none | some e ↦ process_all ps e ] ≡ some d'
          → (e : D) × (o ≡ some e) × (process_all ps e ≡ some d')
      go none h = cc
      go (some e) h = (e, refl, h)

  -- One page that is fetched and processed.
  one_page :
      (left n : ℕ) (r : Running D) (p : ResourcePage A) (d : D)
      → env.fault_at n ≡ none
      → env.page_at r.job.cursor ≡ p
      → process_page env p.items r.store ≡ some d
      → run_pages env (suc left) n r
        ≡ turn env p.has_next_page left (λ r'. run_pages env left (n + 1) r') (committed env p d r)
  unfolding run_pages
  one_page left n r p d f e h = rw (f, e, h) refl

  turn_end :
      (left more : ℕ) (next next' : Running D → RunResult × Running D) (r : Running D)
      → left ≡ more
      → turn env false left next r ≡ turn env false more next' r
  turn_end zero zero next next' r e = refl
  turn_end zero (suc more) next next' r e = absurd (omega arith)
  turn_end (suc left) zero next next' r e = absurd (omega arith)
  turn_end (suc left) (suc more) next next' r e = refl

  -- The whole of a listing, with `more` pages below the limit.
  pub whole_listing :
      (left n more : ℕ) (r : Running D) (ps : List (ResourcePage A)) (d : D)
      → IsListing r.job.cursor ps
      → NoFaults n (length ps)
      → process_all ps r.store ≡ some d
      → left ≡ length ps + more
      → run_pages env left n r ≡ turn env false more (λ r'. (thrown, r')) (passed ps d r)
  unfolding advanced process_all
  whole_listing left n more r [] d l f h e = absurd l
  whole_listing zero n more r (p ∷ ps) d l f h e = absurd (omega arith)
  whole_listing (suc left) n more r (p ∷ []) d l f h e =
      let (d', one, none_left) = first_processed p [] r.store d h in
      one_page left n r p d' f.0 l.0 one
      ∙ ap (λ b. turn env b left (λ r'. run_pages env left (n + 1) r') (committed env p d' r)) l.1
      ∙ turn_end left more _ _ (committed env p d' r) (omega arith)
      ∙ ap (λ v. turn env false more (λ r'. (thrown, r')) (committed env p v r))
          (some_injective none_left)
  whole_listing (suc left) n more r (p ∷ q ∷ ps) d l f h e =
      let (d', one, others) = first_processed p (q ∷ ps) r.store d h in
      one_page left n r p d' f.0 l.0 one
      ∙ ap (λ b. turn env b left (λ r'. run_pages env left (n + 1) r') (committed env p d' r)) l.1
      ∙ whole_listing left (n + 1) more (committed env p d' r) (q ∷ ps) d l.2 f.1 others
          (omega arith)

  -- The first pages of a listing before a call that fails.
  pub cut_listing :
      (left n : ℕ) (r : Running D) (done : List (ResourcePage A)) (q : ResourcePage A)
      (qs : List (ResourcePage A)) (d : D) (f : Fault)
      → IsListing r.job.cursor (done ++ q ∷ qs)
      → NoFaults n (length done)
      → env.fault_at (n + length done) ≡ some f
      → process_all done r.store ≡ some d
      → length done < left
      → run_pages env left n r ≡ stop env f (passed done d r)
  unfolding advanced process_all run_pages
  cut_listing zero n r done q qs d f l k c h e = absurd (omega arith)
  cut_listing (suc left) n r [] q qs d f l k c h e =
      let first : n + 0 ≡ n = omega arith in
      rw (rw first at c) (ap (λ v. stop env f (record r { store = v })) (some_injective h))
  cut_listing (suc left) n r (p ∷ ps) q qs d f l k c h e =
      let (d', one, others) = first_processed p ps r.store d h in
      let later : n + length (p ∷ ps) ≡ n + 1 + length ps = omega arith in
      let next = IsListing-tail r.job.cursor p ps q qs l in
      one_page left n r p d' k.0 next.0 one
      ∙ ap (λ b. turn env b left (λ r'. run_pages env left (n + 1) r') (committed env p d' r))
          next.1
      ∙ cut_listing left (n + 1) (committed env p d' r) ps q qs d f next.2 k.1 (rw later at c)
          others (omega arith)

  -- Behind its first pages a listing goes on at the cursor of the job.
  pub IsListing-rest :
      (j : BackfillJob) (done : List (ResourcePage A)) (q : ResourcePage A)
      (qs : List (ResourcePage A))
      → IsListing j.cursor (done ++ q ∷ qs)
      → IsListing (advanced done j).cursor (q ∷ qs)
  unfolding advanced
  IsListing-rest j [] q qs l = l
  IsListing-rest j (p ∷ ps) q qs l =
      IsListing-rest (commit_page p.end_cursor (length p.items) j) ps q qs
        (IsListing-tail j.cursor p ps q qs l).2

  pub process_all-append :
      (ps qs : List (ResourcePage A)) (d d1 d2 : D)
      → process_all ps d ≡ some d1
      → process_all qs d1 ≡ some d2
      → process_all (ps ++ qs) d ≡ some d2
  unfolding process_all
  process_all-append [] qs d d1 d2 h k = ap (λ v. process_all qs v) (some_injective h) ∙ k
  process_all-append (p ∷ ps) qs d d1 d2 h k =
      let (e, one, others) = first_processed p ps d d1 h in
      ap (λ (o : Option D). elim o [ none ↦ none | some v ↦ process_all (ps ++ qs) v ]) one
      ∙ process_all-append ps qs e d1 d2 others k

  pub items_of-append :
      (ps qs : List (ResourcePage A)) → items_of (ps ++ qs) ≡ items_of ps + items_of qs
  unfolding items_of
  items_of-append [] qs = omega arith
  items_of-append (p ∷ ps) qs = omega (arith, items_of-append ps qs)
