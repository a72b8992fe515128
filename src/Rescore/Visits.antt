-- ===== src/Rescore/Visits.antt =====
-- The customers that the loop over pages of packages/db/src/services/customer-score.service.ts comes to.
use win_back_ai.Rescore.{ScoredCustomer, customer_id}
use win_back_ai.Base.{
  ℕ, Bool, List, Option, All, ◌++◌, ◌≡◌, ◌∷◌, [], refl, ◌<◌, some, suc, Bool-cases, inl, inr, zero,
  take, false, true, none, drop, ap, IsStrict, if◌then◌else◌,
}

-- The rows that a pass comes to, of those that pass its filter, in pages of `suc n` rows of which `suc i` are still to
-- come in this page: all of them, but for the first row of a page whose cursor, the last row of the page before,
-- does not pass the filter any more.
unfoldable pub visits : ℕ → (ScoredCustomer → Bool) → ℕ → List ScoredCustomer → List ScoredCustomer
visits n stays i [] = []
visits n stays zero (c ∷ []) = c ∷ []
visits n stays zero (c ∷ d ∷ cs) =
    c ∷ elim (stays c) [ true ↦ visits n stays n (d ∷ cs) | false ↦ visits n stays n cs ]
visits n stays (suc i) (c ∷ cs) = c ∷ visits n stays i cs

abbrev pub last_row : List ScoredCustomer → Option ScoredCustomer
last_row [] = none
last_row (c ∷ []) = some c
last_row (c ∷ d ∷ cs) = last_row (d ∷ cs)

-- What is left for the next page.
abbrev pub behind_page :
    (ScoredCustomer → Bool) → Option ScoredCustomer → List ScoredCustomer → List ScoredCustomer
behind_page stays none cs = cs
behind_page stays (some c) cs = if stays c then cs else drop 1 cs

pub visits-page :
    (n : ℕ) (stays : ScoredCustomer → Bool) (i : ℕ) (s : List ScoredCustomer)
    → visits n stays i s
      ≡ take (suc i) s
        ++ visits n stays n (behind_page stays (last_row (take (suc i) s)) (drop (suc i) s))
unfolding visits
visits-page n stays i [] = refl
visits-page n stays zero (c ∷ []) = go (stays c)
  where
    go : (b : Bool) → c ∷ [] ≡ c ∷ visits n stays n (if b then [] else [])
    go true = refl
    go false = refl
visits-page n stays zero (c ∷ d ∷ cs) = go (stays c)
  where
    go :
        (b : Bool)
        → c ∷ elim b [ true ↦ visits n stays n (d ∷ cs) | false ↦ visits n stays n cs ]
          ≡ c ∷ visits n stays n (if b then d ∷ cs else cs)
    go true = refl
    go false = refl
visits-page n stays (suc i) (c ∷ []) = go (stays c)
  where
    go : (b : Bool) → c ∷ [] ≡ c ∷ visits n stays n (if b then [] else [])
    go true = refl
    go false = refl
visits-page n stays (suc i) (c ∷ d ∷ cs) = ap (λ v. c ∷ v) (visits-page n stays i (d ∷ cs))

-- The last page.
pub visits-last :
    (n : ℕ) (stays : ScoredCustomer → Bool) (i : ℕ) (s : List ScoredCustomer)
    → take (suc i) s ≡ s
    → visits n stays i s ≡ s
unfolding visits
visits-last n stays i [] e = refl
visits-last n stays zero (c ∷ []) e = refl
visits-last n stays zero (c ∷ d ∷ cs) e = cc
visits-last n stays (suc i) (c ∷ cs) e = ap (λ v. c ∷ v) (visits-last n stays i cs (cc))

-- Where no row leaves, the pass comes to all rows.
pub visits-all :
    (n : ℕ) (stays : ScoredCustomer → Bool) (i : ℕ) (s : List ScoredCustomer)
    → ((c : ScoredCustomer) → stays c ≡ true)
    → visits n stays i s ≡ s
unfolding visits
visits-all n stays i [] h = refl
visits-all n stays zero (c ∷ []) h = refl
visits-all n stays zero (c ∷ d ∷ cs) h =
    rw (h c) (ap (λ v. c ∷ v) (visits-all n stays n (d ∷ cs) h))
visits-all n stays (suc i) (c ∷ cs) h = ap (λ v. c ∷ v) (visits-all n stays i cs h)

module _ {κ} (P : ScoredCustomer → Type κ) where
  pub All-visits :
      (n : ℕ) (stays : ScoredCustomer → Bool) (i : ℕ) (s : List ScoredCustomer)
      → All P s
      → All P (visits n stays i s)
  unfolding visits
  All-visits n stays i [] h = tt
  All-visits n stays zero (c ∷ []) h = h
  All-visits n stays zero (c ∷ d ∷ cs) h = elim (Bool-cases (stays c)) [
    | inl e ↦ rw e ((h.0, All-visits n stays n (d ∷ cs) h.1))
    | inr e ↦ rw e ((h.0, All-visits n stays n cs h.1.1))
  ]
  All-visits n stays (suc i) (c ∷ cs) h = (h.0, All-visits n stays i cs h.1)

pub IsStrict-visits :
    (n : ℕ) (stays : ScoredCustomer → Bool) (i : ℕ) (s : List ScoredCustomer)
    → IsStrict customer_id s
    → IsStrict customer_id (visits n stays i s)
unfolding visits
IsStrict-visits n stays i [] h = tt
IsStrict-visits n stays zero (c ∷ []) h = h
IsStrict-visits n stays zero (c ∷ d ∷ cs) h = elim (Bool-cases (stays c)) [
  | inl e ↦
      rw e (
        All-visits (λ b. c.id < b.id) n stays n (d ∷ cs) h.0,
        IsStrict-visits n stays n (d ∷ cs) h.1,
      )
  | inr e ↦
      rw e (All-visits (λ b. c.id < b.id) n stays n cs h.0.1, IsStrict-visits n stays n cs h.1.1)
]
IsStrict-visits n stays (suc i) (c ∷ cs) h =
    (All-visits (λ b. c.id < b.id) n stays i cs h.0, IsStrict-visits n stays i cs h.1)
