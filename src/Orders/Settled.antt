-- ===== src/Orders/Settled.antt =====
-- A table in which a write by upsert has taken place: the same write again changes nothing.
use win_back_ai.Customers.{find_first, update_where}
use win_back_ai.Orders.Writes.{upsert_where}
use win_back_ai.Base.{
  Bool, List, Option, none, some, true, false, [], ◌∷◌, ◌++◌, ◌≡◌, if◌then◌else◌, found, refl, ap,
  ◌∙◌, Bool-cases, inl, inr, mapped, or_else, arith,
}

module _ {ℓ} {A : Type ℓ} where
  -- A write of the rows that a test picks, which keeps the test and may be repeated.
  pub record IsWrite (p : A → Bool) (f : A → A) (new : A) : Type ℓ where
    pub keeps : (a : A) → p (f a) ≡ p a
    pub repeats : (a : A) → f (f a) ≡ f a
    pub on_new : f new ≡ new
    pub picks_new : p new ≡ true

  -- Some row is picked, and the write changes none.
  abbrev pub IsSettled : (A → Bool) → (A → A) → List A → Type ℓ
  IsSettled p f t = (found (find_first p t) ≡ true) × (update_where p f t ≡ t)

  update_where-append :
      (p : A → Bool) (f : A → A) (t u : List A)
      → update_where p f (t ++ u) ≡ update_where p f t ++ update_where p f u
  unfolding update_where
  update_where-append p f [] u = refl
  update_where-append p f (a ∷ t) u =
      ap (λ r. (if p a then f a else a) ∷ r) (update_where-append p f t u)

  found-append :
      (p : A → Bool) (t : List A) (a : A) → p a ≡ true → found (find_first p (t ++ a ∷ [])) ≡ true
  unfolding find_first
  found-append p [] a h = rw h refl
  found-append p (b ∷ t) a h = elim (Bool-cases (p b)) [
    | inl e ↦ rw e refl
    | inr e ↦ rw e (found-append p t a h)
  ]

  found-append_old :
      (p : A → Bool) (t u : List A)
      → found (find_first p t) ≡ true
      → found (find_first p (t ++ u)) ≡ true
  unfolding find_first
  found-append_old p [] u h = cc
  found-append_old p (b ∷ t) u h = elim (Bool-cases (p b)) [
    | inl e ↦ rw e refl
    | inr e ↦ rw e (found-append_old p t u (rw e at h))
  ]

  same_if :
      (b : Bool) (x y : A) (m n : Option A)
      → found m ≡ found n
      → found (if b then some x else m) ≡ found (if b then some y else n)
  same_if true x y m n e = refl
  same_if false x y m n e = e

  pub find_first-update_where :
      (p q : A → Bool) (f : A → A) (t : List A)
      → ((a : A) → p (f a) ≡ p a)
      → found (find_first p (update_where q f t)) ≡ found (find_first p t)
  unfolding find_first update_where
  find_first-update_where p q f [] h = refl
  find_first-update_where p q f (a ∷ t) h = elim (Bool-cases (q a)) [
    | inl e ↦ rw (e, h a) (same_if (p a) (f a) a _ _ (find_first-update_where p q f t h))
    | inr e ↦ rw e (same_if (p a) a a _ _ (find_first-update_where p q f t h))
  ]

  update_absent :
      (p : A → Bool) (f : A → A) (t : List A)
      → found (find_first p t) ≡ false
      → update_where p f t ≡ t
  unfolding find_first update_where
  update_absent p f [] h = refl
  update_absent p f (a ∷ t) h = elim (Bool-cases (p a)) [
    | inl e ↦ absurd (ground (arith, e, h))
    | inr e ↦ rw e (ap (λ r. a ∷ r) (update_absent p f t (rw e at h)))
  ]

  update_twice :
      (p : A → Bool) (f : A → A) (t : List A)
      → ((a : A) → p (f a) ≡ p a)
      → ((a : A) → f (f a) ≡ f a)
      → update_where p f (update_where p f t) ≡ update_where p f t
  unfolding update_where
  update_twice p f [] h k = refl
  update_twice p f (a ∷ t) h k = elim (Bool-cases (p a)) [
    | inl e ↦ rw (e, h a, e, k a) (ap (λ r. f a ∷ r) (update_twice p f t h k))
    | inr e ↦ rw (e, e) (ap (λ r. a ∷ r) (update_twice p f t h k))
  ]

  -- Writes of different rows can change places.
  update_comm :
      (p q : A → Bool) (f g : A → A) (t : List A)
      → ((a : A) → p a ≡ true → q a ≡ false)
      → ((a : A) → p (g a) ≡ p a)
      → ((a : A) → q (f a) ≡ q a)
      → update_where p f (update_where q g t) ≡ update_where q g (update_where p f t)
  unfolding update_where
  update_comm p q f g [] d h k = refl
  update_comm p q f g (a ∷ t) d h k = elim (Bool-cases (p a)) [
    | inl e ↦ rw (e, d a e, k a, d a e, e) (ap (λ r. f a ∷ r) (update_comm p q f g t d h k))
    | inr e ↦ elim (Bool-cases (q a)) [
      | inl c ↦ rw (e, c, h a, e) (ap (λ r. g a ∷ r) (update_comm p q f g t d h k))
      | inr c ↦ rw (e, c, e) (ap (λ r. a ∷ r) (update_comm p q f g t d h k))
    ]
  ]

  not_found : (t : Option A) → found t ≡ false → t ≡ none
  not_found none h = refl
  not_found (some a) h = absurd (ground (arith, h))

  find_first-update :
      (p : A → Bool) (f : A → A) (t : List A)
      → ((a : A) → p (f a) ≡ p a)
      → find_first p (update_where p f t) ≡ mapped f (find_first p t)
  unfolding find_first update_where
  find_first-update p f [] h = refl
  find_first-update p f (a ∷ t) h = elim (Bool-cases (p a)) [
    | inl e ↦ rw (e, h a, e) refl
    | inr e ↦ rw (e, e) (find_first-update p f t h)
  ]

  find_first-append :
      (p : A → Bool) (t : List A) (a : A)
      → p a ≡ true
      → found (find_first p t) ≡ false
      → find_first p (t ++ a ∷ []) ≡ some a
  unfolding find_first
  find_first-append p [] a h n = rw h refl
  find_first-append p (b ∷ t) a h n = elim (Bool-cases (p b)) [
    | inl e ↦ absurd (ground (arith, e, n))
    | inr e ↦ rw e (find_first-append p t a h (rw e at n))
  ]

  module _ {p : A → Bool} {f : A → A} {new : A} (w : IsWrite p f new) where
    -- What is found after an upsert.
    abbrev upserted_or : List A → Option A → List A
    upserted_or t m = if found m then update_where p f t else t ++ new ∷ []

    pub find_first-upsert_where :
        (t : List A)
        → find_first p (upsert_where p f new t) ≡ or_else (mapped f (find_first p t)) (some new)
    unfolding upsert_where
    find_first-upsert_where t = go (find_first p t) refl
      where
        go :
            (m : Option A)
            → find_first p t ≡ m
            → find_first p (upserted_or t m) ≡ or_else (mapped f m) (some new)
        go none e = find_first-append p t new w.picks_new (ap found e)
        go (some a) e = rw (find_first-update p f t w.keeps, e) refl

    appended_new :
        (t : List A)
        → found (find_first p t) ≡ false
        → update_where p f (t ++ new ∷ []) ≡ t ++ new ∷ []
    unfolding update_where
    appended_new t e =
        rw (update_where-append p f t (new ∷ []), update_absent p f t e, w.picks_new, w.on_new) refl

    pub upsert-IsSettled : (t : List A) → IsSettled p f (upsert_where p f new t)
    unfolding upsert_where
    upsert-IsSettled t = elim (Bool-cases (found (find_first p t))) [
      | inl e ↦
          rw e (find_first-update_where p p f t w.keeps ∙ e, update_twice p f t w.keeps w.repeats)
      | inr e ↦ rw e (found-append p t new w.picks_new, appended_new t e)
    ]

    pub upsert_settled : (t : List A) → IsSettled p f t → upsert_where p f new t ≡ t
    unfolding upsert_where
    upsert_settled t (h, k) = rw h k

  appended_other :
      (p : A → Bool) (f : A → A) (t : List A) (a : A)
      → update_where p f t ≡ t
      → p a ≡ false
      → update_where p f (t ++ a ∷ []) ≡ t ++ a ∷ []
  unfolding update_where
  appended_other p f t a u n = rw (update_where-append p f t (a ∷ []), u, n) refl

  -- An upsert of other rows leaves a settled write settled.
  pub upsert_other :
      {p q : A → Bool} {f g : A → A} {other : A}
      → ((a : A) → p a ≡ true → q a ≡ false)
      → ((a : A) → p (g a) ≡ p a)
      → ((a : A) → q (f a) ≡ q a)
      → p other ≡ false
      → (t : List A) → IsSettled p f t
      → IsSettled p f (upsert_where q g other t)
  unfolding upsert_where
  upsert_other {p} {q} {f} {g} {other} d h k n t (s, u) =
      elim (Bool-cases (found (find_first q t))) [
        | inl e ↦ rw e (
          find_first-update_where p q g t h ∙ s,
          update_comm p q f g t d h k ∙ ap (update_where q g) u,
        )
        | inr e ↦ rw e (found-append_old p t (other ∷ []) s, appended_other p f t other u n)
      ]
