-- ===== src/Compliance/Person.antt =====
-- The rows of the customers after the redaction of one.
use win_back_ai.Customers.{CustomerRow, redacted, is_customer, find_first, update_where, is_live}
use win_back_ai.Compliance.{scrub}
use win_back_ai.Base.{
  ℕ, Bool, List, Option, ◌≡◌, ◌∷◌, [], not, ◌&&◌, ◌==◌, filter, none, some, true, false, refl, sym,
  ◌∙◌, ap, Bool-cases, inl, inr, All, if◌then◌else◌,
}

-- The row of the customer shows nothing of the person.
pub record IsScrubbed (c : CustomerRow) : Type 0 where
  pub no_email : c.email ≡ none
  pub no_phone : c.phone ≡ none
  pub no_first_name : c.first_name ≡ none
  pub no_last_name : c.last_name ≡ none
  pub no_gid : c.shopify_customer_id ≡ redacted c.id
  pub not_live : is_live c.deleted_at ≡ false

scrub-IsScrubbed : (now : ℕ) (c : CustomerRow) → IsScrubbed (scrub now c)
scrub-IsScrubbed now c = record {
  no_email = refl;
  no_phone = refl;
  no_first_name = refl;
  no_last_name = refl;
  no_gid = refl;
  not_live = dead c.deleted_at;
}
  where
    dead : (o : Option ℕ) → is_live (if is_live o then some now else o) ≡ false
    dead none = refl
    dead (some t) = refl

pub all-IsScrubbed :
    (now x : ℕ) (cs : List CustomerRow)
    → All (λ c. (c.id == x) ≡ true → IsScrubbed c) (update_where (λ d. d.id == x) (scrub now) cs)
unfolding update_where
all-IsScrubbed now x [] = tt
all-IsScrubbed now x (c ∷ cs) = elim (Bool-cases (c.id == x)) [
  | inl e ↦ rw e ((λ h. scrub-IsScrubbed now c, all-IsScrubbed now x cs))
  | inr e ↦ rw e ((λ h. cc, all-IsScrubbed now x cs))
]

pub others_unchanged :
    (now x : ℕ) (cs : List CustomerRow)
    → filter (λ c. not (c.id == x)) (update_where (λ d. d.id == x) (scrub now) cs)
      ≡ filter (λ c. not (c.id == x)) cs
unfolding update_where filter
others_unchanged now x [] = refl
others_unchanged now x (c ∷ cs) = elim (Bool-cases (c.id == x)) [
  | inl e ↦ rw (e, e) (others_unchanged now x cs)
  | inr e ↦ rw (e, e) (ap (λ t. c ∷ t) (others_unchanged now x cs))
]

-- The GID of a merchant names one customer.
abbrev pub NamesOnly : ℕ → ℕ → ℕ → List CustomerRow → Type 0
NamesOnly m n x cs = All (λ c. is_customer m n c ≡ true → (c.id == x) ≡ true) cs

pub gid_unknown :
    (now m n x : ℕ) (cs : List CustomerRow)
    → NamesOnly m n x cs
    → find_first (is_customer m n) (update_where (λ d. d.id == x) (scrub now) cs) ≡ none
unfolding update_where find_first
gid_unknown now m n x [] h = refl
gid_unknown now m n x (c ∷ cs) h = elim (Bool-cases (c.id == x)) [
  | inl e ↦ rw (e, cut (c.merchant_id == m)) (gid_unknown now m n x cs h.1)
  | inr e ↦ rw (e, other (is_customer m n c) h.0 e) (gid_unknown now m n x cs h.1)
]
  where
    cut : (b : Bool) → (b && false) ≡ false
    cut true = refl
    cut false = refl

    other : (b : Bool) → (b ≡ true → (c.id == x) ≡ true) → (c.id == x) ≡ false → b ≡ false
    other true k e = sym (k refl) ∙ e
    other false k e = refl

pub find_first-narrowed :
    {A : Type 0} (p q : A → Bool) (t : List A)
    → find_first p t ≡ none
    → find_first (λ a. p a && q a) t ≡ none
unfolding find_first
find_first-narrowed p q [] h = refl
find_first-narrowed p q (a ∷ t) h = elim (Bool-cases (p a)) [
  | inl e ↦ cc
  | inr e ↦ rw e (find_first-narrowed p q t (rw e at h))
]
