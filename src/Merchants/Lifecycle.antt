-- ===== src/Merchants/Lifecycle.antt =====
-- The row of a shop through installs, updates of its details and uninstalls, of this shop and of others.
use win_back_ai.Merchants.{
  Merchant, ShopDetails, merchant_id, merchant_shop, reinstalled, enriched, marked, upserted,
  upsert_install, update_enrichment, mark_uninstalled, handle_merchant_uninstalled, find_by_shop,
  new_merchant, id_of,
}
use win_back_ai.Base.{
  ℕ, Bool, List, Option, none, some, false, [], ◌∷◌, ◌≡◌, ◌==◌, find_by, update_by, or_else, mapped,
  find_by-update_by, if◌then◌else◌, Bool-cases, inl, inr, refl, ap, ◌∙◌, arith, find_by-append, sym,
}

-- A write to the table: of a shop with the id for a new row, or of a merchant.
pub data Step : Type 0 where
  install : ℕ → ℕ → ℕ → Step
  enrich : ℕ → ShopDetails → ℕ → Step
  uninstall : ℕ → ℕ → Step

abbrev pub step : Step → List Merchant → List Merchant
step (install x shop now) t = (upsert_install x shop now t).1
step (enrich m d now) t = update_enrichment m d now t
step (uninstall m now) t = handle_merchant_uninstalled m now t

unfoldable pub run : List Step → List Merchant → List Merchant
run [] t = t
run (e ∷ es) t = run es (step e t)

abbrev installs : ℕ → Step → Bool
installs shop (install x s now) = s == shop
installs shop _ = false

-- The steps after the last install of a shop, if there is one.
unfoldable pub after_install : ℕ → List Step → Option (List Step)
after_install shop [] = none
after_install shop (e ∷ es) =
    or_else (after_install shop es) (if installs shop e then some es else none)

-- The time of the first uninstall of a merchant.
unfoldable pub first_uninstall : ℕ → List Step → Option ℕ
first_uninstall m [] = none
first_uninstall m (uninstall j now ∷ es) = if m == j then some now else first_uninstall m es
first_uninstall m (e ∷ es) = first_uninstall m es

abbrev pub chosen : ℕ → Option ℕ → Option ℕ → Option (List Step) → Option ℕ
chosen m u first none = or_else u first
chosen m u first (some later) = first_uninstall m later

-- The time of uninstall after some steps, by their history: the first uninstall after the last install, and where
-- there is no install, the time before the steps, or else the first uninstall.
abbrev pub uninstalled_after : ℕ → ℕ → Option ℕ → List Step → Option ℕ
uninstalled_after shop m u es = chosen m u (first_uninstall m es) (after_install shop es)

-- A write by one key, seen from another.
find_by-update_id {ℓ} :
    {A : Type ℓ} (key other : A → ℕ) (m k : ℕ) (f : A → A) (t : List A)
    → ((a : A) → key (f a) ≡ key a)
    → find_by key k (update_by other m f t)
      ≡ mapped (λ a. if other a == m then f a else a) (find_by key k t)
unfolding find_by update_by
find_by-update_id key other m k f [] h = refl
find_by-update_id key other m k f (a ∷ t) h = elim (Bool-cases (other a == m)) [
  | inl e ↦ elim (Bool-cases (key a == k)) [
    | inl c ↦ rw (e, h a, c, e) refl
    | inr c ↦ rw (e, h a, c) (find_by-update_id key other m k f t h)
  ]
  | inr e ↦ elim (Bool-cases (key a == k)) [
    | inl c ↦ rw (e, c, e) refl
    | inr c ↦ rw (e, c) (find_by-update_id key other m k f t h)
  ]
]

-- The row of a shop after one step.
abbrev row_after : ℕ → Step → Merchant → Merchant
row_after shop (install x s now) r = if s == shop then reinstalled r else r
row_after shop (enrich m d now) r = if r.id == m then enriched d now r else r
row_after shop (uninstall m now) r = if r.id == m then marked now r else r

found-upserted :
    (x s now shop : ℕ) (r : Merchant) (t : List Merchant) (i : Option Merchant)
    → find_by merchant_shop shop t ≡ some r
    → find_by merchant_shop s t ≡ i
    → find_by merchant_shop shop (upserted x s now (id_of i) t).1
      ≡ some (if s == shop then reinstalled r else r)
found-upserted x s now shop r t none h e = elim (Bool-cases (s == shop)) [
  | inl c ↦ absurd (grind (arith, h, e, c))
  | inr c ↦ rw c (find_by-append merchant_shop shop t (new_merchant x s now ∷ []) ∙ rw h refl)
]
found-upserted x s now shop r t (some q) h e =
    find_by-update_by merchant_shop s shop reinstalled t (λ a. refl)
    ∙ elim (Bool-cases (s == shop)) [ inl c ↦ rw (c, h) refl | inr c ↦ rw (c, h) refl ]

found-step :
    (shop : ℕ) (e : Step) (r : Merchant) (t : List Merchant)
    → find_by merchant_shop shop t ≡ some r
    → find_by merchant_shop shop (step e t) ≡ some (row_after shop e r)
unfolding upsert_install find_by_shop update_enrichment handle_merchant_uninstalled mark_uninstalled
found-step shop (install x s now) r t h =
    found-upserted x s now shop r t (find_by merchant_shop s t) h refl
found-step shop (enrich m d now) r t h =
    find_by-update_id merchant_shop merchant_id m shop (enriched d now) t (λ a. refl) ∙ rw h refl
found-step shop (uninstall m now) r t h =
    find_by-update_id merchant_shop merchant_id m shop (marked now) t (λ a. refl) ∙ rw h refl

or_else_assoc {ℓ} :
    {A : Type ℓ} (a b c : Option A) → or_else (or_else a b) c ≡ or_else a (or_else b c)
or_else_assoc none b c = refl
or_else_assoc (some a) b c = refl

-- A row of the shop with the id and the time of uninstall, in the table.
abbrev pub IsMarked : ℕ → ℕ → Option ℕ → List Merchant → Type 0
IsMarked shop m u t =
    (r : Merchant) × (find_by merchant_shop shop t ≡ some r) × (r.id ≡ m) × (r.uninstalled_at ≡ u)

chosen-reinstalled :
    (m : ℕ) (u first : Option ℕ) (es : List Step) (o : Option (List Step))
    → first_uninstall m es ≡ first
    → chosen m none first o ≡ chosen m u first (or_else o (some es))
chosen-reinstalled m u first es none h = sym h
chosen-reinstalled m u first es (some later) h = refl

chosen-other :
    (m : ℕ) (u first : Option ℕ) (o : Option (List Step))
    → chosen m u first o ≡ chosen m u first (or_else o none)
chosen-other m u first none = refl
chosen-other m u first (some later) = refl

chosen-marked :
    (m now : ℕ) (u first : Option ℕ) (o : Option (List Step))
    → chosen m (or_else u (some now)) first o ≡ chosen m u (some now) (or_else o none)
chosen-marked m now u first none = or_else_assoc u (some now) first
chosen-marked m now u first (some later) = refl

chosen-step :
    (shop : ℕ) (e : Step) (r : Merchant) (es : List Step)
    → chosen r.id
        (row_after shop e r).uninstalled_at
        (first_uninstall r.id es)
        (after_install shop es)
      ≡ chosen r.id r.uninstalled_at (first_uninstall r.id (e ∷ es)) (after_install shop (e ∷ es))
unfolding after_install first_uninstall
chosen-step shop (install x s now) r es = elim (Bool-cases (s == shop)) [
  | inl c ↦ rw c (chosen-reinstalled r.id r.uninstalled_at _ es (after_install shop es) refl)
  | inr c ↦ rw c (chosen-other r.id r.uninstalled_at _ (after_install shop es))
]
chosen-step shop (enrich m d now) r es = elim (Bool-cases (r.id == m)) [
  | inl c ↦ rw c (chosen-other r.id r.uninstalled_at _ (after_install shop es))
  | inr c ↦ rw c (chosen-other r.id r.uninstalled_at _ (after_install shop es))
]
chosen-step shop (uninstall m now) r es = elim (Bool-cases (r.id == m)) [
  | inl c ↦ rw c (chosen-marked r.id now r.uninstalled_at _ (after_install shop es))
  | inr c ↦ rw c (chosen-other r.id r.uninstalled_at _ (after_install shop es))
]

unmarked : (u : Option ℕ) → u ≡ or_else u none
unmarked none = refl
unmarked (some n) = refl

row_after_id : (shop : ℕ) (e : Step) (r : Merchant) → (row_after shop e r).id ≡ r.id
row_after_id shop (install x s now) r = elim (Bool-cases (s == shop)) [
  | inl c ↦ rw c refl
  | inr c ↦ rw c refl
]
row_after_id shop (enrich m d now) r = elim (Bool-cases (r.id == m)) [
  | inl c ↦ rw c refl
  | inr c ↦ rw c refl
]
row_after_id shop (uninstall m now) r = elim (Bool-cases (r.id == m)) [
  | inl c ↦ rw c refl
  | inr c ↦ rw c refl
]

-- Through any installs, updates of details and uninstalls, of this shop and of others, a shop that has a row
-- keeps a row with the same id. Its time of uninstall is then that of the first uninstall of this id after
-- the last install of the shop, and where there is no install among the steps, the time that was stored
-- before, or else that of the first uninstall. So an uninstall that is delivered again after a later install
-- marks the shop as uninstalled again.
pub lifecycle_exact :
    (shop : ℕ) (es : List Step) (t : List Merchant) (r : Merchant)
    → find_by merchant_shop shop t ≡ some r
    → IsMarked shop r.id (uninstalled_after shop r.id r.uninstalled_at es) (run es t)
unfolding run after_install first_uninstall
lifecycle_exact shop [] t r h = (r, h, refl, unmarked r.uninstalled_at)
lifecycle_exact shop (e ∷ es) t r h =
    let (q, f, i, u) =
      lifecycle_exact shop es (step e t) (row_after shop e r) (found-step shop e r t h) in
    (
      q,
      f,
      i ∙ row_after_id shop e r,
      u
          ∙ ap (λ m. uninstalled_after shop m (row_after shop e r).uninstalled_at es)
              (row_after_id shop e r)
          ∙ chosen-step shop e r es,
    )
