-- ===== src/Base/Upsert.antt =====
-- `upsert` by a unique key, and the number of rows with a key.
use Prim.Native.Nat.{ℕ, ◌+◌}
use mathlib.Core.Path.{◌≡◌, refl, sym, ap, ◌∙◌}
use mathlib.Core.Logic.{◌⊎◌, inl, inr}
use mathlib.Core.List.{List, [], ◌∷◌, ◌++◌, map}
use mathlib.Core.Option.{Option, none, some}
use mathlib.Core.Option
use native.Mathlib.Omega.{arith}
use mathlib.Core.Bool.{Bool, true, false, ◌||◌}
use win_back_ai.Base.Lists.{filter}
use win_back_ai.Base.Count.{count_if}
use win_back_ai.Base.Table.{
  find_by, update_by, mapped, or_else, find_by-update_at, find_by-append, has_key, has_key-append,
}
use win_back_ai.Base.Tests.{◌==◌, ==_iff, Bool-cases, if◌then◌else◌}

-- `upsert`: the row of the key is updated, or a new row is inserted.
unfoldable pub upsert_by {ℓ} : {A : Type ℓ} → (A → ℕ) → ℕ → (A → A) → A → List A → List A
upsert_by key k f new t = if has_key key k t then update_by key k f t else t ++ new ∷ []

-- The row after the upsert.
abbrev pub updated_or {ℓ} : {A : Type ℓ} → (A → A) → A → Option A → A
updated_or f new none = new
updated_or f new (some a) = f a

abbrev pub found {ℓ} : {A : Type ℓ} → Option A → Bool
found none = false
found (some a) = true

module _ {ℓ} {A : Type ℓ} (key : A → ℕ) where
  pub has_key-find_by : (k : ℕ) (t : List A) → has_key key k t ≡ found (find_by key k t)
  unfolding has_key find_by
  has_key-find_by k [] = refl
  has_key-find_by k (a ∷ t) = ground (arith, has_key-find_by k t)

  has_key-update_by :
      (k : ℕ) (f : A → A) (j : ℕ) (t : List A)
      → ((a : A) → key a ≡ k → key (f a) ≡ k)
      → has_key key j (update_by key k f t) ≡ has_key key j t
  unfolding has_key update_by
  has_key-update_by k f j [] h = refl
  has_key-update_by k f j (a ∷ t) h = ground (arith, h a, has_key-update_by k f j t h)

  updated_case :
      (b : Bool) (f : A → A) (new : A) (o : Option A)
      → (b ≡ true → found o ≡ true)
      → (if b then mapped f o else o) ≡ (if b then some (updated_or f new o) else o)
  updated_case true f new none h = cc (h refl)
  updated_case true f new (some a) h = refl
  updated_case false f new o h = refl

  appended_case :
      (b : Bool) (f : A → A) (new : A) (o : Option A)
      → (b ≡ true → found o ≡ false)
      → or_else o (if b then some new else none) ≡ (if b then some (updated_or f new o) else o)
  appended_case true f new none h = refl
  appended_case true f new (some a) h = cc (h refl)
  appended_case false f new none h = refl
  appended_case false f new (some a) h = refl

  found_of :
      (k j : ℕ) (t : List A) {b : Bool}
      → has_key key k t ≡ b
      → (k == j) ≡ true
      → found (find_by key j t) ≡ b
  found_of k j t q r =
      sym (has_key-find_by j t) ∙ ap (λ i. has_key key i t) (sym ((==_iff k j).0 r)) ∙ q

  pub find_by-upsert_by :
      (k j : ℕ) (f : A → A) (new : A) (t : List A)
      → ((a : A) → key a ≡ k → key (f a) ≡ k)
      → key new ≡ k
      → find_by key j (upsert_by key k f new t)
        ≡ (if k == j then some (updated_or f new (find_by key j t)) else find_by key j t)
  unfolding upsert_by find_by
  find_by-upsert_by k j f new t h e = elim (Bool-cases (has_key key k t)) [
    | inl q ↦
        rw (q, find_by-update_at key k j f t h)
          (updated_case (k == j) f new (find_by key j t) (found_of k j t q))
    | inr q ↦
        rw (q, find_by-append key j t (new ∷ []), e)
          (appended_case (k == j) f new (find_by key j t) (found_of k j t q))
  ]

  -- The number of rows with a key.
  abbrev pub rows_of : ℕ → List A → ℕ
  rows_of k t = count_if (λ a. key a == k) t

  pub rows_of-update_by :
      (k : ℕ) (f : A → A) (j : ℕ) (t : List A)
      → ((a : A) → key a ≡ k → key (f a) ≡ k)
      → rows_of j (update_by key k f t) ≡ rows_of j t
  unfolding update_by count_if
  rows_of-update_by k f j [] h = refl
  rows_of-update_by k f j (a ∷ t) h = ground (arith, h a, rows_of-update_by k f j t h)

  -- An update of rows that a test leaves out, before and after it.
  pub filter-update_by :
      (p : A → Bool) (k : ℕ) (f : A → A) (t : List A)
      → ((a : A) → (key a == k) ≡ true → (p a ≡ false) × (p (f a) ≡ false))
      → filter p (update_by key k f t) ≡ filter p t
  unfolding update_by filter
  filter-update_by p k f [] h = refl
  filter-update_by p k f (a ∷ t) h = elim (Bool-cases (key a == k)) [
    | inl e ↦ rw (e, (h a e).0, (h a e).1) (filter-update_by p k f t h)
    | inr e ↦ rw (e, filter-update_by p k f t h) refl
  ]

  rows_of-append : (j : ℕ) (t u : List A) → rows_of j (t ++ u) ≡ rows_of j t + rows_of j u
  unfolding count_if
  rows_of-append j [] u = omega arith
  rows_of-append j (a ∷ t) u = ground (arith, rows_of-append j t u)

  -- A key that stands at most once stays so under an upsert.
  pub rows_of-upsert_by :
      (k j : ℕ) (f : A → A) (new : A) (t : List A)
      → ((a : A) → key a ≡ k → key (f a) ≡ k)
      → key new ≡ k
      → rows_of j t ≡ (if has_key key j t then 1 else 0)
      → rows_of j (upsert_by key k f new t)
        ≡ (if has_key key j (upsert_by key k f new t) then 1 else 0)
  unfolding upsert_by has_key count_if
  rows_of-upsert_by k j f new t h e u = elim (Bool-cases (has_key key k t)) [
    | inl q ↦ rw (q, rows_of-update_by k f j t h, has_key-update_by k f j t h) u
    | inr q ↦
        rw (q, rows_of-append j t (new ∷ []), has_key-append key j t (new ∷ []), e)
          (go (Bool-cases (k == j)) q)
  ]
    where
      go :
          ((k == j) ≡ true) ⊎ ((k == j) ≡ false)
          → has_key key k t ≡ false
          → rows_of j t + ((if k == j then 1 else 0) + 0)
            ≡ (if has_key key j t || (k == j || false) then 1 else 0)
      go (inl r) q =
          ground
            (arith, u, (==_iff k j).0 r, ap (λ i. has_key key i t) (sym ((==_iff k j).0 r)) ∙ q)
      go (inr r) q = ground (arith, u)

pub find_by-map {ℓ κ} :
    {A : Type ℓ} {B : Type κ} (key : A → ℕ) (key' : B → ℕ) (f : A → B) (k : ℕ) (t : List A)
    → ((a : A) → key' (f a) ≡ key a)
    → find_by key' k (map f t) ≡ Option.map f (find_by key k t)
unfolding find_by
find_by-map key key' f k [] h = refl
find_by-map key key' f k (a ∷ t) h = ground (arith, h a, find_by-map key key' f k t h)

pub has_key-map {ℓ κ} :
    {A : Type ℓ} {B : Type κ} (key : A → ℕ) (key' : B → ℕ) (f : A → B) (k : ℕ) (t : List A)
    → ((a : A) → key' (f a) ≡ key a)
    → has_key key' k (map f t) ≡ has_key key k t
unfolding has_key
has_key-map key key' f k [] h = refl
has_key-map key key' f k (a ∷ t) h = ground (arith, h a, has_key-map key key' f k t h)
