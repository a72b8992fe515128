-- ===== src/Base/Table.antt =====
-- A database table as a list of rows, read and written by a unique key.
-- `find_by` is Prisma's `findUnique`; `update_by` is `update` or `updateMany` on one key, where the
-- row's function tests the rest of the `where` clause.
use Prim.Native.Nat.{ℕ}
use mathlib.Core.Path.{◌≡◌, refl, ◌∙◌}
use mathlib.Core.Logic.{inl, inr}
use mathlib.Core.List.{List, [], ◌∷◌, ◌++◌}
use mathlib.Core.Option.{Option, none, some}
use native.Mathlib.Omega.{arith}
use mathlib.Core.Bool.{Bool, true, false, ◌||◌}
use win_back_ai.Base.Lists.{All, filter}
use win_back_ai.Base.Tests.{◌==◌, Bool-cases, if◌then◌else◌}

module _ {ℓ} {A : Type ℓ} (key : A → ℕ) where
  unfoldable pub find_by : ℕ → List A → Option A
  find_by k [] = none
  find_by k (a ∷ t) = if key a == k then some a else find_by k t

  unfoldable pub update_by : ℕ → (A → A) → List A → List A
  update_by k f [] = []
  update_by k f (a ∷ t) = (if key a == k then f a else a) ∷ update_by k f t

-- The row, if there is one, after the update.
abbrev pub mapped {ℓ} : {A : Type ℓ} → (A → A) → Option A → Option A
mapped f none = none
mapped f (some a) = some (f a)

-- The row found after an insert at the end.
abbrev pub or_else {ℓ} : {A : Type ℓ} → Option A → Option A → Option A
or_else none b = b
or_else (some a) b = some a

module _ {ℓ} {A : Type ℓ} (key : A → ℕ) where
  -- An update that keeps the key of the row.
  pub find_by-update_at :
      (k j : ℕ) (f : A → A) (t : List A)
      → ((a : A) → key a ≡ k → key (f a) ≡ k)
      → find_by key j (update_by key k f t)
        ≡ (if k == j then mapped f (find_by key j t) else find_by key j t)
  unfolding find_by update_by
  find_by-update_at k j f [] h = ground arith
  find_by-update_at k j f (a ∷ t) h = ground (arith, h a, find_by-update_at k j f t h)

  pub find_by-update_by :
      (k j : ℕ) (f : A → A) (t : List A)
      → ((a : A) → key (f a) ≡ key a)
      → find_by key j (update_by key k f t)
        ≡ (if k == j then mapped f (find_by key j t) else find_by key j t)
  find_by-update_by k j f t h = find_by-update_at k j f t (λ a e. h a ∙ e)

  pub find_by-append :
      (j : ℕ) (t u : List A) → find_by key j (t ++ u) ≡ or_else (find_by key j t) (find_by key j u)
  unfolding find_by
  find_by-append j [] u = refl
  find_by-append j (a ∷ t) u = ground (arith, find_by-append j t u)

-- The key is unique: each row is the one found under its own key.
abbrev pub IsKeyed {ℓ} : {A : Type ℓ} → (A → ℕ) → List A → Type ℓ
IsKeyed key t = All (λ a. find_by key (key a) t ≡ some a) t

-- Some row has this key.
unfoldable pub has_key {ℓ} : {A : Type ℓ} → (A → ℕ) → ℕ → List A → Bool
has_key key k [] = false
has_key key k (a ∷ t) = key a == k || has_key key k t

module _ {ℓ κ} {A : Type ℓ} (P : A → Type κ) where
  pub All-filter :
      (p : A → Bool) (t : List A) → All P t → All (λ a. P a × (p a ≡ true)) (filter p t)
  unfolding filter
  All-filter p [] h = tt
  All-filter p (a ∷ t) h = elim (Bool-cases (p a)) [
    | inl e ↦ rw e (((h.0, e), All-filter p t h.1))
    | inr e ↦ rw e (All-filter p t h.1)
  ]

-- A row that is found, and passes a test, is among those that pass it.
pub has_key-filter {ℓ} :
    {A : Type ℓ} (key : A → ℕ) (p : A → Bool) (k : ℕ) (t : List A) {a : A}
    → find_by key k t ≡ some a
    → p a ≡ true
    → has_key key k (filter p t) ≡ true
unfolding find_by filter has_key
has_key-filter key p k [] h q = cc
has_key-filter key p k (b ∷ t) {a} h q = ground (arith, has_key-filter key p k t {a = a})

pub has_key-append {ℓ} :
    {A : Type ℓ} (key : A → ℕ) (k : ℕ) (t u : List A)
    → has_key key k (t ++ u) ≡ (has_key key k t || has_key key k u)
unfolding has_key
has_key-append key k [] u = refl
has_key-append key k (a ∷ t) u = ground (arith, has_key-append key k t u)
