-- ===== src/Base/Unique.antt =====
-- A table whose key is unique: the row of a key in the rows that pass a filter, in order.
use Prim.Native.Nat.{ℕ, ◌≤◌}
use mathlib.Core.Path.{◌≡◌, refl, ◌∙◌}
use mathlib.Core.Logic.{inl, inr}
use mathlib.Core.List.{List, [], ◌∷◌}
use mathlib.Core.Option.{Option, none, some}
use native.Mathlib.Omega.{arith}
use native.Mathlib.Nat.{le_trans}
use mathlib.Core.Bool.{Bool, true, ◌&&◌}
use win_back_ai.Base.Lists.{filter, All}
use win_back_ai.Base.Table.{find_by, has_key}
use win_back_ai.Base.Count.{count_if}
use win_back_ai.Base.Sort.{insert_by, sort_by, All-sort_by}
use win_back_ai.Base.Upsert.{rows_of}
use win_back_ai.Base.Pages.{All_mono, All_keep}
use win_back_ai.Base.Cursor.{rest, count_if-filter}
use win_back_ai.Base.Tests.{◌==◌, Bool-cases, if◌then◌else◌}

-- No key stands twice.
abbrev pub IsUnique {ℓ} : {A : Type ℓ} → (A → ℕ) → List A → Type 0
IsUnique key t = (x : ℕ) → rows_of key x t ≤ 1

-- An option, if its value passes a test.
abbrev pub passing {ℓ} : {A : Type ℓ} → (A → Bool) → Option A → Option A
passing p none = none
passing p (some a) = if p a then some a else none

module _ {ℓ} {A : Type ℓ} (key : A → ℕ) where
  find_by-insert_by :
      (x : ℕ) (a : A) (t : List A)
      → find_by key x (insert_by key a t) ≡ (if key a == x then some a else find_by key x t)
  unfolding find_by insert_by
  find_by-insert_by x a [] = refl
  find_by-insert_by x a (b ∷ t) = ground (arith, find_by-insert_by x a t)

  pub find_by-sort_by : (x : ℕ) (t : List A) → find_by key x (sort_by key t) ≡ find_by key x t
  unfolding find_by sort_by
  find_by-sort_by x [] = refl
  find_by-sort_by x (a ∷ t) =
      ground (arith, find_by-insert_by x a (sort_by key t), find_by-sort_by x t)

  find_by_unique : (x : ℕ) (t : List A) → rows_of key x t ≡ 0 → find_by key x t ≡ none
  unfolding find_by count_if
  find_by_unique x [] h = refl
  find_by_unique x (a ∷ t) h = ground (arith, find_by_unique x t)

  find_by-absent :
      (p : A → Bool) (x : ℕ) (t : List A)
      → find_by key x t ≡ none
      → find_by key x (filter p t) ≡ none
  unfolding find_by filter
  find_by-absent p x [] h = refl
  find_by-absent p x (a ∷ t) h = ground (arith, find_by-absent p x t)

  pub find_by-filter :
      (p : A → Bool) (x : ℕ) (t : List A)
      → rows_of key x t ≤ 1
      → find_by key x (filter p t) ≡ passing p (find_by key x t)
  unfolding find_by filter count_if
  find_by-filter p x [] u = refl
  find_by-filter p x (a ∷ t) u = elim (Bool-cases (key a == x)) [
    | inl e ↦ ground (arith, e, u, find_by-absent p x t (find_by_unique x t (ground (arith, e, u))))
    | inr e ↦ ground (arith, e, u, find_by-filter p x t (ground (arith, u)))
  ]

  found_rows : (x : ℕ) (t : List A) {a : A} → find_by key x t ≡ some a → 1 ≤ rows_of key x t
  unfolding find_by count_if
  found_rows x [] h = cc
  found_rows x (b ∷ t) {a} h = ground (arith, found_rows x t {a = a})

  pub IsUnique-rows : (t : List A) → IsUnique key t → All (λ a. find_by key (key a) t ≡ some a) t
  unfolding find_by count_if
  IsUnique-rows [] u = tt
  IsUnique-rows (a ∷ t) u = (
    ground (arith),
    All_mono (λ b. find_by key (key b) (a ∷ t) ≡ some b) t
        (λ b e. ground (arith, e, u (key b), found_rows (key b) t {a = b} e))
        (IsUnique-rows t (λ x. ground (arith, u x))),
  )

  -- The rows behind a cursor are those of the table that pass.
  pub find_by-rest :
      (keep : A → Bool) (x : ℕ) (t : List A)
      → IsUnique key t
      → find_by key x (rest key keep none t) ≡ passing keep (find_by key x t)
  unfolding rest
  find_by-rest keep x t u =
      find_by-sort_by x (filter (λ a. keep a && true) t)
      ∙ find_by-filter (λ a. keep a && true) x t (u x)
      ∙ go (find_by key x t)
    where
      go : (o : Option A) → passing (λ a. keep a && true) o ≡ passing keep o
      go none = refl
      go (some a) = ground arith

  pub IsUnique-rest :
      (keep : A → Bool) (t : List A)
      → IsUnique key t
      → All (λ a. find_by key (key a) t ≡ some a) (rest key keep none t)
  unfolding rest
  IsUnique-rest keep t u =
      All-sort_by key (λ a. find_by key (key a) t ≡ some a) _
        (All_keep key (λ a. find_by key (key a) t ≡ some a) (λ a. keep a && true) t
          (IsUnique-rows t u))

module _ {ℓ} {A : Type ℓ} (key : A → ℕ) where
  pub find_by_key : (k : ℕ) (t : List A) {a : A} → find_by key k t ≡ some a → key a ≡ k
  unfolding find_by
  find_by_key k [] e = cc
  find_by_key k (b ∷ t) {a} e = ground (arith, e, find_by_key k t {a = a})

  pub has_key-rows_of : (k : ℕ) (t : List A) → has_key key k t ≡ true → 1 ≤ rows_of key k t
  unfolding has_key count_if
  has_key-rows_of k [] h = cc
  has_key-rows_of k (b ∷ t) h = ground (arith, has_key-rows_of k t)

  -- A part of a table with unique keys has unique keys.
  pub IsUnique-filter : (p : A → Bool) (t : List A) → IsUnique key t → IsUnique key (filter p t)
  IsUnique-filter p t u x = le_trans (count_if-filter (λ a. key a == x) p t) (u x)
