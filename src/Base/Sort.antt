-- ===== src/Base/Sort.antt =====
-- ORDER BY a number: a stable insertion sort, with what it keeps.
use Prim.Native.Nat.{ℕ, suc, ◌≤◌}
use mathlib.Core.Path.{◌≡◌, refl, ap, ◌∙◌}
use mathlib.Core.Logic.{inl, inr}
use mathlib.Core.List.{List, [], ◌∷◌}
use mathlib.Core.Bool.{Bool, true, false}
use native.Mathlib.Omega.{arith}
use win_back_ai.Base.Tests.{leb, leb→le, Bool-cases, if◌then◌else◌}
use win_back_ai.Base.Lists.{length, All}

module _ {ℓ} {A : Type ℓ} (key : A → ℕ) where
  -- `a` goes before the first element with a key that is not smaller.
  unfoldable pub insert_by : A → List A → List A
  insert_by a [] = a ∷ []
  insert_by a (b ∷ t) = if leb (key a) (key b) then a ∷ b ∷ t else b ∷ insert_by a t

  unfoldable pub sort_by : List A → List A
  sort_by [] = []
  sort_by (a ∷ t) = insert_by a (sort_by t)

-- Each key is at most the next ones.
abbrev pub IsSorted {ℓ} : {A : Type ℓ} → (A → ℕ) → List A → Type 0
IsSorted key [] = Unit
IsSorted key (a ∷ t) = All (λ b. key a ≤ key b) t × IsSorted key t

module _ {ℓ κ} {A : Type ℓ} (key : A → ℕ) (P : A → Type κ) where
  All-insert_by : (a : A) (t : List A) → P a → All P t → All P (insert_by key a t)
  unfolding insert_by
  All-insert_by a [] h k = (h, tt)
  All-insert_by a (b ∷ t) h k = go (leb (key a) (key b)) (All-insert_by a t h k.1)
    where
      go :
          (c : Bool)
          → All P (insert_by key a t)
          → All P (if c then a ∷ b ∷ t else b ∷ insert_by key a t)
      go true ih = (h, k)
      go false ih = (k.0, ih)

  pub All-sort_by : (t : List A) → All P t → All P (sort_by key t)
  unfolding sort_by
  All-sort_by [] h = h
  All-sort_by (a ∷ t) h = All-insert_by a (sort_by key t) h.0 (All-sort_by t h.1)

module _ {ℓ} {A : Type ℓ} (key : A → ℕ) where
  length-insert_by : (a : A) (t : List A) → length (insert_by key a t) ≡ suc (length t)
  unfolding insert_by
  length-insert_by a [] = refl
  length-insert_by a (b ∷ t) = ground (arith, length-insert_by a t)

  pub length-sort_by : (t : List A) → length (sort_by key t) ≡ length t
  unfolding sort_by
  length-sort_by [] = refl
  length-sort_by (a ∷ t) = length-insert_by a (sort_by key t) ∙ ap suc (length-sort_by t)

All-le_trans {ℓ} :
    {A : Type ℓ} (key : A → ℕ) (m n : ℕ) (t : List A)
    → m ≤ n
    → All (λ b. n ≤ key b) t
    → All (λ b. m ≤ key b) t
All-le_trans key m n [] h k = tt
All-le_trans key m n (b ∷ t) h k = (omega arith, All-le_trans key m n t h k.1)

module _ {ℓ} {A : Type ℓ} (key : A → ℕ) where
  IsSorted-insert_by : (a : A) (t : List A) → IsSorted key t → IsSorted key (insert_by key a t)
  unfolding insert_by
  IsSorted-insert_by a [] h = (tt, tt)
  IsSorted-insert_by a (b ∷ t) h = elim (Bool-cases (leb (key a) (key b))) [
    | inl e ↦ rw e ((leb→le _ _ e, All-le_trans key (key a) (key b) t (leb→le _ _ e) h.0), h)
    | inr e ↦
        rw e (
          All-insert_by key (λ c. key b ≤ key c) a t (ground arith) h.0,
          IsSorted-insert_by a t h.1,
        )
  ]

  pub IsSorted-sort_by : (t : List A) → IsSorted key (sort_by key t)
  unfolding sort_by
  IsSorted-sort_by [] = tt
  IsSorted-sort_by (a ∷ t) = IsSorted-insert_by a (sort_by key t) (IsSorted-sort_by t)
