-- ===== src/Base/Pages.antt =====
-- Pages of a table in the order of a unique key: `take` behind a cursor goes on where it stopped.
use Prim.Native.Nat.{◌-◌, ℕ, zero, suc, ◌≤◌}
use mathlib.Core.Path.{◌≡◌, refl, sym, ap}
use mathlib.Core.Logic.{inl, inr}
use mathlib.Core.List.{List, [], ◌∷◌, ◌++◌}
use native.Mathlib.Omega.{arith}
use native.Mathlib.Nat.{le_trans}
use mathlib.Core.Bool.{Bool, true, false, ◌&&◌}
use win_back_ai.Base.Lists.{length, filter, take, All}
use win_back_ai.Base.Sort.{insert_by, sort_by, IsSorted, IsSorted-sort_by}
use win_back_ai.Base.Tests.{leb, leb→le, le→leb, Bool-cases, if◌then◌else◌}

module _ {ℓ} {A : Type ℓ} where
  abbrev pub drop : ℕ → List A → List A
  drop zero xs = xs
  drop (suc n) [] = []
  drop (suc n) (x ∷ xs) = drop n xs

  pub take-drop : (n : ℕ) (xs : List A) → take n xs ++ drop n xs ≡ xs
  take-drop zero xs = refl
  take-drop (suc n) [] = refl
  take-drop (suc n) (x ∷ xs) = ap (λ r. x ∷ r) (take-drop n xs)

  pub length-drop : (n : ℕ) (xs : List A) → length (drop n xs) ≡ length xs - n
  length-drop zero xs = omega arith
  length-drop (suc n) [] = omega arith
  length-drop (suc n) (x ∷ xs) = omega (arith, length-drop n xs)

  pub filter-filter :
      (p q : A → Bool) (t : List A) → filter p (filter q t) ≡ filter (λ a. q a && p a) t
  unfolding filter
  filter-filter p q [] = refl
  filter-filter p q (a ∷ t) = ground (arith, filter-filter p q t)

  pub filter-ext : (p q : A → Bool) (t : List A) → ((a : A) → p a ≡ q a) → filter p t ≡ filter q t
  unfolding filter
  filter-ext p q [] h = refl
  filter-ext p q (a ∷ t) h = rw (h a, filter-ext p q t h) refl

  pub filter-all : (p : A → Bool) (t : List A) → All (λ a. p a ≡ true) t → filter p t ≡ t
  unfolding filter
  filter-all p [] h = refl
  filter-all p (a ∷ t) h = rw (h.0, filter-all p t h.1) refl

  pub filter-none : (p : A → Bool) (t : List A) → All (λ a. p a ≡ false) t → filter p t ≡ []
  unfolding filter
  filter-none p [] h = refl
  filter-none p (a ∷ t) h = rw (h.0, filter-none p t h.1) refl

  pub filter-append : (p : A → Bool) (t u : List A) → filter p (t ++ u) ≡ filter p t ++ filter p u
  unfolding filter
  filter-append p [] u = refl
  filter-append p (a ∷ t) u = ground (arith, filter-append p t u)

module _ {ℓ κ} {A : Type ℓ} {P : A → Type κ} where
  pub All_mono {κ'} : (Q : A → Type κ') (t : List A) → ((a : A) → P a → Q a) → All P t → All Q t
  All_mono Q [] f h = tt
  All_mono Q (a ∷ t) f h = (f a h.0, All_mono Q t f h.1)

module _ {ℓ} {A : Type ℓ} (key : A → ℕ) where
  pub insert_by-front :
      (a : A) (u : List A) → All (λ b. key a ≤ key b) u → insert_by key a u ≡ a ∷ u
  unfolding insert_by
  insert_by-front a [] h = refl
  insert_by-front a (b ∷ u) h = rw (le→leb (key a) (key b) h.0) refl

  pub All_keep {κ} : (P : A → Type κ) (p : A → Bool) (t : List A) → All P t → All P (filter p t)
  unfolding filter
  All_keep P p [] h = tt
  All_keep P p (b ∷ t) h = go (p b) (All_keep P p t h.1)
    where
      go : (c : Bool) → All P (filter p t) → All P (if c then b ∷ filter p t else filter p t)
      go true k = (h.0, k)
      go false k = k

  front_case :
      (c : Bool) (p : A → Bool) (a : A) (u : List A)
      → All (λ b. key a ≤ key b) u
      → (if c then a ∷ filter p u else filter p u)
        ≡ (if c then insert_by key a (filter p u) else filter p u)
  front_case true p a u h =
      sym (insert_by-front a (filter p u) (All_keep (λ b. key a ≤ key b) p u h))
  front_case false p a u h = refl

  filter-insert_by :
      (p : A → Bool) (a : A) (t : List A)
      → IsSorted key t
      → filter p (insert_by key a t) ≡ (if p a then insert_by key a (filter p t) else filter p t)
  unfolding insert_by filter
  filter-insert_by p a [] h = refl
  filter-insert_by p a (b ∷ t) h = elim (Bool-cases (leb (key a) (key b))) [
    | inl e ↦ rw e (
        front_case (p a) p a (b ∷ t) (
          leb→le (key a) (key b) e,
          All_mono (λ c. key a ≤ key c) t (λ c k. le_trans (leb→le (key a) (key b) e) k) h.0,
        ))
    | inr e ↦ rw (e, filter-insert_by p a t h.1) (ground arith)
  ]

  pub filter-sort_by :
      (p : A → Bool) (t : List A) → filter p (sort_by key t) ≡ sort_by key (filter p t)
  unfolding sort_by filter
  filter-sort_by p [] = refl
  filter-sort_by p (a ∷ t) =
      rw (filter-insert_by p a (sort_by key t) (IsSorted-sort_by key t), filter-sort_by p t)
        (ground arith)
