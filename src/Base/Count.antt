-- ===== src/Base/Count.antt =====
-- How many elements pass a test; sorting does not change it.
use Prim.Native.Nat.{ℕ, zero, suc, ◌+◌, ◌≤◌, ◌<◌}
use mathlib.Core.Path.{◌≡◌, refl}
use mathlib.Core.Bool.{Bool}
use mathlib.Core.Option.{some}
use mathlib.Core.List.{List, [], ◌∷◌, map}
use native.Mathlib.Omega.{arith}
use win_back_ai.Base.Tests.{leb, ltb, if◌then◌else◌}
use win_back_ai.Base.Lists.{length, get_elem?, All}
use win_back_ai.Base.Sort.{insert_by, sort_by, IsSorted}

module _ {ℓ} {A : Type ℓ} where
  unfoldable pub count_if : (A → Bool) → List A → ℕ
  count_if p [] = 0
  count_if p (x ∷ xs) = (if p x then 1 else 0) + count_if p xs

  pub count_if-le-length : (p : A → Bool) (xs : List A) → count_if p xs ≤ length xs
  unfolding count_if
  count_if-le-length p [] = omega arith
  count_if-le-length p (x ∷ xs) = ground (arith, count_if-le-length p xs)

module _ {ℓ} {A : Type ℓ} (key : A → ℕ) (p : A → Bool) where
  count_if-insert_by :
      (a : A) (t : List A) → count_if p (insert_by key a t) ≡ (if p a then 1 else 0) + count_if p t
  unfolding count_if insert_by
  count_if-insert_by a [] = refl
  count_if-insert_by a (b ∷ t) = ground (arith, count_if-insert_by a t)

  pub count_if-sort_by : (t : List A) → count_if p (sort_by key t) ≡ count_if p t
  unfolding count_if sort_by
  count_if-sort_by [] = refl
  count_if-sort_by (a ∷ t) =
      ground (arith, count_if-insert_by a (sort_by key t), count_if-sort_by t)

pub count_if-map {ℓ κ} :
    {A : Type ℓ} {B : Type κ} (f : A → B) (p : B → Bool) (xs : List A)
    → count_if p (map f xs) ≡ count_if (λ a. p (f a)) xs
unfolding count_if
count_if-map f p [] = refl
count_if-map f p (x ∷ xs) = ground (arith, count_if-map f p xs)

pub length-map {ℓ κ} :
    {A : Type ℓ} {B : Type κ} (f : A → B) (xs : List A) → length (map f xs) ≡ length xs
length-map f [] = refl
length-map f (x ∷ xs) = ground (arith, length-map f xs)

-- An index within a list has an element.
pub get_elem?-some {ℓ} :
    {A : Type ℓ} (xs : List A) (i : ℕ) → i < length xs → (a : A) × (get_elem? xs i ≡ some a)
get_elem?-some [] i h = elim h [ ]
get_elem?-some (x ∷ xs) zero h = (x, refl)
get_elem?-some (x ∷ xs) (suc i) h = get_elem?-some xs i (omega arith)

-- In a sorted list of numbers an element is at least each bound of the list.
bound-get_elem? :
    (n : ℕ) (xs : List ℕ) (i : ℕ) {a : ℕ} → All (λ b. n ≤ b) xs → get_elem? xs i ≡ some a → n ≤ a
bound-get_elem? n [] i h e = cc
bound-get_elem? n (x ∷ xs) zero h e = ground (arith, h.0)
bound-get_elem? n (x ∷ xs) (suc i) h e = bound-get_elem? n xs i h.1 e

abbrev pub IsAscending : List ℕ → Type 0
IsAscending = IsSorted (λ (n : ℕ). n)

-- A later element of an ascending list is not smaller.
pub get_elem?_mono :
    (xs : List ℕ) (i j : ℕ) {a b : ℕ}
    → IsAscending xs
    → i ≤ j
    → get_elem? xs i ≡ some a
    → get_elem? xs j ≡ some b
    → a ≤ b
get_elem?_mono [] i j s h p q = cc
get_elem?_mono (x ∷ xs) zero zero s h p q = ground arith
get_elem?_mono (x ∷ xs) zero (suc j) s h p q = ground (arith, bound-get_elem? x xs j s.0 q)
get_elem?_mono (x ∷ xs) (suc i) zero s h p q = absurd (omega arith)
get_elem?_mono (x ∷ xs) (suc i) (suc j) s h p q = get_elem?_mono xs i j s.1 (omega arith) p q

none_below : (n : ℕ) (xs : List ℕ) → All (λ b. n ≤ b) xs → count_if (λ b. ltb b n) xs ≡ 0
unfolding count_if
none_below n [] h = refl
none_below n (x ∷ xs) h = ground (arith, h.0, none_below n xs h.1)

-- At most the elements before index `i` are below the element there.
pub count_below :
    (xs : List ℕ) (i : ℕ) {a : ℕ}
    → IsAscending xs
    → get_elem? xs i ≡ some a
    → count_if (λ b. ltb b a) xs ≤ i
unfolding count_if
count_below [] i s e = cc
count_below (x ∷ xs) zero s e = ground (arith, none_below x xs s.0)
count_below (x ∷ xs) (suc i) {a} s e = ground (arith, count_below xs i {a = a} s.1 e)

pub count-leb-ltb :
    (a : ℕ) (xs : List ℕ) → count_if (λ b. leb b a) xs + count_if (λ b. ltb a b) xs ≡ length xs
unfolding count_if
count-leb-ltb a [] = refl
count-leb-ltb a (x ∷ xs) = ground (arith, count-leb-ltb a xs)

-- At most the elements behind index `i` exceed the element there.
pub count_above :
    (xs : List ℕ) (i : ℕ) {a : ℕ}
    → IsAscending xs
    → get_elem? xs i ≡ some a
    → count_if (λ b. ltb a b) xs + suc i ≤ length xs
unfolding count_if
count_above [] i s e = cc
count_above (x ∷ xs) zero s e = ground (arith, count_if-le-length (λ b. ltb x b) xs)
count_above (x ∷ xs) (suc i) {a} s e =
    ground (arith, count_above xs i {a = a} s.1 e, bound-get_elem? x xs i {a = a} s.0 e)
