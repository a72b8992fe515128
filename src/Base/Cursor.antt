-- ===== src/Base/Cursor.antt =====
-- Keyset pages: `take` rows behind a cursor, in the order of a unique key.
use Prim.Native.Nat.{ℕ, zero, suc, ◌≤◌, ◌<◌}
use mathlib.Core.Path.{◌≡◌, refl, sym, ap, ◌∙◌, subst}
use mathlib.Core.Logic.{inl, inr}
use mathlib.Core.List.{List, [], ◌∷◌}
use mathlib.Core.Option.{Option, none, some}
use native.Mathlib.Omega.{arith}
use native.Mathlib.Nat.{le_trans}
use mathlib.Core.Bool.{Bool, true, false, ◌&&◌}
use win_back_ai.Base.Lists.{filter, take, length, All, All-take}
use win_back_ai.Base.Table.{find_by}
use win_back_ai.Base.Count.{count_if, count_if-sort_by}
use win_back_ai.Base.Sort.{sort_by, IsSorted, IsSorted-sort_by, All-sort_by}
use win_back_ai.Base.Upsert.{rows_of}
use win_back_ai.Base.Pages.{filter-filter, filter-ext, filter-all, filter-sort_by, drop, All_mono}
use win_back_ai.Base.Tests.{◌==◌, ltb, Bool-cases}

-- The key of the last row.
abbrev pub last_key {ℓ} : {A : Type ℓ} → (A → ℕ) → List A → Option ℕ
last_key key [] = none
last_key key (a ∷ []) = some (key a)
last_key key (a ∷ b ∷ t) = last_key key (b ∷ t)

-- The key is behind the cursor.
abbrev pub is_behind : Option ℕ → ℕ → Bool
is_behind none x = true
is_behind (some k) x = ltb k x

-- Each key is smaller than the next ones.
abbrev pub IsStrict {ℓ} : {A : Type ℓ} → (A → ℕ) → List A → Type 0
IsStrict key [] = Unit
IsStrict key (a ∷ t) = All (λ b. key a < key b) t × IsStrict key t

lt_le : {m n : ℕ} → m < n → m ≤ n
lt_le h = omega arith

module _ {ℓ} {A : Type ℓ} (key : A → ℕ) where
  none_equal :
      (k : ℕ) (t : List A) → rows_of key k t ≡ 0 → All (λ b. k ≤ key b) t → All (λ b. k < key b) t
  unfolding count_if
  none_equal k [] e h = tt
  none_equal k (b ∷ t) e h = (ground (arith, h.0), none_equal k t (ground arith) h.1)

  IsStrict-IsSorted :
      (t : List A) → IsSorted key t → ((k : ℕ) → rows_of key k t ≤ 1) → IsStrict key t
  unfolding count_if
  IsStrict-IsSorted [] s u = tt
  IsStrict-IsSorted (a ∷ t) s u = (
    none_equal (key a) t (ground (arith, u (key a))) s.0,
    IsStrict-IsSorted t s.1 (λ k. ground (arith, u k)),
  )

  All-last_key :
      (P : ℕ → Type 0) (t : List A) {k : ℕ} → All (λ a. P (key a)) t → last_key key t ≡ some k → P k
  All-last_key P [] h e = cc
  All-last_key P (a ∷ []) {k} h e = subst (λ o. P o) (ground (arith, e)) h.0
  All-last_key P (a ∷ b ∷ t) h e = All-last_key P (b ∷ t) h.1 e

  cut_at :
      (a : A) (t : List A) (k : ℕ)
      → key a ≡ k
      → All (λ b. key a < key b) t
      → filter (λ b. ltb k (key b)) (a ∷ t) ≡ t
  unfolding filter
  cut_at a t k e h = ground (
    arith,
    filter-all (λ b. ltb k (key b)) t
        (All_mono (λ b. ltb k (key b) ≡ true) t (λ b l. ground arith) h),
  )

  cut_before :
      (a : A) (t : List A) (k : ℕ)
      → key a < k
      → filter (λ b. ltb k (key b)) (a ∷ t) ≡ filter (λ b. ltb k (key b)) t
  unfolding filter
  cut_before a t k h = ground arith

  IsStrict-drop :
      (n : ℕ) (s : List A) {k : ℕ}
      → IsStrict key s
      → last_key key (take n s) ≡ some k
      → filter (λ b. ltb k (key b)) s ≡ drop n s
  unfolding filter
  IsStrict-drop zero s h e = cc
  IsStrict-drop (suc n) [] h e = cc
  IsStrict-drop (suc zero) (a ∷ t) {k} h e = cut_at a t k (ground (arith, e)) h.0
  IsStrict-drop (suc (suc n)) (a ∷ []) {k} h e = cut_at a [] k (ground (arith, e)) tt
  IsStrict-drop (suc (suc n)) (a ∷ b ∷ t) {k} h e =
      cut_before a (b ∷ t) k (
        All-last_key (λ x. key a < x) (take (suc n) (b ∷ t)) {k = k}
          (All-take (λ c. key a < key c) (suc n) (b ∷ t) h.0) e)
      ∙ IsStrict-drop (suc n) (b ∷ t) {k = k} h.1 e

  -- A page that is not full is all there is.
  pub take-short : (n : ℕ) (s : List A) → ltb (length (take n s)) n ≡ true → take n s ≡ s
  take-short zero s h = ground arith
  take-short (suc n) [] h = refl
  take-short (suc n) (a ∷ t) h = ap (λ r. a ∷ r) (take-short n t (ground arith))

  pub last_key-none : (t : List A) → last_key key t ≡ none → t ≡ []
  last_key-none [] e = refl
  last_key-none (a ∷ []) e = cc
  last_key-none (a ∷ b ∷ t) e = cc (last_key-none (b ∷ t) e)

  last_key-some : (a : A) (t : List A) → (k : ℕ) × (last_key key (a ∷ t) ≡ some k)
  last_key-some a [] = (key a, refl)
  last_key-some a (b ∷ t) = last_key-some b t

module _ {ℓ} {A : Type ℓ} (key : A → ℕ) where
  pub IsStrict-take : (n : ℕ) (t : List A) → IsStrict key t → IsStrict key (take n t)
  IsStrict-take zero t h = tt
  IsStrict-take (suc n) [] h = tt
  IsStrict-take (suc n) (a ∷ t) h = (All-take (λ b. key a < key b) n t h.0, IsStrict-take n t h.1)

  pub IsStrict-bound :
      (t : List A) {k : ℕ} → IsStrict key t → last_key key t ≡ some k → All (λ a. key a ≤ k) t
  IsStrict-bound [] h e = tt
  IsStrict-bound (a ∷ []) {k} h e = (ground (arith, e), tt)
  IsStrict-bound (a ∷ b ∷ t) {k} h e = (
    lt_le (All-last_key key (λ x. key a < x) (b ∷ t) {k = k} h.0 e),
    IsStrict-bound (b ∷ t) {k = k} h.1 e,
  )

-- The rows that pass a filter behind a cursor, in the order of the key.
unfoldable pub rest {ℓ} : {A : Type ℓ} → (A → ℕ) → (A → Bool) → Option ℕ → List A → List A
rest key keep cursor t = sort_by key (filter (λ a. keep a && is_behind cursor (key a)) t)

pub count_if-filter {ℓ} :
    {A : Type ℓ} (p q : A → Bool) (t : List A) → count_if p (filter q t) ≤ count_if p t
unfolding count_if filter
count_if-filter p q [] = omega arith
count_if-filter p q (a ∷ t) = ground (arith, count_if-filter p q t)

pub All-kept {ℓ} : {A : Type ℓ} (p : A → Bool) (t : List A) → All (λ a. p a ≡ true) (filter p t)
unfolding filter
All-kept p [] = tt
All-kept p (a ∷ t) = elim (Bool-cases (p a)) [
  | inl e ↦ rw e ((e, All-kept p t))
  | inr e ↦ rw e (All-kept p t)
]

further :
    (cursor : Option ℕ) (k x : ℕ)
    → is_behind cursor k ≡ true
    → ltb k x ≡ true
    → is_behind cursor x ≡ true
further none k x h l = refl
further (some c) k x h l = ground arith

right_true : (b c : Bool) → (b && c) ≡ true → c ≡ true
right_true true c h = h
right_true false c h = cc

narrowed : (b c d : Bool) → (d ≡ true → c ≡ true) → ((b && c) && d) ≡ (b && d)
narrowed true true d h = refl
narrowed true false true h = h refl
narrowed true false false h = refl
narrowed false c d h = refl

swapped : (b c : Bool) → (c && b) ≡ (b && c)
swapped true true = refl
swapped true false = refl
swapped false true = refl
swapped false false = refl

module _ {ℓ} {A : Type ℓ} (key : A → ℕ) (keep : A → Bool) where
  pub IsStrict-rest :
      (cursor : Option ℕ) (t : List A)
      → ((k : ℕ) → rows_of key k t ≤ 1)
      → IsStrict key (rest key keep cursor t)
  unfolding rest
  IsStrict-rest cursor t u = IsStrict-IsSorted key _ (IsSorted-sort_by key _) (λ k.
      le_trans
        (rw
          (count_if-sort_by key (λ a. key a == k)
            (filter (λ a. keep a && is_behind cursor (key a)) t))
          (count_if-filter (λ a. key a == k) (λ a. keep a && is_behind cursor (key a)) t))
        (u k))

  last_key-rest :
      (cursor : Option ℕ) (t : List A) (n : ℕ) {k : ℕ}
      → last_key key (take n (rest key keep cursor t)) ≡ some k
      → is_behind cursor k ≡ true
  unfolding rest
  last_key-rest cursor t n {k} e =
      All-last_key key (λ x. is_behind cursor x ≡ true) (take n (rest key keep cursor t)) {k = k}
        (All-take (λ a. is_behind cursor (key a) ≡ true) n (rest key keep cursor t)
          (All-sort_by key (λ a. is_behind cursor (key a) ≡ true) _
            (All_mono (λ a. is_behind cursor (key a) ≡ true) _
              (λ a h. right_true (keep a) (is_behind cursor (key a)) h)
              (All-kept (λ a. keep a && is_behind cursor (key a)) t))))
        e

  -- Behind a key that the cursor lets through, the rest is what the filter leaves of the rest.
  filter-rest :
      (cursor : Option ℕ) (k : ℕ) (t : List A)
      → is_behind cursor k ≡ true
      → filter (λ a. ltb k (key a)) (rest key keep cursor t) ≡ rest key keep (some k) t
  unfolding rest
  filter-rest cursor k t h =
      filter-sort_by key (λ a. ltb k (key a)) (filter (λ a. keep a && is_behind cursor (key a)) t)
      ∙ ap (sort_by key) (
          filter-filter (λ a. ltb k (key a)) (λ a. keep a && is_behind cursor (key a)) t
          ∙ filter-ext _ (λ a. keep a && ltb k (key a)) t
              (λ a.
                narrowed (keep a) (is_behind cursor (key a)) (ltb k (key a))
                  (further cursor k (key a) h)))

  rest-some :
      (k : ℕ) (t : List A)
      → rest key keep (some k) t ≡ sort_by key (filter keep (filter (λ a. ltb k (key a)) t))
  unfolding rest
  rest-some k t = ap (sort_by key) (
      sym (
        filter-filter keep (λ a. ltb k (key a)) t
        ∙ filter-ext _ (λ a. keep a && ltb k (key a)) t (λ a. swapped (keep a) (ltb k (key a)))))

  pub page-bound :
      (cursor : Option ℕ) (t : List A) (n : ℕ) {k : ℕ}
      → ((x : ℕ) → rows_of key x t ≤ 1)
      → last_key key (take n (rest key keep cursor t)) ≡ some k
      → All (λ a. key a ≤ k) (take n (rest key keep cursor t))
  page-bound cursor t n {k} u e =
      IsStrict-bound key _ {k = k} (IsStrict-take key n _ (IsStrict-rest cursor t u)) e

  -- The next page goes on where this one stopped, if the rows behind it did not change.
  pub rest-drop :
      (cursor : Option ℕ) (t t' : List A) (n : ℕ) {k : ℕ}
      → ((x : ℕ) → rows_of key x t ≤ 1)
      → last_key key (take n (rest key keep cursor t)) ≡ some k
      → filter (λ a. ltb k (key a)) t' ≡ filter (λ a. ltb k (key a)) t
      → rest key keep (some k) t' ≡ drop n (rest key keep cursor t)
  rest-drop cursor t t' n {k} u e h =
      rest-some k t'
      ∙ ap (λ v. sort_by key (filter keep v)) h
      ∙ sym (rest-some k t)
      ∙ sym (filter-rest cursor k t (last_key-rest cursor t n {k = k} e))
      ∙ IsStrict-drop key n (rest key keep cursor t) {k = k} (IsStrict-rest cursor t u) e

-- A key below all those of a list is not found there.
pub find_by-below {ℓ} :
    {A : Type ℓ} (key : A → ℕ) (k : ℕ) (t : List A)
    → All (λ a. k < key a) t
    → find_by key k t ≡ none
unfolding find_by
find_by-below key k [] h = refl
find_by-below key k (a ∷ t) h = ground (arith, h.0, find_by-below key k t h.1)
