-- ===== src/Base/Skip.antt =====
-- Pages behind a cursor row that is read again: the rows from the cursor on that pass a filter, less the first of
-- them. Where the cursor row itself does not pass any more, that drops a row behind it.
use Prim.Native.Nat.{ℕ, zero, suc, ◌≤◌, ◌<◌}
use mathlib.Core.Path.{◌≡◌, refl, sym, ap, ◌∙◌, subst}
use mathlib.Core.Logic.{inl, inr}
use mathlib.Core.List.{List, [], ◌∷◌}
use mathlib.Core.Option.{Option, none, some}
use native.Mathlib.Omega.{arith}
use mathlib.Core.Bool.{Bool, true, false, ◌&&◌}
use win_back_ai.Base.Lists.{filter, take, All}
use win_back_ai.Base.Table.{find_by}
use win_back_ai.Base.Count.{count_if}
use win_back_ai.Base.Sort.{insert_by, sort_by, All-sort_by}
use win_back_ai.Base.Upsert.{rows_of}
use win_back_ai.Base.Pages.{drop, All_mono, All_keep, insert_by-front}
use win_back_ai.Base.Cursor.{rest, rest-drop, last_key, IsStrict, All-kept, is_behind}
use win_back_ai.Base.Unique.{IsUnique, IsUnique-rows, find_by_key}
use win_back_ai.Base.Tests.{==_iff, ◌==◌, ltb, leb, Bool-cases, if◌then◌else◌}

-- `cursor: { id }, skip: 1`: the rows with a key from the cursor's on, less the first.
unfoldable pub rest_from {ℓ} : {A : Type ℓ} → (A → ℕ) → (A → Bool) → Option ℕ → List A → List A
unfolding rest
rest_from key keep none t = rest key keep none t
rest_from key keep (some k) t = drop 1 (sort_by key (filter (λ a. keep a && leb k (key a)) t))

pub take-nil {ℓ} : {A : Type ℓ} (n : ℕ) → take {A = A} n [] ≡ []
take-nil zero = refl
take-nil (suc n) = refl

pub drop-nil {ℓ} : {A : Type ℓ} (n : ℕ) → drop {A = A} n [] ≡ []
drop-nil zero = refl
drop-nil (suc n) = refl

module _ {ℓ} {A : Type ℓ} (key : A → ℕ) (keep : A → Bool) (k : ℕ) where
  abbrev from_key : List A → List A
  from_key t = filter (λ a. keep a && leb k (key a)) t

  abbrev past_key : List A → List A
  past_key t = filter (λ a. keep a && ltb k (key a)) t

  same_absent : (t : List A) → rows_of key k t ≡ 0 → from_key t ≡ past_key t
  unfolding filter count_if
  same_absent [] h = refl
  same_absent (b ∷ t) h = ground (arith, same_absent t)

  right_part : (b c : Bool) → (b && c) ≡ true → c ≡ true
  right_part true c h = h
  right_part false c h = cc

  past_all : (t : List A) → All (λ b. k ≤ key b) (sort_by key (past_key t))
  past_all t =
      All-sort_by key (λ b. k ≤ key b) _
        (All_mono (λ b. k ≤ key b) _
          (λ b h. let past = right_part (keep b) (ltb k (key b)) h in ground arith)
          (All-kept (λ b. keep b && ltb k (key b)) t))

  insert_past :
      (c : Bool) (a b : A) (r : List A)
      → key a ≡ k
      → k < key b
      → insert_by key b (if c then a ∷ r else r)
        ≡ (if c then a ∷ insert_by key b r else insert_by key b r)
  unfolding insert_by
  insert_past true a b r h l = ground arith
  insert_past false a b r h l = refl

  found_first :
      (b : A) (t : List A) {a : A} → (key b == k) ≡ true → find_by key k (b ∷ t) ≡ some a → b ≡ a
  unfolding find_by
  found_first b t q e = ground (arith, q, e)

  found_behind :
      (b : A) (t : List A) {a : A}
      → (key b == k) ≡ false
      → find_by key k (b ∷ t) ≡ some a
      → find_by key k t ≡ some a
  unfolding find_by
  found_behind b t q e = ground (arith, q, e)

  from_first :
      (b : A) (t : List A)
      → key b ≡ k
      → from_key (b ∷ t) ≡ (if keep b then b ∷ from_key t else from_key t)
  unfolding filter
  from_first b t h = ground arith

  past_first : (b : A) (t : List A) → key b ≡ k → past_key (b ∷ t) ≡ past_key t
  unfolding filter
  past_first b t h = ground arith

  cut_first :
      (b : A) (t : List A)
      → key b ≡ k
      → rows_of key k t ≡ 0
      → sort_by key (from_key (b ∷ t))
        ≡ (if keep b then b ∷ sort_by key (past_key (b ∷ t)) else sort_by key (past_key (b ∷ t)))
  unfolding sort_by
  cut_first b t h z =
      ap (sort_by key) (from_first b t h)
      ∙ go (keep b)
      ∙ ap (λ s. if keep b then b ∷ sort_by key s else sort_by key s) (sym (past_first b t h))
    where
      go :
          (c : Bool)
          → sort_by key (if c then b ∷ from_key t else from_key t)
            ≡ (if c then b ∷ sort_by key (past_key t) else sort_by key (past_key t))
      go true =
          ap (λ s. insert_by key b (sort_by key s)) (same_absent t z)
          ∙ insert_by-front key b (sort_by key (past_key t))
              (subst (λ i. All (λ c. i ≤ key c) (sort_by key (past_key t))) (sym h) (past_all t))
      go false = ap (sort_by key) (same_absent t z)

  cut_other :
      (b : A) (t : List A) (a : A)
      → key a ≡ k
      → (key b == k) ≡ false
      → sort_by key (from_key t)
        ≡ (if keep a then a ∷ sort_by key (past_key t) else sort_by key (past_key t))
      → sort_by key (from_key (b ∷ t))
        ≡ (if keep a then a ∷ sort_by key (past_key (b ∷ t)) else sort_by key (past_key (b ∷ t)))
  unfolding sort_by filter
  cut_other b t a h q ih = elim (Bool-cases (keep b && ltb k (key b))) [
    | inl e ↦
        let from : (keep b && leb k (key b)) ≡ true = ground (arith, e) in
        let later : k < key b = ground (arith, e) in
        rw (e, from)
          (ap (insert_by key b) ih ∙ insert_past (keep a) a b (sort_by key (past_key t)) h later)
    | inr e ↦ let from : (keep b && leb k (key b)) ≡ false = ground (arith, e, q) in rw (e, from) ih
  ]

  rows_behind : (x : ℕ) (b : A) (t : List A) → rows_of key x (b ∷ t) ≤ 1 → rows_of key x t ≤ 1
  unfolding count_if
  rows_behind x b t h = ground arith

  no_more :
      (b : A) (t : List A) → (key b == k) ≡ true → rows_of key k (b ∷ t) ≤ 1 → rows_of key k t ≡ 0
  unfolding count_if
  no_more b t q h = ground arith

  -- The rows from the key on: that of the key itself, if it passes, and those behind.
  cursor_cut :
      (t : List A) {a : A}
      → IsUnique key t
      → find_by key k t ≡ some a
      → sort_by key (from_key t)
        ≡ (if keep a then a ∷ sort_by key (past_key t) else sort_by key (past_key t))
  cursor_cut [] u e = unfold find_by in cc
  cursor_cut (b ∷ t) {a} u e = elim (Bool-cases (key b == k)) [
    | inl q ↦
        let same : b ≡ a = found_first b t q e in
        subst
          (λ c. sort_by key (from_key (b ∷ t)) ≡ (
            if keep c then c ∷ sort_by key (past_key (b ∷ t)) else sort_by key (past_key (b ∷ t))))
          same (cut_first b t ((==_iff (key b) k).0 q) (no_more b t q (u k)))
    | inr q ↦
        cut_other b t a (find_by_key key k (b ∷ t) {a = a} e) q
          (cursor_cut t {a = a} (λ x. rows_behind x b t (u x)) (found_behind b t q e))
  ]

  -- Behind a cursor whose row is in the table: the rows past it, without the first where the row itself
  -- does not pass the filter.
  pub rest_from-rest :
      (t : List A) {a : A}
      → IsUnique key t
      → find_by key k t ≡ some a
      → rest_from key keep (some k) t
        ≡ (if keep a then rest key keep (some k) t else drop 1 (rest key keep (some k) t))
  unfolding rest_from rest
  rest_from-rest t {a} u e = ap (drop 1) (cursor_cut t {a = a} u e) ∙ go (keep a)
    where
      go :
          (c : Bool)
          → drop 1 (if c then a ∷ sort_by key (past_key t) else sort_by key (past_key t))
            ≡ (if c then sort_by key (past_key t) else drop 1 (sort_by key (past_key t)))
      go true = refl
      go false = refl

-- `m + n`, which computes on `m`.
abbrev more : ℕ → ℕ → ℕ
more zero n = n
more (suc m) n = suc (more m n)

module _ {ℓ} {A : Type ℓ} (key : A → ℕ) where
  last_key-behind :
      (a : A) (u : List A) {k : ℕ} → last_key key u ≡ some k → last_key key (a ∷ u) ≡ some k
  last_key-behind a [] e = cc
  last_key-behind a (b ∷ u) e = e

  last_key-drop :
      (m n : ℕ) (r : List A) {k : ℕ}
      → last_key key (take n (drop m r)) ≡ some k
      → last_key key (take (more m n) r) ≡ some k
  last_key-drop zero n r e = e
  last_key-drop (suc m) n [] e = rw (take-nil n) at e
  last_key-drop (suc m) n (a ∷ r) {k} e =
      last_key-behind a (take (more m n) r) (last_key-drop m n r {k = k} e)

pub drop-drop {ℓ} : {A : Type ℓ} (m n : ℕ) (r : List A) → drop n (drop m r) ≡ drop (more m n) r
drop-drop zero n r = refl
drop-drop (suc m) n [] = drop-nil n
drop-drop (suc m) n (a ∷ r) = drop-drop m n r

module _ {ℓ} {A : Type ℓ} (key : A → ℕ) (keep : A → Bool) where
  -- The rows past a page, if the page was cut from the rest behind `m` rows of it.
  pub rest-drop_page :
      (cursor : Option ℕ) (t t' : List A) (m n : ℕ) {k : ℕ}
      → ((x : ℕ) → rows_of key x t ≤ 1)
      → last_key key (take n (drop m (rest key keep cursor t))) ≡ some k
      → filter (λ a. ltb k (key a)) t' ≡ filter (λ a. ltb k (key a)) t
      → rest key keep (some k) t' ≡ drop n (drop m (rest key keep cursor t))
  rest-drop_page cursor t t' m n {k} u e h =
      rest-drop key keep cursor t t' (more m n) {k = k} u
        (last_key-drop key m n (rest key keep cursor t) {k = k} e) h
      ∙ sym (drop-drop m n (rest key keep cursor t))

  -- All rows that are left are rows of the table.
  pub All-rest :
      (cursor : Option ℕ) (t : List A)
      → IsUnique key t
      → All (λ a. find_by key (key a) t ≡ some a) (rest key keep cursor t)
  unfolding rest
  All-rest cursor t u =
      All-sort_by key (λ a. find_by key (key a) t ≡ some a) _
        (All_keep key (λ a. find_by key (key a) t ≡ some a)
          (λ a. keep a && is_behind cursor (key a)) t (IsUnique-rows key t u))

module _ {ℓ κ} {A : Type ℓ} (P : A → Type κ) where
  pub All-drop : (n : ℕ) (t : List A) → All P t → All P (drop n t)
  All-drop zero t h = h
  All-drop (suc n) [] h = h
  All-drop (suc n) (a ∷ t) h = All-drop n t h.1

module _ {ℓ} {A : Type ℓ} (key : A → ℕ) where
  pub IsStrict-drop_rows : (n : ℕ) (t : List A) → IsStrict key t → IsStrict key (drop n t)
  IsStrict-drop_rows zero t h = h
  IsStrict-drop_rows (suc n) [] h = h
  IsStrict-drop_rows (suc n) (a ∷ t) h = IsStrict-drop_rows n t h.1
