-- ===== src/Compliance/ShopRedact/Chunks.antt =====
-- The deletion of a table in chunks deletes its rows that the test picks, and no others.
use win_back_ai.Compliance.ShopRedact.{is_listed, delete_listed, delete_chunks}
use win_back_ai.Base.{
  ℕ, Bool, List, ◌≡◌, ◌≤◌, ◌<◌, ◌+◌, ◌∷◌, [], true, false, not, ◌&&◌, ◌==◌, filter, take, length,
  count_if, some, suc, zero, refl, ◌∙◌, ap, Bool-cases, inl, inr, arith, All, filter-filter,
  filter-ext, take-short, ltb, ==_refl, All_mono, length-take, IsUnique, find_by, found,
  find_by-filter, IsUnique-rows, passing, none, sym, if◌then◌else◌, IsUnique-filter,
}

module _ {ℓ} {A : Type ℓ} where
  filter_agree : (p q : A → Bool) (t : List A) → All (λ a. p a ≡ q a) t → filter p t ≡ filter q t
  unfolding filter
  filter_agree p q [] h = refl
  filter_agree p q (a ∷ t) h = rw (h.0, filter_agree p q t h.1) refl

  count_if-without :
      (p q : A → Bool) (t : List A)
      → count_if p (filter (λ a. not (p a && q a)) t) + count_if (λ a. p a && q a) t ≡ count_if p t
  unfolding filter count_if
  count_if-without p q [] = omega arith
  count_if-without p q (a ∷ t) = ground (arith, count_if-without p q t)

module _ {ℓ} {A : Type ℓ} (key : A → ℕ) (mine : A → Bool) where
  others_stay :
      (ids t : List A)
      → filter (λ a. not (mine a)) (delete_listed key mine ids t) ≡ filter (λ a. not (mine a)) t
  others_stay ids t =
      filter-filter (λ a. not (mine a)) (λ a. not (mine a && is_listed key ids (key a))) t
      ∙ filter-ext _ (λ a. not (mine a)) t (λ a. both (mine a) (is_listed key ids (key a)))
    where
      both : (b c : Bool) → (not (b && c) && not b) ≡ not b
      both true true = refl
      both true false = refl
      both false c = refl

  listed_first : (a : A) (u : List A) → is_listed key (a ∷ u) (key a) ≡ true
  unfolding is_listed
  listed_first a u = rw (==_refl (key a)) refl

  listed_more :
      (a : A) (u : List A) (k : ℕ) → is_listed key u k ≡ true → is_listed key (a ∷ u) k ≡ true
  unfolding is_listed
  listed_more a u k h = ground (arith, h)

  listed_filter :
      (a : A) (t : List A) (k : ℕ)
      → is_listed key (filter mine t) k ≡ true
      → is_listed key (filter mine (a ∷ t)) k ≡ true
  unfolding filter
  listed_filter a t k h = elim (Bool-cases (mine a)) [
    | inl e ↦ rw e (listed_more a (filter mine t) k h)
    | inr e ↦ rw e h
  ]

  listed_mine :
      (a : A) (t : List A) → mine a ≡ true → is_listed key (filter mine (a ∷ t)) (key a) ≡ true
  unfolding filter
  listed_mine a t e = rw e (listed_first a (filter mine t))

  found_mine :
      (t u : List A)
      → ((k : ℕ) → is_listed key (filter mine t) k ≡ true → is_listed key u k ≡ true)
      → All (λ a. mine a ≡ true → is_listed key u (key a) ≡ true) t
  found_mine [] u h = tt
  found_mine (a ∷ t) u h =
      (λ e. h (key a) (listed_mine a t e), found_mine t u (λ k l. h k (listed_filter a t k l)))

  all_gone : (t : List A) → delete_listed key mine (filter mine t) t ≡ filter (λ a. not (mine a)) t
  all_gone t =
      filter_agree _ (λ a. not (mine a)) t
        (All_mono (λ a. not (mine a && is_listed key (filter mine t) (key a)) ≡ not (mine a)) t
          (λ a h. gone (mine a) (is_listed key (filter mine t) (key a)) h)
          (found_mine t (filter mine t) (λ k l. l)))
    where
      gone : (b c : Bool) → (b ≡ true → c ≡ true) → not (b && c) ≡ not b
      gone true c h = ap not (h refl)
      gone false c h = refl

  one_listed :
      (t u : List A) (x : A) (r : List A)
      → filter mine t ≡ x ∷ r
      → 1 ≤ count_if (λ a. mine a && is_listed key (x ∷ u) (key a)) t
  unfolding filter count_if is_listed
  one_listed [] u x r e = cc
  one_listed (a ∷ t) u x r e = elim (Bool-cases (mine a)) [
    | inl m ↦ ground (arith, m, e, ==_refl (key a))
    | inr m ↦ ground (arith, m, e, one_listed t u x r)
  ]

  -- A chunk that is not empty makes the rest smaller.
  fewer :
      (n : ℕ) (t : List A)
      → 1 ≤ length (take (suc n) (filter mine t))
      → count_if mine (delete_listed key mine (take (suc n) (filter mine t)) t) < count_if mine t
  fewer n t h = go (filter mine t) refl h
    where
      go :
          (s : List A)
          → filter mine t ≡ s
          → 1 ≤ length (take (suc n) s)
          → count_if mine (delete_listed key mine (take (suc n) s) t) < count_if mine t
      go [] e h = absurd (omega arith)
      go (x ∷ r) e h = omega (
        arith,
        count_if-without mine (λ a. is_listed key (x ∷ take n r) (key a)) t,
        one_listed t (take n r) x r e,
      )

  -- With a positive batch size and fuel for one chunk more than there are rows to delete, the loop ends, and
  -- leaves exactly the other rows.
  pub delete_chunks_lem :
      (n fuel : ℕ) (t : List A)
      → count_if mine t < fuel
      → delete_chunks key mine mine fuel (suc n) t ≡ some (filter (λ a. not (mine a)) t)
  unfolding delete_chunks
  delete_chunks_lem n zero t h = absurd (omega arith)
  delete_chunks_lem n (suc fuel) t h = elim (Bool-cases (length ids == suc n)) [
    | inl e ↦ rw e (
        delete_chunks_lem n fuel (delete_listed key mine ids t)
          (omega (arith, fewer n t (ground (arith, e))))
        ∙ ap some (others_stay ids t))
    | inr e ↦ rw e (
        ap some (
          ap (λ u. delete_listed key mine u t) (take-short key (suc n) (filter mine t) (short e))
          ∙ all_gone t))
  ]
    where
      ids : List A
      ids = take (suc n) (filter mine t)

      short : (length ids == suc n) ≡ false → ltb (length ids) (suc n) ≡ true
      short e = ground (arith, length-take (suc n) (filter mine t))

-- Where a chunk lists fewer rows than it may delete, the keys decide: they are unique.
module _ {ℓ} {A : Type ℓ} (key : A → ℕ) (mine seen : A → Bool)
    (sub : (a : A) → seen a ≡ true → mine a ≡ true) where
  listed_found : (u : List A) (k : ℕ) → is_listed key u k ≡ found (find_by key k u)
  unfolding is_listed find_by
  listed_found [] k = refl
  listed_found (a ∷ u) k = ground (arith, listed_found u k)

  listed_take :
      (n : ℕ) (u : List A) (k : ℕ) → is_listed key (take n u) k ≡ true → is_listed key u k ≡ true
  unfolding is_listed
  listed_take zero u k h = cc
  listed_take (suc n) [] k h = cc
  listed_take (suc n) (a ∷ u) k h = ground (arith, h, listed_take n u k)

  listed-seen :
      (n : ℕ) (t : List A) (a : A)
      → IsUnique key t
      → find_by key (key a) t ≡ some a
      → is_listed key (take n (filter seen t)) (key a) ≡ true
      → seen a ≡ true
  listed-seen n t a u e h = passes (seen a) (
      sym (
        listed_found (filter seen t) (key a)
        ∙ ap found (find_by-filter key seen (key a) t (u (key a)) ∙ ap (passing seen) e))
      ∙ listed_take n (filter seen t) (key a) h)
    where
      passes : (b : Bool) → found (if b then some a else none) ≡ true → b ≡ true
      passes true h = refl
      passes false h = h

  same_listed :
      (n : ℕ) (t : List A)
      → IsUnique key t
      → delete_listed key mine (take n (filter seen t)) t
        ≡ delete_listed key seen (take n (filter seen t)) t
  same_listed n t u = filter_agree _ _ t (
      All_mono
        (λ a.
          not (mine a && is_listed key (take n (filter seen t)) (key a))
          ≡ not (seen a && is_listed key (take n (filter seen t)) (key a)))
        t
        (λ a e.
          same (mine a) (seen a) (is_listed key (take n (filter seen t)) (key a)) (sub a)
            (listed-seen n t a u e))
        (IsUnique-rows key t u))
    where
      same :
          (b c l : Bool)
          → (c ≡ true → b ≡ true)
          → (l ≡ true → c ≡ true)
          → not (b && l) ≡ not (c && l)
      same true true l h k = refl
      same true false true h k = ap not (sym (k refl))
      same true false false h k = refl
      same false true l h k = cc (h refl)
      same false false l h k = refl

  seen_chunks :
      (n fuel : ℕ) (t : List A)
      → IsUnique key t
      → delete_chunks key mine seen fuel n t ≡ delete_chunks key seen seen fuel n t
  unfolding delete_chunks
  seen_chunks n zero t u = refl
  seen_chunks n (suc fuel) t u =
      rw
        (
          same_listed n t u,
          seen_chunks n fuel (delete_listed key seen (take n (filter seen t)) t)
              (IsUnique-filter key _ t u),
        )
        refl

  -- With unique keys the loop leaves exactly the rows that its reads do not find.
  pub delete_seen_lem :
      (n fuel : ℕ) (t : List A)
      → IsUnique key t
      → count_if seen t < fuel
      → delete_chunks key mine seen fuel (suc n) t ≡ some (filter (λ a. not (seen a)) t)
  delete_seen_lem n fuel t u h =
      seen_chunks (suc n) fuel t u ∙ delete_chunks_lem key seen n fuel t h
