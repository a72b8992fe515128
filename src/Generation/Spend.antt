-- ===== src/Generation/Spend.antt =====
-- The spend buckets: what an increment adds to the sum from a day on.
use win_back_ai.Base.{
  ℕ, update_by, upsert_by, List, count_if, IsUnique, rows_of, ◌++◌, ◌∷◌, [], ◌≡◌, ◌+◌, arith,
  if◌then◌else◌, leb, refl, Bool-cases, has_key, ◌==◌, inl, has_key-rows_of, inr,
}
use win_back_ai.Generation.{
  increment_spend, spent_since, SpendBucket, spend_key, add_spend, utc_midnight,
}

spent_since-absent :
    (start k delta : ℕ) (bs : List SpendBucket)
    → rows_of spend_key k bs ≡ 0
    → spent_since start (update_by spend_key k (add_spend delta) bs) ≡ spent_since start bs
unfolding spent_since update_by count_if
spent_since-absent start k delta [] h = refl
spent_since-absent start k delta (b ∷ bs) h = ground (arith, spent_since-absent start k delta bs)

spent_since-once :
    (start k delta : ℕ) (bs : List SpendBucket)
    → rows_of spend_key k bs ≡ 1
    → spent_since start (update_by spend_key k (add_spend delta) bs)
      ≡ spent_since start bs + (if leb start k then delta else 0)
unfolding spent_since update_by count_if
spent_since-once start k delta [] h = absurd (omega arith)
spent_since-once start k delta (b ∷ bs) h = elim (Bool-cases (b.date == k)) [
  | inl e ↦ ground (arith, e, spent_since-absent start k delta bs)
  | inr e ↦ ground (arith, e, spent_since-once start k delta bs)
]

spent_since-append :
    (start : ℕ) (b : SpendBucket) (bs : List SpendBucket)
    → spent_since start (bs ++ b ∷ [])
      ≡ spent_since start bs + (if leb start b.date then b.spent_microcents else 0)
unfolding spent_since
spent_since-append start b [] = omega arith
spent_since-append start b (a ∷ bs) = ground (arith, spent_since-append start b bs)

-- An increment adds its amount to each sum that starts on its day or before, if no day has two buckets.
pub spent_since-increment_spend :
    (start date delta : ℕ) (bs : List SpendBucket)
    → IsUnique spend_key bs
    → spent_since start (increment_spend date delta bs)
      ≡ spent_since start bs + (if leb start (utc_midnight date) then delta else 0)
unfolding increment_spend upsert_by
spent_since-increment_spend start date delta bs u =
    elim (Bool-cases (has_key spend_key (utc_midnight date) bs)) [
      | inl e ↦ rw e (
          spent_since-once start (utc_midnight date) delta bs (
            omega
              (arith, u (utc_midnight date), has_key-rows_of spend_key (utc_midnight date) bs e)))
      | inr e ↦ rw e (
          spent_since-append start
            (record { date = utc_midnight date; spent_microcents = delta; generation_count = 1 })
            bs)
    ]
