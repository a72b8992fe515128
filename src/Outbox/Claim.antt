-- ===== src/Outbox/Claim.antt =====
-- Which rows claimBatch returns, and in which order.
-- packages/db/src/repositories/outbox.repository.ts
use win_back_ai.Outbox.{
  OutboxEvent, claim_batch, Scope, created, system, done, is_free, scope_error, merchant, no_scope,
}
use win_back_ai.Base.{
  ℕ, Bool, List, count_if, All, IsSorted, filter, length, suc, take, ◌≡◌, [], ◌&&◌, ◌+◌, ◌-◌, ◌∷◌,
  ◌≤◌, arith, zero, ◌<◌, refl, ◌⊎◌, ◌≢◌, inr, sort_by, inl, IsSorted-sort_by, length-take, ◌∙◌,
  count_if-sort_by,
}

-- What `LIMIT` leaves behind.
abbrev drop : ℕ → List OutboxEvent → List OutboxEvent
drop zero es = es
drop (suc n) [] = []
drop (suc n) (e ∷ es) = drop n es

All-drop : (P : OutboxEvent → Type 0) (n : ℕ) (es : List OutboxEvent) → All P es → All P (drop n es)
All-drop P zero es h = h
All-drop P (suc n) [] h = tt
All-drop P (suc n) (e ∷ es) h = All-drop P n es h.1

All-take : (P : OutboxEvent → Type 0) (n : ℕ) (es : List OutboxEvent) → All P es → All P (take n es)
All-take P zero es h = tt
All-take P (suc n) [] h = tt
All-take P (suc n) (e ∷ es) h = (h.0, All-take P n es h.1)

IsSorted-take : (n : ℕ) (es : List OutboxEvent) → IsSorted created es → IsSorted created (take n es)
IsSorted-take zero es h = tt
IsSorted-take (suc n) [] h = tt
IsSorted-take (suc n) (e ∷ es) h =
    (All-take (λ b. e.created_at ≤ b.created_at) n es h.0, IsSorted-take n es h.1)

-- Each row that is taken is at most as new as each that is left.
abbrev AreOlder : List OutboxEvent → List OutboxEvent → Type 0
AreOlder rows rest = All (λ r. All (λ e. r.created_at ≤ e.created_at) rest) rows

older : (n : ℕ) (es : List OutboxEvent) → IsSorted created es → AreOlder (take n es) (drop n es)
older zero es h = tt
older (suc n) [] h = tt
older (suc n) (e ∷ es) h = (All-drop (λ b. e.created_at ≤ b.created_at) n es h.0, older n es h.1)

count-split :
    (p : OutboxEvent → Bool) (n : ℕ) (es : List OutboxEvent)
    → count_if p (take n es) + count_if p (drop n es) ≡ count_if p es
unfolding count_if
count-split p zero es = omega arith
count-split p (suc n) [] = omega arith
count-split p (suc n) (e ∷ es) = ground (arith, count-split p n es)

length-drop : (n : ℕ) (es : List OutboxEvent) → length (drop n es) ≡ length es - n
length-drop zero es = omega arith
length-drop (suc n) [] = omega arith
length-drop (suc n) (e ∷ es) = omega (arith, length-drop n es)

empty_of_length : (es : List OutboxEvent) → length es ≡ 0 → es ≡ []
empty_of_length [] h = refl
empty_of_length (e ∷ es) h = absurd (omega arith)

count-filter :
    (p q : OutboxEvent → Bool) (es : List OutboxEvent)
    → count_if p (filter q es) ≡ count_if (λ e. q e && p e) es
unfolding count_if filter
count-filter p q [] = refl
count-filter p q (e ∷ es) = ground (arith, count-filter p q es)

-- A claim of at most `limit` rows out of a table, and what it leaves.
pub record IsBatch (locked : ℕ → Bool) (limit : ℕ) (events rows rest : List OutboxEvent)
    : Type 0 where
  sorted : IsSorted created rows
  bounded : length rows ≤ limit
  older_first : AreOlder rows rest
  full : length rows < limit → rest ≡ []
  all_free :
      (p : OutboxEvent → Bool)
      → count_if p rows + count_if p rest ≡ count_if (λ e. is_free locked e && p e) events

-- In system scope claimBatch returns rows in the order of their creation, at most `limit` of them,
-- that together with the rows it leaves are exactly the rows that are unprocessed, not
-- dead-lettered and not locked; it leaves none unless the limit is reached, and none that is
-- older than a row it returns. In any other scope it throws.
pub claim_exact :
    (scope : Scope) (locked : ℕ → Bool) (limit : ℕ) (events : List OutboxEvent)
    → ((scope ≡ system)
        × ((rows : List OutboxEvent) × ((rest : List OutboxEvent) × ((claim_batch scope locked limit
                    events
                  ≡ done rows)
                × IsBatch locked limit events rows rest))))
      ⊎ ((scope ≢ system) × (claim_batch scope locked limit events ≡ scope_error))
unfolding claim_batch
claim_exact no_scope locked limit events = inr (λ e. cc, refl)
claim_exact (merchant m) locked limit events = inr (λ e. cc, refl)
claim_exact system locked limit events =
    let free = sort_by created (filter (is_free locked) events) in
    inl (
      refl,
      (
        take limit free,
        (
          drop limit free,
          (
            refl,
            record {
              sorted =
                  IsSorted-take limit free
                    (IsSorted-sort_by created (filter (is_free locked) events));
              bounded = omega (arith, length-take limit free);
              older_first =
                  older limit free (IsSorted-sort_by created (filter (is_free locked) events));
              full = λ h.
                  empty_of_length (drop limit free)
                    (omega (arith, h, length-take limit free, length-drop limit free));
              all_free = λ p.
                  count-split p limit free
                  ∙ count_if-sort_by created p (filter (is_free locked) events)
                  ∙ count-filter p (is_free locked) events;
            },
          ),
        ),
      ),
    )
