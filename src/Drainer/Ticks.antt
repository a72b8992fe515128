-- ===== src/Drainer/Ticks.antt =====
-- A whole tick, and sequences of ticks of any number of replicas, one after the other.
-- apps/drainer/src/drainer.ts
use win_back_ai.Base.{
  ℕ, count_if, Option, update_by, List, mapped, ◌≡◌, refl, some, ◌∷◌, arith, none, ◌+◌, [], sym,
  ◌∙◌, ◌++◌, Bool-cases, has_key, inl, ap, find_by-update_by, inr, All, Bool, filter, find_by, take,
  if◌then◌else◌, suc, true, ◌≤◌, false, le_refl, zero, ◌==◌, sort_by, All-sort_by, count_if-sort_by,
  All-filter, All-take,
}
use win_back_ai.Drainer.Bounded.{
  IsCurrent, ArePresent, All-imp, ArePresent-after_row, count-head, absent-IsCurrent,
}
use win_back_ai.Drainer.Rows.{
  budget, named, row_of, after_row, drain_row_lem, change, change-event_id,
}
use win_back_ai.Outbox.{
  mark_deferred_failed, OutboxEvent, as_deferred_failed, is_claimable, Units, event_id, is_free,
  created,
}
use win_back_ai.Drainer.{
  deferred_reply, drain_rows, run_deferred, Dispatcher, mark_deferred_failed, Tick, done, Reply,
  failed, message_of, handled,
}
use win_back_ai.Drainer.Budget.{count-snoc}

as_deferred_failed-event_id :
    (now : ℕ) (m : Units) (e : OutboxEvent) → event_id (as_deferred_failed now m e) ≡ event_id e
unfolding as_deferred_failed
as_deferred_failed-event_id now m e = refl

as_deferred_failed-budget :
    (now : ℕ) (m : Units) (e : Option OutboxEvent)
    → budget (mapped (as_deferred_failed now m) e) ≡ budget e
unfolding as_deferred_failed is_claimable
as_deferred_failed-budget now m none = refl
as_deferred_failed-budget now m (some e) = refl

either :
    (c : Bool) (a b : Option OutboxEvent)
    → budget a ≡ budget b
    → budget (if c then a else b) ≡ budget b
either true a b h = h
either false a b h = refl

module _ (x : ℕ) where
  count-update_by :
      (id : ℕ) (f : OutboxEvent → OutboxEvent) (es : List OutboxEvent)
      → ((e : OutboxEvent) → event_id (f e) ≡ event_id e)
      → count_if (named x) (update_by event_id id f es) ≡ count_if (named x) es
  unfolding count_if update_by
  count-update_by id f [] h = refl
  count-update_by id f (e ∷ es) h = ground (arith, h e, count-update_by id f es h)

  pub count-drain_rows :
      (dispatch : Dispatcher) (now : ℕ) (rows : List OutboxEvent) (t u : Tick)
      → ArePresent t.events rows
      → drain_rows dispatch now rows t ≡ done u
      → count_if (named x) u.events ≡ count_if (named x) t.events
  unfolding drain_rows
  count-drain_rows dispatch now [] t u p e = let same : t ≡ u = cc in rw same refl
  count-drain_rows dispatch now (row ∷ rows) t u p e =
      let step : drain_rows dispatch now (row ∷ rows) t
          ≡ drain_rows dispatch now rows (after_row dispatch now row t) =
        rw (drain_row_lem dispatch now row t p.0) refl in
      count-drain_rows dispatch now rows (after_row dispatch now row t) u
        (ArePresent-after_row dispatch now row rows t p.1) (sym step ∙ e)
      ∙ count-update_by row.id (change dispatch now row t) t.events
          (change-event_id dispatch now row t)

  -- Phase 2 calls `dispatch` once for each deferred row, and leaves budgets and ids alone.
  deferred_reply_lem :
      (now : ℕ) (row : OutboxEvent) (reply : Reply) (es : List OutboxEvent)
      → (budget (row_of x (deferred_reply now row reply es)) ≡ budget (row_of x es))
        × (count_if (named x) (deferred_reply now row reply es) ≡ count_if (named x) es)
  unfolding deferred_reply mark_deferred_failed
  deferred_reply_lem now row handled es = (refl, refl)
  deferred_reply_lem now row (failed err) es = elim (Bool-cases (has_key event_id row.id es)) [
    | inl h ↦ rw h (
      ap budget (
            find_by-update_by event_id row.id x (as_deferred_failed now (message_of err)) es
              (as_deferred_failed-event_id now (message_of err)))
          ∙ either (row.id == x) _ _ (as_deferred_failed-budget now (message_of err) (row_of x es)),
      count-update_by row.id (as_deferred_failed now (message_of err)) es
          (λ e. as_deferred_failed-event_id now (message_of err) e),
    )
    | inr h ↦ rw h (refl, refl)
  ]

  pub count_nil : count_if (named x) [] ≡ 0
  unfolding count_if
  count_nil = refl

  pub run_deferred_lem :
      (dispatch : Dispatcher) (now : ℕ) (rows : List OutboxEvent) (t : Tick)
      → (count_if (named x) (run_deferred dispatch now rows t).calls
            + budget (row_of x (run_deferred dispatch now rows t).events)
          ≡ count_if (named x) t.calls + count_if (named x) rows + budget (row_of x t.events))
        × (count_if (named x) (run_deferred dispatch now rows t).events
            ≡ count_if (named x) t.events)
  unfolding run_deferred
  run_deferred_lem dispatch now [] t = (omega (arith, count_nil), refl)
  run_deferred_lem dispatch now (row ∷ rows) t =
      let (a, b) = run_deferred_lem dispatch now rows (record t {
        calls = t.calls ++ row ∷ [];
        events = deferred_reply now row (dispatch t.calls row) t.events;
      }) in
      let (c, d) = deferred_reply_lem now row (dispatch t.calls row) t.events in
      (omega (arith, a, c, count-head x row rows, count-snoc x t.calls row), b ∙ d)

count-filter-le :
    (x : ℕ) (p : OutboxEvent → Bool) (es : List OutboxEvent)
    → count_if (named x) (filter p es) ≤ count_if (named x) es
unfolding count_if filter
count-filter-le x p [] = le_refl _
count-filter-le x p (e ∷ es) = ground (arith, count-filter-le x p es)

count-take-le :
    (x n : ℕ) (es : List OutboxEvent) → count_if (named x) (take n es) ≤ count_if (named x) es
unfolding count_if
count-take-le x zero es = omega arith
count-take-le x (suc n) [] = le_refl _
count-take-le x (suc n) (e ∷ es) = ground (arith, count-take-le x n es)

-- In a table with at most one row of the id, each row of the id is the one that is found.
found :
    (x : ℕ) (es : List OutboxEvent)
    → count_if (named x) es ≤ 1
    → All (λ e. (e.id ≡ x) → row_of x es ≡ some e) es
unfolding count_if find_by
found x [] h = tt
found x (e ∷ es) h = elim (Bool-cases (e.id == x)) [
  | inl q ↦ (
    λ k. rw q refl,
    All-imp es (λ r f k. (f k).0)
        (absent-IsCurrent x (e ∷ es) es (ground (arith, count-head x e es))),
  )
  | inr q ↦ (
    λ k. absurd (ground arith),
    All-imp es (λ r f k. rw q (f k)) (found x es (ground (arith, count-head x e es))),
  )
]

present : (es : List OutboxEvent) → All (λ e. has_key event_id e.id es ≡ true) es
unfolding has_key
present [] = tt
present (e ∷ es) = (ground arith, All-imp es (λ r h. ground arith) (present es))

free_claimable :
    (locked : ℕ → Bool) (e : OutboxEvent) → is_free locked e ≡ true → is_claimable e ≡ true
unfolding is_free
free_claimable locked e h = ground arith

-- What a tick claims.
module _ (locked : ℕ → Bool) (limit : ℕ) (events : List OutboxEvent) where
  abbrev pub claimed_rows : List OutboxEvent
  claimed_rows = take limit (sort_by created (filter (is_free locked) events))

  pub count-claimed_rows : (x : ℕ) → count_if (named x) claimed_rows ≤ count_if (named x) events
  count-claimed_rows x = omega (
    arith,
    count-take-le x limit (sort_by created (filter (is_free locked) events)),
    count_if-sort_by created (named x) (filter (is_free locked) events),
    count-filter-le x (is_free locked) events,
  )

  claimed_rows-All :
      (P : OutboxEvent → Type 0)
      → All P events
      → All (λ e. P e × (is_free locked e ≡ true)) claimed_rows
  claimed_rows-All P h = All-take _ limit (sort_by created (filter (is_free locked) events)) (
      All-sort_by created _ (filter (is_free locked) events)
        (All-filter P (is_free locked) events h))

  pub claimed_rows-ArePresent : ArePresent events claimed_rows
  claimed_rows-ArePresent = All-imp claimed_rows (λ r p. p.0) (claimed_rows-All _ (present events))

  pub claimed_rows-IsCurrent :
      (x : ℕ) → count_if (named x) events ≤ 1 → IsCurrent x events claimed_rows
  claimed_rows-IsCurrent x h =
      All-imp claimed_rows (λ r p e. (p.0 e, free_claimable locked r p.1))
        (claimed_rows-All _ (found x events h))
