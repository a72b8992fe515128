-- ===== src/Drainer/Bounded.antt =====
-- The number of calls of `dispatch` on one event over a sequence of ticks, and that ticks end.
-- apps/drainer/src/drainer.ts
use win_back_ai.Base.{
  ◌==◌, List, count_if, has_key, All, update_by, ℕ, ◌∷◌, ◌≡◌, [], arith, some, true, ◌≤◌, refl, ◌∙◌,
  le_refl, sym, Bool-cases, inl, inr, ap, if◌then◌else◌, ◌+◌,
}
use mathlib.Core.Path.{subst}
use win_back_ai.Drainer.Budget.{weight-own, weight-other}
use win_back_ai.Drainer.Rows.{
  weight, named, row_of, after_row, drain_row_lem, change, change-event_id,
}
use win_back_ai.Outbox.{OutboxEvent, event_id, is_claimable}
use win_back_ai.Drainer.{drain_rows, Dispatcher, Tick, done}

-- What Phase 1 knows of the rows it still has: a row of event `x` is the event's row.
abbrev pub IsCurrent : ℕ → List OutboxEvent → List OutboxEvent → Type 0
IsCurrent x events rows =
    All (λ r. (r.id ≡ x) → (row_of x events ≡ some r) × (is_claimable r ≡ true)) rows

pub All-imp :
    {P Q : OutboxEvent → Type 0} (rows : List OutboxEvent)
    → ((r : OutboxEvent) → P r → Q r)
    → All P rows
    → All Q rows
All-imp [] f h = tt
All-imp (r ∷ rows) f h = (f r h.0, All-imp rows f h.1)

pub absent-IsCurrent :
    (x : ℕ) (events : List OutboxEvent) (rows : List OutboxEvent)
    → count_if (named x) rows ≡ 0
    → IsCurrent x events rows
unfolding count_if
absent-IsCurrent x events [] h = tt
absent-IsCurrent x events (r ∷ rows) h =
    (λ e. absurd (ground arith), absent-IsCurrent x events rows (ground arith))

-- All the rows are in the table.
abbrev pub ArePresent : List OutboxEvent → List OutboxEvent → Type 0
ArePresent events rows = All (λ r. has_key event_id r.id events ≡ true) rows

has_key-update_by :
    (k id : ℕ) (f : OutboxEvent → OutboxEvent) (es : List OutboxEvent)
    → ((e : OutboxEvent) → event_id (f e) ≡ event_id e)
    → has_key event_id k (update_by event_id id f es) ≡ has_key event_id k es
unfolding has_key update_by
has_key-update_by k id f [] h = refl
has_key-update_by k id f (e ∷ es) h = ground (arith, h e, has_key-update_by k id f es h)

pub ArePresent-after_row :
    (dispatch : Dispatcher) (now : ℕ) (row : OutboxEvent) (rows : List OutboxEvent) (t : Tick)
    → ArePresent t.events rows
    → ArePresent (after_row dispatch now row t).events rows
ArePresent-after_row dispatch now row rows t h =
    All-imp rows
      (λ r p.
        has_key-update_by r.id row.id (change dispatch now row t) t.events
          (change-event_id dispatch now row t)
        ∙ p)
      h

pub drain_rows_lem :
    (dispatch : Dispatcher) (now : ℕ) (rows : List OutboxEvent) (t : Tick)
    → ArePresent t.events rows
    → (u : Tick) × (drain_rows dispatch now rows t ≡ done u)
unfolding drain_rows
drain_rows_lem dispatch now [] t h = (t, refl)
drain_rows_lem dispatch now (row ∷ rows) t h =
    let next = after_row dispatch now row t in
    let (u, e) =
      drain_rows_lem dispatch now rows next (ArePresent-after_row dispatch now row rows t h.1) in
    (u, rw (drain_row_lem dispatch now row t h.0) e)

weight-named :
    (x : ℕ) (dispatch : Dispatcher) (now : ℕ) (row : OutboxEvent) (t : Tick)
    → row.id ≡ x
    → (row_of x t.events ≡ some row) × (is_claimable row ≡ true)
    → weight x (after_row dispatch now row t) ≤ weight x t
weight-named x dispatch now row t e (h, c) =
    subst (λ y. weight y (after_row dispatch now row t) ≤ weight y t) e
      (weight-own dispatch now row t (ap (λ y. row_of y t.events) e ∙ h) c)

pub count-head :
    (x : ℕ) (row : OutboxEvent) (rows : List OutboxEvent)
    → count_if (named x) (row ∷ rows) ≡ (if row.id == x then 1 else 0) + count_if (named x) rows
unfolding count_if
count-head x row rows = refl

pub weight-drain_rows :
    (x : ℕ) (dispatch : Dispatcher) (now : ℕ) (rows : List OutboxEvent) (t u : Tick)
    → count_if (named x) rows ≤ 1
    → IsCurrent x t.events rows
    → ArePresent t.events rows
    → drain_rows dispatch now rows t ≡ done u
    → weight x u ≤ weight x t
unfolding drain_rows
weight-drain_rows x dispatch now [] t u n c p e = let same : t ≡ u = cc in rw same (le_refl _)
weight-drain_rows x dispatch now (row ∷ rows) t u n c p e =
    let step : drain_rows dispatch now (row ∷ rows) t
        ≡ drain_rows dispatch now rows (after_row dispatch now row t) =
      rw (drain_row_lem dispatch now row t p.0) refl in
    let present = ArePresent-after_row dispatch now row rows t p.1 in
    elim (Bool-cases (row.id == x)) [
      | inl q ↦
          let rest =
            weight-drain_rows x dispatch now rows (after_row dispatch now row t) u
              (ground (arith, count-head x row rows))
              (absent-IsCurrent x _ rows (ground (arith, count-head x row rows))) present
              (sym step ∙ e) in
          omega (arith, rest, weight-named x dispatch now row t (ground arith) (c.0 (ground arith)))
      | inr q ↦
          let (row_same, weight_same) = weight-other x dispatch now row t (ground arith) in
          let rest =
            weight-drain_rows x dispatch now rows (after_row dispatch now row t) u
              (ground (arith, count-head x row rows))
              (All-imp rows (λ r f g. (row_same ∙ (f g).0, (f g).1)) c.1) present (sym step ∙ e) in
          omega (arith, rest, weight_same)
    ]
