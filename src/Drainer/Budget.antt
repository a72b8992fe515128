-- ===== src/Drainer/Budget.antt =====
-- How often a tick calls `dispatch` on one event: each call is paid for by the event's budget.
-- apps/drainer/src/drainer.ts
use win_back_ai.Drainer.Rows.{
  budget, weight, named, row_of, change, after_row, change-event_id, replied,
}
use win_back_ai.Outbox.{
  OutboxEvent, as_dead_lettered, as_failed, as_processed, is_claimable, is_none, event_id,
}
use win_back_ai.Drainer.{
  Dispatcher, Tick, Units, should_dead_letter, Failure, mark_before_invoke, message_of, Reply,
  failed, handled,
}
use win_back_ai.Base.{
  ℕ, some, ◌≡◌, refl, true, ◌+◌, false, ◌≤◌, Bool-cases, arith, inl, inr, count_if, if◌then◌else◌,
  ◌≢◌, List, ◌==◌, mapped, ◌++◌, ◌∙◌, find_by-update_by, ◌∷◌, [], ap,
}

processed_budget : (now : ℕ) (e : OutboxEvent) → budget (some (as_processed now e)) ≡ 0
unfolding as_processed is_claimable
processed_budget now e = refl

dead_budget : (now : ℕ) (m : Units) (e : OutboxEvent) → budget (some (as_dead_lettered now m e)) ≡ 0
unfolding as_dead_lettered is_claimable
dead_budget now m e = elim (Bool-cases (is_none e.dead_lettered_at)) [
  | inl q ↦ rw q (ground arith)
  | inr q ↦ rw q (ground arith)
]

-- A retry is allowed below the ceiling only, and costs one attempt.
failed_budget :
    (err : Failure) (e : OutboxEvent)
    → is_claimable e ≡ true
    → mark_before_invoke e.event_type ≡ false
    → should_dead_letter e err ≡ false
    → budget (some (as_failed (message_of err) e)) + 1 ≤ budget (some e)
unfolding as_failed is_claimable should_dead_letter
failed_budget err e c k h = ground arith

claimable_budget : (e : OutboxEvent) → is_claimable e ≡ true → 1 ≤ budget (some e)
claimable_budget e c = ground arith

budget-replied :
    (now : ℕ) (row : OutboxEvent) (reply : Reply)
    → is_claimable row ≡ true
    → mark_before_invoke row.event_type ≡ false
    → budget (some (replied now row reply row)) + 1 ≤ budget (some row)
budget-replied now row handled c k = omega (arith, processed_budget now row, claimable_budget row c)
budget-replied now row (failed err) c k = elim (Bool-cases (should_dead_letter row err)) [
  | inl q ↦ rw q (omega (arith, dead_budget now (message_of err) row, claimable_budget row c))
  | inr q ↦ rw q (failed_budget err row c k q)
]

budget-change :
    (dispatch : Dispatcher) (now : ℕ) (row : OutboxEvent) (t : Tick)
    → is_claimable row ≡ true
    → budget (some (change dispatch now row t row)) + 1 ≤ budget (some row)
budget-change dispatch now row t c = elim (Bool-cases (mark_before_invoke row.event_type)) [
  | inl q ↦
      let same : change dispatch now row t row ≡ as_processed now row = rw q refl in
      rw same (omega (arith, processed_budget now row, claimable_budget row c))
  | inr q ↦
      let same : change dispatch now row t row ≡ replied now row (dispatch t.calls row) row =
        rw q refl in
      rw same (budget-replied now row (dispatch t.calls row) c q)
]

pub count-snoc :
    (x : ℕ) (es : List OutboxEvent) (e : OutboxEvent)
    → count_if (named x) (es ++ e ∷ []) ≡ count_if (named x) es + (if e.id == x then 1 else 0)
unfolding count_if
count-snoc x [] e = ground arith
count-snoc x (a ∷ es) e = ground (arith, count-snoc x es e)

pub row-after_row :
    (x : ℕ) (dispatch : Dispatcher) (now : ℕ) (row : OutboxEvent) (t : Tick)
    → row_of x (after_row dispatch now row t).events ≡ (
        if row.id == x
        then mapped (change dispatch now row t) (row_of x t.events)
        else row_of x t.events)
row-after_row x dispatch now row t =
    find_by-update_by event_id row.id x (change dispatch now row t) t.events
      (change-event_id dispatch now row t)

logged :
    (x : ℕ) (dispatch : Dispatcher) (now : ℕ) (row : OutboxEvent) (t : Tick)
    → count_if (named x) (after_row dispatch now row t).calls
        + count_if (named x) (after_row dispatch now row t).deferred
      ≡ count_if (named x) t.calls + count_if (named x) t.deferred + (if row.id == x then 1 else 0)
logged x dispatch now row t = elim (Bool-cases (mark_before_invoke row.event_type)) [
  | inl q ↦ rw q (omega (arith, count-snoc x t.deferred row))
  | inr q ↦ rw q (omega (arith, count-snoc x t.calls row))
]

-- A row of Phase 1 pays for the call of its own event, now or in Phase 2.
pub weight-own :
    (dispatch : Dispatcher) (now : ℕ) (row : OutboxEvent) (t : Tick)
    → row_of row.id t.events ≡ some row
    → is_claimable row ≡ true
    → weight row.id (after_row dispatch now row t) ≤ weight row.id t
weight-own dispatch now row t h c =
    let q : (row.id == row.id) ≡ true = ground arith in
    let same : row_of row.id (after_row dispatch now row t).events
        ≡ some (change dispatch now row t row) =
      row-after_row row.id dispatch now row t ∙ rw q (rw h refl) in
    omega (
      arith,
      logged row.id dispatch now row t,
      ap budget same,
      ap budget h,
      budget-change dispatch now row t c,
      ap {B = ℕ} (λ b. if b then 1 else 0) q,
    )

-- It leaves the other events alone.
pub weight-other :
    (x : ℕ) (dispatch : Dispatcher) (now : ℕ) (row : OutboxEvent) (t : Tick)
    → row.id ≢ x
    → (row_of x (after_row dispatch now row t).events ≡ row_of x t.events)
      × (weight x (after_row dispatch now row t) ≡ weight x t)
weight-other x dispatch now row t h =
    let q : (row.id == x) ≡ false = ground arith in
    let same : row_of x (after_row dispatch now row t).events ≡ row_of x t.events =
      row-after_row x dispatch now row t ∙ rw q refl in
    (
      same,
      omega (
        arith,
        logged x dispatch now row t,
        ap budget same,
        ap {B = ℕ} (λ c. if c then 1 else 0) q,
      ),
    )
