-- ===== src/Drainer/Bound.antt =====
-- Sequences of ticks, each by some replica: how often one event is dispatched.
-- apps/drainer/src/drainer.ts
use win_back_ai.Drainer.Ticks.{
  claimed_rows, count-claimed_rows, claimed_rows-ArePresent, run_deferred_lem, count-drain_rows,
  claimed_rows-IsCurrent, count_nil,
}
use win_back_ai.Outbox.{claim_batch, OutboxEvent, is_claimable}
use win_back_ai.Base.{
  ℕ, List, count_if, ◌+◌, Bool, ◌≡◌, ◌≤◌, le_refl, some, ◌∷◌, [], refl, true, false, arith, Option,
  ap, none, length,
}
use win_back_ai.Drainer.{
  Dispatcher, Tick, run_drain_tick, Result, claim_batch, drain_rows, done, start, run_deferred,
  and_then, mark_before_invoke, TickResult, finish,
}
use win_back_ai.Drainer.Rows.{budget, named, row_of}
use win_back_ai.Drainer.Bounded.{weight-drain_rows, drain_rows_lem}

-- One tick of a replica: its dispatcher, the rows that others hold, the clock and the batch size.
pub record TickEnv : Type 0 where
  pub dispatch : Dispatcher
  pub locked : ℕ → Bool
  pub now : ℕ
  pub batch_size : ℕ

-- The calls of `dispatch` so far, and the table.
pub record Drained : Type 0 where
  pub calls : List OutboxEvent
  pub events : List OutboxEvent

-- The ticks in their order; an error would end the sequence.
unfoldable pub run_ticks : List TickEnv → Drained → Result Drained
run_ticks [] d = done d
run_ticks (env ∷ envs) d =
    and_then (run_drain_tick env.dispatch env.locked env.now env.batch_size d.calls d.events)
      (λ r. run_ticks envs (record { calls = r.after.calls; events = r.after.events }))

-- The number of calls on the event `x`.
abbrev pub dispatches : ℕ → Drained → ℕ
dispatches x d = count_if (named x) d.calls

-- How a tick changes what one event has and may still get.
record IsPaid (x : ℕ) (d e : Drained) : Type 0 where
  spent : dispatches x e + budget (row_of x e.events) ≤ dispatches x d + budget (row_of x d.events)
  unique : count_if (named x) e.events ≤ 1

paid :
    (env : TickEnv) (d : Drained) (u : Tick) (x : ℕ)
    → drain_rows env.dispatch env.now
        (claimed_rows env.locked env.batch_size d.events)
        (start d.events d.calls)
      ≡ done u
    → count_if (named x) d.events ≤ 1
    → IsPaid x d (record {
      calls = (run_deferred env.dispatch env.now u.deferred u).calls;
      events = (run_deferred env.dispatch env.now u.deferred u).events;
    })
paid env d u x e h =
    let rows = claimed_rows env.locked env.batch_size d.events in
    let present = claimed_rows-ArePresent env.locked env.batch_size d.events in
    let (a, b) = run_deferred_lem x env.dispatch env.now u.deferred u in
    let c = count-drain_rows x env.dispatch env.now rows (start d.events d.calls) u present e in
    let w =
      weight-drain_rows x env.dispatch env.now rows (start d.events d.calls) u
        (omega (arith, count-claimed_rows env.locked env.batch_size d.events x, h))
        (claimed_rows-IsCurrent env.locked env.batch_size d.events x h) present e in
    record { spent = omega (arith, a, w, count_nil x); unique = omega (arith, b, c, h) }

tick_lem :
    (env : TickEnv) (d : Drained)
    → (r : TickResult) × ((run_drain_tick env.dispatch env.locked env.now env.batch_size d.calls
            d.events
          ≡ done r)
        × ((x : ℕ)
            → count_if (named x) d.events ≤ 1
            → IsPaid x d (record { calls = r.after.calls; events = r.after.events })))
unfolding run_drain_tick claim_batch
tick_lem env d =
    let rows = claimed_rows env.locked env.batch_size d.events in
    let (u, e) =
      drain_rows_lem env.dispatch env.now rows (start d.events d.calls)
        (claimed_rows-ArePresent env.locked env.batch_size d.events) in
    (
      finish env.dispatch env.now env.batch_size (length rows) u,
      (rw e refl, λ x h. paid env d u x e h),
    )

run_ticks_lem :
    (envs : List TickEnv) (d : Drained)
    → (e : Drained) × ((run_ticks envs d ≡ done e)
        × ((x : ℕ) → count_if (named x) d.events ≤ 1 → IsPaid x d e))
unfolding run_ticks
run_ticks_lem [] d = (d, (refl, λ x h. record { spent = le_refl _; unique = h }))
run_ticks_lem (env ∷ envs) d =
    let (r, (p, f)) = tick_lem env d in
    let (e, (q, g)) =
      run_ticks_lem envs (record { calls = r.after.calls; events = r.after.events }) in
    (
      e,
      (
        rw p q,
        λ x h.
            let first = f x h in
            let rest = g x first.unique in
            record { spent = omega (arith, first.spent, rest.spent); unique = rest.unique },
      ),
    )

budget_le_ten : (row : Option OutboxEvent) → budget row ≤ 10
budget_le_ten none = omega arith
budget_le_ten (some e) = ground arith

budget_before : (e : OutboxEvent) → mark_before_invoke e.event_type ≡ true → budget (some e) ≤ 1
budget_before e h = ground arith

budget_closed : (e : OutboxEvent) → is_claimable e ≡ false → budget (some e) ≡ 0
budget_closed e h = ground arith

-- However the handlers answer and whatever rows other replicas hold, no sequence of ticks throws,
-- and from a table with at most one row of an id it calls `dispatch` on that event at most ten
-- times, at most once for an event that is marked before its handler is invoked, and never for
-- an event that is processed or dead-lettered.
pub dispatch_bounded :
    (envs : List TickEnv) (d : Drained) (x : ℕ)
    → count_if (named x) d.events ≤ 1
    → (e : Drained) × ((run_ticks envs d ≡ done e)
        × ((dispatches x e ≤ dispatches x d + 10)
            × ((row : OutboxEvent)
                → row_of x d.events ≡ some row
                → ((mark_before_invoke row.event_type ≡ true → dispatches x e ≤ dispatches x d + 1)
                    × (is_claimable row ≡ false → dispatches x e ≤ dispatches x d)))))
dispatch_bounded envs d x h =
    let (e, (q, g)) = run_ticks_lem envs d in
    let p = (g x h).spent in
    (
      e,
      (
        q,
        (
          omega (arith, p, budget_le_ten (row_of x d.events)),
          λ row f. (
            λ k. omega (arith, p, ap budget f, budget_before row k),
            λ k. omega (arith, p, ap budget f, budget_closed row k),
          ),
        ),
      ),
    )
