-- ===== src/Drainer/Outcome.antt =====
-- What Phase 1 of a tick does with an event whose handler fails. apps/drainer/src/drainer.ts
use win_back_ai.Drainer.{
  Dispatcher, Failure, Tick, should_dead_letter, mark_before_invoke, message_of, failed,
  is_retryable, drain_row, done, max_outbox_attempts,
}
use win_back_ai.Drainer.Rows.{row_of, replied, drain_row_lem, change, after_row}
use win_back_ai.Drainer.Budget.{row-after_row, weight-other}
use win_back_ai.Outbox.{OutboxEvent, is_claimable, as_failed, as_dead_lettered, event_id, is_none}
use win_back_ai.Base.{
  ◌==◌, ℕ, has_key, ◌≡◌, find_by, some, ◌+◌, List, take, true, false, ◌∷◌, arith, ◌&&◌, [], ltb,
  ◌≢◌, ◌∙◌, sym, refl, Bool-cases, inl, inr,
}

has_key-found :
    (x : ℕ) (es : List OutboxEvent) (e : OutboxEvent)
    → row_of x es ≡ some e
    → has_key event_id x es ≡ true
unfolding has_key find_by
has_key-found x [] e h = cc
has_key-found x (a ∷ es) e h = ground (arith, has_key-found x es e)

-- How an event stands after a failure with `err`: one attempt more, the error's first 1000 units,
-- and open to further attempts exactly where the error is retryable and the ceiling is not reached.
pub record IsFailed (row : OutboxEvent) (err : Failure) (e : OutboxEvent) : Type 0 where
  attempts : e.attempts ≡ row.attempts + 1
  last_error : e.last_error ≡ some (take 1000 (message_of err))
  open_again : is_claimable e ≡ (is_retryable err && ltb (row.attempts + 1) max_outbox_attempts)
  dead : is_none e.dead_lettered_at ≡ is_claimable e

replied-IsFailed :
    (now : ℕ) (row : OutboxEvent) (err : Failure)
    → is_claimable row ≡ true
    → IsFailed row err (replied now row (failed err) row)
unfolding is_claimable should_dead_letter as_failed as_dead_lettered
replied-IsFailed now row err c =
    let alive : is_none row.dead_lettered_at ≡ true = ground arith in
    let fresh : is_none row.processed_at ≡ true = ground arith in
    elim (Bool-cases (should_dead_letter row err)) [
      | inl q ↦ rw q (
          rw alive (record {
            attempts = refl;
            last_error = refl;
            open_again = ground arith;
            dead = ground arith;
          }))
      | inr q ↦ rw q (record {
        attempts = refl;
        last_error = refl;
        open_again = ground arith;
        dead = ground arith;
      })
    ]

-- Where `dispatch` fails on an open event that is not marked before its handler, the event has one
-- attempt more and the error, and it stays open exactly if the error is retryable and fewer than
-- ten attempts are made; else it is dead-lettered. The other events stay as they are.
pub failure_outcome :
    (dispatch : Dispatcher) (now : ℕ) (row : OutboxEvent) (t : Tick) (err : Failure)
    → row_of row.id t.events ≡ some row
    → is_claimable row ≡ true
    → mark_before_invoke row.event_type ≡ false
    → dispatch t.calls row ≡ failed err
    → (u : Tick) × ((drain_row dispatch now row t ≡ done u)
        × ((e : OutboxEvent) × ((row_of row.id u.events ≡ some e)
              × (IsFailed row err e
                  × ((x : ℕ) → x ≢ row.id → row_of x u.events ≡ row_of x t.events)))))
failure_outcome dispatch now row t err h c k f =
    let own : (row.id == row.id) ≡ true = ground arith in
    let same : change dispatch now row t row ≡ replied now row (failed err) row =
      rw k (rw f refl) in
    (
      after_row dispatch now row t,
      (
        drain_row_lem dispatch now row t (has_key-found row.id t.events row h),
        (
          replied now row (failed err) row,
          (
            row-after_row row.id dispatch now row t ∙ rw own (rw h (rw same refl)),
            (
              replied-IsFailed now row err c,
              λ x n. (weight-other x dispatch now row t (λ e. n (sym e))).0,
            ),
          ),
        ),
      ),
    )
