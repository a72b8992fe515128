-- ===== src/Rescore/Decay.antt =====
-- decayRescore: it ends, scores the customers that its pages come to, and announces the changes of
-- their states when the scoring is initialised.
use win_back_ai.Rescore.{
  ScoredCustomer, ScoreDb, customer_id, Snapshot, announce, StateChanged, same_band, resolve_member,
  event_of, state_changed, write_score, is_none, take_snapshot, by_sweep, score_key,
}
use win_back_ai.Base.{
  length-append, ℕ, Bool, List, if◌then◌else◌, ◌∷◌, ◌≡◌, [], ◌++◌, map, ◌+◌, length, true, false,
  refl, sym, ◌∙◌, ap, arith, not, rest, ◌≤◌, IsUnique, length-sort_by, filter, none, some, ◌&&◌,
  length-filter, zero, suc, rest_from, IsStrict, IsStrict-rest, All-rest, find_by, or_else,
}
use win_back_ai.Rescore.Passes.{
  decay_step, run_rows, Pass, settle, Totals, decay_rescore, in_working_set, begin, no_totals,
  decays, enough_fuel,
}
use win_back_ai.Rescore.Scored.{IsScoring, IsScoring-IsLocal, run_rows-customers, run_rows-scores}
use win_back_ai.Rescore.Visits.{visits, IsStrict-visits, All-visits}
use mathlib.Core.Path.{subst}
use mathlib.Core.List.{append_assoc, append-nil, map-append}
use win_back_ai.Rescore.Pages.{IsHeldBy}
use win_back_ai.Rescore.Ends.{EndsAs, run_pages-ends}
use mathlib.Core.Option

-- The event of a customer, if its band changes.
abbrev pub change_of : Snapshot → ScoredCustomer → List StateChanged
change_of s c =
    if same_band c.state (resolve_member s c).new_state
    then []
    else event_of s.now c (resolve_member s c) ∷ []

-- The events of the customers whose band changes, in order.
unfoldable pub transitions_of : Snapshot → List ScoredCustomer → List StateChanged
transitions_of s [] = []
transitions_of s (c ∷ cs) = change_of s c ++ transitions_of s cs

-- The events that are written: none before the scoring is initialised.
abbrev pub announced : Bool → List StateChanged → List StateChanged
announced emit es = if emit then es else []

module _ (actor : ℕ) where
  -- The effect of a part of a pass that goes through the transitions `es`.
  abbrev pub IsAnnounced : Bool → List StateChanged → Pass → Pass → Type 0
  IsAnnounced emit es p q =
      (q.db.outbox ≡ p.db.outbox ++ announced emit es)
      × (q.db.audit ≡ p.db.audit ++ map (state_changed (by_sweep actor)) (announced emit es))
      × (q.transitions ≡ p.transitions + length es)
      × (q.emitted ≡ p.emitted + length (announced emit es))
      × (q.db.scoring_initialized_at ≡ p.db.scoring_initialized_at)

  IsAnnounced-join :
      (emit : Bool) (es fs : List StateChanged) (p q r : Pass)
      → IsAnnounced emit es p q
      → IsAnnounced emit fs q r
      → IsAnnounced emit (es ++ fs) p r
  IsAnnounced-join true es fs p q r h k = (
    k.0 ∙ ap (λ v. v ++ fs) h.0 ∙ append_assoc p.db.outbox es fs,
    k.1
        ∙ ap (λ v. v ++ map (state_changed (by_sweep actor)) fs) h.1
        ∙ append_assoc p.db.audit (map (state_changed (by_sweep actor)) es)
            (map (state_changed (by_sweep actor)) fs)
        ∙ ap (λ v. p.db.audit ++ v) (sym (map-append (state_changed (by_sweep actor)) es fs)),
    omega (arith, h.2, k.2, length-append es fs),
    omega (arith, h.3, k.3, length-append es fs),
    k.4 ∙ h.4,
  )
  IsAnnounced-join false es fs p q r h k = (
    k.0 ∙ append-nil q.db.outbox ∙ h.0,
    k.1 ∙ append-nil q.db.audit ∙ h.1,
    omega (arith, h.2, k.2, length-append es fs),
    omega (arith, h.3, k.3),
    k.4 ∙ h.4,
  )

  settle-IsAnnounced :
      (same emit : Bool) (e : StateChanged) (db' : ScoreDb) (p : Pass)
      → db'.outbox ≡ p.db.outbox
      → db'.audit ≡ p.db.audit
      → db'.scoring_initialized_at ≡ p.db.scoring_initialized_at
      → IsAnnounced emit (if same then [] else e ∷ []) p (settle actor same emit e db' p)
  unfolding settle announce
  settle-IsAnnounced true true e db' p h k l = (
    h ∙ sym (append-nil p.db.outbox),
    k ∙ sym (append-nil p.db.audit),
    omega arith,
    omega arith,
    l,
  )
  settle-IsAnnounced true false e db' p h k l = (
    h ∙ sym (append-nil p.db.outbox),
    k ∙ sym (append-nil p.db.audit),
    omega arith,
    omega arith,
    l,
  )
  settle-IsAnnounced false true e db' p h k l = (
    ap (λ v. v ++ e ∷ []) h,
    ap (λ v. v ++ state_changed (by_sweep actor) e ∷ []) k,
    omega arith,
    omega arith,
    l,
  )
  settle-IsAnnounced false false e db' p h k l = (
    h ∙ sym (append-nil p.db.outbox),
    k ∙ sym (append-nil p.db.audit),
    omega arith,
    omega arith,
    l,
  )

  settle-customers :
      (same emit : Bool) (e : StateChanged) (db' : ScoreDb) (p : Pass)
      → ((settle actor same emit e db' p).db.customers ≡ db'.customers)
        × ((settle actor same emit e db' p).db.scores ≡ db'.scores)
  unfolding settle announce
  settle-customers true emit e db' p = (refl, refl)
  settle-customers false true e db' p = (refl, refl)
  settle-customers false false e db' p = (refl, refl)

  pub decay_step-IsScoring : (emit : Bool) (s : Snapshot) → IsScoring s (decay_step actor emit s)
  unfolding decay_step
  decay_step-IsScoring emit s = record {
    writes_customers = λ c p. (settle-customers _ emit _ _ p).0;
    writes_scores = λ c p. (settle-customers _ emit _ _ p).1;
  }

  IsAnnounced-none : (emit : Bool) (p : Pass) → IsAnnounced emit [] p p
  IsAnnounced-none true p =
      (sym (append-nil p.db.outbox), sym (append-nil p.db.audit), omega arith, omega arith, refl)
  IsAnnounced-none false p =
      (sym (append-nil p.db.outbox), sym (append-nil p.db.audit), omega arith, omega arith, refl)

  run_rows-IsAnnounced :
      (emit : Bool) (s : Snapshot) (cs : List ScoredCustomer) (p : Pass)
      → IsAnnounced emit (transitions_of s cs) p (run_rows (decay_step actor emit s) cs p)
  unfolding run_rows transitions_of decay_step write_score
  run_rows-IsAnnounced emit s [] p = IsAnnounced-none emit p
  run_rows-IsAnnounced emit s (c ∷ cs) p =
      IsAnnounced-join emit (change_of s c) (transitions_of s cs) p (decay_step actor emit s c p)
        (run_rows (decay_step actor emit s) cs (decay_step actor emit s c p))
        (settle-IsAnnounced _ emit _ (write_score s.now c (resolve_member s c) p.db) p refl refl
          refl)
        (run_rows-IsAnnounced emit s cs (decay_step actor emit s c p))

-- Whether decayRescore announces.
abbrev pub is_initialized : ScoreDb → Bool
is_initialized db = not (is_none db.scoring_initialized_at)

-- The customers whose state decays, in the order of their ids.
abbrev pub working_set : ScoreDb → List ScoredCustomer
working_set db = rest customer_id in_working_set none db.customers

-- The customer's new state is in the working set too.
abbrev pub remains : Snapshot → ScoredCustomer → Bool
remains s c = decays (resolve_member s c).new_state

abbrev less_one : ℕ → ℕ
less_one zero = zero
less_one (suc n) = n

-- The customers that decayRescore comes to, with pages of `n`: the working set, but for each customer that follows
-- a full page whose last customer does not remain in the working set.
abbrev pub evaluated : ℕ → ℕ → ScoreDb → List ScoredCustomer
evaluated now n db =
    visits (less_one n) (remains (take_snapshot now db)) (less_one n) (working_set db)

length-working_set : (db : ScoreDb) → length (working_set db) ≤ length db.customers
unfolding rest
length-working_set db =
    subst (λ i. i ≤ length db.customers)
      (sym (length-sort_by customer_id (filter (λ c. in_working_set c && true) db.customers)))
      (length-filter (λ c. in_working_set c && true) db.customers)

-- The loop of decayRescore ends, and has done what one run over the customers that it comes to does.
decay_pages :
    (actor now n : ℕ) (db : ScoreDb)
    → 1 ≤ n
    → IsUnique customer_id db.customers
    → EndsAs
        (decay_rescore actor now n db)
        no_totals
        (decay_step actor (is_initialized db) (take_snapshot now db))
        (evaluated now n db)
        (begin db)
unfolding decay_rescore rest_from IsScoring-IsLocal
decay_pages actor now zero db h u = absurd (omega arith)
decay_pages actor now (suc n) db h u =
    run_pages-ends in_working_set n (decay_step actor (is_initialized db) (take_snapshot now db))
      (IsScoring-IsLocal (take_snapshot now db) _
        (decay_step-IsScoring actor (is_initialized db) (take_snapshot now db)))
      (enough_fuel db) none no_totals (begin db) 0 u refl (omega (arith, length-working_set db))

-- What decayRescore leaves behind, for the customer with the id `x`: the state and the score that the cohort at the
-- start gives it, if the pass comes to it, and else those that it had. The changes of band among the customers that
-- it comes to are announced in the outbox and in the log, in the order of the ids.
pub record IsDecayResult (actor now n x : ℕ) (db : ScoreDb) (r : Totals × Pass) : Type 0 where
  pub customer :
      find_by customer_id x r.1.db.customers
      ≡ or_else
          (Option.map
            (λ (c : ScoredCustomer). record c {
              state = (resolve_member (take_snapshot now db) c).new_state;
            })
            (find_by customer_id x (evaluated now n db)))
          (find_by customer_id x db.customers)
  pub score :
      find_by score_key x r.1.db.scores
      ≡ or_else
          (Option.map
            (λ (c : ScoredCustomer). record {
              customer_id = c.id;
              score = resolve_member (take_snapshot now db) c;
              computed_at = now;
            })
            (find_by customer_id x (evaluated now n db)))
          (find_by score_key x db.scores)
  pub announces :
      IsAnnounced actor
        (is_initialized db)
        (transitions_of (take_snapshot now db) (evaluated now n db))
        (begin db)
        r.1
  pub seen : r.0.customers_seen ≡ length (evaluated now n db)

-- On a table of customers with unique ids, and with pages of at least one, decayRescore comes to an end. It comes
-- to the customers of the working set in the order of their ids, but for each one that follows a full page whose last
-- customer does not remain in the working set. Those that it comes to then have the state and the score that
-- the cohort at the start gives them, and every other customer the state and the score it had. The changes of band of
-- those that it comes to are each in the outbox and in the log, with the caller's actor, when the scoring was
-- initialised, and otherwise none is.
pub decay_rescore_exact :
    (actor now n x : ℕ) (db : ScoreDb)
    → 1 ≤ n
    → IsUnique customer_id db.customers
    → (r : Totals × Pass) × (decay_rescore actor now n db ≡ some r)
      × IsDecayResult actor now n x db r
unfolding take_snapshot
decay_rescore_exact actor now n x db h u = go (decay_pages actor now n db h u)
  where
    s : Snapshot
    s = take_snapshot now db

    emit : Bool
    emit = is_initialized db

    scoring : IsScoring s (decay_step actor emit s)
    scoring = decay_step-IsScoring actor emit s

    strict : IsStrict customer_id (evaluated now n db)
    strict =
        IsStrict-visits (less_one n) (remains s) (less_one n) (working_set db)
          (IsStrict-rest customer_id in_working_set none db.customers u)

    held : IsHeldBy db.customers (evaluated now n db)
    held =
        All-visits (λ c. find_by customer_id c.id db.customers ≡ some c) (less_one n) (remains s)
          (less_one n) (working_set db) (All-rest customer_id in_working_set none db.customers u)

    go :
        EndsAs
          (decay_rescore actor now n db)
          no_totals
          (decay_step actor emit s)
          (evaluated now n db)
          (begin db)
        → (r : Totals × Pass) × (decay_rescore actor now n db ≡ some r)
          × IsDecayResult actor now n x db r
    go (k, e, c) = (
      (k, run_rows (decay_step actor emit s) (evaluated now n db) (begin db)),
      e,
      record {
        customer =
            run_rows-customers s (decay_step actor emit s) scoring x (evaluated now n db) (begin db)
              strict held;
        score =
            run_rows-scores s (decay_step actor emit s) scoring x (evaluated now n db) (begin db)
              strict;
        announces = run_rows-IsAnnounced actor emit s (evaluated now n db) (begin db);
        seen = omega (arith, c);
      },
    )
