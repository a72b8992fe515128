-- ===== src/Rescore/Cohort.antt =====
-- readCohort: what a row of the cohort says of a customer's orders.
use mathlib.Core.Option
use win_back_ai.Base.{
  ℕ, Bool, List, Option, ◌∷◌, find_by, some, ◌+◌, [], none, false, ◌-◌, ◌≡◌, if◌then◌else◌, ◌/◌,
  ◌==◌, length, inl, inr, find_by-upsert_by, refl, arith, updated_or, filter, Bool-cases, sym,
  count_if, rows_of, find_by-map, found, has_key, rows_of-upsert_by, ◌∙◌, ap, has_key-find_by,
  count_if-map, has_key-map, filter-ext, true, not, leb, ◌*◌, ◌&&◌,
}
use Prim.Native.Nat.{max}
use win_back_ai.Store.{Order, FinancialStatus}
use win_back_ai.Rescore.{
  add_order, Group, counted_for, CohortRow, order_time, group_key, new_group, join_group,
  ms_per_day, cohort_key, group_orders, read_cohort, cohort_row,
}

abbrev pub is_some_of : ℕ → Option ℕ → Bool
is_some_of x none = false
is_some_of x (some y) = y == x

abbrev counts_for : ℕ → ℕ → Order → Bool
counts_for now x o = is_some_of x (counted_for now o)

-- The order is of the customer `x`, paid, not a test, and placed within 365 days before `now`.
unfoldable pub is_counted : ℕ → ℕ → Order → Bool
is_counted now x o =
    elim o.customer_id [ none ↦ false | some y ↦ y == x ]
    && (elim o.financial_status [ FinancialStatus.paid ↦ true | _ ↦ false ]
        && (not o.is_test && leb now (o.placed_at + 365 * 24 * 60 * 60 * 1000)))

counts_for_lem : (now x : ℕ) (o : Order) → counts_for now x o ≡ is_counted now x o
unfolding counted_for is_counted
counts_for_lem now x o = ground arith

unfoldable pub latest_time : List Order → ℕ
latest_time [] = 0
latest_time (o ∷ os) = max (order_time o) (latest_time os)

unfoldable pub total_cents : List Order → ℕ
total_cents [] = 0
total_cents (o ∷ os) = o.total_amount_cents + total_cents os

-- The row of a customer from the list of the orders that count for it.
abbrev pub row_of_orders : ℕ → ℕ → List Order → Option CohortRow
row_of_orders now x [] = none
row_of_orders now x (o ∷ os) = some record {
  customer_id = x;
  r_days = (now - latest_time (o ∷ os)) / ms_per_day;
  f_count = length (o ∷ os);
  m_cents = total_cents (o ∷ os);
}

unfoldable join_all : ℕ → List Order → Option Group → Option Group
join_all x [] g = g
join_all x (o ∷ os) none = join_all x os (some (new_group x o))
join_all x (o ∷ os) (some g) = join_all x os (some (join_group o g))

find_by-add_order :
    (x : ℕ) (c : Option ℕ) (o : Order) (gs : List Group)
    → find_by group_key x (add_order c o gs) ≡ (
        if is_some_of x c
        then join_all x (o ∷ []) (find_by group_key x gs)
        else find_by group_key x gs)
unfolding add_order join_all
find_by-add_order x none o gs = refl
find_by-add_order x (some y) o gs =
    rw (find_by-upsert_by group_key y x (join_group o) (new_group y o) gs (λ g e. e) refl)
      (go (find_by group_key x gs))
  where
    go :
        (g : Option Group)
        → (if y == x then some (updated_or (join_group o) (new_group y o) g) else g)
          ≡ (if y == x then join_all x (o ∷ []) g else g)
    go none = ground arith
    go (some g) = refl

join_all-cons :
    (x : ℕ) (o : Order) (os : List Order) (g : Option Group)
    → join_all x (o ∷ os) g ≡ join_all x os (join_all x (o ∷ []) g)
unfolding join_all
join_all-cons x o os none = refl
join_all-cons x o os (some g) = refl

find_by-group_orders :
    (x now : ℕ) (os : List Order) (gs : List Group)
    → find_by group_key x (group_orders now os gs)
      ≡ join_all x (filter (counts_for now x) os) (find_by group_key x gs)
unfolding group_orders join_all filter
find_by-group_orders x now [] gs = refl
find_by-group_orders x now (o ∷ os) gs =
    rw
      (
        find_by-group_orders x now os (add_order (counted_for now o) o gs),
        find_by-add_order x (counted_for now o) o gs,
      )
      (elim (Bool-cases (counts_for now x o)) [
        | inl e ↦
            rw e (sym (join_all-cons x o (filter (counts_for now x) os) (find_by group_key x gs)))
        | inr e ↦ rw e refl
      ])

join_all-some :
    (x : ℕ) (os : List Order) (g : Group)
    → join_all x os (some g)
      ≡ some record {
        customer_id = g.customer_id;
        latest = max g.latest (latest_time os);
        count = g.count + length os;
        cents = g.cents + total_cents os;
      }
unfolding join_all latest_time total_cents
join_all-some x [] g = ground arith
join_all-some x (o ∷ os) g = ground (arith, join_all-some x os (join_group o g))

find_by-read_cohort :
    (now x : ℕ) (os : List Order)
    → find_by cohort_key x (read_cohort now os) ≡ row_of_orders now x (filter (counts_for now x) os)
unfolding read_cohort find_by join_all latest_time total_cents
find_by-read_cohort now x os =
    rw
      (
        find_by-map group_key cohort_key (cohort_row now) x (group_orders now os []) (λ g. refl),
        find_by-group_orders x now os [],
      )
      (go (filter (counts_for now x) os))
  where
    go :
        (ps : List Order)
        → Option.map (cohort_row now) (join_all x ps none) ≡ row_of_orders now x ps
    go [] = refl
    go (o ∷ ps) = rw (join_all-some x ps (new_group x o)) (ground arith)

rows_of-group_orders :
    (x now : ℕ) (os : List Order) (gs : List Group)
    → rows_of group_key x gs ≡ (if has_key group_key x gs then 1 else 0)
    → rows_of group_key x (group_orders now os gs)
      ≡ (if has_key group_key x (group_orders now os gs) then 1 else 0)
unfolding group_orders add_order
rows_of-group_orders x now [] gs h = h
rows_of-group_orders x now (o ∷ os) gs h =
    rows_of-group_orders x now os (add_order (counted_for now o) o gs) (go (counted_for now o))
  where
    go :
        (c : Option ℕ)
        → rows_of group_key x (add_order c o gs)
          ≡ (if has_key group_key x (add_order c o gs) then 1 else 0)
    go none = h
    go (some y) =
        rows_of-upsert_by group_key y x (join_group o) (new_group y o) gs (λ g e. e) refl h

rows_of-read_cohort :
    (now x : ℕ) (os : List Order)
    → rows_of cohort_key x (read_cohort now os)
      ≡ (if has_key cohort_key x (read_cohort now os) then 1 else 0)
unfolding read_cohort count_if has_key
rows_of-read_cohort now x os =
    rw
      (
        count_if-map (cohort_row now) (λ r. r.customer_id == x) (group_orders now os []),
        has_key-map group_key cohort_key (cohort_row now) x (group_orders now os []) (λ g. refl),
      )
      (rows_of-group_orders x now os [] refl)

-- The cohort has exactly one row for each customer with an order that is paid, not a test and
-- placed within 365 days before `now`, and no row for another customer. The row counts those orders, sums
-- their amounts and has the whole days since the latest of their times.
pub cohort_exact :
    (now x : ℕ) (os : List Order)
    → (find_by cohort_key x (read_cohort now os)
        ≡ row_of_orders now x (filter (is_counted now x) os))
      × (rows_of cohort_key x (read_cohort now os)
          ≡ (if found (row_of_orders now x (filter (is_counted now x) os)) then 1 else 0))
cohort_exact now x os = (
  row,
  rows_of-read_cohort now x os
      ∙ ap (λ b. if b then 1 else 0)
          (has_key-find_by cohort_key x (read_cohort now os) ∙ ap found row),
)
  where
    row :
        find_by cohort_key x (read_cohort now os)
        ≡ row_of_orders now x (filter (is_counted now x) os)
    row =
        find_by-read_cohort now x os
        ∙ ap (row_of_orders now x)
            (filter-ext (counts_for now x) (is_counted now x) os (counts_for_lem now x))
