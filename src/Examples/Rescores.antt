-- ===== src/Examples/Rescores.antt =====
-- A merchant with six customers, five of them with orders, for the passes that score customers.
use win_back_ai.Rescore.{
  ScoredCustomer, ScoreDb, customer_id, cohort_key, read_cohort, score_key, take_snapshot,
  resolve_member, group_orders, add_order, counted_for,
}
use win_back_ai.Scoring.{resolve_lurker, lurker_r_days, state_from_recency}
use win_back_ai.Store.{Band, Order, FinancialStatus}
use win_back_ai.Base.{
  ℕ, count_if, find_by, none, some, ◌*◌, IsUnique, false, ◌-◌, ◌∷◌, ◌≡◌, [], arith, filter, rows_of,
  if◌then◌else◌, found, refl, rest, sort_by, insert_by, ◌++◌, has_key, update_by,
}
use win_back_ai.Rescore.Passes.{Totals, decay_rescore, recompute, Pass, bulk_rescore}
use win_back_ai.Rescore.Decay.{IsDecayResult, decay_rescore_exact, working_set, remains}
use win_back_ai.Rescore.Skipped.{next_is_skipped}
use win_back_ai.Rescore.Bulk.{IsBulkResult, bulk_rescore_exact}
use win_back_ai.Rescore.Cohort.{row_of_orders, is_counted, cohort_exact}
use win_back_ai.Rescore.Single.{IsRecomputed, answer_for, recompute_exact}

abbrev day : ℕ
day = 86400000

abbrev today : ℕ
today = 1000 * 86400000

abbrev customer : ℕ → Band → ScoredCustomer
customer x b = record {
  id = x;
  state = b;
  shopify_created_at = none;
  created_at = today - 20 * day;
}

abbrev order : ℕ → ℕ → ℕ → Order
order x days cents = record {
  customer_id = some x;
  is_test = false;
  financial_status = FinancialStatus.paid;
  shopify_processed_at = none;
  placed_at = today - days * day;
  total_amount_cents = cents;
}

abbrev shop : ScoreDb
shop = record {
  scoring_initialized_at = some 5;
  customers =
      customer 3 Band.active
      ∷ customer 1 Band.active
      ∷ customer 2 Band.lost
      ∷ customer 6 Band.active
      ∷ customer 5 Band.warm
      ∷ customer 4 Band.active
      ∷ [];
  orders =
      order 1 3 900
      ∷ order 2 40 100
      ∷ order 3 70 200
      ∷ order 4 150 50
      ∷ order 5 300 20
      ∷ order 1 9 400
      ∷ [];
  scores = [];
  audit = [];
  outbox = [];
}

shop-IsUnique : IsUnique customer_id shop.customers
unfolding count_if
shop-IsUnique x = ground arith

cohort_exact_example :
    (find_by cohort_key 1 (read_cohort today shop.orders)
      ≡ row_of_orders today 1 (filter (is_counted today 1) shop.orders))
    × (rows_of cohort_key 1 (read_cohort today shop.orders) ≡ (
        if found (row_of_orders today 1 (filter (is_counted today 1) shop.orders)) then 1 else 0))
cohort_exact_example = cohort_exact today 1 shop.orders

bulk_rescore_exact_example :
    (r : Totals × Pass) × (bulk_rescore today 2 shop ≡ some r) × IsBulkResult today 4 shop r
bulk_rescore_exact_example = bulk_rescore_exact today 2 4 shop (omega arith) shop-IsUnique

decay_rescore_exact_example :
    (r : Totals × Pass) × (decay_rescore 7 today 2 shop ≡ some r) × IsDecayResult 7 today 2 4 shop r
decay_rescore_exact_example = decay_rescore_exact 7 today 2 4 shop (omega arith) shop-IsUnique

-- A customer without an order, who came 400 days ago.
abbrev quiet : ScoredCustomer
quiet = record (customer 5 Band.warm) { created_at = today - 400 * day }

abbrev quiet_shop : ScoreDb
quiet_shop = record shop {
  customers =
      customer 3 Band.active
      ∷ customer 1 Band.active
      ∷ customer 2 Band.lost
      ∷ customer 6 Band.active
      ∷ quiet
      ∷ customer 4 Band.active
      ∷ [];
  orders = order 1 3 900 ∷ order 2 40 100 ∷ order 3 70 200 ∷ order 4 150 50 ∷ order 6 300 20 ∷ [];
}

quiet_shop-IsUnique : IsUnique customer_id quiet_shop.customers
unfolding count_if
quiet_shop-IsUnique x = ground arith

-- The customers 1, 3, 4 and 5 are a full page, and the band of customer 5 becomes `lost`.
decays_first :
    working_set quiet_shop
    ≡ (customer 1 Band.active ∷ customer 3 Band.active ∷ customer 4 Band.active ∷ [])
      ++ quiet ∷ customer 6 Band.active ∷ []
unfolding rest sort_by insert_by filter
decays_first = refl

fifth_leaves : remains (take_snapshot today quiet_shop) quiet ≡ false
unfolding resolve_member take_snapshot find_by read_cohort group_orders add_order counted_for
    has_key update_by resolve_lurker lurker_r_days state_from_recency
fifth_leaves = refl

next_is_skipped_example :
    (r : Totals × Pass) × (decay_rescore 7 today 4 quiet_shop ≡ some r)
    × (find_by customer_id 6 r.1.db.customers ≡ some (customer 6 Band.active))
    × (find_by score_key 6 r.1.db.scores ≡ none)
unfolding find_by
next_is_skipped_example =
    next_is_skipped 7 today quiet_shop
      (customer 1 Band.active ∷ customer 3 Band.active ∷ customer 4 Band.active ∷ []) quiet
      (customer 6 Band.active) [] quiet_shop-IsUnique decays_first fifth_leaves

recompute_exact_example :
    (db' : ScoreDb) × (recompute today 4 shop
      ≡ some (db', answer_for today shop (customer 4 Band.active)))
    × IsRecomputed today (customer 4 Band.active) shop db'
unfolding find_by
recompute_exact_example = recompute_exact today 4 shop (customer 4 Band.active) found_4
  where
    found_4 : find_by customer_id 4 shop.customers ≡ some (customer 4 Band.active)
    found_4 = refl
