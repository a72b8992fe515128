-- ===== src/Orders/Redelivery.antt =====
-- A webhook that is delivered again: upsertFromWebhook writes the same rows and reports no new order.
use win_back_ai.Gid.{wrap}
use win_back_ai.Customers.{find_first}
use win_back_ai.Orders.{
  LineItem, LineRow, OrderBody, OrderDb, OrderFields, OrderRow, OrderUpserted,
  compute_qualifying_transition, order_fields, is_paid, OrderFinancialStatus, no_change, non_paid,
  pending, authorized, partially_paid, paid, partially_refunded, refunded, voided,
}
use win_back_ai.Orders.Writes.{
  is_order, set_order, new_order, line_fields, upsert_lines, upsert_where, order_id_for,
  upsert_from_webhook, upserted_id, status_of,
}
use win_back_ai.Orders.Lines.{
  HasUniqueIds, lines_settled, lines-AreSettled, bind_some, some_injective,
}
use win_back_ai.Orders.Settled.{IsWrite, find_first-upsert_where, upsert-IsSettled, upsert_settled}
use win_back_ai.Base.{
  ℕ, List, Option, none, some, false, ◌≡◌, refl, sym, ap, ◌∙◌, if◌then◌else◌, arith, not, or_else,
  found, mapped,
}

order-IsWrite : (x g : ℕ) (f : OrderFields) → IsWrite (is_order g) (set_order f) (new_order x g f)
order-IsWrite x g f = record {
  keeps = λ a. refl;
  repeats = λ a. refl;
  on_new = refl;
  picks_new = ground arith;
}

abbrev after : ℕ → ℕ → OrderFields → List LineRow → OrderDb → OrderDb
after x g f lines db = record db {
  orders = upsert_where (is_order g) (set_order f) (new_order x g f) db.orders;
  lines = lines;
}

abbrev result_of : ℕ → OrderFields → Option OrderRow → OrderUpserted
result_of x f o = record {
  order_id = upserted_id x o;
  customer_id = f.customer_id;
  is_new_order = not (found o);
  qualifying_transition = compute_qualifying_transition (status_of o) f.financial_status;
  previous_financial_status = status_of o;
}

abbrev result : ℕ → ℕ → OrderFields → OrderDb → OrderUpserted
result x g f db = result_of x f (find_first (is_order g) db.orders)

-- The steps of an upsert that succeeds.
upsert_steps :
    (x m : ℕ) (b : OrderBody) (db : OrderDb) (v : OrderUpserted × OrderDb)
    → upsert_from_webhook x m b db ≡ some v
    → (g : ℕ) × (f : OrderFields) × (lines : List LineRow) × (wrap b.id ≡ some g)
      × (order_fields m b db ≡ some f)
      × (upsert_lines (order_id_for x g db) b db b.line_items db.lines ≡ some lines)
      × (v ≡ (result x g f db, after x g f lines db))
unfolding upsert_from_webhook
upsert_steps x m b db v e =
    let (g, h, e1) = bind_some (wrap b.id) _ v e in
    let (f, k, e2) = bind_some (order_fields m b db) _ v e1 in
    let (lines, l, e3) =
      bind_some (upsert_lines (order_id_for x g db) b db b.line_items db.lines) _ v e2 in
    (g, f, lines, h, k, l, sym (some_injective e3))

upsert_succeeds :
    (x m : ℕ) (b : OrderBody) (db : OrderDb) (g : ℕ) (f : OrderFields) (lines : List LineRow)
    → wrap b.id ≡ some g
    → order_fields m b db ≡ some f
    → upsert_lines (order_id_for x g db) b db b.line_items db.lines ≡ some lines
    → upsert_from_webhook x m b db ≡ some (result x g f db, after x g f lines db)
unfolding upsert_from_webhook
upsert_succeeds x m b db g f lines h k l = rw (h, k, l) refl

stored_order :
    (x g : ℕ) (f : OrderFields) (s : Option OrderRow)
    → (o : OrderRow) × (or_else (mapped (set_order f) s) (some (new_order x g f)) ≡ some o)
      × (o.id ≡ upserted_id x s)
      × (o.fields ≡ f)
stored_order x g f none = (new_order x g f, refl, refl, refl)
stored_order x g f (some o) = (set_order f o, refl, refl, refl)

-- The order that is found after an upsert.
found_after :
    (x g : ℕ) (f : OrderFields) (lines : List LineRow) (db : OrderDb)
    → (o : OrderRow) × (find_first (is_order g) (after x g f lines db).orders ≡ some o)
      × (o.id ≡ order_id_for x g db)
      × (o.fields ≡ f)
found_after x g f lines db =
    let (o, e, i, h) = stored_order x g f (find_first (is_order g) db.orders) in
    (o, find_first-upsert_where (order-IsWrite x g f) db.orders ∙ e, i, h)

-- What a second delivery reports: the same order, no new one, and a payment only as before.
abbrev pub repeated : OrderFields → OrderUpserted → OrderUpserted
repeated f r = record r {
  is_new_order = false;
  qualifying_transition = if is_paid f.financial_status then no_change else non_paid;
  previous_financial_status = f.financial_status;
}

same_status :
    (s : Option OrderFinancialStatus)
    → compute_qualifying_transition s s ≡ (if is_paid s then no_change else non_paid)
unfolding compute_qualifying_transition
same_status none = refl
same_status (some pending) = refl
same_status (some authorized) = refl
same_status (some partially_paid) = refl
same_status (some paid) = refl
same_status (some partially_refunded) = refl
same_status (some refunded) = refl
same_status (some voided) = refl

reported :
    (y : ℕ) (f : OrderFields) (m : Option OrderRow) (o : OrderRow)
    → m ≡ some o
    → result_of y f m ≡ record {
      order_id = o.id;
      customer_id = f.customer_id;
      is_new_order = false;
      qualifying_transition =
          compute_qualifying_transition o.fields.financial_status f.financial_status;
      previous_financial_status = o.fields.financial_status;
    }
reported y f m o e = ap (result_of y f) e

result_again :
    (x y g : ℕ) (f : OrderFields) (lines : List LineRow) (db : OrderDb)
    → result y g f (after x g f lines db) ≡ repeated f (result x g f db)
result_again x y g f lines db =
    let (o, e, i, h) = found_after x g f lines db in
    reported y f (find_first (is_order g) (after x g f lines db).orders) o e
    ∙ rw (i, h, same_status f.financial_status) refl

after_again :
    (x y g : ℕ) (f : OrderFields) (lines : List LineRow) (db : OrderDb)
    → after y g f lines (after x g f lines db) ≡ after x g f lines db
after_again x y g f lines db =
    ap (λ orders. record db { orders = orders; lines = lines })
      (upsert_settled (order-IsWrite y g f) _ (upsert-IsSettled (order-IsWrite x g f) db.orders))

same_line_fields :
    (b : OrderBody) (db : OrderDb) (orders : List OrderRow) (lines : List LineRow) (i : LineItem)
    → line_fields b (record db { orders = orders; lines = lines }) i ≡ line_fields b db i
unfolding line_fields
same_line_fields b db orders lines i = refl

same_order_fields :
    (m : ℕ) (b : OrderBody) (db : OrderDb) (orders : List OrderRow) (lines : List LineRow)
    → order_fields m b (record db { orders = orders; lines = lines }) ≡ order_fields m b db
unfolding order_fields
same_order_fields m b db orders lines = refl

order_id_again :
    (x y g : ℕ) (f : OrderFields) (lines : List LineRow) (db : OrderDb)
    → order_id_for y g (after x g f lines db) ≡ order_id_for x g db
order_id_again x y g f lines db =
    let (o, e, i, h) = found_after x g f lines db in ap (upserted_id y) e ∙ i

lines_again :
    (x y g : ℕ) (b : OrderBody) (f : OrderFields) (db : OrderDb) (lines : List LineRow)
    → HasUniqueIds b.line_items
    → upsert_lines (order_id_for x g db) b db b.line_items db.lines ≡ some lines
    → upsert_lines
        (order_id_for y g (after x g f lines db))
        b
        (after x g f lines db)
        b.line_items
        lines
      ≡ some lines
lines_again x y g b f db lines u l =
    ap (λ o. upsert_lines o b (after x g f lines db) b.line_items lines)
      (order_id_again x y g f lines db)
    ∙ lines_settled (order_id_for x g db) b db (after x g f lines db)
        (same_line_fields b db _ lines) b.line_items lines
        (lines-AreSettled (order_id_for x g db) b db b.line_items db.lines lines u l)

-- Where the ids of the line items are different and the upsert of a webhook succeeds, an upsert of the same
-- webhook on the database that it leaves succeeds too and leaves the database as it is: it reports the same
-- order and customer, no new order, the financial status of the webhook as the previous one, and the
-- transition no_change for a paid order and non_paid for another.
pub redelivery_changes_nothing :
    (x y m : ℕ) (b : OrderBody) (db db' : OrderDb) (r : OrderUpserted)
    → HasUniqueIds b.line_items
    → upsert_from_webhook x m b db ≡ some (r, db')
    → (f : OrderFields) × (order_fields m b db ≡ some f)
      × (upsert_from_webhook y m b db' ≡ some (repeated f r, db'))
redelivery_changes_nothing x y m b db db' r u e =
    let (g, f, lines, h, k, l, v) = upsert_steps x m b db (r, db') e in
    (
      f,
      k,
      rw (ap (λ q. q.0) v, ap (λ q. q.1) v)
          (upsert_succeeds y m b (after x g f lines db) g f lines h
              (same_order_fields m b db _ lines ∙ k) (lines_again x y g b f db lines u l)
            ∙ ap (λ q. some (q, after y g f lines (after x g f lines db)))
                (result_again x y g f lines db)
            ∙ ap (λ d. some (repeated f (result x g f db), d)) (after_again x y g f lines db)),
    )

-- After an upsert that succeeds, the order of the webhook is stored under the id that is reported, and all
-- its values are those of the webhook, whatever order was stored before and whatever the webhook's time of
-- update is.
last_delivery_wins :
    (x m : ℕ) (b : OrderBody) (db db' : OrderDb) (r : OrderUpserted)
    → upsert_from_webhook x m b db ≡ some (r, db')
    → (g : ℕ) × (o : OrderRow) × (wrap b.id ≡ some g)
      × (find_first (is_order g) db'.orders ≡ some o)
      × (o.id ≡ r.order_id)
      × (order_fields m b db ≡ some o.fields)
last_delivery_wins x m b db db' r e =
    let (g, f, lines, h, k, l, v) = upsert_steps x m b db (r, db') e in
    let (o, s, i, w) = found_after x g f lines db in
    rw (ap (λ q. q.0) v, ap (λ q. q.1) v) (g, o, h, s, i, k ∙ ap some (sym w))
