-- ===== src/Orders/Writes.antt =====
-- The writes of upsertFromWebhook: the order and its line items.
use win_back_ai.Gid.{wrap}
use win_back_ai.Money.{parse_money_to_cents}
use win_back_ai.Customers.{find_first, update_where}
use win_back_ai.Orders.{
  LineFields, LineItem, LineRow, OrderBody, OrderDb, OrderFields, OrderFinancialStatus, OrderRow,
  OrderUpserted, compute_qualifying_transition, lookup_id, order_fields, ◌>>=◌,
}
use win_back_ai.Base.{
  ℕ, Bool, List, Option, none, some, [], ◌∷◌, ◌++◌, ◌==◌, ◌&&◌, if◌then◌else◌, found, not,
}

-- `upsert` by a unique key, which the test stands for.
unfoldable pub upsert_where {ℓ} : {A : Type ℓ} → (A → Bool) → (A → A) → A → List A → List A
unfolding find_first update_where
upsert_where p f new t = if found (find_first p t) then update_where p f t else t ++ new ∷ []

abbrev pub is_order : ℕ → OrderRow → Bool
is_order g o = o.shopify_order_id == g

abbrev pub is_line : ℕ → ℕ → LineRow → Bool
is_line o g l = l.order_id == o && l.shopify_line_item_id == g

abbrev pub set_order : OrderFields → OrderRow → OrderRow
set_order f o = record o { fields = f }

abbrev pub set_line : LineFields → LineRow → LineRow
set_line f l = record l { fields = f }

abbrev pub new_order : ℕ → ℕ → OrderFields → OrderRow
new_order x g f = record { id = x; shopify_order_id = g; fields = f }

abbrev pub new_line : ℕ → ℕ → LineFields → LineRow
new_line o g f = record { order_id = o; shopify_line_item_id = g; fields = f }

abbrev pub upserted_id : ℕ → Option OrderRow → ℕ
upserted_id x none = x
upserted_id x (some o) = o.id

abbrev pub status_of : Option OrderRow → Option OrderFinancialStatus
status_of none = none
status_of (some o) = o.fields.financial_status

-- The values of a line item.
unfoldable pub line_fields : OrderBody → OrderDb → LineItem → Option LineFields
line_fields b db i = parse_money_to_cents i.price_set.shop_amount >>= λ price. some (record {
  product_id = lookup_id i.product_id db.products;
  product_variant_id = lookup_id i.variant_id db.variants;
  title = i.title;
  quantity = i.quantity;
  unit_price_cents = price;
  currency = b.currency;
})

-- The loop over the line items of order `o`.
unfoldable pub upsert_lines :
    ℕ → OrderBody → OrderDb → List LineItem → List LineRow → Option (List LineRow)
unfolding upsert_where
upsert_lines o b db [] t = some t
upsert_lines o b db (i ∷ is) t = wrap i.id >>= λ g. line_fields b db i >>= λ f.
    upsert_lines o b db is (upsert_where (is_line o g) (set_line f) (new_line o g f) t)

abbrev pub order_id_for : ℕ → ℕ → OrderDb → ℕ
order_id_for x g db = upserted_id x (find_first (is_order g) db.orders)

-- `x` is the id that a new order gets.
unfoldable pub upsert_from_webhook : ℕ → ℕ → OrderBody → OrderDb → Option (OrderUpserted × OrderDb)
unfolding upsert_lines upsert_where
upsert_from_webhook x m b db = wrap b.id >>= λ g. order_fields m b db >>= λ f.
    upsert_lines (order_id_for x g db) b db b.line_items db.lines >>= λ lines. some (
      record {
        order_id = order_id_for x g db;
        customer_id = f.customer_id;
        is_new_order = not (found (find_first (is_order g) db.orders));
        qualifying_transition =
            compute_qualifying_transition (status_of (find_first (is_order g) db.orders))
              f.financial_status;
        previous_financial_status = status_of (find_first (is_order g) db.orders);
      },
      record db {
        orders = upsert_where (is_order g) (set_order f) (new_order x g f) db.orders;
        lines = lines;
      },
    )
