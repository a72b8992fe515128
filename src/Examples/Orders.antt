-- ===== src/Examples/Orders.antt =====
-- A paid order with two line items, delivered twice, and the price 199.95.
use win_back_ai.Gid.{digits}
use win_back_ai.Orders.{
  OrderBody, OrderDb, LineItem, MoneySet, known, paid, OrderUpserted, paid_new, LineRow,
  OrderFields, order_fields, compute_qualifying_transition, resolve_customer_fk, lookup_id,
}
use win_back_ai.Orders.Writes.{
  upsert_from_webhook, new_order, upsert_lines, new_line, upsert_where, line_fields,
}
use win_back_ai.Orders.Redelivery.{redelivery_changes_nothing, repeated}
use win_back_ai.Money.{parse_money_to_cents, big_int, span_digits}
use win_back_ai.Money.Grammar.{IsMoney-exact, Fraction, IsMoney, suffix, amount}
use win_back_ai.Base.{
  find_by, ℕ, List, none, some, [], ◌∷◌, ◌≡◌, true, false, refl, ◌↔◌, ◌++◌, arith,
}
use win_back_ai.Orders.Lines.{HasUniqueIds, IsAbsent}
use win_back_ai.Customers.{find_first, update_where}

-- 199.95
abbrev price : List ℕ
price = b'1' ∷ b'9' ∷ b'9' ∷ b'.' ∷ b'9' ∷ b'5' ∷ []

IsMoney-exact_example : (parse_money_to_cents price ≡ some 19995) ↔ (
    (d : ℕ) × (ds : List ℕ) × (f : Fraction) × IsMoney d ds f
    × (price ≡ d ∷ ds ++ suffix f)
    × (19995 ≡ amount d ds f))
IsMoney-exact_example = IsMoney-exact price 19995

abbrev prices : MoneySet
prices = record { shop_amount = price; presentment_amount = price }

abbrev item : ℕ → LineItem
item n = record {
  id = digits n;
  product_id = some (digits 4);
  variant_id = none;
  title = "Tea";
  quantity = 2;
  price_set = prices;
}

abbrev body : OrderBody
body = record {
  id = digits 1001;
  name = none;
  test = false;
  financial_status = some (known paid);
  fulfillment_status = none;
  customer = none;
  currency = "USD";
  presentment_currency = none;
  subtotal_price_set = prices;
  total_price_set = prices;
  total_tax_set = none;
  total_discounts_set = none;
  created_at = 10;
  cancelled_at = none;
  processed_at = none;
  updated_at = 11;
  line_items = item 7 ∷ item 8 ∷ [];
}

abbrev empty : OrderDb
empty = record { customers = []; products = []; variants = []; orders = []; lines = [] }

abbrev stored : OrderFields
stored = record {
  order_number = none;
  is_test = false;
  financial_status = some paid;
  fulfillment_status = none;
  customer_id = none;
  currency = "USD";
  presentment_currency = none;
  subtotal_amount_cents = 19995;
  total_amount_cents = 19995;
  total_tax_cents = 0;
  total_discount_cents = 0;
  presentment_total_cents = none;
  placed_at = 10;
  cancelled_at = none;
  shopify_processed_at = none;
  shopify_updated_at = 11;
}

abbrev line : ℕ → LineRow
line n = new_line 5 n (record {
  product_id = none;
  product_variant_id = none;
  title = "Tea";
  quantity = 2;
  unit_price_cents = 19995;
  currency = "USD";
})

abbrev delivered : OrderDb
delivered = record empty { orders = new_order 5 1001 stored ∷ []; lines = line 7 ∷ line 8 ∷ [] }

abbrev reported : OrderUpserted
reported = record {
  order_id = 5;
  customer_id = none;
  is_new_order = true;
  qualifying_transition = paid_new;
  previous_financial_status = none;
}

first_delivery : upsert_from_webhook 5 1 body empty ≡ some (reported, delivered)
unfolding upsert_from_webhook upsert_lines upsert_where order_fields line_fields
    parse_money_to_cents find_first update_where compute_qualifying_transition resolve_customer_fk
    lookup_id big_int span_digits find_by
first_delivery = refl

redelivery_changes_nothing_example :
    (f : OrderFields) × (order_fields 1 body empty ≡ some f)
    × (upsert_from_webhook 6 1 body delivered ≡ some (repeated f reported, delivered))
unfolding HasUniqueIds IsAbsent
redelivery_changes_nothing_example =
    redelivery_changes_nothing 5 6 1 body empty delivered reported
      ((λ g e. ((λ h. absurd (grind (arith, e, h))), tt)), ((λ g e. tt), tt)) first_delivery
