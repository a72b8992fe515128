-- ===== src/Orders.antt =====
-- packages/db/src/repositories/order.repository.ts: the upsert of an order webhook, for one merchant in
-- scope. The validation error, on which the caller's transaction is rolled back, is `none`. The ids of
-- products and variants are unique, so the batched lookup finds what a lookup for each line item finds. The
-- other two queries of the file are left out here; hasQualifyingOrderSince is modelled with the gates. The
-- columns createdAt and updatedAt that the database keeps by itself are left out.
pub mod Writes
pub mod Settled
pub mod Lines
pub mod Redelivery
use Prim.Native.String.{String}
use win_back_ai.Gid.{IdText, wrap}
use win_back_ai.Money.{parse_money_to_cents}
use win_back_ai.Customers.{CustomerRow, find_by_shopify_id, find_first, update_where}
use win_back_ai.Base.{
  ℕ, Bool, List, Option, none, some, true, false, [], ◌∷◌, ◌++◌, ◌==◌, ◌&&◌, if◌then◌else◌, found,
  find_by,
}

pub data OrderFinancialStatus : Type 0 where
  pending authorized partially_paid paid partially_refunded refunded voided : OrderFinancialStatus

pub data OrderFulfillmentStatus : Type 0 where
  fulfilled partial unfulfilled restocked : OrderFulfillmentStatus

-- The text of a status: one of the known ones, or another.
pub data StatusText (A : Type 0) : Type 0 where
  known : A → StatusText A
  unknown : StatusText A

pub record MoneySet : Type 0 where
  pub shop_amount : List ℕ
  pub presentment_amount : List ℕ

pub record LineItem : Type 0 where
  pub id : IdText
  pub product_id : Option IdText
  pub variant_id : Option IdText
  pub title : String
  pub quantity : ℕ
  pub price_set : MoneySet

pub record OrderBody : Type 0 where
  pub id : IdText
  pub name : Option String
  pub test : Bool
  pub financial_status : Option (StatusText OrderFinancialStatus)
  pub fulfillment_status : Option (StatusText OrderFulfillmentStatus)
  pub customer : Option IdText
  pub currency : String
  pub presentment_currency : Option String
  pub subtotal_price_set : MoneySet
  pub total_price_set : MoneySet
  pub total_tax_set : Option MoneySet
  pub total_discounts_set : Option MoneySet
  pub created_at : ℕ
  pub cancelled_at : Option ℕ
  pub processed_at : Option ℕ
  pub updated_at : ℕ
  pub line_items : List LineItem

-- sharedFields
pub record OrderFields : Type 0 where
  pub order_number : Option String
  pub is_test : Bool
  pub financial_status : Option OrderFinancialStatus
  pub fulfillment_status : Option OrderFulfillmentStatus
  pub customer_id : Option ℕ
  pub currency : String
  pub presentment_currency : Option String
  pub subtotal_amount_cents : ℕ
  pub total_amount_cents : ℕ
  pub total_tax_cents : ℕ
  pub total_discount_cents : ℕ
  pub presentment_total_cents : Option ℕ
  pub placed_at : ℕ
  pub cancelled_at : Option ℕ
  pub shopify_processed_at : Option ℕ
  pub shopify_updated_at : ℕ

pub record OrderRow : Type 0 where
  pub id : ℕ
  pub shopify_order_id : ℕ
  pub fields : OrderFields

-- lineItemShared
pub record LineFields : Type 0 where
  pub product_id : Option ℕ
  pub product_variant_id : Option ℕ
  pub title : String
  pub quantity : ℕ
  pub unit_price_cents : ℕ
  pub currency : String

pub record LineRow : Type 0 where
  pub order_id : ℕ
  pub shopify_line_item_id : ℕ
  pub fields : LineFields

-- A product or a variant that is not deleted.
pub record CatalogRow : Type 0 where
  pub id : ℕ
  pub shopify_id : ℕ

pub record OrderDb : Type 0 where
  pub customers : List CustomerRow
  pub products : List CatalogRow
  pub variants : List CatalogRow
  pub orders : List OrderRow
  pub lines : List LineRow

pub data QualifyingTransition : Type 0 where
  paid_new paid_continued non_paid no_change : QualifyingTransition

pub record OrderUpserted : Type 0 where
  pub order_id : ℕ
  pub customer_id : Option ℕ
  pub is_new_order : Bool
  pub qualifying_transition : QualifyingTransition
  pub previous_financial_status : Option OrderFinancialStatus

infixl 5 ◌>>=◌
abbrev pub ◌>>=◌ : {A B : Type 0} → Option A → (A → Option B) → Option B
none >>= f = none
some a >>= f = f a

abbrev pub money_or_zero : Option MoneySet → Option ℕ
money_or_zero none = some 0
money_or_zero (some s) = parse_money_to_cents s.shop_amount

abbrev pub parse_financial_status :
    Option (StatusText OrderFinancialStatus) → Option (Option OrderFinancialStatus)
parse_financial_status none = some none
parse_financial_status (some (known s)) = some (some s)
parse_financial_status (some unknown) = none

abbrev pub parse_fulfillment_status :
    Option (StatusText OrderFulfillmentStatus) → Option OrderFulfillmentStatus
parse_fulfillment_status (some (known s)) = some s
parse_fulfillment_status s = none

abbrev pub is_paid : Option OrderFinancialStatus → Bool
is_paid (some paid) = true
is_paid s = false

unfoldable pub compute_qualifying_transition :
    Option OrderFinancialStatus → Option OrderFinancialStatus → QualifyingTransition
compute_qualifying_transition previous (some paid) = elim previous [
  | none ↦ paid_new
  | some s ↦ if is_paid (some s) then no_change else paid_continued
]
compute_qualifying_transition previous s = non_paid

abbrev pub customer_id_of : Option CustomerRow → Option ℕ
customer_id_of none = none
customer_id_of (some c) = some c.id

unfoldable pub resolve_customer_fk : ℕ → Option IdText → List CustomerRow → Option ℕ
unfolding find_first
resolve_customer_fk m none cs = none
resolve_customer_fk m (some i) cs = wrap i >>= λ n. customer_id_of (find_by_shopify_id m n cs)

abbrev catalog_key : CatalogRow → ℕ
catalog_key r = r.shopify_id

abbrev catalog_id : Option CatalogRow → Option ℕ
catalog_id none = none
catalog_id (some r) = some r.id

-- The local id of a product or variant, or null where it is not known.
unfoldable pub lookup_id : Option IdText → List CatalogRow → Option ℕ
lookup_id none t = none
lookup_id (some i) t = wrap i >>= λ n. catalog_id (find_by catalog_key n t)

abbrev presentment_total : OrderBody → Option (Option ℕ)
presentment_total b = elim b.presentment_currency [
  | none ↦ some none
  | some c ↦ parse_money_to_cents b.total_price_set.presentment_amount >>= λ n. some (some n)
]

-- Steps 3, 4 and 6: what is parsed and resolved of a body.
unfoldable pub order_fields : ℕ → OrderBody → OrderDb → Option OrderFields
order_fields m b db = do
  status ← parse_financial_status b.financial_status
  subtotal ← parse_money_to_cents b.subtotal_price_set.shop_amount
  total ← parse_money_to_cents b.total_price_set.shop_amount
  tax ← money_or_zero b.total_tax_set
  discount ← money_or_zero b.total_discounts_set
  presentment ← presentment_total b
  some (record {
    order_number = b.name;
    is_test = b.test;
    financial_status = status;
    fulfillment_status = parse_fulfillment_status b.fulfillment_status;
    customer_id = resolve_customer_fk m b.customer db.customers;
    currency = b.currency;
    presentment_currency = b.presentment_currency;
    subtotal_amount_cents = subtotal;
    total_amount_cents = total;
    total_tax_cents = tax;
    total_discount_cents = discount;
    presentment_total_cents = presentment;
    placed_at = b.created_at;
    cancelled_at = b.cancelled_at;
    shopify_processed_at = b.processed_at;
    shopify_updated_at = b.updated_at;
  })
