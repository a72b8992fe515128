-- ===== src/Compliance/ShopRedact.antt =====
-- processShopRedact and chunkedDeleteTenant of gdpr-processor.ts. The loop over chunks has fuel for one chunk more
-- than the table has rows, which is enough for any positive batch size.
pub mod Chunks
pub mod Cleared
pub mod Erased
use win_back_ai.Customers.{CustomerRow, is_live}
use win_back_ai.Compliance.{
  AuditRow, GdprAction, GdprDb, MerchantRow, RedactTable, TenantRow, TenantTable, WebhookRow, Rows,
  append_audit, audit_row, change_rows, customer_rows, rows_of_table, same_id, without,
  merchant_settings, order_line_item, billing_subscription, order, campaign_target, message_event,
  message, ai_generation, customer_score, suppression, product_variant, product, campaign,
  outbox_event, idempotency_key, backfill_job, ai_spend_bucket, message_quota_bucket,
}
use win_back_ai.Base.{
  ℕ, Bool, List, Option, none, some, true, false, ◌∷◌, [], ◌&&◌, ◌||◌, ◌==◌, not, if◌then◌else◌,
  filter, take, length, map, zero, suc,
}
use win_back_ai.Gid.{digits}

abbrev pub default_shop_redact_batch_size : ℕ
default_shop_redact_batch_size = 1000

unfoldable pub is_listed {ℓ} : {A : Type ℓ} → (A → ℕ) → List A → ℕ → Bool
is_listed key [] k = false
is_listed key (a ∷ t) k = key a == k || is_listed key t k

-- `where: { merchantId, id: { in: … } }`
abbrev pub delete_listed {ℓ} : {A : Type ℓ} → (A → ℕ) → (A → Bool) → List A → List A → List A
delete_listed key mine ids t = filter (λ a. not (mine a && is_listed key ids (key a))) t

-- One table of processShopRedact, in chunks: `seen` are the rows that the findMany of a chunk finds, and `mine` those of
-- the merchant, which its deleteMany reaches.
module _ {ℓ} {A : Type ℓ} (key : A → ℕ) (mine seen : A → Bool) where
  -- What is left, or `none` where the loop has not ended by its test.
  unfoldable pub delete_chunks : ℕ → ℕ → List A → Option (List A)
  unfolding filter is_listed
  delete_chunks zero batch t = none
  delete_chunks (suc fuel) batch t =
      let ids = take batch (filter seen t) in
      let left = delete_listed key mine ids t in
      let more = delete_chunks fuel batch left in if length ids == batch then more else some left

abbrev pub tenant_id : TenantRow → ℕ
tenant_id r = r.id

abbrev pub customer_id_of : CustomerRow → ℕ
customer_id_of c = c.id

abbrev pub is_of_merchant : ℕ → TenantRow → Bool
is_of_merchant m r = r.merchant_id == m

abbrev pub is_customer_of : ℕ → CustomerRow → Bool
is_customer_of m c = c.merchant_id == m

abbrev and_then : {A B : Type 0} → Option A → (A → Option B) → Option B
and_then none f = none
and_then (some a) f = f a

-- The 1:1 tables, which take one transaction.
abbrev pub is_single : TenantTable → Bool
is_single merchant_settings = true
is_single billing_subscription = true
is_single t = false

-- The models of SOFT_DELETE_MODELS among the tables: the findMany of a chunk passes applySoftDeleteFilter.
abbrev pub hides_deleted : TenantTable → Bool
hides_deleted product = true
hides_deleted product_variant = true
hides_deleted t = false

abbrev pub is_seen : ℕ → TenantTable → TenantRow → Bool
is_seen m t r =
    if hides_deleted t then is_of_merchant m r && is_live r.deleted_at else is_of_merchant m r

abbrev pub is_seen_customer : ℕ → CustomerRow → Bool
is_seen_customer m c = is_customer_of m c && is_live c.deleted_at

abbrev pub purge : ℕ → ℕ → TenantTable → List TenantRow → Option (List TenantRow)
unfolding delete_chunks filter is_listed
purge batch m t rs =
    if is_single t
    then some (without (is_of_merchant m) rs)
    else delete_chunks tenant_id (is_of_merchant m) (is_seen m t) (suc (length rs)) batch rs

-- The row refers to a product that was there before and is not left.
abbrev pub lost_product : List TenantRow → List TenantRow → TenantRow → Bool
lost_product before left r = elim r.product_id [
  | none ↦ false
  | some p ↦ is_listed tenant_id before p && not (is_listed tenant_id left p)
]

-- ON DELETE CASCADE from a product to its variants, which are of the same merchant. The other tables that refer to
-- one of these are empty of the merchant's rows by then.
abbrev pub cascade_products : ℕ → TenantTable → List TenantRow → List TenantRow → Rows → Rows
cascade_products m product before left rows =
    change_rows product_variant (without (λ r. is_of_merchant m r && lost_product before left r))
      rows
cascade_products m t before left rows = rows

unfoldable pub chunked_delete_tenant : ℕ → ℕ → RedactTable → GdprDb → Option GdprDb
unfolding delete_chunks filter is_listed
chunked_delete_tenant batch m (rows_of_table t) db = and_then (purge batch m t (db.rows t)) (λ left.
    some (record db {
      rows = cascade_products m t (db.rows t) left (change_rows t (λ rs. left) db.rows);
    }))
chunked_delete_tenant batch m customer_rows db =
    and_then
      (delete_chunks customer_id_of (is_customer_of m) (is_seen_customer m)
        (suc (length db.customers)) batch db.customers)
      (λ left. some (record db { customers = left }))

abbrev pub shop_redact_tables_in_order : List RedactTable
shop_redact_tables_in_order =
    rows_of_table order_line_item
    ∷ rows_of_table order
    ∷ rows_of_table campaign_target
    ∷ rows_of_table message_event
    ∷ rows_of_table message
    ∷ rows_of_table ai_generation
    ∷ rows_of_table customer_score
    ∷ rows_of_table suppression
    ∷ rows_of_table product_variant
    ∷ rows_of_table product
    ∷ customer_rows
    ∷ rows_of_table campaign
    ∷ rows_of_table outbox_event
    ∷ rows_of_table idempotency_key
    ∷ rows_of_table backfill_job
    ∷ rows_of_table ai_spend_bucket
    ∷ rows_of_table message_quota_bucket
    ∷ rows_of_table merchant_settings
    ∷ rows_of_table billing_subscription
    ∷ []

unfoldable pub delete_tables : ℕ → ℕ → List RedactTable → GdprDb → Option GdprDb
unfolding chunked_delete_tenant
delete_tables batch m [] db = some db
delete_tables batch m (t ∷ ts) db =
    and_then (chunked_delete_tenant batch m t db) (λ db'. delete_tables batch m ts db')

-- ON DELETE SET NULL
abbrev pub forget : ℕ → Option ℕ → Option ℕ
forget m o = if same_id o m then none else o

abbrev pub forget_audit : ℕ → AuditRow → AuditRow
forget_audit m a = record a { merchant_id = forget m a.merchant_id }

abbrev pub forget_log : ℕ → WebhookRow → WebhookRow
forget_log m w = record w { merchant_id = forget m w.merchant_id }

-- The deletion of a merchant, with what its foreign keys delete and set to null.
unfoldable pub hard_delete : ℕ → GdprDb → GdprDb
unfolding filter
hard_delete m db = record db {
  merchants = filter (λ s. not (s.id == m)) db.merchants;
  customers = filter (λ c. not (is_customer_of m c)) db.customers;
  rows = λ t. without (is_of_merchant m) (db.rows t);
  audit = map (forget_audit m) db.audit;
  webhook_logs = map (forget_log m) db.webhook_logs;
}

unfoldable pub find_by_shop : ℕ → List MerchantRow → Option MerchantRow
find_by_shop shop [] = none
find_by_shop shop (s ∷ ss) = if s.shop == shop then some s else find_by_shop shop ss

abbrev tombstone : ℕ → AuditRow
tombstone shop = record {
  merchant_id = none;
  shop = shop;
  action = GdprAction.shop_redact_idempotent;
  target_id = none;
  customer_gid = none;
}

abbrev redact_merchant : ℕ → ℕ → Option MerchantRow → GdprDb → Option GdprDb
unfolding filter delete_tables hard_delete chunked_delete_tenant
redact_merchant batch shop none db = some (append_audit (tombstone shop) db)
redact_merchant batch shop (some s) db =
    and_then
      (delete_tables batch s.id shop_redact_tables_in_order
        (append_audit (audit_row s.id shop GdprAction.shop_redact (some (digits s.id)) none) db))
      (λ cleared. some (
        hard_delete s.id
          (record cleared { sessions = filter (λ x. not (x == shop)) cleared.sessions })))

-- `none` where a loop over chunks does not end.
unfoldable pub process_shop_redact : ℕ → ℕ → GdprDb → Option GdprDb
unfolding filter delete_tables hard_delete find_by_shop chunked_delete_tenant
process_shop_redact batch shop db = redact_merchant batch shop (find_by_shop shop db.merchants) db
