-- ===== src/Compliance.antt =====
-- packages/db/src/compliance/gdpr-processor.ts with append of audit-log.repository.ts, findByShop and
-- hardDelete of merchant.repository.ts, and the foreign keys of prisma/schema.prisma. Tables hold the rows of
-- all merchants. Left out are the columns that only copy the payload, and crashes between two
-- transactions of processShopRedact.
pub mod ShopRedact
pub mod Traces
pub mod Person
pub mod CustomerRedact
pub mod Deleted
use win_back_ai.Gid.{IdText, digits, other_text}
use win_back_ai.Customers.{
  CustomerRow, CustomerGid, redacted, find_first, update_where, find_by_shopify_id, is_live,
}
use win_back_ai.Base.{
  ℕ, Bool, List, Option, none, some, true, false, ◌∷◌, [], ◌++◌, ◌&&◌, ◌||◌, ◌==◌, ◌+◌, not,
  if◌then◌else◌, or_else, found, filter, take, length, map, zero, suc,
}

-- SHOP_REDACT_TABLES_IN_ORDER; the customers stand apart, since they have columns of their own.
pub data TenantTable : Type 0 where
  order_line_item order campaign_target message_event message ai_generation customer_score
        suppression product_variant product campaign outbox_event idempotency_key backfill_job
        ai_spend_bucket message_quota_bucket merchant_settings billing_subscription :
      TenantTable

pub data RedactTable : Type 0 where
  rows_of_table : TenantTable → RedactTable
  customer_rows : RedactTable

-- A row of a tenant table, with its key (`key` for idempotencyKey, else `id`), the customer, the message and the
-- product that it refers to, and the time of its soft deletion, if the table has these columns.
pub record TenantRow : Type 0 where
  pub id : ℕ
  pub merchant_id : ℕ
  pub customer_id : Option ℕ
  pub message_id : Option ℕ
  pub product_id : Option ℕ
  pub deleted_at : Option ℕ

pub data GdprAction : Type 0 where
  customer_data_request customer_redact_malformed customer_redact_no_local_record customer_redact
        shop_redact shop_redact_idempotent :
      GdprAction

pub record AuditRow : Type 0 where
  pub merchant_id : Option ℕ
  pub shop : ℕ
  pub action : GdprAction
  pub target_id : Option IdText
  pub customer_gid : Option ℕ

pub record MerchantRow : Type 0 where
  pub id : ℕ
  pub shop : ℕ

pub record WebhookRow : Type 0 where
  pub merchant_id : Option ℕ
  pub shop : ℕ

pub record GdprDb : Type 0 where
  pub merchants : List MerchantRow
  pub sessions : List ℕ
  pub customers : List CustomerRow
  pub rows : TenantTable → List TenantRow
  pub audit : List AuditRow
  pub webhook_logs : List WebhookRow

abbrev pub append_audit : AuditRow → GdprDb → GdprDb
append_audit a db = record db { audit = db.audit ++ a ∷ [] }

-- The audit row of a merchant.
abbrev pub audit_row : ℕ → ℕ → GdprAction → Option IdText → Option ℕ → AuditRow
audit_row m shop action target g = record {
  merchant_id = some m;
  shop = shop;
  action = action;
  target_id = target;
  customer_gid = g;
}

unfoldable pub process_customer_data_request : ℕ → ℕ → Option IdText → GdprDb → GdprDb
process_customer_data_request m shop i db =
    append_audit (audit_row m shop GdprAction.customer_data_request i none) db

abbrev pub same_id : Option ℕ → ℕ → Bool
same_id none x = false
same_id (some y) x = y == x

-- `where: { merchantId, customerId }`
abbrev pub is_of_customer : ℕ → ℕ → TenantRow → Bool
is_of_customer m x r = r.merchant_id == m && same_id r.customer_id x

-- The row refers to a message of the list.
unfoldable pub has_message_in : List TenantRow → TenantRow → Bool
has_message_in [] r = false
has_message_in (g ∷ gs) r = same_id r.message_id g.id || has_message_in gs r

abbrev pub table_code : TenantTable → ℕ
table_code order_line_item = 0
table_code order = 1
table_code campaign_target = 2
table_code message_event = 3
table_code message = 4
table_code ai_generation = 5
table_code customer_score = 6
table_code suppression = 7
table_code product_variant = 8
table_code product = 9
table_code campaign = 10
table_code outbox_event = 11
table_code idempotency_key = 12
table_code backfill_job = 13
table_code ai_spend_bucket = 14
table_code message_quota_bucket = 15
table_code merchant_settings = 16
table_code billing_subscription = 17

abbrev pub Rows : Type 0
Rows = TenantTable → List TenantRow

-- One table is changed.
abbrev pub change_rows : TenantTable → (List TenantRow → List TenantRow) → Rows → Rows
change_rows t f rows u = if table_code u == table_code t then f (rows u) else rows u

abbrev pub without : (TenantRow → Bool) → List TenantRow → List TenantRow
without p rs = filter (λ r. not (p r)) rs

-- What the deletion of messages deletes by its foreign keys. The other cascades between these tables only reach
-- rows of the same customer.
abbrev cascade : TenantTable → List TenantRow → Rows → Rows
unfolding filter has_message_in
cascade message gone rows =
    change_rows message_event (without (has_message_in gone))
      (change_rows campaign_target (without (has_message_in gone)) rows)
cascade t gone rows = rows

unfoldable pub delete_many : TenantTable → (TenantRow → Bool) → Rows → Rows
unfolding filter has_message_in
delete_many t p rows = cascade t (filter p (rows t)) (change_rows t (without p) rows)

abbrev pub customer_redact_child_tables : List TenantTable
customer_redact_child_tables =
    campaign_target ∷ message ∷ ai_generation ∷ customer_score ∷ suppression ∷ []

unfoldable pub delete_children : List TenantTable → (TenantRow → Bool) → Rows → Rows
unfolding delete_many
delete_children [] p rows = rows
delete_children (t ∷ ts) p rows = delete_children ts p (delete_many t p rows)

abbrev pub unlink : (TenantRow → Bool) → TenantRow → TenantRow
unlink p r = if p r then record r { customer_id = none } else r

-- The update of the customer; a deletion that stands already keeps its time.
abbrev pub scrub : ℕ → CustomerRow → CustomerRow
scrub now c = record c {
  email = none;
  phone = none;
  first_name = none;
  last_name = none;
  shopify_customer_id = redacted c.id;
  deleted_at = if is_live c.deleted_at then some now else c.deleted_at;
}

abbrev redact_found : ℕ → ℕ → ℕ → ℕ → Option CustomerRow → GdprDb → GdprDb
unfolding update_where delete_children delete_many
redact_found now m shop n none db =
    append_audit
      (audit_row m shop GdprAction.customer_redact_no_local_record (some (digits n)) (some n)) db
redact_found now m shop n (some c) db =
    append_audit (audit_row m shop GdprAction.customer_redact (some (digits c.id)) (some n))
      (record db {
        customers = update_where (λ d. d.id == c.id) (scrub now) db.customers;
        rows =
            delete_children customer_redact_child_tables (is_of_customer m c.id)
              (change_rows order (map (unlink (is_of_customer m c.id))) db.rows);
      })

unfoldable pub process_customer_redact : ℕ → ℕ → ℕ → Option IdText → GdprDb → GdprDb
unfolding find_first update_where delete_children delete_many
process_customer_redact now m shop (some (digits n)) db =
    redact_found now m shop n (find_by_shopify_id m n db.customers) db
process_customer_redact now m shop i db =
    append_audit (audit_row m shop GdprAction.customer_redact_malformed i none) db
