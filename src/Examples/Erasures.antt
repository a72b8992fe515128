-- ===== src/Examples/Erasures.antt =====
-- Two merchants of two shops, with a customer each, who is the same person.
use win_back_ai.Gid.{digits}
use win_back_ai.Store.{ConsentState}
use win_back_ai.Customers.{soft_delete, CustomerRow, gid, find_first, is_customer}
use win_back_ai.Compliance.{
  GdprAction, GdprDb, TenantRow, TenantTable, append_audit, audit_row, process_customer_redact,
}
use win_back_ai.Compliance.ShopRedact.{
  delete_tables, find_by_shop, process_shop_redact, shop_redact_tables_in_order,
}
use win_back_ai.Compliance.ShopRedact.Erased.{IsErased, shop_redact_exact}
use win_back_ai.Compliance.ShopRedact.Cleared.{HasKeys, IsCleared}
use win_back_ai.Compliance.CustomerRedact.{IsForgotten, customer_redact_exact}
use win_back_ai.Compliance.Deleted.{deleted_customer_kept}
use win_back_ai.Base.{ℕ, List, none, some, false, [], ◌∷◌, ◌≡◌, refl, arith, count_if}

abbrev person : ℕ → ℕ → CustomerRow
person x m = record {
  id = x;
  merchant_id = m;
  shopify_customer_id = gid 500;
  email = some "ann@example.com";
  phone = none;
  first_name = some "Ann";
  last_name = some "Doe";
  accepts_marketing = false;
  accepts_sms = false;
  consent = ConsentState.subscribed;
  orders_count = 3;
  shopify_created_at = some 10;
  shopify_updated_at = some 20;
  deleted_at = none;
}

abbrev row : ℕ → ℕ → ℕ → TenantRow
row i m x = record {
  id = i;
  merchant_id = m;
  customer_id = some x;
  message_id = none;
  product_id = none;
  deleted_at = none;
}

abbrev rows : TenantTable → List TenantRow
rows TenantTable.order = row 1 1 41 ∷ row 2 2 42 ∷ []
rows TenantTable.message = row 5 1 41 ∷ row 6 2 42 ∷ []
rows TenantTable.message_event =
    record {
      id = 8;
      merchant_id = 1;
      customer_id = none;
      message_id = some 5;
      product_id = none;
      deleted_at = none;
    }
    ∷ record {
      id = 9;
      merchant_id = 2;
      customer_id = none;
      message_id = some 6;
      product_id = none;
      deleted_at = none;
    }
    ∷ []
-- A live product and one that is deleted softly, with a variant.
rows TenantTable.product =
    record {
      id = 11;
      merchant_id = 1;
      customer_id = none;
      message_id = none;
      product_id = none;
      deleted_at = none;
    }
    ∷ record {
      id = 12;
      merchant_id = 1;
      customer_id = none;
      message_id = none;
      product_id = none;
      deleted_at = some 50;
    }
    ∷ []
rows TenantTable.product_variant =
    record {
      id = 13;
      merchant_id = 1;
      customer_id = none;
      message_id = none;
      product_id = some 12;
      deleted_at = some 50;
    }
    ∷ []
rows t = []

abbrev both_shops : GdprDb
both_shops = record {
  merchants = record { id = 1; shop = 101 } ∷ record { id = 2; shop = 102 } ∷ [];
  sessions = 101 ∷ 102 ∷ [];
  customers = person 41 1 ∷ person 42 2 ∷ [];
  rows = rows;
  audit = [];
  webhook_logs = record { merchant_id = some 1; shop = 101 } ∷ [];
}

customer_redact_exact_example :
    IsForgotten 1 500 41 both_shops
      (process_customer_redact 99 1 101 (some (digits 500)) both_shops)
    × ((process_customer_redact 99 1 101 (some (digits 500)) both_shops).audit
        ≡ audit_row 1 101 GdprAction.customer_redact (some (digits 41)) (some 500) ∷ [])
    × (process_customer_redact 100 1 101
          (some (digits 500))
          (process_customer_redact 99 1 101 (some (digits 500)) both_shops)
        ≡ append_audit
            (audit_row 1 101 GdprAction.customer_redact_no_local_record
              (some (digits 500))
              (some 500))
            (process_customer_redact 99 1 101 (some (digits 500)) both_shops))
unfolding find_first
customer_redact_exact_example =
    customer_redact_exact 99 100 1 101 500 (person 41 1) both_shops refl (λ h. refl, (λ h. cc, tt))

deleted_customer_kept_example :
    (process_customer_redact 100 1 101
        (some (digits 500))
        (record both_shops { customers = (soft_delete 90 1 500 both_shops.customers).1 })
      ≡ record both_shops {
        customers = (soft_delete 90 1 500 both_shops.customers).1;
        audit =
            audit_row 1 101 GdprAction.customer_redact_no_local_record
              (some (digits 500))
              (some 500)
            ∷ [];
      })
    × (find_first (is_customer 1 500) (soft_delete 90 1 500 both_shops.customers).1
        ≡ some (record (person 41 1) { deleted_at = some 90 }))
unfolding find_first
deleted_customer_kept_example =
    deleted_customer_kept 90 100 1 101 500 (person 41 1) both_shops refl refl

keys : HasKeys both_shops
unfolding count_if
keys = record {
  products = λ x. ground arith;
  variants = λ x. ground arith;
  customers = λ x. ground arith;
}

shop_redact_exact_example :
    (cleared : GdprDb) × (delete_tables 2 1 shop_redact_tables_in_order
        (append_audit (audit_row 1 101 GdprAction.shop_redact (some (digits 1)) none) both_shops)
      ≡ some cleared)
    × IsCleared 1 both_shops cleared
    × (after : GdprDb) × (process_shop_redact 2 101 both_shops ≡ some after)
    × IsErased 1 101 both_shops after
unfolding find_by_shop
shop_redact_exact_example =
    shop_redact_exact 1 101 both_shops (record { id = 1; shop = 101 }) keys refl
