-- ===== src/Compliance/ShopRedact/Erased.antt =====
-- What the redaction of a shop leaves behind.
use win_back_ai.Compliance.ShopRedact.{
  is_of_merchant, is_customer_of, delete_tables, shop_redact_tables_in_order, process_shop_redact,
  find_by_shop, hard_delete, forget_audit, forget_log,
}
use win_back_ai.Compliance.{
  TenantTable, GdprDb, without, MerchantRow, append_audit, audit_row, GdprAction, digits,
}
use win_back_ai.Base.{
  ◌==◌, not, ℕ, List, ◌≡◌, ◌∷◌, [], filter, some, suc, refl, none, map, ◌++◌, Bool, ap, ◌∙◌,
}
use win_back_ai.Compliance.ShopRedact.Cleared.{
  HasKeys, IsCleared, clear_one, clear_all, seen_part, seen_customer, delete_tables-clear, wider,
  loops-IsCleared,
}

twice {ℓ} :
    {A : Type ℓ} (p : A → Bool) (t : List A)
    → filter (λ a. not (p a)) (filter (λ a. not (p a)) t) ≡ filter (λ a. not (p a)) t
twice p t = wider p p t (λ a h. h)

-- All the rows of the merchant are gone once the merchant is deleted.
all_gone :
    (m : ℕ) (before after : GdprDb)
    → IsCleared m before after
    → (t : TenantTable)
    → without (is_of_merchant m) (after.rows t) ≡ without (is_of_merchant m) (before.rows t)
all_gone m before after c TenantTable.product =
    ap (without (is_of_merchant m)) c.products
    ∙ wider (is_of_merchant m) _ (before.rows TenantTable.product) (λ r. seen_part m r _)
all_gone m before after c TenantTable.product_variant = c.other_variants
all_gone m before after c TenantTable.order =
    ap (without (is_of_merchant m)) (c.rows TenantTable.order refl) ∙ twice _ _
all_gone m before after c t = ap (without (is_of_merchant m)) (c.rows t refl) ∙ twice _ _

-- What a redaction of the shop of merchant `m` leaves of a database.
pub record IsErased (m shop : ℕ) (before after : GdprDb) : Type 0 where
  pub rows_gone : (t : TenantTable) → after.rows t ≡ without (is_of_merchant m) (before.rows t)
  pub customers_gone : after.customers ≡ filter (λ c. not (is_customer_of m c)) before.customers
  pub merchant_gone : after.merchants ≡ filter (λ s. not (s.id == m)) before.merchants
  pub sessions_gone : after.sessions ≡ filter (λ x. not (x == shop)) before.sessions
  pub audit_kept :
      after.audit
      ≡ map
          (forget_audit m)
          (before.audit ++ audit_row m shop GdprAction.shop_redact (some (digits m)) none ∷ [])
  pub logs_kept : after.webhook_logs ≡ map (forget_log m) before.webhook_logs

-- For any positive batch size, and with unique ids of products, variants and customers, the redaction of a shop that
-- has a merchant ends. Its loops over chunks alone take every row of the merchant from the tables without soft
-- deletion, and the live products, variants and customers; the deleted products and customers stand, and no other
-- merchant's row is touched. Once the merchant itself is deleted, all its rows are gone, those deleted softly too, and
-- the merchant and the sessions of the shop. Nothing of other merchants has changed, and the log entries and webhook
-- logs all stand, with one entry more and without the merchant's id.
pub shop_redact_exact :
    (n shop : ℕ) (db : GdprDb) (s : MerchantRow)
    → HasKeys db
    → find_by_shop shop db.merchants ≡ some s
    → (cleared : GdprDb) × (delete_tables
          (suc n)
          s.id
          shop_redact_tables_in_order
          (append_audit (audit_row s.id shop GdprAction.shop_redact (some (digits s.id)) none) db)
        ≡ some cleared)
      × IsCleared s.id db cleared
      × (after : GdprDb) × (process_shop_redact (suc n) shop db ≡ some after)
      × IsErased s.id shop db after
unfolding process_shop_redact clear_all clear_one
shop_redact_exact n shop db s u found = (
  cleared,
  delete_tables-clear n s.id shop_redact_tables_in_order logged keys,
  rest,
  last,
  rw (found, delete_tables-clear n s.id shop_redact_tables_in_order logged keys) refl,
  record {
    rows_gone = all_gone s.id db cleared rest;
    customers_gone = wider (is_customer_of s.id) _ db.customers (seen_customer s.id);
    merchant_gone = refl;
    sessions_gone = refl;
    audit_kept = refl;
    logs_kept = refl;
  },
)
  where
    logged : GdprDb
    logged = append_audit (audit_row s.id shop GdprAction.shop_redact (some (digits s.id)) none) db

    keys : HasKeys logged
    keys = record { products = u.products; variants = u.variants; customers = u.customers }

    cleared : GdprDb
    cleared = clear_all s.id shop_redact_tables_in_order logged

    rest : IsCleared s.id db cleared
    rest =
        let c = loops-IsCleared s.id logged in
        record {
          rows = c.rows;
          products = c.products;
          variants = c.variants;
          other_variants = c.other_variants;
          customers = c.customers;
        }

    last : GdprDb
    last =
        hard_delete s.id
          (record cleared { sessions = filter (λ x. not (x == shop)) cleared.sessions })
