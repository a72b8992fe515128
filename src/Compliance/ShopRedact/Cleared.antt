-- ===== src/Compliance/ShopRedact/Cleared.antt =====
-- What the loops over chunks leave behind, before the merchant is deleted.
use win_back_ai.Compliance.ShopRedact.Chunks.{delete_chunks_lem, delete_seen_lem}
use win_back_ai.Compliance.ShopRedact.{
  delete_chunks, purge, is_single, tenant_id, is_of_merchant, is_customer_of, chunked_delete_tenant,
  delete_tables, shop_redact_tables_in_order, customer_id_of, is_seen, is_seen_customer,
  hides_deleted, cascade_products,
}
use win_back_ai.Compliance.{
  TenantTable, RedactTable, GdprDb, TenantRow, change_rows, rows_of_table, customer_rows, without,
}
use mathlib.Core.Path.{subst}
use win_back_ai.Customers.{CustomerRow, is_live}
use win_back_ai.Base.{
  IsUnique, IsUnique-filter, if◌then◌else◌, All, All_keep, All_mono, All-kept, sym, filter-filter,
  filter-ext, true, false, ◌&&◌, not, ℕ, List, ◌≡◌, ◌∷◌, [], filter, length, count_if-le-length,
  some, suc, refl, arith, Bool-cases, inl, inr, Bool, ap, ◌∙◌,
}

-- One table without the rows that its loop takes.
unfoldable pub clear_one : ℕ → RedactTable → GdprDb → GdprDb
clear_one m (rows_of_table t) db =
    let left = without (is_seen m t) (db.rows t) in
    record db { rows = cascade_products m t (db.rows t) left (change_rows t (λ rs. left) db.rows) }
clear_one m customer_rows db = record db {
  customers = filter (λ c. not (is_seen_customer m c)) db.customers;
}

unfoldable pub clear_all : ℕ → List RedactTable → GdprDb → GdprDb
clear_all m [] db = db
clear_all m (t ∷ ts) db = clear_all m ts (clear_one m t db)

-- The keys of the tables with soft deletion are unique.
pub record HasKeys (db : GdprDb) : Type 0 where
  pub products : IsUnique tenant_id (db.rows TenantTable.product)
  pub variants : IsUnique tenant_id (db.rows TenantTable.product_variant)
  pub customers : IsUnique customer_id_of db.customers

single_shows : (t : TenantTable) → is_single t ≡ true → hides_deleted t ≡ false
single_shows TenantTable.product h = cc
single_shows TenantTable.product_variant h = cc
single_shows TenantTable.order h = refl
single_shows t h = refl

hidden_keys :
    (t : TenantTable) (db : GdprDb)
    → HasKeys db
    → hides_deleted t ≡ true
    → IsUnique tenant_id (db.rows t)
hidden_keys TenantTable.product db u h = u.products
hidden_keys TenantTable.product_variant db u h = u.variants
hidden_keys TenantTable.order db u h = cc
hidden_keys t db u h = cc

pub seen_part :
    (m : ℕ) (r : TenantRow) (b : Bool)
    → (is_of_merchant m r && b) ≡ true
    → is_of_merchant m r ≡ true
seen_part m r b h = both (is_of_merchant m r) h
  where
    both : (c : Bool) → (c && b) ≡ true → c ≡ true
    both true h = refl
    both false h = h

seen_row :
    (m : ℕ) (t : TenantTable) (r : TenantRow) → is_seen m t r ≡ true → is_of_merchant m r ≡ true
seen_row m t r h = go (hides_deleted t) h
  where
    go :
        (b : Bool)
        → (if b then is_of_merchant m r && is_live r.deleted_at else is_of_merchant m r) ≡ true
        → is_of_merchant m r ≡ true
    go true h = seen_part m r (is_live r.deleted_at) h
    go false h = h

shown_seen : (m : ℕ) (t : TenantTable) → hides_deleted t ≡ false → is_of_merchant m ≡ is_seen m t
shown_seen m t h =
    ap (λ b r. if b then is_of_merchant m r && is_live r.deleted_at else is_of_merchant m r) (sym h)

purge_lem :
    (n m : ℕ) (t : TenantTable) (db : GdprDb)
    → HasKeys db
    → purge (suc n) m t (db.rows t) ≡ some (without (is_seen m t) (db.rows t))
unfolding purge filter
purge_lem n m t db u = elim (Bool-cases (is_single t)) [
  | inl e ↦ rw e (ap (λ p. some (without p (db.rows t))) (shown_seen m t (single_shows t e)))
  | inr e ↦ elim (Bool-cases (hides_deleted t)) [
    | inl hides ↦ rw e (
        delete_seen_lem tenant_id (is_of_merchant m) (is_seen m t) (seen_row m t) n
          (suc (length (db.rows t))) (db.rows t) (hidden_keys t db u hides)
          (omega (arith, count_if-le-length (is_seen m t) (db.rows t))))
    | inr shows ↦ rw e (
        subst
          (λ p.
            delete_chunks tenant_id (is_of_merchant m) p (suc (length (db.rows t))) (suc n)
              (db.rows t)
            ≡ some (without p (db.rows t)))
          (shown_seen m t shows)
          (delete_chunks_lem tenant_id (is_of_merchant m) n (suc (length (db.rows t))) (db.rows t)
            (omega (arith, count_if-le-length (is_of_merchant m) (db.rows t)))))
  ]
]

pub seen_customer :
    (m : ℕ) (c : CustomerRow) → is_seen_customer m c ≡ true → is_customer_of m c ≡ true
seen_customer m c h = both (is_customer_of m c) h
  where
    both : (b : Bool) → (b && is_live c.deleted_at) ≡ true → b ≡ true
    both true h = refl
    both false h = h

chunked_delete-clear :
    (n m : ℕ) (t : RedactTable) (db : GdprDb)
    → HasKeys db
    → chunked_delete_tenant (suc n) m t db ≡ some (clear_one m t db)
unfolding chunked_delete_tenant clear_one
chunked_delete-clear n m (rows_of_table t) db u = rw (purge_lem n m t db u) refl
chunked_delete-clear n m customer_rows db u =
    rw
      (delete_seen_lem customer_id_of (is_customer_of m) (is_seen_customer m) (seen_customer m) n
        (suc (length db.customers)) db.customers u.customers
        (omega (arith, count_if-le-length (is_seen_customer m) db.customers)))
      refl

keeps_keys : (m : ℕ) (t : RedactTable) (db : GdprDb) → HasKeys db → HasKeys (clear_one m t db)
unfolding clear_one
keeps_keys m customer_rows db u = record {
  products = u.products;
  variants = u.variants;
  customers = IsUnique-filter customer_id_of _ db.customers u.customers;
}
keeps_keys m (rows_of_table TenantTable.product) db u = record {
  products = IsUnique-filter tenant_id _ (db.rows TenantTable.product) u.products;
  variants = IsUnique-filter tenant_id _ (db.rows TenantTable.product_variant) u.variants;
  customers = u.customers;
}
keeps_keys m (rows_of_table TenantTable.product_variant) db u = record {
  products = u.products;
  variants = IsUnique-filter tenant_id _ (db.rows TenantTable.product_variant) u.variants;
  customers = u.customers;
}
keeps_keys m (rows_of_table TenantTable.order) db u = record {
  products = u.products;
  variants = u.variants;
  customers = u.customers;
}
keeps_keys m (rows_of_table t) db u = record {
  products = u.products;
  variants = u.variants;
  customers = u.customers;
}

pub delete_tables-clear :
    (n m : ℕ) (ts : List RedactTable) (db : GdprDb)
    → HasKeys db
    → delete_tables (suc n) m ts db ≡ some (clear_all m ts db)
unfolding delete_tables clear_all
delete_tables-clear n m [] db u = refl
delete_tables-clear n m (t ∷ ts) db u =
    rw (chunked_delete-clear n m t db u)
      (delete_tables-clear n m ts (clear_one m t db) (keeps_keys m t db u))

module _ {ℓ} {A : Type ℓ} (p q : A → Bool) where
  -- What a narrower test leaves, the wider one takes.
  pub wider :
      (t : List A)
      → ((a : A) → q a ≡ true → p a ≡ true)
      → filter (λ a. not (p a)) (filter (λ a. not (q a)) t) ≡ filter (λ a. not (p a)) t
  wider t h =
      filter-filter (λ a. not (p a)) (λ a. not (q a)) t
      ∙ filter-ext _ (λ a. not (p a)) t (λ a. go (p a) (q a) (h a))
    where
      go : (b c : Bool) → (c ≡ true → b ≡ true) → (not c && not b) ≡ not b
      go true true h = refl
      go true false h = refl
      go false true h = cc (h refl)
      go false false h = refl

-- The tables after the loops, before the merchant is deleted. A read of a loop does not find the rows that are
-- deleted softly, and so does not list them.
pub record IsCleared (m : ℕ) (before after : GdprDb) : Type 0 where
  pub rows :
      (t : TenantTable)
      → hides_deleted t ≡ false
      → after.rows t ≡ without (is_of_merchant m) (before.rows t)
  pub products :
      after.rows TenantTable.product
      ≡ without (λ r. is_of_merchant m r && is_live r.deleted_at) (before.rows TenantTable.product)
  pub variants :
      All
        (λ r. (is_of_merchant m r && is_live r.deleted_at) ≡ false)
        (after.rows TenantTable.product_variant)
  pub other_variants :
      without (is_of_merchant m) (after.rows TenantTable.product_variant)
      ≡ without (is_of_merchant m) (before.rows TenantTable.product_variant)
  pub customers :
      after.customers
      ≡ filter (λ c. not (is_customer_of m c && is_live c.deleted_at)) before.customers

module _ (m : ℕ) (db : GdprDb) where
  shown_rows :
      (t : TenantTable)
      → hides_deleted t ≡ false
      → (clear_all m shop_redact_tables_in_order db).rows t ≡ without (is_of_merchant m) (db.rows t)
  unfolding clear_all clear_one
  shown_rows TenantTable.product h = cc
  shown_rows TenantTable.product_variant h = cc
  shown_rows TenantTable.order h = refl
  shown_rows t h = refl

  false_of_not : (b : Bool) → not b ≡ true → b ≡ false
  false_of_not true h = cc
  false_of_not false h = refl

  unseen_variants :
      All
        (λ r. (is_of_merchant m r && is_live r.deleted_at) ≡ false)
        ((clear_all m shop_redact_tables_in_order db).rows TenantTable.product_variant)
  unfolding clear_all clear_one
  unseen_variants =
      All_keep tenant_id (λ r. (is_of_merchant m r && is_live r.deleted_at) ≡ false) _ _
        (All_mono (λ r. (is_of_merchant m r && is_live r.deleted_at) ≡ false) _
          (λ r h. false_of_not (is_of_merchant m r && is_live r.deleted_at) h)
          (All-kept (λ r. not (is_of_merchant m r && is_live r.deleted_at))
            (db.rows TenantTable.product_variant)))

  same_others :
      without
        (is_of_merchant m)
        ((clear_all m shop_redact_tables_in_order db).rows TenantTable.product_variant)
      ≡ without (is_of_merchant m) (db.rows TenantTable.product_variant)
  unfolding clear_all clear_one
  same_others =
      wider (is_of_merchant m) _ _ (λ r. seen_part m r _)
      ∙ wider (is_of_merchant m) _ (db.rows TenantTable.product_variant) (λ r. seen_part m r _)

  pub loops-IsCleared : IsCleared m db (clear_all m shop_redact_tables_in_order db)
  unfolding clear_all clear_one
  loops-IsCleared = record {
    rows = shown_rows;
    products = refl;
    variants = unseen_variants;
    other_variants = same_others;
    customers = refl;
  }
