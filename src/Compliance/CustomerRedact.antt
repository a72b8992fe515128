-- ===== src/Compliance/CustomerRedact.antt =====
-- What the redaction of a customer leaves behind.
use win_back_ai.Gid.{digits}
use win_back_ai.Compliance.Traces.{
  has_customer_column, belongs_to, none_left, children_gone, children_kept,
}
use win_back_ai.Compliance.Person.{
  IsScrubbed, NamesOnly, all-IsScrubbed, others_unchanged, gid_unknown, find_first-narrowed,
}
use win_back_ai.Customers.{
  CustomerRow, is_customer, find_by_shopify_id, find_first, update_where, is_live,
}
use win_back_ai.Compliance.{
  TenantTable, GdprDb, GdprAction, append_audit, audit_row, has_message_in, is_of_customer,
  process_customer_redact, scrub, unlink,
}
use win_back_ai.Base.{
  ℕ, ◌≡◌, ◌≢◌, ◌∷◌, [], ◌++◌, not, ◌||◌, ◌==◌, filter, map, none, some, true, false, refl, All,
}

-- What a redaction of customer `x` with GID `n` of merchant `m` leaves of a database.
pub record IsForgotten (m n x : ℕ) (before after : GdprDb) : Type 0 where
  pub gid_unknown : find_first (is_customer m n) after.customers ≡ none
  pub person_scrubbed : All (λ c. (c.id == x) ≡ true → IsScrubbed c) after.customers
  pub customers_kept :
      filter (λ c. not (c.id == x)) after.customers ≡ filter (λ c. not (c.id == x)) before.customers
  pub rows_gone :
      (t : TenantTable)
      → has_customer_column t ≡ true
      → All (λ r. is_of_customer m x r ≡ false) (after.rows t)
  pub events_gone :
      All
        (λ r.
          has_message_in (filter (is_of_customer m x) (before.rows TenantTable.message)) r ≡ false)
        (after.rows TenantTable.message_event)
  pub orders_kept :
      after.rows TenantTable.order
      ≡ map (unlink (is_of_customer m x)) (before.rows TenantTable.order)
  pub others_kept :
      (t : TenantTable)
      → t ≢ TenantTable.order
      → filter
          (λ r. not (
            is_of_customer m x r
            || belongs_to t (filter (is_of_customer m x) (before.rows TenantTable.message)) r))
          (after.rows t)
        ≡ filter
            (λ r. not (
              is_of_customer m x r
              || belongs_to t (filter (is_of_customer m x) (before.rows TenantTable.message)) r))
            (before.rows t)

-- Where the GID names one customer of the merchant and that customer is not deleted, the redaction forgets the
-- person: the customer's row shows nothing of them and the GID finds no row, and every row of a table with a column
-- for the customer, and every event of their messages, is gone or unlinked. All other rows stand. One log entry is
-- added, and a second redaction of the same GID only adds the entry that finds no local record.
pub customer_redact_exact :
    (now later m shop n : ℕ) (c : CustomerRow) (db : GdprDb)
    → find_by_shopify_id m n db.customers ≡ some c
    → NamesOnly m n c.id db.customers
    → IsForgotten m n c.id db (process_customer_redact now m shop (some (digits n)) db)
      × ((process_customer_redact now m shop (some (digits n)) db).audit
          ≡ db.audit
            ++ audit_row m shop GdprAction.customer_redact (some (digits c.id)) (some n) ∷ [])
      × (process_customer_redact later m shop
            (some (digits n))
            (process_customer_redact now m shop (some (digits n)) db)
          ≡ append_audit
              (audit_row m shop GdprAction.customer_redact_no_local_record
                (some (digits n))
                (some n))
              (process_customer_redact now m shop (some (digits n)) db))
unfolding process_customer_redact
customer_redact_exact now later m shop n c db found names = rw found (
    (
      record {
        gid_unknown = unknown;
        person_scrubbed = all-IsScrubbed now c.id db.customers;
        customers_kept = others_unchanged now c.id db.customers;
        rows_gone = children_gone m c.id db.rows;
        events_gone = none_left _ (db.rows TenantTable.message_event);
        orders_kept = refl;
        others_kept = children_kept m c.id db.rows;
      },
      refl,
      rw (find_first-narrowed (is_customer m n) (λ d. is_live d.deleted_at) _ unknown) refl,
    ))
  where
    unknown :
        find_first (is_customer m n) (update_where (λ d. d.id == c.id) (scrub now) db.customers)
        ≡ none
    unknown = gid_unknown now m n c.id db.customers names
