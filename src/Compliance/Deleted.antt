-- ===== src/Compliance/Deleted.antt =====
-- A customer who was deleted before the redaction.
use win_back_ai.Gid.{digits}
use win_back_ai.Customers.{
  CustomerRow, is_customer, is_live_customer, find_first, update_where, is_live, soft_delete,
}
use win_back_ai.Compliance.{GdprDb, GdprAction, audit_row, process_customer_redact}
use win_back_ai.Base.{
  ℕ, Bool, List, ◌≡◌, ◌∷◌, [], ◌++◌, ◌&&◌, none, some, true, false, refl, ap, ◌∙◌, Bool-cases, inl,
  inr,
}

abbrev deleted : ℕ → CustomerRow → CustomerRow
deleted now c = record c { deleted_at = some now }

hidden_then :
    (now m n : ℕ) (cs : List CustomerRow)
    → find_first (is_live_customer m n) (update_where (is_live_customer m n) (deleted now) cs)
      ≡ none
unfolding find_first update_where
hidden_then now m n [] = refl
hidden_then now m n (c ∷ cs) = elim (Bool-cases (is_live_customer m n c)) [
  | inl e ↦ rw (e, cut (is_customer m n c)) (hidden_then now m n cs)
  | inr e ↦ rw (e, e) (hidden_then now m n cs)
]
  where
    cut : (b : Bool) → (b && false) ≡ false
    cut true = refl
    cut false = refl

still_found :
    (now m n : ℕ) (c : CustomerRow) (cs : List CustomerRow)
    → find_first (is_customer m n) cs ≡ some c
    → is_live c.deleted_at ≡ true
    → find_first (is_customer m n) (update_where (is_live_customer m n) (deleted now) cs)
      ≡ some (deleted now c)
unfolding find_first update_where
still_found now m n c [] h l = cc
still_found now m n c (d ∷ cs) h l = elim (Bool-cases (is_customer m n d)) [
  | inl e ↦
      let same : d ≡ c = cc in
      rw (e, ap (λ r. is_live r.deleted_at) same ∙ l) (rw e (ap (λ r. some (deleted now r)) same))
  | inr e ↦ rw (e, e) (still_found now m n c cs (rw e at h) l)
]

-- A live customer is deleted as the webhook customers/delete says, and the redaction of the same GID follows. The
-- redaction then changes nothing but the log, where it adds that it finds no local record, and the customer's row
-- still has the GID, the e-mail address, the phone number and the names that it had.
pub deleted_customer_kept :
    (now later m shop n : ℕ) (c : CustomerRow) (db : GdprDb)
    → find_first (is_customer m n) db.customers ≡ some c
    → is_live c.deleted_at ≡ true
    → (process_customer_redact later m shop
          (some (digits n))
          (record db { customers = (soft_delete now m n db.customers).1 })
        ≡ record db {
          customers = (soft_delete now m n db.customers).1;
          audit =
              db.audit
              ++ audit_row m shop GdprAction.customer_redact_no_local_record
                  (some (digits n))
                  (some n)
                ∷ [];
        })
      × (find_first (is_customer m n) (soft_delete now m n db.customers).1
          ≡ some (record c { deleted_at = some now }))
unfolding process_customer_redact soft_delete
deleted_customer_kept now later m shop n c db found l =
    (rw (hidden_then now m n db.customers) refl, still_found now m n c db.customers found l)
