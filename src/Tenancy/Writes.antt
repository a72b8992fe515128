-- ===== src/Tenancy/Writes.antt =====
-- Writes within the scope of a merchant.
use win_back_ai.Outbox.{Scope}
use win_back_ai.Base.{
  ℕ, Bool, Option, false, true, not, ◌≡◌, some, none, refl, arith, mapped, ◌==◌, ap, ◌∙◌,
}
use win_back_ai.Tenancy.Parts.{
  unless, followed, either, either-false, some_data, each_data, each_row_of, is_given, each_part,
}
use win_back_ai.Tenancy.{
  Guarded, and_then, passed, check_merchant, DataRow, WriteArgs, Where, inject_into_row, map_data,
  in_part, check_update, guard_write, inject_where, enforce_tenant_scope_on_write, guarded,
  cross_tenant,
}

-- The field is given, and names another merchant or none.
abbrev pub is_foreign : ℕ → Option (Option ℕ) → Bool
is_foreign m none = false
is_foreign m (some none) = true
is_foreign m (some (some n)) = not (n == m)

checked :
    (m : ℕ) (o : Option (Option ℕ))
    → check_merchant m o ≡ unless (is_foreign m o) cross_tenant (some (some m))
checked m none = refl
checked m (some none) = refl
checked m (some (some n)) = ground arith

abbrev pub is_foreign_row : ℕ → DataRow → Bool
is_foreign_row m r = is_foreign m r.merchant_id

abbrev pub is_foreign_where : ℕ → Where → Bool
is_foreign_where m w = is_foreign m w.merchant_id

-- The row, or the `where`, with the merchant in its place.
abbrev pub own_row : ℕ → DataRow → DataRow
own_row m r = record r { merchant_id = some (some m) }

abbrev pub own_where : ℕ → Where → Where
own_where m w = record w { merchant_id = some (some m) }

module _ (m : ℕ) where
  -- What follows a check, when nothing more can be refused.
  after_check :
      {A : Type 0} (o : Option (Option ℕ)) (k : Option (Option ℕ) → Guarded A) (a : A)
      → k (some (some m)) ≡ passed a
      → and_then (check_merchant m o) k ≡ unless (is_foreign m o) cross_tenant a
  after_check o k a l =
      followed (is_foreign m o) false cross_tenant (some (some m)) a k (check_merchant m o)
        (checked m o) l
      ∙ ap (λ b. unless b cross_tenant a) (either-false (is_foreign m o))

  row_lem :
      (r : DataRow) → inject_into_row m r ≡ unless (is_foreign_row m r) cross_tenant (own_row m r)
  row_lem r = after_check r.merchant_id _ (own_row m r) refl

  where_lem :
      (w : Where) → inject_where m w ≡ unless (is_foreign_where m w) cross_tenant (own_where m w)
  where_lem w = after_check w.merchant_id _ (own_where m w) refl

  update_lem : (r : DataRow) → check_update m r ≡ unless (is_foreign_row m r) cross_tenant r
  update_lem r = after_check r.merchant_id _ r refl

-- Some part names another merchant, or none.
abbrev pub is_foreign_write : ℕ → WriteArgs → Bool
is_foreign_write m a = either (is_given (some_data (is_foreign_row m)) a.values) (
    either (is_given (is_foreign_row m) a.create)
      (either (is_given (is_foreign_row m) a.update) (is_given (is_foreign_where m) a.filters)))

-- The write with the merchant in every row, in the create block and in the `where`, if it has them.
abbrev pub own_write : ℕ → WriteArgs → WriteArgs
own_write m a = record {
  filters = mapped (own_where m) a.filters;
  values = mapped (each_row_of (own_row m)) a.values;
  create = mapped (own_row m) a.create;
  update = a.update;
}

same_part : {A : Type 0} (o : Option A) → mapped (λ (a : A). a) o ≡ o
same_part none = refl
same_part (some a) = refl

-- In the scope of a merchant, a write of a guarded model is refused exactly when some row, the create or update
-- block or the `where` names another merchant or a null one. When it goes on, it is the write that was asked for,
-- with the merchant set in every row, in the create block and in the `where`, and otherwise unchanged. A write
-- without a `where` stays without one, so that it is not confined by it.
pub write_exact :
    (m : ℕ) (a : WriteArgs)
    → enforce_tenant_scope_on_write (Scope.merchant m) guarded a
      ≡ unless (is_foreign_write m a) cross_tenant (own_write m a)
unfolding enforce_tenant_scope_on_write guard_write
write_exact m a =
    followed (is_given (some_data (is_foreign_row m)) a.values) _ cross_tenant
      (mapped (each_row_of (own_row m)) a.values) (own_write m a) _
      (in_part (map_data (inject_into_row m)) a.values)
      (each_part (some_data (is_foreign_row m)) cross_tenant (each_row_of (own_row m))
        (map_data (inject_into_row m))
        (each_data (is_foreign_row m) cross_tenant (own_row m) (inject_into_row m) (row_lem m))
        a.values)
      (followed (is_given (is_foreign_row m) a.create) _ cross_tenant (mapped (own_row m) a.create)
        (own_write m a) _ (in_part (inject_into_row m) a.create)
        (each_part (is_foreign_row m) cross_tenant (own_row m) (inject_into_row m) (row_lem m)
          a.create)
        (followed (is_given (is_foreign_row m) a.update) _ cross_tenant a.update (own_write m a) _
          (in_part (check_update m) a.update)
          (each_part (is_foreign_row m) cross_tenant (λ r. r) (check_update m) (update_lem m)
              a.update
            ∙ ap (unless (is_given (is_foreign_row m) a.update) cross_tenant) (same_part a.update))
          (followed (is_given (is_foreign_where m) a.filters) false cross_tenant
              (mapped (own_where m) a.filters) (own_write m a) _
              (in_part (inject_where m) a.filters)
              (each_part (is_foreign_where m) cross_tenant (own_where m) (inject_where m)
                (where_lem m) a.filters)
              refl
            ∙ ap (λ b. unless b cross_tenant (own_write m a))
                (either-false (is_given (is_foreign_where m) a.filters)))))
