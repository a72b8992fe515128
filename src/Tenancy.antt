-- ===== src/Tenancy.antt =====
-- packages/db/src/extensions/hooks.ts with the sets of packages/db/src/tenant-scope.ts: how a query is changed or
-- refused by the active scope. The conditions besides the ids, the merchant and the deletion are one
-- test on the rows, an absent `where` of a read is the empty one, and the blocks `create` and `update` are one
-- row.
pub mod Reads
pub mod Parts
pub mod Writes
pub mod Tones
use win_back_ai.Outbox.{Scope}
use win_back_ai.AiTone.{Json, Tone, parse_tone, tone_json}
use win_back_ai.Base.{
  ℕ, Bool, List, Option, if◌then◌else◌, false, not, some, true, ◌∷◌, [], none, ◌==◌, or_else,
}

pub data ModelName : Type 0 where
  merchant_model session_model other_model : ModelName
  merchant_settings billing_subscription customer customer_score product product_variant order
        order_line_item outbox_event idempotency_key backfill_job ai_generation message
        ai_spend_bucket campaign campaign_target suppression message_event message_quota_bucket :
      ModelName
  webhook_log audit_log : ModelName

-- How the hooks treat a model. The guarded ones are those of TENANT_SCOPED_MODELS and
-- TENANT_OPTIONAL_READ_MODELS, and the unscoped one is that of UNSCOPED_MODELS.
pub data ModelKind : Type 0 where
  the_merchant unscoped guarded unguarded : ModelKind

abbrev pub kind_of : ModelName → ModelKind
kind_of merchant_model = the_merchant
kind_of session_model = unscoped
kind_of other_model = unguarded
kind_of _ = guarded

-- SOFT_DELETE_MODELS
abbrev pub is_soft_deleted : ModelName → Bool
is_soft_deleted customer = true
is_soft_deleted product = true
is_soft_deleted product_variant = true
is_soft_deleted _ = false

-- A row, with what the hooks look at.
pub record Row : Type 0 where
  pub id : ℕ
  pub merchant_id : Option ℕ
  pub deleted_at : Option ℕ

-- A field is absent, or given with a value that may be null.
pub record Where : Type 0 where
  pub id : Option ℕ
  pub merchant_id : Option (Option ℕ)
  pub deleted_at : Option (Option ℕ → Bool)
  pub others : Row → Bool

pub data TenantError : Type 0 where
  no_active_scope unscoped_merchant_read cross_tenant invalid_ai_tone : TenantError

-- A query that goes on, or the error that is thrown.
pub data Guarded (A : Type 0) : Type 0 where
  passed : A → Guarded A
  refused : TenantError → Guarded A

abbrev pub and_then : {A B : Type 0} → Guarded A → (A → Guarded B) → Guarded B
and_then (passed a) k = k a
and_then (refused e) k = refused e

abbrev pub same_merchant : Option ℕ → ℕ → Bool
same_merchant none m = false
same_merchant (some n) m = n == m

abbrev pub is_null : Option ℕ → Bool
is_null none = true
is_null (some t) = false

-- `merchantId` injected where it is absent, and checked where it is given.
abbrev pub check_merchant : ℕ → Option (Option ℕ) → Guarded (Option (Option ℕ))
check_merchant m none = passed (some (some m))
check_merchant m (some o) = if same_merchant o m then passed (some o) else refused cross_tenant

abbrev pub inject_where : ℕ → Where → Guarded Where
inject_where m w =
    and_then (check_merchant m w.merchant_id) (λ o. passed (record w { merchant_id = o }))

abbrev pub read_merchant : ℕ → Where → Option ℕ → Guarded Where
read_merchant m w none = refused unscoped_merchant_read
read_merchant m w (some i) = if i == m then passed w else refused cross_tenant

unfoldable pub enforce_tenant_scope_on_read : Scope → ModelKind → Bool → Where → Guarded Where
enforce_tenant_scope_on_read Scope.no_scope kind find_unique w = refused no_active_scope
enforce_tenant_scope_on_read Scope.system kind find_unique w = passed w
enforce_tenant_scope_on_read (Scope.merchant m) the_merchant find_unique w = read_merchant m w w.id
enforce_tenant_scope_on_read (Scope.merchant m) guarded true w = passed w
enforce_tenant_scope_on_read (Scope.merchant m) guarded false w = inject_where m w
enforce_tenant_scope_on_read (Scope.merchant m) kind find_unique w = passed w

abbrev pub hide_deleted : Where → Option (Option ℕ → Bool) → Where
hide_deleted w none = record w { deleted_at = some is_null }
hide_deleted w (some p) = w

unfoldable pub apply_soft_delete_filter : ModelName → Where → Where
apply_soft_delete_filter model w = if is_soft_deleted model then hide_deleted w w.deleted_at else w

abbrev pub read_hooks : Scope → ModelName → ModelKind → Bool → Where → Guarded Where
read_hooks scope model unscoped find_unique w = passed w
read_hooks scope model kind find_unique w =
    and_then (enforce_tenant_scope_on_read scope kind find_unique w)
      (λ v. passed (apply_soft_delete_filter model v))

unfoldable pub apply_read_hooks : Scope → ModelName → Bool → Where → Guarded Where
unfolding enforce_tenant_scope_on_read apply_soft_delete_filter
apply_read_hooks scope model find_unique w = read_hooks scope model (kind_of model) find_unique w

-- A row of `data`, `create` or `update`; `ai_tone` is a value of a settings row.
pub record DataRow : Type 0 where
  pub id : Option ℕ
  pub merchant_id : Option (Option ℕ)
  pub ai_tone : Option (Option Json)

pub data DataLike : Type 0 where
  one_row : DataRow → DataLike
  row_list : List DataRow → DataLike

pub record WriteArgs : Type 0 where
  pub filters : Option Where
  pub values : Option DataLike
  pub create : Option DataRow
  pub update : Option DataRow

abbrev pub inject_into_row : ℕ → DataRow → Guarded DataRow
inject_into_row m r =
    and_then (check_merchant m r.merchant_id) (λ o. passed (record r { merchant_id = o }))

unfoldable pub map_rows : (DataRow → Guarded DataRow) → List DataRow → Guarded (List DataRow)
map_rows f [] = passed []
map_rows f (r ∷ rs) = and_then (f r) (λ r'. and_then (map_rows f rs) (λ rs'. passed (r' ∷ rs')))

unfoldable pub map_data : (DataRow → Guarded DataRow) → DataLike → Guarded DataLike
unfolding map_rows
map_data f (one_row r) = and_then (f r) (λ r'. passed (one_row r'))
map_data f (row_list rs) = and_then (map_rows f rs) (λ rs'. passed (row_list rs'))

-- A part that is absent stays so.
abbrev pub in_part : {A : Type 0} → (A → Guarded A) → Option A → Guarded (Option A)
in_part f none = passed none
in_part f (some a) = and_then (f a) (λ b. passed (some b))

-- The update block of an upsert is checked, and not changed.
abbrev pub check_update : ℕ → DataRow → Guarded DataRow
check_update m r = and_then (check_merchant m r.merchant_id) (λ o. passed r)

unfoldable pub guard_write : ℕ → WriteArgs → Guarded WriteArgs
unfolding map_data
guard_write m a = and_then (in_part (map_data (inject_into_row m)) a.values) (λ v.
    and_then (in_part (inject_into_row m) a.create) (λ c.
      and_then (in_part (check_update m) a.update) (λ u.
        and_then (in_part (inject_where m) a.filters)
          (λ w. passed (record { filters = w; values = v; create = c; update = u })))))

abbrev where_id : Option Where → Option ℕ
where_id none = none
where_id (some w) = w.id

abbrev data_id : Option DataLike → Option ℕ
data_id (some (one_row r)) = r.id
data_id _ = none

-- `where?.id ?? data?.id`
abbrev pub target_id : WriteArgs → Option ℕ
target_id a = or_else (where_id a.filters) (data_id a.values)

abbrev write_merchant : ℕ → WriteArgs → Option ℕ → Guarded WriteArgs
write_merchant m a none = passed a
write_merchant m a (some i) = if i == m then passed a else refused cross_tenant

unfoldable pub enforce_tenant_scope_on_write : Scope → ModelKind → WriteArgs → Guarded WriteArgs
unfolding guard_write
enforce_tenant_scope_on_write Scope.no_scope kind a = refused no_active_scope
enforce_tenant_scope_on_write Scope.system kind a = passed a
enforce_tenant_scope_on_write (Scope.merchant m) the_merchant a = write_merchant m a (target_id a)
enforce_tenant_scope_on_write (Scope.merchant m) guarded a = guard_write m a
enforce_tenant_scope_on_write (Scope.merchant m) kind a = passed a

abbrev pub parsed_tone : Option Tone → DataRow → Guarded DataRow
parsed_tone none r = refused invalid_ai_tone
parsed_tone (some t) r = passed (record r { ai_tone = some (some (tone_json t)) })

-- A tone that is given and not null is replaced by what its schema makes of it.
abbrev pub validate_ai_tone : DataRow → Option (Option Json) → Guarded DataRow
validate_ai_tone r (some (some t)) = parsed_tone (parse_tone t) r
validate_ai_tone r _ = passed r

abbrev pub tone_of_row : DataRow → Guarded DataRow
tone_of_row r = validate_ai_tone r r.ai_tone

unfoldable pub validate_model_specific : ModelName → WriteArgs → Guarded WriteArgs
unfolding map_data
validate_model_specific merchant_settings a =
    and_then (in_part (map_data tone_of_row) a.values) (λ v.
      and_then (in_part tone_of_row a.create) (λ c.
        and_then (in_part tone_of_row a.update)
          (λ u. passed (record a { values = v; create = c; update = u }))))
validate_model_specific model a = passed a

abbrev pub write_hooks : Scope → ModelName → ModelKind → WriteArgs → Guarded WriteArgs
write_hooks scope model unscoped a = passed a
write_hooks scope model kind a =
    and_then (enforce_tenant_scope_on_write scope kind a) (validate_model_specific model)

unfoldable pub apply_write_hooks : Scope → ModelName → WriteArgs → Guarded WriteArgs
unfolding enforce_tenant_scope_on_write validate_model_specific
apply_write_hooks scope model a = write_hooks scope model (kind_of model) a
