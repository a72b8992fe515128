-- ===== src/Tenancy/Reads.antt =====
-- Reads within the scope of a merchant.
use win_back_ai.Outbox.{Scope}
use win_back_ai.Base.{
  ℕ, Option, Bool, if◌then◌else◌, true, ◌&&◌, ◌≡◌, some, none, ◌==◌, Bool-cases, arith, false, inl,
  refl, inr, Option-cases, sym, ◌∙◌, ap,
}
use win_back_ai.Tenancy.{
  ModelName, Where, apply_soft_delete_filter, Row, is_soft_deleted, is_null, same_merchant, Guarded,
  apply_read_hooks, enforce_tenant_scope_on_read, refused, kind_of, passed, guarded,
}

abbrev passes_merchant : Option (Option ℕ) → Option ℕ → Bool
passes_merchant none o = true
passes_merchant (some none) o = is_null o
passes_merchant (some (some m)) o = same_merchant o m

abbrev passes_id : Option ℕ → ℕ → Bool
passes_id none i = true
passes_id (some k) i = i == k

abbrev passes_deleted : Option (Option ℕ → Bool) → Option ℕ → Bool
passes_deleted none d = true
passes_deleted (some p) d = p d

-- The rows that the database gives for a `where`.
abbrev pub is_matched : Where → Row → Bool
is_matched w r =
    passes_merchant w.merchant_id r.merchant_id
    && (passes_id w.id r.id && (passes_deleted w.deleted_at r.deleted_at && w.others r))

-- The row is hidden as deleted, unless the query asks for deleted rows itself.
abbrev pub is_visible : ModelName → Where → Row → Bool
is_visible model w r =
    if is_soft_deleted model
    then (elim w.deleted_at [ none ↦ is_null r.deleted_at | some p ↦ true ])
    else true

shuffled : (a b n c : Bool) → (a && (b && (n && c))) ≡ ((a && (b && (true && c))) && n)
shuffled true true true true = refl
shuffled true true true false = refl
shuffled true true false true = refl
shuffled true true false false = refl
shuffled true false n c = refl
shuffled false b n c = refl

kept : (a : Bool) → a ≡ (a && true)
kept true = refl
kept false = refl

soft_delete_exact :
    (model : ModelName) (w : Where) (r : Row)
    → is_matched (apply_soft_delete_filter model w) r ≡ (is_matched w r && is_visible model w r)
unfolding apply_soft_delete_filter
soft_delete_exact model w r = elim (Bool-cases (is_soft_deleted model)) [
  | inl e ↦ elim (Option-cases w.deleted_at) [
    | inl d ↦
        rw (e, d)
          (shuffled (passes_merchant w.merchant_id r.merchant_id) (passes_id w.id r.id)
            (is_null r.deleted_at) (w.others r))
    | inr (p, d) ↦
        rw (e, d)
          (kept (
            passes_merchant w.merchant_id r.merchant_id
            && (passes_id w.id r.id && (p r.deleted_at && w.others r))))
  ]
  | inr e ↦ rw e (kept (is_matched w r))
]

swapped : (b c : Bool) → (b && c) ≡ (c && b)
swapped true true = refl
swapped true false = refl
swapped false true = refl
swapped false false = refl

absorbed : (b c s : Bool) → (b ≡ true → s ≡ true) → (b && c) ≡ ((b && c) && s)
absorbed true true s h = sym (h refl)
absorbed true false s h = refl
absorbed false c s h = refl

-- A row that passes the filter of a merchant belongs to it.
same_owner :
    (m : ℕ) (o p : Option ℕ)
    → same_merchant o m ≡ true
    → passes_merchant (some o) p ≡ true
    → same_merchant p m ≡ true
same_owner m none p h k = cc
same_owner m (some n) none h k = cc
same_owner m (some n) (some j) h k = ground arith

-- A read that is refused names another merchant; one that goes on gives the rows of the merchant that it
-- asks for, less the hidden ones.
abbrev pub IsConfined : ℕ → ModelName → Where → Row → Guarded Where → Type 0
IsConfined m model w r (refused e) =
    (o : Option ℕ) × (w.merchant_id ≡ some o) × (same_merchant o m ≡ false)
IsConfined m model w r (passed v) =
    is_matched v r ≡ ((is_matched w r && same_merchant r.merchant_id m) && is_visible model w r)

-- In the scope of a merchant, a read of a guarded model that is no findUnique is refused only when it names
-- another merchant itself. When it goes on, it gives exactly those of the rows it asks for that belong to the
-- merchant, less the deleted ones where the model hides them and the query does not ask for them.
pub read_exact :
    (m : ℕ) (model : ModelName) (w : Where) (r : Row)
    → kind_of model ≡ guarded
    → IsConfined m model w r (apply_read_hooks (Scope.merchant m) model false w)
unfolding apply_read_hooks enforce_tenant_scope_on_read
read_exact m model w r k = rw k (elim (Option-cases w.merchant_id) [
  | inl e ↦ rw e (
      soft_delete_exact model (record w { merchant_id = some (some m) }) r
      ∙ ap (λ b. b && is_visible model (record w { merchant_id = none }) r)
          (swapped (same_merchant r.merchant_id m)
            (passes_id w.id r.id && (passes_deleted w.deleted_at r.deleted_at && w.others r))))
  | inr (o, e) ↦ rw e (elim (Bool-cases (same_merchant o m)) [
    | inl q ↦ rw q (
        soft_delete_exact model (record w { merchant_id = some o }) r
        ∙ ap (λ b. b && is_visible model (record w { merchant_id = some o }) r)
            (absorbed (passes_merchant (some o) r.merchant_id)
              (passes_id w.id r.id && (passes_deleted w.deleted_at r.deleted_at && w.others r))
              (same_merchant r.merchant_id m) (same_owner m o r.merchant_id q)))
    | inr q ↦ rw q ((o, refl, q))
  ])
])

-- In the scope of any merchant, a findUnique of a guarded model gives every row that it asks for and that is not
-- hidden as deleted, whichever merchant it belongs to.
pub unique_read_unconfined :
    (m : ℕ) (model : ModelName) (w : Where) (r : Row)
    → kind_of model ≡ guarded
    → (v : Where) × (apply_read_hooks (Scope.merchant m) model true w ≡ passed v)
      × (is_matched v r ≡ (is_matched w r && is_visible model w r))
unfolding apply_read_hooks enforce_tenant_scope_on_read
unique_read_unconfined m model w r k =
    (apply_soft_delete_filter model w, rw k refl, soft_delete_exact model w r)
