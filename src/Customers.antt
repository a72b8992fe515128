-- ===== src/Customers.antt =====
-- packages/db/src/repositories/customer.repository.ts: the customers of all merchants. The tags are left
-- out, and so are the scope tests, which are modelled with the outbox. A read by the Prisma client does not see
-- deleted rows (applySoftDeleteFilter), a write does.
use Prim.Native.String.{String}
use win_back_ai.Gid.{IdText, wrap}
use win_back_ai.Store.{ConsentState}
use win_back_ai.Base.{
  ℕ, Bool, List, Option, none, some, true, false, ◌∷◌, [], ◌++◌, ◌&&◌, ◌==◌, if◌then◌else◌, found,
}

-- A GID of Shopify, or the sentinel of a redacted customer (REDACTED_GID_SENTINEL_PREFIX and the id).
pub data CustomerGid : Type 0 where
  gid : ℕ → CustomerGid
  redacted : ℕ → CustomerGid

pub record CustomerRow : Type 0 where
  pub id : ℕ
  pub merchant_id : ℕ
  pub shopify_customer_id : CustomerGid
  pub email : Option String
  pub phone : Option String
  pub first_name : Option String
  pub last_name : Option String
  pub accepts_marketing : Bool
  pub accepts_sms : Bool
  pub consent : ConsentState
  pub orders_count : ℕ
  pub shopify_created_at : Option ℕ
  pub shopify_updated_at : Option ℕ
  pub deleted_at : Option ℕ

-- The text of a consent: a state in lower case or with capitals, or none of them.
pub data ConsentText : Type 0 where
  lower_case : ConsentState → ConsentText
  with_capitals : ConsentState → ConsentText
  unknown : ConsentText

pub record CustomerBody : Type 0 where
  pub id : IdText
  pub email : Option String
  pub phone : Option String
  pub first_name : Option String
  pub last_name : Option String
  pub email_consent : Option (Option ConsentText)
  pub sms_consent : Option (Option ConsentText)
  pub orders_count : Option ℕ
  pub created_at : ℕ
  pub updated_at : ℕ

-- toEmailMarketingConsentState
unfoldable pub to_consent_state : Option ConsentText → ConsentState
to_consent_state (some (lower_case s)) = s
to_consent_state (some (with_capitals s)) = s
to_consent_state _ = ConsentState.not_subscribed

-- `state === 'subscribed'` of a consent object that may be absent.
abbrev pub is_subscribed : Option (Option ConsentText) → Bool
is_subscribed (some (some (lower_case ConsentState.subscribed))) = true
is_subscribed _ = false

abbrev pub has_gid : ℕ → CustomerGid → Bool
has_gid n (gid k) = k == n
has_gid n (redacted i) = false

-- The composite unique key (merchantId, shopifyCustomerId).
abbrev pub is_customer : ℕ → ℕ → CustomerRow → Bool
is_customer m n c = c.merchant_id == m && has_gid n c.shopify_customer_id

abbrev pub is_live : Option ℕ → Bool
is_live none = true
is_live (some t) = false

abbrev pub is_live_customer : ℕ → ℕ → CustomerRow → Bool
is_live_customer m n c = is_customer m n c && is_live c.deleted_at

module _ {ℓ} {A : Type ℓ} where
  -- The first row that passes a test.
  unfoldable pub find_first : (A → Bool) → List A → Option A
  find_first p [] = none
  find_first p (a ∷ t) = if p a then some a else find_first p t

  -- Every row that passes a test is changed.
  unfoldable pub update_where : (A → Bool) → (A → A) → List A → List A
  update_where p f [] = []
  update_where p f (a ∷ t) = (if p a then f a else a) ∷ update_where p f t

-- The findUnique by the composite key, which the soft-delete filter confines to live rows.
abbrev pub find_by_shopify_id : ℕ → ℕ → List CustomerRow → Option CustomerRow
unfolding find_first
find_by_shopify_id m n cs = find_first (is_live_customer m n) cs

-- The fields that both branches of the upsert write.
abbrev pub shared_fields : CustomerBody → CustomerRow → CustomerRow
unfolding to_consent_state
shared_fields b c = record c {
  email = b.email;
  phone = b.phone;
  first_name = b.first_name;
  last_name = b.last_name;
  accepts_marketing = if is_subscribed b.email_consent then true else c.accepts_marketing;
  accepts_sms = if is_subscribed b.sms_consent then true else c.accepts_sms;
  consent = elim b.email_consent [ none ↦ c.consent | some s ↦ to_consent_state s ];
  orders_count = elim b.orders_count [ none ↦ c.orders_count | some k ↦ k ];
  shopify_created_at = some b.created_at;
  shopify_updated_at = some b.updated_at;
}

-- A row with the defaults of the schema.
abbrev pub blank_customer : ℕ → ℕ → ℕ → CustomerRow
blank_customer x m n = record {
  id = x;
  merchant_id = m;
  shopify_customer_id = gid n;
  email = none;
  phone = none;
  first_name = none;
  last_name = none;
  accepts_marketing = false;
  accepts_sms = false;
  consent = ConsentState.not_subscribed;
  orders_count = 0;
  shopify_created_at = none;
  shopify_updated_at = none;
  deleted_at = none;
}

pub record CustomerUpserted : Type 0 where
  pub customer_id : ℕ
  pub is_new_customer : Bool

-- The id of the row of the upsert.
abbrev pub upserted_id : ℕ → Option CustomerRow → ℕ
upserted_id x none = x
upserted_id x (some c) = c.id

abbrev pub upsert_row : ℕ → ℕ → ℕ → CustomerBody → List CustomerRow → List CustomerRow
unfolding update_where find_first
upsert_row x m n b cs =
    if found (find_first (is_customer m n) cs)
    then update_where (is_customer m n) (shared_fields b) cs
    else cs ++ shared_fields b (blank_customer x m n) ∷ []

abbrev is_absent : Option CustomerRow → Bool
is_absent none = true
is_absent (some c) = false

abbrev pub upsert_gid :
    ℕ
    → ℕ
    → Option ℕ
    → CustomerBody
    → List CustomerRow
    → Option (CustomerUpserted × List CustomerRow)
upsert_gid x m none b cs = none
upsert_gid x m (some n) b cs = some (
  record {
    customer_id = upserted_id x (find_first (is_customer m n) cs);
    is_new_customer = is_absent (find_by_shopify_id m n cs);
  },
  upsert_row x m n b cs,
)

-- `x` is the id that a new row gets; the validation error is `none`.
unfoldable pub upsert_from_webhook :
    ℕ → ℕ → CustomerBody → List CustomerRow → Option (CustomerUpserted × List CustomerRow)
unfolding find_first update_where to_consent_state
upsert_from_webhook x m b cs = upsert_gid x m (wrap b.id) b cs

unfoldable pub soft_delete : ℕ → ℕ → ℕ → List CustomerRow → Bool × List CustomerRow
unfolding find_first update_where
soft_delete now m n cs = (
  found (find_first (is_live_customer m n) cs),
  update_where (is_live_customer m n) (λ c. record c { deleted_at = some now }) cs,
)
