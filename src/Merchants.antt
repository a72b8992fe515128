-- ===== src/Merchants.antt =====
-- packages/db/src/repositories/merchant.repository.ts: the installs of a shop, its details and its uninstall, and
-- the handler of merchant.uninstalled (apps/drainer/src/handlers/merchant.ts). Shops are numbered; the id of a
-- new row is an argument. The tenant scope is modelled in Tenancy, and hardDelete in Compliance.
pub mod Lifecycle
use Prim.Native.String.{String}
use win_back_ai.Base.{
  ℕ, Bool, List, Option, none, some, true, false, [], ◌∷◌, ◌++◌, find_by, update_by, or_else,
}

-- UpdateEnrichmentArgs
pub record ShopDetails : Type 0 where
  pub email : Option String
  pub name : Option String
  pub country : Option String
  pub currency : Option String
  pub timezone : Option String
  pub shopify_plan : Option String

pub record Merchant : Type 0 where
  pub id : ℕ
  pub shop : ℕ
  pub details : Option ShopDetails
  pub shop_details_fetched_at : Option ℕ
  pub installed_at : ℕ
  pub uninstalled_at : Option ℕ
  pub token_revoked_at : Option ℕ

abbrev pub merchant_id : Merchant → ℕ
merchant_id r = r.id

abbrev pub merchant_shop : Merchant → ℕ
merchant_shop r = r.shop

abbrev pub id_of : Option Merchant → Option ℕ
id_of none = none
id_of (some r) = some r.id

unfoldable pub find_by_shop : ℕ → List Merchant → Option ℕ
unfolding find_by
find_by_shop shop t = id_of (find_by merchant_shop shop t)

abbrev pub new_merchant : ℕ → ℕ → ℕ → Merchant
new_merchant x shop now = record {
  id = x;
  shop = shop;
  details = none;
  shop_details_fetched_at = none;
  installed_at = now;
  uninstalled_at = none;
  token_revoked_at = none;
}

-- The update of a row that is installed again.
abbrev pub reinstalled : Merchant → Merchant
reinstalled r = record r { token_revoked_at = none; uninstalled_at = none }

abbrev pub upserted : ℕ → ℕ → ℕ → Option ℕ → List Merchant → (ℕ × Bool) × List Merchant
upserted x shop now none t = ((x, true), t ++ new_merchant x shop now ∷ [])
upserted x shop now (some i) t = ((i, false), update_by merchant_shop shop reinstalled t)

-- The id, whether the install is a new one, and the table.
unfoldable pub upsert_install : ℕ → ℕ → ℕ → List Merchant → (ℕ × Bool) × List Merchant
unfolding find_by_shop update_by
upsert_install x shop now t = upserted x shop now (find_by_shop shop t) t

abbrev pub enriched : ShopDetails → ℕ → Merchant → Merchant
enriched d now r = record r { details = some d; shop_details_fetched_at = some now }

-- `update`, which throws where there is no row, and changes none.
unfoldable pub update_enrichment : ℕ → ShopDetails → ℕ → List Merchant → List Merchant
unfolding update_by
update_enrichment m d now t = update_by merchant_id m (enriched d now) t

abbrev pub marked : ℕ → Merchant → Merchant
marked now r = record r { uninstalled_at = or_else r.uninstalled_at (some now) }

abbrev pub is_installed : Option Merchant → ℕ
is_installed none = 0
is_installed (some r) = elim r.uninstalled_at [ none ↦ 1 | some u ↦ 0 ]

-- `updateMany` of the row without a time of uninstall, and the number of rows that it writes.
unfoldable pub mark_uninstalled : ℕ → ℕ → List Merchant → ℕ × List Merchant
unfolding find_by update_by
mark_uninstalled m now t =
    (is_installed (find_by merchant_id m t), update_by merchant_id m (marked now) t)

-- The handler reads nothing but the merchant of the event.
unfoldable pub handle_merchant_uninstalled : ℕ → ℕ → List Merchant → List Merchant
unfolding mark_uninstalled
handle_merchant_uninstalled m now t = (mark_uninstalled m now t).1
