-- ===== src/Examples/Tenancies.antt =====
-- Queries of merchant 1 on customers, and a write of settings.
use win_back_ai.Outbox.{Scope}
use win_back_ai.Base.{◌∷◌, [], some, none, true, false, refl, ◌≡◌}
use win_back_ai.Tenancy.{
  apply_write_hooks, merchant_settings, Row, Where, passed, apply_read_hooks, WriteArgs, DataRow,
  customer, guarded, enforce_tenant_scope_on_write, row_list, cross_tenant, invalid_ai_tone,
}
use win_back_ai.Tenancy.Reads.{IsConfined, read_exact, is_matched, unique_read_unconfined}
use win_back_ai.Tenancy.Writes.{write_exact, own_write, is_foreign_write}
use win_back_ai.Tenancy.Parts.{unless, some_data, some_row}
use win_back_ai.Tenancy.Tones.{
  tone_write_exact, parsed_write, is_bad_write, is_bad_row, IsParsed, with_parsed_tone,
}
use win_back_ai.AiTone.{obj, field, string, end, parse_tone}

abbrev by_id : Where
by_id = record { id = some 7; merchant_id = none; deleted_at = none; others = λ r. true }

-- A customer of merchant 2.
abbrev stranger : Row
stranger = record { id = 7; merchant_id = some 2; deleted_at = none }

abbrev one_new : DataRow
one_new = record { id = none; merchant_id = none; ai_tone = none }

abbrev one_foreign : DataRow
one_foreign = record { id = none; merchant_id = some (some 2); ai_tone = none }

abbrev upsert : WriteArgs
upsert = record {
  filters = some by_id;
  values = none;
  create = some one_new;
  update = some one_foreign;
}

read_exact_example :
    IsConfined 1 customer by_id stranger (apply_read_hooks (Scope.merchant 1) customer false by_id)
read_exact_example = read_exact 1 customer by_id stranger refl

-- Merchant 1 sees the customer of merchant 2.
unique_read_unconfined_example :
    (v : Where) × (apply_read_hooks (Scope.merchant 1) customer true by_id ≡ passed v)
    × (is_matched v stranger ≡ true)
unique_read_unconfined_example = unique_read_unconfined 1 customer by_id stranger refl

write_exact_example :
    enforce_tenant_scope_on_write (Scope.merchant 1) guarded upsert
    ≡ unless (is_foreign_write 1 upsert) cross_tenant (own_write 1 upsert)
write_exact_example = write_exact 1 upsert

-- A row with a tone that takes its defaults, and one whose tone has a key that the schema does not list.
abbrev toned : DataRow
toned = record {
  id = none;
  merchant_id = some (some 1);
  ai_tone = some (some (obj (field "style" (string "casual") end)));
}

abbrev shrill : DataRow
shrill = record {
  id = none;
  merchant_id = some (some 1);
  ai_tone = some (some (obj (field "volume" (string "loud") end)));
}

abbrev two_settings : WriteArgs
two_settings = record {
  filters = none;
  values = some (row_list (toned ∷ shrill ∷ []));
  create = none;
  update = none;
}

two_settings_refused : is_bad_write two_settings ≡ true
unfolding some_data some_row parse_tone
two_settings_refused = refl

tone_write_exact_example :
    (apply_write_hooks Scope.system merchant_settings two_settings
      ≡ unless (is_bad_write two_settings) invalid_ai_tone (parsed_write two_settings))
    × ((r : DataRow) → is_bad_row r ≡ false → IsParsed (with_parsed_tone r))
tone_write_exact_example = tone_write_exact two_settings
