-- ===== src/Tenancy/Tones.antt =====
-- Writes of the settings of a merchant, whose tone is parsed by a schema.
use win_back_ai.Outbox.{Scope}
use win_back_ai.AiTone.{Json, Tone, parse_tone, tone_json}
use win_back_ai.AiTone.Parsed.{parse_tone-tone_json}
use win_back_ai.Base.{Bool, Option, false, true, ◌≡◌, some, none, refl, ap, ◌∙◌, mapped}
use win_back_ai.Tenancy.Parts.{
  unless, followed, either, some_data, each_data, each_row_of, is_given, each_part, either-false,
}
use win_back_ai.Tenancy.{
  passed, DataRow, WriteArgs, merchant_settings, apply_write_hooks, tone_of_row, map_data, in_part,
  validate_model_specific, validate_ai_tone, enforce_tenant_scope_on_write, parsed_tone,
  invalid_ai_tone,
}

abbrev is_refused : Option Tone → Bool
is_refused none = true
is_refused (some t) = false

-- The value of a parsed tone, or the one that was given where there is none.
abbrev json_or : Json → Option Tone → Json
json_or j none = j
json_or j (some t) = tone_json t

abbrev is_bad_tone : Option (Option Json) → Bool
is_bad_tone (some (some j)) = is_refused (parse_tone j)
is_bad_tone _ = false

abbrev tone_after : Option (Option Json) → Option (Option Json)
tone_after (some (some j)) = some (some (json_or j (parse_tone j)))
tone_after o = o

-- The row gives a tone that is not null and that the schema does not take.
abbrev pub is_bad_row : DataRow → Bool
is_bad_row r = is_bad_tone r.ai_tone

-- The row with the tone that the schema makes of its own: its defaults are filled in.
abbrev pub with_parsed_tone : DataRow → DataRow
with_parsed_tone r = record r { ai_tone = tone_after r.ai_tone }

tone_lem :
    (r : DataRow) → tone_of_row r ≡ unless (is_bad_row r) invalid_ai_tone (with_parsed_tone r)
tone_lem r = any r.ai_tone refl
  where
    any :
        (o : Option (Option Json))
        → r.ai_tone ≡ o
        → validate_ai_tone r o
          ≡ unless (is_bad_tone o) invalid_ai_tone (record r { ai_tone = tone_after o })
    any none e = ap (λ p. passed (record r { ai_tone = p })) e
    any (some none) e = ap (λ p. passed (record r { ai_tone = p })) e
    any (some (some j)) e = given (parse_tone j)
      where
        given :
            (o : Option Tone)
            → parsed_tone o r
              ≡ unless
                  (is_refused o)
                  invalid_ai_tone
                  (record r { ai_tone = some (some (json_or j o)) })
        given none = refl
        given (some t) = refl

-- Some row that is given is bad.
abbrev pub is_bad_write : WriteArgs → Bool
is_bad_write a =
    either (is_given (some_data is_bad_row) a.values)
      (either (is_given is_bad_row a.create) (is_given is_bad_row a.update))

-- The write with the parsed tone in each row and block.
abbrev pub parsed_write : WriteArgs → WriteArgs
parsed_write a = record a {
  values = mapped (each_row_of with_parsed_tone) a.values;
  create = mapped with_parsed_tone a.create;
  update = mapped with_parsed_tone a.update;
}

-- A row whose tone has been parsed gives a tone that the schema takes and leaves as it is.
abbrev pub IsParsed : DataRow → Type 0
IsParsed r = tone_of_row r ≡ passed r

tone-IsParsed : (r : DataRow) → is_bad_row r ≡ false → IsParsed (with_parsed_tone r)
tone-IsParsed r h = go r.ai_tone h
  where
    go :
        (o : Option (Option Json))
        → is_bad_tone o ≡ false
        → IsParsed (record r { ai_tone = tone_after o })
    go none h = refl
    go (some none) h = refl
    go (some (some j)) h = given (parse_tone j) refl h
      where
        given :
            (o : Option Tone)
            → parse_tone j ≡ o
            → is_refused o ≡ false
            → IsParsed (record r { ai_tone = some (some (json_or j o)) })
        given none e h = cc
        given (some t) e h =
            ap (λ o. parsed_tone o (record r { ai_tone = some (some (tone_json t)) }))
              (parse_tone-tone_json j t e)

-- A write of settings in system scope is refused exactly when some row, the create or the update block gives a tone
-- that is not null and that the schema does not take. When it goes on, it is the write that was asked for, with
-- every tone replaced by what the schema makes of it; and a row so written is one that the schema takes and
-- leaves as it is.
pub tone_write_exact :
    (a : WriteArgs)
    → (apply_write_hooks Scope.system merchant_settings a
        ≡ unless (is_bad_write a) invalid_ai_tone (parsed_write a))
      × ((r : DataRow) → is_bad_row r ≡ false → IsParsed (with_parsed_tone r))
unfolding apply_write_hooks enforce_tenant_scope_on_write validate_model_specific
tone_write_exact a = (
  followed (is_given (some_data is_bad_row) a.values) _ invalid_ai_tone
      (mapped (each_row_of with_parsed_tone) a.values) (parsed_write a) _
      (in_part (map_data tone_of_row) a.values)
      (each_part (some_data is_bad_row) invalid_ai_tone (each_row_of with_parsed_tone)
        (map_data tone_of_row)
        (each_data is_bad_row invalid_ai_tone with_parsed_tone tone_of_row tone_lem) a.values)
      (followed (is_given is_bad_row a.create) _ invalid_ai_tone (mapped with_parsed_tone a.create)
        (parsed_write a) _ (in_part tone_of_row a.create)
        (each_part is_bad_row invalid_ai_tone with_parsed_tone tone_of_row tone_lem a.create)
        (followed (is_given is_bad_row a.update) false invalid_ai_tone
            (mapped with_parsed_tone a.update) (parsed_write a) _ (in_part tone_of_row a.update)
            (each_part is_bad_row invalid_ai_tone with_parsed_tone tone_of_row tone_lem a.update)
            refl
          ∙ ap (λ b. unless b invalid_ai_tone (parsed_write a))
              (either-false (is_given is_bad_row a.update)))),
  tone-IsParsed,
)
