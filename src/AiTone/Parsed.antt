-- ===== src/AiTone/Parsed.antt =====
-- What the schema of packages/contracts/src/ai-tone.ts makes of a tone, it takes unchanged.
use Prim.Native.String.{String}
use mathlib.Core.Path.{subst}
use win_back_ai.AiTone.{
  Json, Items, Tone, parse_style, parse_phrases, parse_emoji_policy, parse_long_text, join_tone,
  parse_fields, parse_tone, tone_json, string, arr, obj, field, end, Fields, optional_field,
  all_known, lookup, is_known,
}
use win_back_ai.Base.{Option, none, some, ◌≡◌, arith, refl, Bool-cases, inl, inr}

abbrev as_json : Option String → Option Json
as_json none = none
as_json (some s) = some (string s)

style_again :
    (o : Option Json) (s : String) → parse_style o ≡ some s → parse_style (some (string s)) ≡ some s
unfolding parse_style
style_again o s h = ground arith

phrases_again :
    (o : Option Json) (xs : Items)
    → parse_phrases o ≡ some xs
    → parse_phrases (some (arr xs)) ≡ some xs
unfolding parse_phrases
phrases_again o xs h = ground arith

policy_again :
    (o : Option Json) (s : String)
    → parse_emoji_policy o ≡ some s
    → parse_emoji_policy (some (string s)) ≡ some s
unfolding parse_emoji_policy
policy_again none s h = subst (λ v. parse_emoji_policy (some (string v)) ≡ some v) minimal refl
  where
    minimal : "minimal" ≡ s
    minimal = cc
policy_again (some (string v)) s h = ground arith
policy_again (some Json.null) s h = cc
policy_again (some (Json.bool b)) s h = cc
policy_again (some (Json.num n)) s h = cc
policy_again (some (arr xs)) s h = cc
policy_again (some (obj fs)) s h = cc

long_text_again :
    (o : Option Json) (p : Option String)
    → parse_long_text o ≡ some p
    → parse_long_text (as_json p) ≡ some p
unfolding parse_long_text
long_text_again o p h = ground arith

again :
    (a : Option Json) (b c d e f : Option Json) (t : Tone)
    → join_tone
        (parse_style a)
        (parse_phrases b)
        (parse_phrases c)
        (parse_emoji_policy d)
        (parse_long_text e)
        (parse_long_text f)
      ≡ some t
    → join_tone
        (parse_style (some (string t.style)))
        (parse_phrases (some (arr t.avoid)))
        (parse_phrases (some (arr t.emphasize)))
        (parse_emoji_policy (some (string t.emoji_policy)))
        (parse_long_text (as_json t.brand_voice_sample))
        (parse_long_text (as_json t.custom_instructions))
      ≡ some t
unfolding join_tone
again a b c d e f t h = ground (
  arith,
  style_again a t.style,
  phrases_again b t.avoid,
  phrases_again c t.emphasize,
  policy_again d t.emoji_policy,
  long_text_again e t.brand_voice_sample,
  long_text_again f t.custom_instructions,
)

read_back :
    (t : Tone)
    → parse_tone (tone_json t)
      ≡ join_tone
          (parse_style (some (string t.style)))
          (parse_phrases (some (arr t.avoid)))
          (parse_phrases (some (arr t.emphasize)))
          (parse_emoji_policy (some (string t.emoji_policy)))
          (parse_long_text (as_json t.brand_voice_sample))
          (parse_long_text (as_json t.custom_instructions))
unfolding parse_tone parse_fields tone_json all_known lookup is_known
read_back t = go t.brand_voice_sample t.custom_instructions
  where
    go :
        (p q : Option String)
        → parse_fields (
            field "style" (string t.style) (
              field "avoid" (arr t.avoid) (
                field "emphasize" (arr t.emphasize) (
                  field "emojiPolicy" (string t.emoji_policy) (
                    optional_field "brandVoiceSample" p
                      (optional_field "customInstructions" q end))))))
          ≡ join_tone
              (parse_style (some (string t.style)))
              (parse_phrases (some (arr t.avoid)))
              (parse_phrases (some (arr t.emphasize)))
              (parse_emoji_policy (some (string t.emoji_policy)))
              (parse_long_text (as_json p))
              (parse_long_text (as_json q))
    go none none = refl
    go none (some q) = refl
    go (some p) none = refl
    go (some p) (some q) = refl

fields_again :
    (fs : Fields) (t : Tone) → parse_fields fs ≡ some t → parse_tone (tone_json t) ≡ some t
unfolding parse_fields
fields_again fs t h = elim (Bool-cases (all_known fs)) [
  | inl e ↦ rw (read_back t) (
      again (lookup "style" fs) (lookup "avoid" fs) (lookup "emphasize" fs)
        (lookup "emojiPolicy" fs) (lookup "brandVoiceSample" fs) (lookup "customInstructions" fs) t
        (rw e at h))
  | inr e ↦ let no : ◌≡◌ {A = Option Tone} none (some t) = (rw e at h) in cc
]

-- The schema takes what it has made, and makes the same of it.
pub parse_tone-tone_json :
    (j : Json) (t : Tone) → parse_tone j ≡ some t → parse_tone (tone_json t) ≡ some t
unfolding parse_tone
parse_tone-tone_json (obj fs) t h = fields_again fs t h
parse_tone-tone_json Json.null t h = cc
parse_tone-tone_json (Json.bool b) t h = cc
parse_tone-tone_json (Json.num n) t h = cc
parse_tone-tone_json (string s) t h = cc
parse_tone-tone_json (arr xs) t h = cc
