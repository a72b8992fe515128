-- ===== src/AiTone.antt =====
-- packages/contracts/src/ai-tone.ts: the schema of the tone, by what zod's combinators document: a strict object
-- refuses keys that it does not list, a default stands in for a key that is absent, and the length of a string is
-- in UTF-16 code units. A number of the JSON value is not looked into.
pub mod Parsed
use Prim.Native.String.{String}
use Prim.Native.Char.{code}
use text.Mathlib.Text.{◌==◌ as str_eq}
use win_back_ai.Base.{
  ℕ, Bool, Option, none, some, true, false, ◌+◌, ◌&&◌, ◌||◌, leb, ltb, if◌then◌else◌,
}

mutual
  pub data Json : Type 0 where
    null : Json
    bool : Bool → Json
    num : ℕ → Json
    string : String → Json
    arr : Items → Json
    obj : Fields → Json

  pub data Items : Type 0 where
    nil : Items
    cons : Json → Items → Items

  pub data Fields : Type 0 where
    end : Fields
    field : String → Json → Fields → Fields

-- `String.length`: a character above the basic plane takes two code units.
unfoldable pub js_length : String → ℕ
js_length String.[] = 0
js_length (String.◌∷◌ c s) = (if ltb 65535 (code c) then 2 else 1) + js_length s

unfoldable pub lookup : String → Fields → Option Json
lookup k end = none
lookup k (field j v fs) = if str_eq j k then some v else lookup k fs

-- AI_TONE_STYLES
unfoldable pub is_style : String → Bool
is_style s = str_eq s "formal" || str_eq s "casual" || str_eq s "playful" || str_eq s "professional"

-- AI_TONE_EMOJI_POLICIES
unfoldable pub is_emoji_policy : String → Bool
is_emoji_policy s = str_eq s "none" || str_eq s "minimal" || str_eq s "liberal"

-- z.string().min(1).max(100)
unfoldable pub is_phrase : Json → Bool
unfolding js_length
is_phrase (string s) = leb 1 (js_length s) && leb (js_length s) 100
is_phrase _ = false

unfoldable pub all_phrases : Items → Bool
unfolding is_phrase
all_phrases nil = true
all_phrases (cons x xs) = is_phrase x && all_phrases xs

unfoldable pub count_items : Items → ℕ
count_items nil = 0
count_items (cons x xs) = 1 + count_items xs

-- .strict()
unfoldable pub is_known : String → Bool
is_known k =
    str_eq k "style"
    || str_eq k "avoid"
    || str_eq k "emphasize"
    || str_eq k "emojiPolicy"
    || str_eq k "brandVoiceSample"
    || str_eq k "customInstructions"

unfoldable pub all_known : Fields → Bool
unfolding is_known
all_known end = true
all_known (field k v fs) = is_known k && all_known fs

pub record Tone : Type 0 where
  pub style : String
  pub avoid : Items
  pub emphasize : Items
  pub emoji_policy : String
  pub brand_voice_sample : Option String
  pub custom_instructions : Option String

unfoldable pub parse_style : Option Json → Option String
unfolding is_style
parse_style (some (string s)) = if is_style s then some s else none
parse_style _ = none

unfoldable pub parse_phrases : Option Json → Option Items
unfolding all_phrases count_items
parse_phrases none = some nil
parse_phrases (some (arr xs)) = if all_phrases xs && leb (count_items xs) 50 then some xs else none
parse_phrases _ = none

unfoldable pub parse_emoji_policy : Option Json → Option String
unfolding is_emoji_policy
parse_emoji_policy none = some "minimal"
parse_emoji_policy (some (string s)) = if is_emoji_policy s then some s else none
parse_emoji_policy _ = none

-- z.string().max(2000).optional()
unfoldable pub parse_long_text : Option Json → Option (Option String)
unfolding js_length
parse_long_text none = some none
parse_long_text (some (string s)) = if leb (js_length s) 2000 then some (some s) else none
parse_long_text _ = none

unfoldable pub join_tone :
    Option String
    → Option Items
    → Option Items
    → Option String
    → Option (Option String)
    → Option (Option String)
    → Option Tone
join_tone (some a) (some b) (some c) (some d) (some e) (some f) = some record {
  style = a;
  avoid = b;
  emphasize = c;
  emoji_policy = d;
  brand_voice_sample = e;
  custom_instructions = f;
}
join_tone _ _ _ _ _ _ = none

unfoldable pub parse_fields : Fields → Option Tone
unfolding lookup parse_style parse_phrases parse_emoji_policy parse_long_text join_tone all_known
parse_fields fs =
    if all_known fs
    then join_tone (parse_style (lookup "style" fs)) (parse_phrases (lookup "avoid" fs))
        (parse_phrases (lookup "emphasize" fs)) (parse_emoji_policy (lookup "emojiPolicy" fs))
        (parse_long_text (lookup "brandVoiceSample" fs))
        (parse_long_text (lookup "customInstructions" fs))
    else none

-- aiToneSchema.safeParse
unfoldable pub parse_tone : Json → Option Tone
unfolding parse_fields
parse_tone (obj fs) = parse_fields fs
parse_tone _ = none

-- A key that is absent stays so.
abbrev pub optional_field : String → Option String → Fields → Fields
optional_field k none fs = fs
optional_field k (some s) fs = field k (string s) fs

-- The parsed tone as a JSON value again.
unfoldable pub tone_json : Tone → Json
tone_json t = obj (
    field "style" (string t.style) (
      field "avoid" (arr t.avoid) (
        field "emphasize" (arr t.emphasize) (
          field "emojiPolicy" (string t.emoji_policy) (
            optional_field "brandVoiceSample" t.brand_voice_sample
              (optional_field "customInstructions" t.custom_instructions end))))))
