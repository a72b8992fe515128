-- ===== src/Money.antt =====
-- packages/db/src/money.ts: a money text as the list of its code points. The validation error is `none`.
pub mod Grammar
use win_back_ai.Base.{
  ℕ, Bool, List, Option, none, some, [], ◌∷◌, ◌+◌, ◌-◌, ◌*◌, ◌&&◌, ◌==◌, leb, if◌then◌else◌,
}

abbrev pub is_digit : ℕ → Bool
is_digit c = leb b'0' c && leb c b'9'

-- BigInt of a text of digits.
unfoldable pub big_int : ℕ → List ℕ → ℕ
big_int acc [] = acc
big_int acc (c ∷ s) = big_int (acc * 10 + (c - b'0')) s

-- The leading digits, and what follows them.
unfoldable pub span_digits : List ℕ → List ℕ × List ℕ
span_digits [] = ([], [])
span_digits (c ∷ s) =
    let (ds, rest) = span_digits s in if is_digit c then (c ∷ ds, rest) else ([], c ∷ s)

-- The captured groups of MONEY_PATTERN, the second one padded with zeros to two digits.
abbrev pub decimals : List ℕ → Option (List ℕ)
decimals [] = some (b'0' ∷ b'0' ∷ [])
decimals (c ∷ a ∷ []) = if c == b'.' && is_digit a then some (a ∷ b'0' ∷ []) else none
decimals (c ∷ a ∷ b ∷ []) =
    if c == b'.' && (is_digit a && is_digit b) then some (a ∷ b ∷ []) else none
decimals s = none

abbrev pub to_cents : List ℕ → Option (List ℕ) → Option ℕ
to_cents [] f = none
to_cents (d ∷ ds) none = none
to_cents (d ∷ ds) (some f) = some (big_int 0 (d ∷ ds) * 100 + big_int 0 f)

unfoldable pub parse_money_to_cents : List ℕ → Option ℕ
unfolding big_int span_digits
parse_money_to_cents s = let (ds, rest) = span_digits s in to_cents ds (decimals rest)
