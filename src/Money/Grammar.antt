-- ===== src/Money/Grammar.antt =====
-- The texts that are money, and their amounts.
use win_back_ai.Money.{is_digit, big_int, span_digits, decimals, to_cents, parse_money_to_cents}
use win_back_ai.Base.{
  zero, suc, length, ==_iff, ◌↔◌, ℕ, List, some, true, false, [], ◌∷◌, ◌++◌, ◌≡◌, ◌+◌, ◌-◌, ◌*◌,
  ◌==◌, All, refl, Bool-cases, inl, inr, arith, ◌∙◌, ap, sym,
}

-- A number of whole units with no, one or two decimals.
pub data Fraction : Type 0 where
  whole : Fraction
  tenths : ℕ → Fraction
  hundredths : ℕ → ℕ → Fraction

abbrev pub suffix : Fraction → List ℕ
suffix whole = []
suffix (tenths a) = b'.' ∷ a ∷ []
suffix (hundredths a b) = b'.' ∷ a ∷ b ∷ []

abbrev pub IsFraction : Fraction → Type 0
IsFraction whole = Unit
IsFraction (tenths a) = is_digit a ≡ true
IsFraction (hundredths a b) = (is_digit a ≡ true) × (is_digit b ≡ true)

abbrev pub cents_of : Fraction → ℕ
cents_of whole = 0
cents_of (tenths a) = (a - b'0') * 10
cents_of (hundredths a b) = (a - b'0') * 10 + (b - b'0')

pub pow10 : ℕ → ℕ
pow10 zero = 1
pow10 (suc n) = 10 * pow10 n

-- The value of digits by their places.
pub place_value : List ℕ → ℕ
place_value [] = 0
place_value (c ∷ s) = (c - b'0') * pow10 (length s) + place_value s

-- A money text: at least one digit, and the decimals.
abbrev pub IsMoney : ℕ → List ℕ → Fraction → Type 0
IsMoney d ds f = All (λ c. is_digit c ≡ true) (d ∷ ds) × IsFraction f

-- The rest behind the digits does not begin with one.
abbrev Stops : List ℕ → Type 0
Stops [] = Unit
Stops (c ∷ s) = is_digit c ≡ false

span_all :
    (ds rest : List ℕ)
    → All (λ c. is_digit c ≡ true) ds
    → Stops rest
    → span_digits (ds ++ rest) ≡ (ds, rest)
unfolding span_digits
span_all [] [] h k = refl
span_all [] (c ∷ s) h k = rw k refl
span_all (d ∷ ds) rest h k = rw (span_all ds rest h.1 k, h.0) refl

suffix-Stops : (f : Fraction) → Stops (suffix f)
suffix-Stops whole = tt
suffix-Stops (tenths a) = refl
suffix-Stops (hundredths a b) = refl

decimals-suffix :
    (d : ℕ) (ds : List ℕ) (f : Fraction)
    → IsFraction f
    → to_cents (d ∷ ds) (decimals (suffix f)) ≡ some (big_int 0 (d ∷ ds) * 100 + cents_of f)
unfolding big_int
decimals-suffix d ds whole h = refl
decimals-suffix d ds (tenths a) h =
    rw h (ap (λ n. some (big_int (0 * 10 + (d - 48)) ds * 100 + n)) (omega arith))
decimals-suffix d ds (hundredths a b) h =
    rw (h.0, h.1) (ap (λ n. some (big_int (0 * 10 + (d - 48)) ds * 100 + n)) (omega arith))

spanned :
    (s : List ℕ)
    → (s ≡ (span_digits s).0 ++ (span_digits s).1) × All (λ c. is_digit c ≡ true) (span_digits s).0
unfolding span_digits
spanned [] = (refl, tt)
spanned (c ∷ s) = elim (Bool-cases (is_digit c)) [
  | inl e ↦ rw e ((ap (λ t. c ∷ t) (spanned s).0, (e, (spanned s).1)))
  | inr e ↦ rw e ((refl, tt))
]

shifted : (acc d p v : ℕ) → (acc * 10 + d) * p + v ≡ acc * (10 * p) + (d * p + v)
shifted acc d p v = grind arith

no_carry : (p v : ℕ) → 0 * p + v ≡ v
no_carry p v = omega arith

unit : (acc : ℕ) → acc ≡ acc * 1 + 0
unit acc = omega arith

big_int-place_value :
    (acc : ℕ) (s : List ℕ) → big_int acc s ≡ acc * pow10 (length s) + place_value s
unfolding big_int pow10 place_value
big_int-place_value acc [] = unit acc
big_int-place_value acc (c ∷ s) =
    big_int-place_value (acc * 10 + (c - b'0')) s
    ∙ shifted acc (c - b'0') (pow10 (length s)) (place_value s)

-- The amount of a text of digits and decimals, in cents.
abbrev pub amount : ℕ → List ℕ → Fraction → ℕ
amount d ds f = place_value (d ∷ ds) * 100 + cents_of f

money_reads :
    (d : ℕ) (ds : List ℕ) (f : Fraction)
    → IsMoney d ds f
    → parse_money_to_cents (d ∷ ds ++ suffix f) ≡ some (amount d ds f)
unfolding parse_money_to_cents
money_reads d ds f h = rw (span_all (d ∷ ds) (suffix f) h.0 (suffix-Stops f)) (
    decimals-suffix d ds f h.1
    ∙ ap (λ n. some (n * 100 + cents_of f))
        (big_int-place_value 0 (d ∷ ds)
          ∙ no_carry (pow10 (length (d ∷ ds))) (place_value (d ∷ ds))))

-- What is left behind the digits, where the text parses.
left_over :
    (d : ℕ) (ds rest : List ℕ) (n : ℕ)
    → to_cents (d ∷ ds) (decimals rest) ≡ some n
    → (f : Fraction) × (rest ≡ suffix f) × IsFraction f
left_over d ds [] n h = (whole, refl, tt)
left_over d ds (c ∷ []) n h = absurd (ground arith)
left_over d ds (c ∷ a ∷ []) n h = elim (Bool-cases (c == b'.')) [
  | inl e ↦ elim (Bool-cases (is_digit a)) [
    | inl k ↦ (tenths a, ap (λ x. x ∷ a ∷ []) ((==_iff c b'.').0 e), k)
    | inr k ↦ absurd (ground (arith, h, k, e))
  ]
  | inr e ↦ absurd (ground (arith, h, e))
]
left_over d ds (c ∷ a ∷ b ∷ []) n h = elim (Bool-cases (c == b'.')) [
  | inl e ↦ elim (Bool-cases (is_digit a)) [
    | inl k ↦ elim (Bool-cases (is_digit b)) [
      | inl l ↦ (hundredths a b, ap (λ x. x ∷ a ∷ b ∷ []) ((==_iff c b'.').0 e), (k, l))
      | inr l ↦ absurd (ground (arith, h, e, k, l))
    ]
    | inr k ↦ absurd (ground (arith, h, k, e))
  ]
  | inr e ↦ absurd (ground (arith, h, e))
]
left_over d ds (c ∷ a ∷ b ∷ x ∷ rest) n h = absurd (ground arith)

some_injective : {a b : ℕ} → some a ≡ some b → a ≡ b
some_injective h = cc

-- A text that parses is digits and decimals.
read_back :
    (s : List ℕ) (p : List ℕ × List ℕ) (n : ℕ)
    → s ≡ p.0 ++ p.1
    → All (λ c. is_digit c ≡ true) p.0
    → to_cents p.0 (decimals p.1) ≡ some n
    → (d : ℕ) × (ds : List ℕ) × (f : Fraction) × IsMoney d ds f × (s ≡ d ∷ ds ++ suffix f)
read_back s ([], rest) n e h k = absurd (ground arith)
read_back s (d ∷ ds, rest) n e h k =
    let (f, r, v) = left_over d ds rest n k in (d, ds, f, (h, v), e ∙ ap (λ t. d ∷ ds ++ t) r)

-- A text parses to an amount exactly where it is some digits with no, one or two decimals behind a point, and the
-- amount is then the one that the digits show by their places, in cents.
pub IsMoney-exact :
    (s : List ℕ) (n : ℕ)
    → (parse_money_to_cents s ≡ some n) ↔ (
        (d : ℕ) × (ds : List ℕ) × (f : Fraction) × IsMoney d ds f
        × (s ≡ d ∷ ds ++ suffix f)
        × (n ≡ amount d ds f))
unfolding parse_money_to_cents
IsMoney-exact s n = (forth, back)
  where
    back :
        ((d : ℕ) × (ds : List ℕ) × (f : Fraction) × IsMoney d ds f
          × (s ≡ d ∷ ds ++ suffix f)
          × (n ≡ amount d ds f))
        → parse_money_to_cents s ≡ some n
    back (d, ds, f, h, e, k) = ap parse_money_to_cents e ∙ money_reads d ds f h ∙ ap some (sym k)

    forth :
        parse_money_to_cents s ≡ some n
        → (d : ℕ) × (ds : List ℕ) × (f : Fraction) × IsMoney d ds f
          × (s ≡ d ∷ ds ++ suffix f)
          × (n ≡ amount d ds f)
    forth h =
        let (d, ds, f, v, e) = read_back s (span_digits s) n (spanned s).0 (spanned s).1 h in
        (d, ds, f, v, e, some_injective (sym h ∙ ap parse_money_to_cents e ∙ money_reads d ds f v))
