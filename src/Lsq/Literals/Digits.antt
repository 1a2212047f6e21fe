-- ===== src/Lsq/Literals/Digits.antt =====
-- `parse_digits` of crates/postgresem-compiler/src/lsq.rs against the value of a digit string.
use postgresem.Prelude.{
  ℕ, ◌+◌, ◌-◌, ◌*◌, ◌/◌, ◌%◌, ◌≤◌, ◌<◌, ◌≡◌, ◌↔◌, not, ◌&&◌, none, some, List, [], ◌∷◌, arith, ltb,
  if◌then◌else◌, all, is_empty,
}
use postgresem.Prelude.Text.{is_ascii_digit}
use postgresem.Lsq.Literals.{u32_mod, fold_digits, parse_digits}

-- The number that digits spell after a leading `value`, with no bound.
abbrev digits_value : ℕ → List ℕ → ℕ
digits_value value [] = value
digits_value value (byte ∷ bytes) = digits_value (value * 10 + (byte - b'0')) bytes

le-digits_value : (value : ℕ) (bytes : List ℕ) → value ≤ digits_value value bytes
le-digits_value value [] = omega arith
le-digits_value value (byte ∷ bytes) =
    omega (arith, le-digits_value (value * 10 + (byte - b'0')) bytes)

-- An overflow of a prefix is an overflow of the whole.
fold_digits_lem :
    (value : ℕ) (bytes : List ℕ)
    → value < u32_mod
    → fold_digits value bytes
      ≡ (if ltb (digits_value value bytes) u32_mod then some (digits_value value bytes) else none)
unfolding fold_digits
fold_digits_lem value [] h = ground arith
fold_digits_lem value (byte ∷ bytes) h = ground (
  arith,
  fold_digits_lem (value * 10 + (byte - b'0')) bytes,
  le-digits_value (value * 10 + (byte - b'0')) bytes,
)

-- `parse_digits` returns the number that a non-empty string of digits spells when it fits 32 bits,
-- and nothing for any other string: the checked arithmetic fails on no number that fits.
pub parse_digits_lem :
    (bytes : List ℕ)
    → parse_digits bytes ≡ (
        if not (is_empty bytes) && all is_ascii_digit bytes && ltb (digits_value 0 bytes) u32_mod
        then some (digits_value 0 bytes)
        else none)
unfolding parse_digits
parse_digits_lem bytes = ground (arith, fold_digits_lem 0 bytes)

abbrev pub IsDigit : ℕ → Type 0
IsDigit b = (b'0' ≤ b) × (b ≤ b'9')

-- Two and four digits always fit.
pub parse_two_iff :
    (a b n : ℕ)
    → (parse_digits (a ∷ b ∷ []) ≡ some n)
      ↔ (IsDigit a × IsDigit b × (n ≡ (a - 48) * 10 + (b - 48)))
parse_two_iff a b n = ground (arith, parse_digits_lem (a ∷ b ∷ []))

pub parse_four_iff :
    (a b c d n : ℕ)
    → (parse_digits (a ∷ b ∷ c ∷ d ∷ []) ≡ some n) ↔ (
        IsDigit a
        × IsDigit b
        × IsDigit c
        × IsDigit d
        × (n ≡ (a - 48) * 1000 + (b - 48) * 100 + (c - 48) * 10 + (d - 48)))
parse_four_iff a b c d n = ground (arith, parse_digits_lem (a ∷ b ∷ c ∷ d ∷ []))

-- The byte of the last decimal digit of a number.
abbrev pub digit : ℕ → ℕ
digit n = b'0' + n % 10

abbrev pub two_digits : ℕ → List ℕ
two_digits n = digit (n / 10) ∷ digit n ∷ []

abbrev pub four_digits : ℕ → List ℕ
four_digits n = digit (n / 1000) ∷ digit (n / 100) ∷ digit (n / 10) ∷ digit n ∷ []

-- Printing with leading zeros is the inverse of parsing.
pub parse-two_digits : (n : ℕ) → n < 100 → parse_digits (two_digits n) ≡ some n
parse-two_digits n h = (parse_two_iff (digit (n / 10)) (digit n) n).1 (omega arith)

pub parse-four_digits : (n : ℕ) → n < 10_000 → parse_digits (four_digits n) ≡ some n
parse-four_digits n h =
    (parse_four_iff (digit (n / 1000)) (digit (n / 100)) (digit (n / 10)) (digit n) n).1
      (omega arith)

pub two_digits-parse : (a b n : ℕ) → parse_digits (a ∷ b ∷ []) ≡ some n → a ∷ b ∷ [] ≡ two_digits n
two_digits-parse a b n e =
    let (p, q, v) = (parse_two_iff a b n).0 e in
    let tens : digit (n / 10) ≡ a = omega arith in let ones : digit n ≡ b = omega arith in cc

pub four_digits-parse :
    (a b c d n : ℕ)
    → parse_digits (a ∷ b ∷ c ∷ d ∷ []) ≡ some n
    → a ∷ b ∷ c ∷ d ∷ [] ≡ four_digits n
four_digits-parse a b c d n e =
    let (p, q, r, s, v) = (parse_four_iff a b c d n).0 e in
    let thousands : digit (n / 1000) ≡ a = omega arith in
    let hundreds : digit (n / 100) ≡ b = omega arith in
    let tens : digit (n / 10) ≡ c = omega arith in let ones : digit n ≡ d = omega arith in cc

pub parse_two-lt : (a b n : ℕ) → parse_digits (a ∷ b ∷ []) ≡ some n → n < 100
parse_two-lt a b n e = omega (arith, (parse_two_iff a b n).0 e)

pub parse_four-lt : (a b c d n : ℕ) → parse_digits (a ∷ b ∷ c ∷ d ∷ []) ≡ some n → n < 10_000
parse_four-lt a b c d n e = omega (arith, (parse_four_iff a b c d n).0 e)
