-- ===== src/Lsq/Literals/Dates.antt =====
-- `valid_date` of crates/postgresem-compiler/src/lsq.rs accepts exactly the calendar's dates.
use postgresem.Prelude.{
  ℕ, ◌%◌, ◌≤◌, ◌<◌, ◌≡◌, ◌≢◌, ◌↔◌, ◌⊎◌, true, some, List, [], ◌∷◌, arith, length, ◌++◌,
  Option-cases, inl, inr,
}
use postgresem.Lsq.Literals.{parse_digits, is_leap_year, divisible_by, days_of, valid_date_bytes}
use postgresem.Lsq.Literals.Digits.{
  two_digits, four_digits, parse_four-lt, parse-two_digits, parse-four_digits, two_digits-parse,
  four_digits-parse,
}

-- The Gregorian rule, by remainders.
abbrev pub IsLeap : ℕ → Type 0
IsLeap year = (year % 4 ≡ 0) × ((year % 100 ≢ 0) ⊎ (year % 400 ≡ 0))

-- The divisions of `is_leap_year` state the Gregorian rule.
pub is_leap_year_iff : (year : ℕ) → (is_leap_year year ≡ true) ↔ IsLeap year
unfolding is_leap_year divisible_by
is_leap_year_iff year = ground arith

abbrev pub date_text : ℕ → ℕ → ℕ → List ℕ
date_text year month day = four_digits year ++ b'-' ∷ two_digits month ++ b'-' ∷ two_digits day

-- The days of a month in the calendar.
abbrev pub InMonth : ℕ → ℕ → ℕ → Type 0
InMonth year month day =
    (day ≤ 28)
    ⊎ ((month ≡ 2) × (day ≤ 29) × IsLeap year)
    ⊎ ((month ≢ 2) × (day ≤ 30))
    ⊎ ((month ≢ 2) × (day ≤ 31) × (month ≢ 4) × (month ≢ 6) × (month ≢ 9) × (month ≢ 11))

days_of_iff : (year month day : ℕ) → (day ≤ days_of year month) ↔ InMonth year month day
unfolding days_of
days_of_iff year month day = ground (arith, is_leap_year_iff year)

-- A date of the calendar whose year has four digits.
pub record IsDate (year month day : ℕ) : Type 0 where
  pub year_fits : year < 10_000
  pub month_from : 1 ≤ month
  pub month_to : month ≤ 12
  pub day_from : 1 ≤ day
  pub day_to : InMonth year month day

complete :
    (year month day : ℕ)
    → IsDate year month day
    → valid_date_bytes (date_text year month day) ≡ true
unfolding valid_date_bytes
complete year month day h = ground (
  arith,
  parse-four_digits year h.year_fits,
  parse-two_digits month,
  parse-two_digits day,
  (days_of_iff year month day).1 h.day_to,
)

-- What a true answer says of ten bytes.
record Parsed (a b c d e f g h i j : ℕ) : Type 0 where
  year : ℕ
  month : ℕ
  day : ℕ
  year_parsed : parse_digits (a ∷ b ∷ c ∷ d ∷ []) ≡ some year
  month_parsed : parse_digits (f ∷ g ∷ []) ≡ some month
  day_parsed : parse_digits (i ∷ j ∷ []) ≡ some day
  dashes : (e ≡ b'-') × (h ≡ b'-')
  in_year : (1 ≤ month) × (month ≤ 12)
  in_month : (1 ≤ day) × (day ≤ days_of year month)

ten_bytes :
    (a b c d e f g h i j : ℕ)
    → valid_date_bytes (a ∷ b ∷ c ∷ d ∷ e ∷ f ∷ g ∷ h ∷ i ∷ j ∷ []) ≡ true
    → Parsed a b c d e f g h i j
unfolding valid_date_bytes
ten_bytes a b c d e f g h i j p = elim (Option-cases (parse_digits (a ∷ b ∷ c ∷ d ∷ []))) [
  | inl none₁ ↦ ground arith
  | inr (year, e₁) ↦ elim (Option-cases (parse_digits (f ∷ g ∷ []))) [
    | inl none₂ ↦ ground arith
    | inr (month, e₂) ↦ elim (Option-cases (parse_digits (i ∷ j ∷ []))) [
      | inl none₃ ↦ ground arith
      | inr (day, e₃) ↦ record {
        year = year;
        month = month;
        day = day;
        year_parsed = e₁;
        month_parsed = e₂;
        day_parsed = e₃;
        dashes = ground arith;
        in_year = ground arith;
        in_month = ground arith;
      }
    ]
  ]
]

length_of_valid : (bytes : List ℕ) → valid_date_bytes bytes ≡ true → length bytes ≡ 10
unfolding valid_date_bytes
length_of_valid bytes q = ground arith

sound :
    (bytes : List ℕ)
    → valid_date_bytes bytes ≡ true
    → (year : ℕ) × (month : ℕ) × (day : ℕ) × IsDate year month day
      × (bytes ≡ date_text year month day)
sound (a ∷ b ∷ c ∷ d ∷ e ∷ f ∷ g ∷ h ∷ i ∷ j ∷ []) q =
    let z = ten_bytes a b c d e f g h i j q in
    (
      z.year,
      z.month,
      z.day,
      record {
        year_fits = parse_four-lt a b c d z.year z.year_parsed;
        month_from = z.in_year.0;
        month_to = z.in_year.1;
        day_from = z.in_month.0;
        day_to = (days_of_iff z.year z.month z.day).0 z.in_month.1;
      },
      cc (
        four_digits-parse a b c d z.year z.year_parsed,
        two_digits-parse f g z.month z.month_parsed,
        two_digits-parse i j z.day z.day_parsed,
        z.dashes.0,
        z.dashes.1,
      ),
    )
sound _ q = absurd (omega (arith, length_of_valid _ q))

-- The check accepts exactly the dates of the Gregorian calendar, written YYYY-MM-DD with leading
-- zeros: every such text passes, and every text that passes is the text of such a date.
pub valid_date_bytes_iff :
    (bytes : List ℕ)
    → (valid_date_bytes bytes ≡ true) ↔ (
        (year : ℕ) × (month : ℕ) × (day : ℕ) × IsDate year month day
        × (bytes ≡ date_text year month day))
valid_date_bytes_iff bytes =
    (sound bytes, λ (year, month, day, h, e). rw e (complete year month day h))
