-- ===== src/Lsq/Literals.antt =====
-- crates/postgresem-compiler/src/lsq.rs: the checks of a literal's text, over its bytes.

mod Tests
pub mod Digits
pub mod Dates
pub mod Numerics
pub mod Zones
pub mod Timestamps
use postgresem.Prelude.{
  ℕ, ◌+◌, ◌-◌, ◌*◌, ◌/◌, ◌^◌, String, Bool, true, false, not, ◌&&◌, ◌||◌, Option, none, some, List,
  [], ◌∷◌, zero, suc, ltb, leb, ◌==◌, if◌then◌else◌, length, get_elem?, take, drop, is_empty, all,
}
use postgresem.Prelude.Text.{as_bytes, is_ascii_digit}
use postgresem.Lsq.{Literal, text, boolean, integer, numeric, date, timestamp}

-- `u32::MAX + 1`
abbrev pub u32_mod : ℕ
u32_mod = 2 ^ 32

abbrev pub checked_mul : ℕ → ℕ → Option ℕ
checked_mul a b = if ltb (a * b) u32_mod then some (a * b) else none

abbrev pub checked_add : ℕ → ℕ → Option ℕ
checked_add a b = if ltb (a + b) u32_mod then some (a + b) else none

-- the closure of `try_fold` in `parse_digits`
abbrev pub push_digit : ℕ → ℕ → Option ℕ
push_digit value byte = elim (checked_mul value 10) [
  | none ↦ none
  | some scaled ↦ checked_add scaled (byte - b'0')
]

-- `try_fold`
pub fold_digits : ℕ → List ℕ → Option ℕ
fold_digits value [] = some value
fold_digits value (byte ∷ bytes) = elim (push_digit value byte) [
  | none ↦ none
  | some next ↦ fold_digits next bytes
]

pub parse_digits : List ℕ → Option ℕ
parse_digits bytes =
    if is_empty bytes || not (all is_ascii_digit bytes) then none else fold_digits 0 bytes

pub divisible_by : ℕ → ℕ → Bool
divisible_by value divisor = value / divisor * divisor == value

pub is_leap_year : ℕ → Bool
unfolding divisible_by
is_leap_year year = divisible_by year 4 && (not (divisible_by year 100) || divisible_by year 400)

-- `bytes.get(i) == Some(&b)`
abbrev pub byte_is : List ℕ → ℕ → ℕ → Bool
byte_is bytes i b = elim (get_elem? bytes i) [ none ↦ false | some c ↦ c == b ]

-- `&bytes[from..to]`, for bounds within the slice
abbrev pub slice : List ℕ → ℕ → ℕ → List ℕ
slice bytes from to = take (to - from) (drop from bytes)

-- `match month` in `valid_date_bytes`
pub days_of : ℕ → ℕ → ℕ
days_of year month =
    if month == 2 && is_leap_year year
    then 29
    else if month == 2
    then 28
    else if month == 4 || month == 6 || month == 9 || month == 11
    then 30
    else 31

pub valid_date_bytes : List ℕ → Bool
valid_date_bytes bytes =
    if not (length bytes == 10) || not (byte_is bytes 4 b'-') || not (byte_is bytes 7 b'-')
    then false
    else elim (parse_digits (slice bytes 0 4)) [
      | none ↦ false
      | some year ↦ elim (parse_digits (slice bytes 5 7)) [
        | none ↦ false
        | some month ↦ elim (parse_digits (slice bytes 8 10)) [
          | none ↦ false
          | some day ↦
              if not (leb 1 month && leb month 12)
              then false
              else leb 1 day && leb day (days_of year month)
        ]
      ]
    ]

-- `iter().position(|byte| *byte == b'.')`, or the length
pub dot_position : List ℕ → ℕ
dot_position [] = 0
dot_position (byte ∷ bytes) = if byte == b'.' then 0 else suc (dot_position bytes)

-- `valid_numeric` after the sign
pub valid_unsigned : List ℕ → Bool
valid_unsigned unsigned =
    let integer_end = dot_position unsigned in
    let integer = take integer_end unsigned in
    let fraction = drop (integer_end + 1) unsigned in
    if is_empty integer
      || not (all is_ascii_digit integer)
      || (ltb 1 (length integer) && byte_is integer 0 b'0')
    then false
    else if integer_end == length unsigned
    then true
    else not (is_empty fraction) && all is_ascii_digit fraction

pub valid_numeric_bytes : List ℕ → Bool
valid_numeric_bytes bytes =
    let start = if byte_is bytes 0 b'-' then 1 else 0 in
    if is_empty bytes
    then false
    else if start == length bytes
    then false
    else valid_unsigned (drop start bytes)

-- `while bytes.get(position).is_some_and(u8::is_ascii_digit) { position += 1; }`
pub skip_digits : ℕ → List ℕ → ℕ → ℕ
skip_digits zero bytes position = position
skip_digits (suc fuel) bytes position = elim (get_elem? bytes position) [
  | none ↦ position
  | some byte ↦ elim (is_ascii_digit byte) [
    | true ↦ skip_digits fuel bytes (position + 1)
    | false ↦ position
  ]
]

-- `valid_timestamp` from the offset on
pub valid_offset : List ℕ → ℕ → Bool
valid_offset bytes position =
    if byte_is bytes position b'Z'
    then position + 1 == length bytes
    else if not (byte_is bytes position b'+' || byte_is bytes position b'-')
        || not (length bytes == position + 6)
        || not (byte_is bytes (position + 3) b':')
    then false
    else elim (parse_digits (slice bytes (position + 1) (position + 3))) [
      | none ↦ false
      | some offset_hour ↦ elim (parse_digits (slice bytes (position + 4) (position + 6))) [
        | none ↦ false
        | some offset_minute ↦ leb offset_hour 23 && leb offset_minute 59
      ]
    ]

-- `valid_timestamp` from the optional fraction on
pub valid_fraction : List ℕ → Bool
valid_fraction bytes =
    let stop = skip_digits (length bytes) bytes 20 in
    if byte_is bytes 19 b'.'
    then if stop == 20 then false else valid_offset bytes stop
    else valid_offset bytes 19

pub valid_timestamp_bytes : List ℕ → Bool
valid_timestamp_bytes bytes =
    if ltb (length bytes) 20
      || not (byte_is bytes 10 b'T')
      || not (valid_date_bytes (slice bytes 0 10))
    then false
    else if not (byte_is bytes 13 b':') || not (byte_is bytes 16 b':')
    then false
    else elim (parse_digits (slice bytes 11 13)) [
      | none ↦ false
      | some hour ↦ elim (parse_digits (slice bytes 14 16)) [
        | none ↦ false
        | some minute ↦ elim (parse_digits (slice bytes 17 19)) [
          | none ↦ false
          | some second ↦
              if ltb 23 hour || ltb 59 minute || ltb 59 second then false else valid_fraction bytes
        ]
      ]
    ]

pub valid_numeric : String → Bool
valid_numeric value = valid_numeric_bytes (as_bytes value)

pub valid_date : String → Bool
valid_date value = valid_date_bytes (as_bytes value)

pub valid_timestamp : String → Bool
valid_timestamp value = valid_timestamp_bytes (as_bytes value)

-- `Literal::is_well_formed`
unfoldable pub is_well_formed : Literal → Bool
is_well_formed (text _) = true
is_well_formed (boolean _) = true
is_well_formed (integer _) = true
is_well_formed (numeric value) = valid_numeric value
is_well_formed (date value) = valid_date value
is_well_formed (timestamp value) = valid_timestamp value

-- `Literal::type_name`
pub type_name : Literal → String
type_name (text _) = "text"
type_name (boolean _) = "boolean"
type_name (integer _) = "integer"
type_name (numeric _) = "numeric"
type_name (date _) = "date"
type_name (timestamp _) = "timestamp"
