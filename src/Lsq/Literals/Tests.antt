-- ===== src/Lsq/Literals/Tests.antt =====
-- Runs of the literals' checks of crates/postgresem-compiler/src/lsq.rs.
use postgresem.Prelude.{◌≡◌, refl, true, false, inl, inr, none, some, arith}
use postgresem.Prelude.Text.{as_bytes}
use postgresem.Lsq.Literals.{
  fold_digits, days_of, parse_digits, is_leap_year, valid_date_bytes, valid_numeric_bytes,
  valid_timestamp_bytes,
}
use postgresem.Lsq.Literals.Digits.{parse_digits_lem}
use postgresem.Lsq.Literals.Dates.{is_leap_year_iff, valid_date_bytes_iff}
use postgresem.Lsq.Literals.Numerics.{valid_numeric_bytes_iff}
use postgresem.Lsq.Literals.Zones.{east}
use postgresem.Lsq.Literals.Timestamps.{valid_timestamp_bytes_iff}

parse_digits_example : parse_digits (as_bytes "4294967295") ≡ some 4_294_967_295
unfolding as_bytes
parse_digits_example = parse_digits_lem (as_bytes "4294967295")

parse_digits_overflow : parse_digits (as_bytes "4294967296") ≡ none
unfolding as_bytes parse_digits fold_digits
parse_digits_overflow = refl

is_leap_year_example : is_leap_year 2000 ≡ true
is_leap_year_example = (is_leap_year_iff 2000).1 (refl, inr refl)

valid_date_bytes_example : valid_date_bytes (as_bytes "2024-02-29") ≡ true
unfolding as_bytes
valid_date_bytes_example = (valid_date_bytes_iff (as_bytes "2024-02-29")).1 (
  2024,
  2,
  29,
  record {
    year_fits = omega arith;
    month_from = omega arith;
    month_to = omega arith;
    day_from = omega arith;
    day_to = inr (inl (refl, omega arith, ground arith));
  },
  refl,
)

no_such_date : valid_date_bytes (as_bytes "2023-02-29") ≡ false
unfolding as_bytes valid_date_bytes parse_digits fold_digits days_of is_leap_year
no_such_date = refl

valid_numeric_bytes_example : valid_numeric_bytes (as_bytes "-10.50") ≡ true
unfolding as_bytes
valid_numeric_bytes_example = (valid_numeric_bytes_iff (as_bytes "-10.50")).1 (
  record { negative = true; integer = as_bytes "10"; fraction = some (as_bytes "50") },
  record {
    integer_digits = ground arith;
    integer_ne_nil = ground arith;
    no_leading_zero = ground arith;
    fraction_digits = ground arith;
  },
  refl,
)

valid_timestamp_bytes_example :
    valid_timestamp_bytes (as_bytes "2024-12-31T23:59:59.5+09:00") ≡ true
unfolding as_bytes
valid_timestamp_bytes_example =
    (valid_timestamp_bytes_iff (as_bytes "2024-12-31T23:59:59.5+09:00")).1 (
      record {
        year = 2024;
        month = 12;
        day = 31;
        hour = 23;
        minute = 59;
        second = 59;
        fraction = some (as_bytes "5");
        zone = east 9 0;
      },
      record {
        date = record {
          year_fits = omega arith;
          month_from = omega arith;
          month_to = omega arith;
          day_from = omega arith;
          day_to = ground arith;
        };
        hours = omega arith;
        minutes = omega arith;
        seconds = omega arith;
        fraction = ground arith;
        zone = ground arith;
      },
      refl,
    )
