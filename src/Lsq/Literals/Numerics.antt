-- ===== src/Lsq/Literals/Numerics.antt =====
-- `valid_numeric` of crates/postgresem-compiler/src/lsq.rs against the form of a decimal number.
use postgresem.Prelude.{
  ℕ, suc, ◌+◌, ◌≤◌, ◌≡◌, ◌≢◌, ◌↔◌, ◌⊎◌, refl, ap, sym, ◌∙◌, ℕ_discrete, inl, inr, Bool, true, false,
  List, [], ◌∷◌, ◌++◌, arith, length, length-append, All, is_empty, Option, none, some, take, drop,
  get_elem?, all, Bool-cases, ◌==◌,
}
use mathlib.Core.List.{append-nil}
use native.Mathlib.Numerals.{add-one}
use postgresem.Prelude.Text.{is_ascii_digit}
use postgresem.Lsq.Literals.{dot_position, valid_unsigned, valid_numeric_bytes}
use postgresem.Lsq.Literals.Digits.{IsDigit}

pub record Numeral : Type 0 where
  pub negative : Bool
  pub integer : List ℕ
  pub fraction : Option (List ℕ)

abbrev pub fraction_text : Option (List ℕ) → List ℕ
fraction_text none = []
fraction_text (some digits) = b'.' ∷ digits

abbrev pub sign_text : Bool → List ℕ
sign_text true = b'-' ∷ []
sign_text false = []

abbrev pub numeral_text : Numeral → List ℕ
numeral_text n = sign_text n.negative ++ (n.integer ++ fraction_text n.fraction)

abbrev pub IsFraction : Option (List ℕ) → Type 0
IsFraction none = Unit
IsFraction (some digits) = (digits ≢ []) × All IsDigit digits

-- Digits before the point with no needless zero in front, and digits after it if there is one.
pub record IsNumeral (n : Numeral) : Type 0 where
  pub integer_digits : All IsDigit n.integer
  pub integer_ne_nil : n.integer ≢ []
  pub no_leading_zero : (length n.integer ≤ 1) ⊎ (get_elem? n.integer 0 ≢ some b'0')
  pub fraction_digits : IsFraction n.fraction

pub all_digits_iff : (bytes : List ℕ) → (all is_ascii_digit bytes ≡ true) ↔ All IsDigit bytes
all_digits_iff [] = ground arith
all_digits_iff (b ∷ bytes) = ground (arith, all_digits_iff bytes)

is_empty_iff : (xs : List ℕ) → (is_empty xs ≡ false) ↔ (xs ≢ [])
is_empty_iff xs = ground arith

dot_position-digits : (xs : List ℕ) → All IsDigit xs → dot_position xs ≡ length xs
unfolding dot_position
dot_position-digits [] h = refl
dot_position-digits (x ∷ xs) h = ground (arith, dot_position-digits xs)

dot_position-dot : (xs ys : List ℕ) → All IsDigit xs → dot_position (xs ++ b'.' ∷ ys) ≡ length xs
unfolding dot_position
dot_position-dot [] ys h = refl
dot_position-dot (x ∷ xs) ys h = ground (arith, dot_position-dot xs ys)

take-length : (xs ys : List ℕ) → take (length xs) (xs ++ ys) ≡ xs
take-length [] ys = refl
take-length (x ∷ xs) ys = ap (λ zs. x ∷ zs) (take-length xs ys)

take_all : (xs : List ℕ) → take (length xs) xs ≡ xs
take_all [] = refl
take_all (x ∷ xs) = ap (λ zs. x ∷ zs) (take_all xs)

drop_past : (xs ys : List ℕ) (y : ℕ) → drop (suc (length xs)) (xs ++ y ∷ ys) ≡ ys
drop_past [] ys y = refl
drop_past (x ∷ xs) ys y = drop_past xs ys y

-- The bytes are cut at the first point.
cut :
    (bytes : List ℕ)
    → (dot_position bytes ≡ length bytes)
      ⊎ ((xs : List ℕ) × (ys : List ℕ) × (bytes ≡ xs ++ b'.' ∷ ys)
          × (dot_position bytes ≡ length xs))
unfolding dot_position
cut [] = inl refl
cut (b ∷ bytes) = elim (Bool-cases (b == b'.')) [
  | inl e ↦ inr ([], bytes, ground arith, ground arith)
  | inr e ↦ elim (cut bytes) [
    | inl p ↦ inl (ground arith)
    | inr (xs, ys, q, p) ↦ inr (b ∷ xs, ys, ap (λ zs. b ∷ zs) q, ground arith)
  ]
]

-- `valid_unsigned` where the point, if any, stands after `xs`.
abbrev IsInteger : List ℕ → Type 0
IsInteger xs = All IsDigit xs × (xs ≢ []) × ((length xs ≤ 1) ⊎ (get_elem? xs 0 ≢ some b'0'))

valid_unsigned-IsInteger_iff :
    (xs : List ℕ) → dot_position xs ≡ length xs → (valid_unsigned xs ≡ true) ↔ IsInteger xs
unfolding valid_unsigned
valid_unsigned-IsInteger_iff xs e =
    rw (e, take_all xs) (ground (arith, all_digits_iff xs, is_empty_iff xs))

valid_unsigned-fraction_iff :
    (xs ys : List ℕ)
    → dot_position (xs ++ b'.' ∷ ys) ≡ length xs
    → (valid_unsigned (xs ++ b'.' ∷ ys) ≡ true) ↔ (IsInteger xs × (ys ≢ []) × All IsDigit ys)
unfolding valid_unsigned
valid_unsigned-fraction_iff xs ys e =
    let cut_off : drop (length xs + 1) (xs ++ b'.' ∷ ys) ≡ ys = rw add-one (drop_past xs ys b'.') in
    rw (e, take-length xs (b'.' ∷ ys), cut_off)
      (ground (
        arith,
        all_digits_iff xs,
        all_digits_iff ys,
        is_empty_iff xs,
        is_empty_iff ys,
        length-append xs (b'.' ∷ ys),
      ))

IsNumeral-unsigned :
    (negative : Bool) (xs : List ℕ) (fraction : Option (List ℕ))
    → IsInteger xs
    → IsFraction fraction
    → IsNumeral (record { negative = negative; integer = xs; fraction = fraction })
IsNumeral-unsigned negative xs fraction (digits, full, short) h = record {
  integer_digits = digits;
  integer_ne_nil = full;
  no_leading_zero = short;
  fraction_digits = h;
}

unsigned_sound :
    (negative : Bool) (bytes : List ℕ)
    → valid_unsigned bytes ≡ true
    → (n : Numeral) × IsNumeral n × (sign_text negative ++ bytes ≡ numeral_text n)
unsigned_sound negative bytes h = elim (cut bytes) [
  | inl p ↦ (
    record { negative = negative; integer = bytes; fraction = none },
    IsNumeral-unsigned negative bytes none ((valid_unsigned-IsInteger_iff bytes p).0 h) tt,
    ap (λ zs. sign_text negative ++ zs) (sym (append-nil bytes)),
  )
  | inr (xs, ys, q, p) ↦
      let (integer, full, digits) =
        (valid_unsigned-fraction_iff xs ys (ap dot_position (sym q) ∙ p)).0 (rw q at h) in
      (
        record { negative = negative; integer = xs; fraction = some ys },
        IsNumeral-unsigned negative xs (some ys) integer (full, digits),
        rw q,
      )
]

unsigned_complete :
    (xs : List ℕ) (fraction : Option (List ℕ))
    → IsInteger xs
    → IsFraction fraction
    → valid_unsigned (xs ++ fraction_text fraction) ≡ true
unsigned_complete xs none h _ =
    rw (append-nil xs) ((valid_unsigned-IsInteger_iff xs (dot_position-digits xs h.0)).1 h)
unsigned_complete xs (some ys) h k =
    (valid_unsigned-fraction_iff xs ys (dot_position-dot xs ys h.0)).1 (h, k.0, k.1)

-- The sign is cut off first.
valid_numeric-minus_iff :
    (bytes : List ℕ)
    → (valid_numeric_bytes (b'-' ∷ bytes) ≡ true) ↔ ((bytes ≢ []) × (valid_unsigned bytes ≡ true))
unfolding valid_numeric_bytes
valid_numeric-minus_iff bytes = ground arith

valid_numeric-plain_iff :
    (b : ℕ) (bytes : List ℕ)
    → b ≢ b'-'
    → (valid_numeric_bytes (b ∷ bytes) ≡ true) ↔ (valid_unsigned (b ∷ bytes) ≡ true)
unfolding valid_numeric_bytes
valid_numeric-plain_iff b bytes h = ground arith

sound :
    (bytes : List ℕ)
    → valid_numeric_bytes bytes ≡ true
    → (n : Numeral) × IsNumeral n × (bytes ≡ numeral_text n)
sound [] h = unfold valid_numeric_bytes in cc
sound (b ∷ bytes) h = elim (ℕ_discrete b b'-') [
  | yes e ↦ rw e (unsigned_sound true bytes ((valid_numeric-minus_iff bytes).0 (rw e at h)).1)
  | no e ↦ unsigned_sound false (b ∷ bytes) ((valid_numeric-plain_iff b bytes e).0 h)
]

complete :
    (negative : Bool) (xs : List ℕ) (fraction : Option (List ℕ))
    → IsInteger xs
    → IsFraction fraction
    → valid_numeric_bytes (sign_text negative ++ (xs ++ fraction_text fraction)) ≡ true
complete negative [] fraction h k = absurd (h.1 refl)
complete true (x ∷ xs) fraction h k =
    (valid_numeric-minus_iff (x ∷ xs ++ fraction_text fraction)).1
      (λ e. cc, unsigned_complete (x ∷ xs) fraction h k)
complete false (x ∷ xs) fraction h k =
    (valid_numeric-plain_iff x (xs ++ fraction_text fraction) (omega arith)).1
      (unsigned_complete (x ∷ xs) fraction h k)

-- The check accepts exactly the decimal numbers: an optional minus sign, digits with no needless
-- zero in front, and, after a point, at least one more digit.
pub valid_numeric_bytes_iff :
    (bytes : List ℕ)
    → (valid_numeric_bytes bytes ≡ true) ↔ ((n : Numeral) × IsNumeral n × (bytes ≡ numeral_text n))
valid_numeric_bytes_iff bytes = (
  sound bytes,
  λ (n, h, e). rw e (
      complete n.negative n.integer n.fraction
        (h.integer_digits, h.integer_ne_nil, h.no_leading_zero) h.fraction_digits),
)
