-- ===== src/Lsq/Literals/Timestamps.antt =====
-- `valid_timestamp` of crates/postgresem-compiler/src/lsq.rs against the form of an RFC 3339 time.
use postgresem.Prelude.{
  ℕ, ◌+◌, ◌≤◌, ◌<◌, ◌≡◌, ◌≢◌, ◌↔◌, refl, ap, sym, ◌∙◌, ℕ_discrete, inl, inr, true, false, List, [],
  ◌∷◌, ◌++◌, arith, length, length-append, length-drop, drop-drop, get_elem?-drop, Option, none,
  some, drop, get_elem?, Option-cases,
}
use postgresem.Lsq.Literals.{
  parse_digits, byte_is, skip_digits, valid_offset, valid_fraction, valid_timestamp_bytes,
  valid_date_bytes,
}
use postgresem.Lsq.Literals.Digits.{two_digits, parse-two_digits, two_digits-parse}
use postgresem.Lsq.Literals.Dates.{IsDate, date_text, valid_date_bytes_iff}
use postgresem.Lsq.Literals.Numerics.{IsFraction, fraction_text}
use postgresem.Lsq.Literals.Zones.{
  Zone, utc, east, west, IsZone, zone_text, drop-step, leading_split, leading-zone, stop_lem,
  offset-split, zone_sound, zone_complete, valid_offset-drop,
}

pub record Timestamp : Type 0 where
  pub year : ℕ
  pub month : ℕ
  pub day : ℕ
  pub hour : ℕ
  pub minute : ℕ
  pub second : ℕ
  pub fraction : Option (List ℕ)
  pub zone : Zone

-- A time of a calendar date, with digits after the point if there is one.
pub record IsTimestamp (t : Timestamp) : Type 0 where
  pub date : IsDate t.year t.month t.day
  pub hours : t.hour ≤ 23
  pub minutes : t.minute ≤ 59
  pub seconds : t.second ≤ 59
  pub fraction : IsFraction t.fraction
  pub zone : IsZone t.zone

abbrev clock_text : ℕ → ℕ → ℕ → List ℕ
clock_text hour minute second =
    b'T' ∷ two_digits hour ++ b':' ∷ two_digits minute ++ b':' ∷ two_digits second

abbrev tail_text : Option (List ℕ) → Zone → List ℕ
tail_text fraction zone = fraction_text fraction ++ zone_text zone

abbrev pub timestamp_text : Timestamp → List ℕ
timestamp_text t =
    date_text t.year t.month t.day
    ++ (clock_text t.hour t.minute t.second ++ tail_text t.fraction t.zone)

length-pos : (ds : List ℕ) → ds ≢ [] → 0 < length ds
length-pos [] h = absurd (h refl)
length-pos (d ∷ ds) h = omega arith

zone-ne-point : (z : Zone) → byte_is (zone_text z) 0 b'.' ≡ false
zone-ne-point utc = refl
zone-ne-point (east hour minute) = refl
zone-ne-point (west hour minute) = refl

zone_length : (z : Zone) → 1 ≤ length (zone_text z)
zone_length utc = omega arith
zone_length (east hour minute) = omega arith
zone_length (west hour minute) = omega arith

-- A point wants a digit behind it.
pos_of_stop :
    (bytes : List ℕ) (n : ℕ)
    → skip_digits (length bytes) bytes 20 ≡ 20 + n
    → (b : ℕ) → get_elem? bytes 19 ≡ some b
    → b ≡ b'.'
    → valid_fraction bytes ≡ true
    → 0 < n
unfolding valid_fraction
pos_of_stop bytes n e b at point v = ground arith

valid_fraction-IsFraction :
    (bytes : List ℕ)
    → 20 ≤ length bytes
    → valid_fraction bytes ≡ true
    → (fraction : Option (List ℕ)) × (zone : Zone) × IsFraction fraction
      × IsZone zone
      × (drop 19 bytes ≡ tail_text fraction zone)
unfolding valid_fraction
valid_fraction-IsFraction bytes long v = elim (drop-step bytes 19) [
  | inl e ↦ absurd (omega (arith, length-drop 19 bytes, ap length e))
  | inr (b, at, e) ↦ elim (ℕ_discrete b b'.') [
    | yes point ↦
        let (ds, more, split, digits, count) = leading_split (drop 20 bytes) in
        let stop : skip_digits (length bytes) bytes 20 ≡ 20 + length ds =
          stop_lem bytes (drop 20 bytes) refl long ∙ ap (λ k. 20 + k) count in
        let moved = offset-split bytes (drop 20 bytes) refl long ds more split in
        let ok : valid_offset more 0 ≡ true = ground arith in
        let (zone, is, text) = zone_sound more ok in
        (
          some ds,
          zone,
          (
            λ nil.
                absurd
                  (omega (arith, ap length nil, pos_of_stop bytes (length ds) stop b at point v)),
            digits,
          ),
          is,
          cc (e, split, text, point),
        )
    | no other ↦
        let moved = valid_offset-drop bytes 19 (omega arith) in
        let ok : valid_offset (drop 19 bytes) 0 ≡ true = ground arith in
        let (zone, is, text) = zone_sound (drop 19 bytes) ok in (none, zone, tt, is, text)
  ]
]

fraction_complete :
    (bytes : List ℕ) (fraction : Option (List ℕ)) (zone : Zone)
    → 20 ≤ length bytes
    → IsFraction fraction
    → IsZone zone
    → drop 19 bytes ≡ tail_text fraction zone
    → valid_fraction bytes ≡ true
unfolding valid_fraction
fraction_complete bytes none zone long f z e =
    let at = sym (get_elem?-drop 19 0 bytes) ∙ ap (λ l. get_elem? l 0) e in
    let moved = valid_offset-drop bytes 19 (omega arith) ∙ ap (λ l. valid_offset l 0) e in
    ground (arith, at, moved, zone-ne-point zone, zone_complete zone z)
fraction_complete bytes (some ds) zone long (full, digits) z e =
    let at = sym (get_elem?-drop 19 0 bytes) ∙ ap (λ l. get_elem? l 0) e in
    let after : drop 20 bytes ≡ ds ++ zone_text zone = sym (drop-drop 19 1 bytes) ∙ ap (drop 1) e in
    let stop : skip_digits (length bytes) bytes 20 ≡ 20 + length ds =
      stop_lem bytes (ds ++ zone_text zone) after long
      ∙ ap (λ k. 20 + k) (leading-zone ds zone digits) in
    let moved = offset-split bytes (ds ++ zone_text zone) after long ds (zone_text zone) refl in
    ground (arith, at, moved, length-pos ds full, zone_complete zone z)

complete : (t : Timestamp) → IsTimestamp t → valid_timestamp_bytes (timestamp_text t) ≡ true
unfolding valid_timestamp_bytes
complete t h =
    let date =
      (valid_date_bytes_iff (date_text t.year t.month t.day)).1
        (t.year, t.month, t.day, h.date, refl) in
    let rest =
      fraction_complete (timestamp_text t) t.fraction t.zone
        (omega
          (arith, length-append (fraction_text t.fraction) (zone_text t.zone), zone_length t.zone))
        h.fraction h.zone refl in
    ground (
      arith,
      date,
      rest,
      parse-two_digits t.hour,
      parse-two_digits t.minute,
      parse-two_digits t.second,
    )

-- What a true answer says of the first nineteen bytes and of the rest.
record Parsed (date : List ℕ) (t₀ a b c₀ d e c₁ f g : ℕ) (bytes : List ℕ) : Type 0 where
  is_date : valid_date_bytes date ≡ true
  hour : ℕ
  minute : ℕ
  second : ℕ
  hour_parsed : parse_digits (a ∷ b ∷ []) ≡ some hour
  minute_parsed : parse_digits (d ∷ e ∷ []) ≡ some minute
  second_parsed : parse_digits (f ∷ g ∷ []) ≡ some second
  marks : (t₀ ≡ b'T') × (c₀ ≡ b':') × (c₁ ≡ b':')
  in_day : (hour ≤ 23) × (minute ≤ 59) × (second ≤ 59)
  is_rest : valid_fraction bytes ≡ true

parsed :
    (y₀ y₁ y₂ y₃ s₀ m₀ m₁ s₁ d₀ d₁ t₀ a b c₀ d e c₁ f g : ℕ) (rest : List ℕ)
    → valid_timestamp_bytes (
        y₀ ∷ y₁ ∷ y₂ ∷ y₃ ∷ s₀ ∷ m₀ ∷ m₁ ∷ s₁ ∷ d₀ ∷ d₁ ∷ t₀ ∷ a ∷ b ∷ c₀ ∷ d ∷ e ∷ c₁ ∷ f ∷ g
        ∷ rest)
      ≡ true
    → Parsed (y₀ ∷ y₁ ∷ y₂ ∷ y₃ ∷ s₀ ∷ m₀ ∷ m₁ ∷ s₁ ∷ d₀ ∷ d₁ ∷ []) t₀ a b c₀ d e c₁ f g (
        y₀ ∷ y₁ ∷ y₂ ∷ y₃ ∷ s₀ ∷ m₀ ∷ m₁ ∷ s₁ ∷ d₀ ∷ d₁ ∷ t₀ ∷ a ∷ b ∷ c₀ ∷ d ∷ e ∷ c₁ ∷ f ∷ g
        ∷ rest)
unfolding valid_timestamp_bytes
parsed y₀ y₁ y₂ y₃ s₀ m₀ m₁ s₁ d₀ d₁ t₀ a b c₀ d e c₁ f g rest v =
    elim (Option-cases (parse_digits (a ∷ b ∷ []))) [
      | inl e₁ ↦ ground arith
      | inr (hour, e₁) ↦ elim (Option-cases (parse_digits (d ∷ e ∷ []))) [
        | inl e₂ ↦ ground arith
        | inr (minute, e₂) ↦ elim (Option-cases (parse_digits (f ∷ g ∷ []))) [
          | inl e₃ ↦ ground arith
          | inr (second, e₃) ↦ record {
            is_date = ground arith;
            hour = hour;
            minute = minute;
            second = second;
            hour_parsed = e₁;
            minute_parsed = e₂;
            second_parsed = e₃;
            marks = ground arith;
            in_day = ground arith;
            is_rest = ground arith;
          }
        ]
      ]
    ]

long_of_valid : (bytes : List ℕ) → valid_timestamp_bytes bytes ≡ true → 20 ≤ length bytes
unfolding valid_timestamp_bytes
long_of_valid bytes v = ground arith

sound :
    (bytes : List ℕ)
    → valid_timestamp_bytes bytes ≡ true
    → (t : Timestamp) × IsTimestamp t × (bytes ≡ timestamp_text t)
sound
      (y₀ ∷ y₁ ∷ y₂ ∷ y₃ ∷ s₀ ∷ m₀ ∷ m₁ ∷ s₁ ∷ d₀ ∷ d₁ ∷ t₀ ∷ a ∷ b ∷ c₀ ∷ d ∷ e ∷ c₁ ∷ f ∷ g
        ∷ rest)
      v =
    let z = parsed y₀ y₁ y₂ y₃ s₀ m₀ m₁ s₁ d₀ d₁ t₀ a b c₀ d e c₁ f g rest v in
    let (year, month, day, is_date, date_bytes) = (valid_date_bytes_iff _).0 z.is_date in
    let (fraction, zone, is_fraction, is_zone, tail) =
      valid_fraction-IsFraction _ (long_of_valid _ v) z.is_rest in
    (
      record {
        year = year;
        month = month;
        day = day;
        hour = z.hour;
        minute = z.minute;
        second = z.second;
        fraction = fraction;
        zone = zone;
      },
      record {
        date = is_date;
        hours = z.in_day.0;
        minutes = z.in_day.1;
        seconds = z.in_day.2;
        fraction = is_fraction;
        zone = is_zone;
      },
      cc (
        date_bytes,
        tail,
        two_digits-parse a b z.hour z.hour_parsed,
        two_digits-parse d e z.minute z.minute_parsed,
        two_digits-parse f g z.second z.second_parsed,
        z.marks.0,
        z.marks.1,
        z.marks.2,
      ),
    )
sound _ v = absurd (omega (arith, long_of_valid _ v))

-- The check accepts exactly the times YYYY-MM-DDThh:mm:ss of the calendar and of the day, with
-- an optional point and at least one digit, and then Z or an offset of the form +hh:mm or -hh:mm.
pub valid_timestamp_bytes_iff :
    (bytes : List ℕ)
    → (valid_timestamp_bytes bytes ≡ true)
      ↔ ((t : Timestamp) × IsTimestamp t × (bytes ≡ timestamp_text t))
valid_timestamp_bytes_iff bytes = (sound bytes, λ (t, h, e). rw e (complete t h))
