-- ===== src/Lsq/Literals/Zones.antt =====
-- The fraction and the offset of `valid_timestamp` of crates/postgresem-compiler/src/lsq.rs.
use mathlib.Core.Path.{ap₂}
use postgresem.Prelude.{
  ℕ, zero, suc, ◌+◌, ◌-◌, ◌≤◌, ◌≡◌, ◌⊎◌, refl, ap, sym, ℕ_discrete, ◌∙◌, inl, inr, true, List, [],
  ◌∷◌, ◌++◌, arith, length, length-append, length-drop, drop-drop, get_elem?-drop, All, none, some,
  take, drop, get_elem?, Bool-cases, Option-cases, if◌then◌else◌,
}
use postgresem.Prelude.Text.{is_ascii_digit}
use postgresem.Lsq.Literals.{parse_digits, slice, skip_digits, valid_offset}
use postgresem.Lsq.Literals.Digits.{IsDigit, two_digits, parse-two_digits, two_digits-parse}

pub data Zone : Type 0 where
  utc : Zone
  east west : ℕ → ℕ → Zone

abbrev pub zone_text : Zone → List ℕ
zone_text utc = b'Z' ∷ []
zone_text (east hour minute) = b'+' ∷ two_digits hour ++ b':' ∷ two_digits minute
zone_text (west hour minute) = b'-' ∷ two_digits hour ++ b':' ∷ two_digits minute

abbrev pub IsZone : Zone → Type 0
IsZone utc = Unit
IsZone (east hour minute) = (hour ≤ 23) × (minute ≤ 59)
IsZone (west hour minute) = (hour ≤ 23) × (minute ≤ 59)

-- The digits that a list begins with, counted.
pub leading : List ℕ → ℕ
leading [] = 0
leading (b ∷ bs) = if is_ascii_digit b then suc (leading bs) else 0

pub drop-step :
    (bytes : List ℕ) (position : ℕ)
    → (drop position bytes ≡ [])
      ⊎ ((b : ℕ) × (get_elem? bytes position ≡ some b)
          × (drop position bytes ≡ b ∷ drop (position + 1) bytes))
drop-step [] zero = inl refl
drop-step [] (suc p) = inl refl
drop-step (b ∷ bytes) zero = inr (b, refl, refl)
drop-step (b ∷ bytes) (suc p) = elim (drop-step bytes p) [
  | inl e ↦ inl e
  | inr (c, e, q) ↦ inr (
    c,
    e,
    q ∙ ap (λ k. c ∷ drop k (b ∷ bytes)) (let r : suc (p + 1) ≡ suc p + 1 = omega arith in r),
  )
]

get_elem?-none :
    (bytes : List ℕ) (position : ℕ) → drop position bytes ≡ [] → get_elem? bytes position ≡ none
get_elem?-none [] p e = refl
get_elem?-none (b ∷ bytes) zero e = cc
get_elem?-none (b ∷ bytes) (suc p) e = get_elem?-none bytes p e

-- The loop stops past the digits, and the fuel is enough.
skip_digits_lem :
    (fuel : ℕ) (bytes : List ℕ) (position : ℕ)
    → length (drop position bytes) ≤ fuel
    → skip_digits fuel bytes position ≡ position + leading (drop position bytes)
unfolding skip_digits leading
skip_digits_lem zero bytes p h = elim (drop-step bytes p) [
  | inl e ↦ rw e (omega arith)
  | inr (b, e, q) ↦ absurd (omega (arith, ap length q))
]
skip_digits_lem (suc fuel) bytes p h = elim (drop-step bytes p) [
  | inl e ↦ ground (arith, get_elem?-none bytes p e)
  | inr (b, e, q) ↦ ground (arith, ap length q, skip_digits_lem fuel bytes (p + 1))
]

-- The offset's test looks at the bytes from its position on, and at nothing else.
pub valid_offset-drop :
    (bytes : List ℕ) (position : ℕ)
    → position ≤ length bytes
    → valid_offset bytes position ≡ valid_offset (drop position bytes) 0
unfolding valid_offset
valid_offset-drop bytes p h =
    let at_0 : get_elem? bytes p ≡ get_elem? (drop p bytes) 0 =
      ap (get_elem? bytes) (omega arith) ∙ sym (get_elem?-drop p 0 bytes) in
    let at_3 = sym (get_elem?-drop p 3 bytes) in
    let hours : slice bytes (p + 1) (p + 3) ≡ slice (drop p bytes) 1 3 =
      ap₂ take (let e : p + 3 - (p + 1) ≡ 2 = omega arith in e) (sym (drop-drop p 1 bytes)) in
    let minutes : slice bytes (p + 4) (p + 6) ≡ slice (drop p bytes) 4 6 =
      ap₂ take (let e : p + 6 - (p + 4) ≡ 2 = omega arith in e) (sym (drop-drop p 4 bytes)) in
    ground (arith, at_0, at_3, ap parse_digits hours, ap parse_digits minutes, length-drop p bytes)

zone_bytes :
    (s a b c d e sign hour minute : ℕ)
    → s ≡ sign
    → c ≡ b':'
    → parse_digits (a ∷ b ∷ []) ≡ some hour
    → parse_digits (d ∷ e ∷ []) ≡ some minute
    → s ∷ a ∷ b ∷ c ∷ d ∷ e ∷ [] ≡ sign ∷ two_digits hour ++ b':' ∷ two_digits minute
zone_bytes s a b c d e sign hour minute p q h m =
    cc (two_digits-parse a b hour h, two_digits-parse d e minute m)

zone_six :
    (s a b c d e : ℕ)
    → valid_offset (s ∷ a ∷ b ∷ c ∷ d ∷ e ∷ []) 0 ≡ true
    → (z : Zone) × IsZone z × (s ∷ a ∷ b ∷ c ∷ d ∷ e ∷ [] ≡ zone_text z)
unfolding valid_offset
zone_six s a b c d e p = elim (Option-cases (parse_digits (a ∷ b ∷ []))) [
  | inl e₁ ↦ ground arith
  | inr (hour, e₁) ↦ elim (Option-cases (parse_digits (d ∷ e ∷ []))) [
    | inl e₂ ↦ ground arith
    | inr (minute, e₂) ↦ elim (ℕ_discrete s b'+') [
      | yes plus ↦ (
        east hour minute,
        ground arith,
        zone_bytes s a b c d e b'+' hour minute plus (ground arith) e₁ e₂,
      )
      | no other ↦ (
        west hour minute,
        ground arith,
        zone_bytes s a b c d e b'-' hour minute (ground arith) (ground arith) e₁ e₂,
      )
    ]
  ]
]

pub zone_sound :
    (bytes : List ℕ) → valid_offset bytes 0 ≡ true → (z : Zone) × IsZone z × (bytes ≡ zone_text z)
zone_sound (c ∷ []) h = (utc, tt, unfold valid_offset in ground arith)
zone_sound (s ∷ a ∷ b ∷ c ∷ d ∷ e ∷ []) h = zone_six s a b c d e h
zone_sound _ h = absurd (unfold valid_offset in ground arith)

pub zone_complete : (z : Zone) → IsZone z → valid_offset (zone_text z) 0 ≡ true
unfolding valid_offset
zone_complete utc h = ground arith
zone_complete (east hour minute) h = ground (arith, parse-two_digits hour, parse-two_digits minute)
zone_complete (west hour minute) h = ground (arith, parse-two_digits hour, parse-two_digits minute)

-- The digits in front, and what follows them.
pub leading_split :
    (bs : List ℕ)
    → (ds : List ℕ) × (more : List ℕ) × (bs ≡ ds ++ more)
      × All IsDigit ds
      × (leading bs ≡ length ds)
unfolding leading
leading_split [] = ([], [], refl, tt, refl)
leading_split (b ∷ bs) = elim (Bool-cases (is_ascii_digit b)) [
  | inl d ↦
      let (ds, more, e, h, k) = leading_split bs in
      (b ∷ ds, more, ap (λ l. b ∷ l) e, (ground arith, h), rw d (ap suc k))
  | inr d ↦ ([], b ∷ bs, refl, tt, rw d)
]

pub leading-zone :
    (ds : List ℕ) (z : Zone) → All IsDigit ds → leading (ds ++ zone_text z) ≡ length ds
unfolding leading
leading-zone [] utc h = refl
leading-zone [] (east hour minute) h = refl
leading-zone [] (west hour minute) h = refl
leading-zone (d ∷ ds) z h = ground (arith, leading-zone ds z h.1)

drop-length : (xs ys : List ℕ) → drop (length xs) (xs ++ ys) ≡ ys
drop-length [] ys = refl
drop-length (x ∷ xs) ys = drop-length xs ys

-- From the place of a point on.
module _ (bytes more : List ℕ) (at : drop 20 bytes ≡ more) (long : 20 ≤ length bytes) where
  pub stop_lem : skip_digits (length bytes) bytes 20 ≡ 20 + leading more
  stop_lem =
      skip_digits_lem (length bytes) bytes 20 (omega (arith, length-drop 20 bytes))
      ∙ ap (λ l. 20 + leading l) at

  pub offset-split :
      (ds tail : List ℕ)
      → more ≡ ds ++ tail
      → valid_offset bytes (20 + length ds) ≡ valid_offset tail 0
  offset-split ds tail e =
      let l = ap length at ∙ ap length e ∙ length-append ds tail in
      valid_offset-drop bytes (20 + length ds) (omega (arith, length-drop 20 bytes, l))
      ∙ ap (λ k. valid_offset k 0)
          (sym (drop-drop 20 (length ds) bytes)
            ∙ ap (drop (length ds)) (at ∙ e)
            ∙ drop-length ds tail)
