-- ===== src/Auth/Bearer/Laws.antt =====
-- Which headers `extract_bearer` of crates/postgresem/src/mcp_http_auth.rs accepts, and for which token.
use mathlib.Core.Path.{subst}
use postgresem.Prelude.{
  ℕ, ◌≤◌, ◌≡◌, ◌↔◌, refl, sym, ap, ◌∙◌, true, false, List, [], ◌∷◌, ◌++◌, ltb, ◌==◌, length, all,
  any, is_empty, arith, Bool-cases, Option-cases, inl, inr,
}
use postgresem.Prelude.Results.{ok}
use postgresem.Auth.Words.{split_once, split, extend}
use postgresem.Auth.Bearer.{
  is_blank_byte, trim_start, trim_end, is_ascii_whitespace, is_segment, is_compact, check_token,
  extract_bearer, max_u64,
}

-- three parts between dots
abbrev pub compact : List ℕ → List ℕ → List ℕ → List ℕ
compact a b c = a ++ b'.' ∷ (b ++ b'.' ∷ c)

-- A token in compact form, of three non-empty parts in base64url.
abbrev pub IsCompact : List ℕ → Type 0
IsCompact token =
    (a b c : List ℕ) × (token ≡ compact a b c)
    × (is_segment a ≡ true)
    × (is_segment b ≡ true)
    × (is_segment c ≡ true)

-- the parts, with the separator between them
join_at : ℕ → List (List ℕ) → List ℕ
join_at s [] = []
join_at s (x ∷ []) = x
join_at s (x ∷ y ∷ more) = x ++ s ∷ join_at s (y ∷ more)

join_at-extend :
    (s c : ℕ) (parts : List (List ℕ)) → join_at s (extend c parts) ≡ c ∷ join_at s parts
unfolding join_at
join_at-extend s c [] = refl
join_at-extend s c (x ∷ []) = refl
join_at-extend s c (x ∷ y ∷ more) = refl

split-cons : (s : ℕ) (cs : List ℕ) → (p : List ℕ) × (ps : List (List ℕ)) × (split s cs ≡ p ∷ ps)
unfolding split
split-cons s [] = ([], [], refl)
split-cons s (c ∷ cs) =
    let (p, ps, e) = split-cons s cs in
    elim (Bool-cases (c == s)) [
      | inl here ↦ ([], split s cs, rw here refl)
      | inr there ↦ (c ∷ p, ps, rw (there, e) refl)
    ]

after_separator :
    (s : ℕ) (parts : List (List ℕ)) (p : List ℕ) (ps : List (List ℕ))
    → parts ≡ p ∷ ps
    → join_at s ([] ∷ parts) ≡ s ∷ join_at s parts
unfolding join_at
after_separator s [] p ps e = cc
after_separator s (x ∷ xs) p ps e = refl

join_at-split : (s : ℕ) (cs : List ℕ) → join_at s (split s cs) ≡ cs
unfolding split join_at
join_at-split s [] = refl
join_at-split s (c ∷ cs) = elim (Bool-cases (c == s)) [
  | inl here ↦
      let (p, ps, e) = split-cons s cs in
      let same : c ≡ s = ground arith in
      rw here (
        after_separator s (split s cs) p ps e
        ∙ ap (λ ds. s ∷ ds) (join_at-split s cs)
        ∙ ap (λ d. d ∷ cs) (sym same))
  | inr there ↦ rw there (join_at-extend s c (split s cs) ∙ ap (λ ds. c ∷ ds) (join_at-split s cs))
]

of_parts :
    (token : List ℕ) (parts : List (List ℕ))
    → is_compact parts ≡ true
    → join_at b'.' parts ≡ token
    → IsCompact token
unfolding join_at
of_parts token [] h e = cc
of_parts token (a ∷ []) h e = cc
of_parts token (a ∷ b ∷ []) h e = cc
of_parts token (a ∷ b ∷ c ∷ []) h e = (a, b, c, sym e, ground arith, ground arith, ground arith)
of_parts token (a ∷ b ∷ c ∷ d ∷ more) h e = cc

split-IsCompact : (token : List ℕ) → is_compact (split b'.' token) ≡ true → IsCompact token
split-IsCompact token h = of_parts token (split b'.' token) h (join_at-split b'.' token)

pub check_token_iff :
    (max : ℕ) (given token : List ℕ)
    → (check_token max given ≡ ok token) ↔ (
        (is_empty given ≡ false)
        × (any is_ascii_whitespace given ≡ false)
        × (max ≤ max_u64)
        × (length given ≤ max)
        × (all (λ c. ltb c 128) given ≡ true)
        × (is_compact (split b'.' given) ≡ true)
        × (given ≡ token))
unfolding check_token
check_token_iff max given token = ground arith

check_token-IsCompact :
    (max : ℕ) (given token : List ℕ)
    → check_token max given ≡ ok token
    → (length token ≤ max) × IsCompact token
check_token-IsCompact max given token h =
    let (_, _, _, short, _, parts, same) = (check_token_iff max given token).0 h in
    subst (λ t. (length t ≤ max) × IsCompact t) same (short, split-IsCompact given parts)

-- A header that is accepted gives a token that is not longer than the configured bound and has the
-- compact form: three non-empty parts in base64url, with dots between them.
pub extract_bearer-IsCompact :
    (max : ℕ) (header token : List ℕ)
    → extract_bearer max header ≡ ok token
    → (length token ≤ max) × IsCompact token
unfolding extract_bearer
extract_bearer-IsCompact max header token h =
    elim (Option-cases
      (split_once b' ' (trim_end is_blank_byte (trim_start is_blank_byte header)))) [
        | inl alone ↦ ground arith
        | inr ((scheme, rest), parts) ↦
            check_token-IsCompact max (trim_start (λ c. c == b' ') rest) token (ground arith)
      ]
