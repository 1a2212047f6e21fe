-- ===== src/Auth/Bearer/Accepted.antt =====
-- The headers that `extract_bearer` of crates/postgresem/src/mcp_http_auth.rs is sure to accept.
use mathlib.Core.List.{append_assoc, append-nil}
use postgresem.Prelude.{
  ℕ, ◌≤◌, ◌≡◌, refl, sym, ap, ◌∙◌, Bool, true, false, not, ◌||◌, some, List, [], ◌∷◌, ◌++◌, ltb,
  ◌==◌, length, all, is_empty, arith,
}
use postgresem.Prelude.Results.{ok}
use postgresem.Prelude.Text.{as_bytes, utf8}
use postgresem.Auth.Words.{eq_ignore_ascii_case, split_once, split, is_base64url_byte}
use postgresem.Auth.Bearer.{
  is_blank_byte, trim_start, trim_end, is_ascii_whitespace, is_segment, is_compact, check_token,
  extract_bearer, max_u64,
}
use postgresem.Auth.Bearer.Laws.{compact, check_token_iff}
use postgresem.Auth.Bearer.Trimmed.{
  all-append, all_mono, trim_start-append, trim_start-kept, trim_end-append, trim_end-kept,
  split_once-append, split-none, split-append, is_empty-append, any-none,
}

-- the characters of a token: those of base64url, and the dot
is_token_byte : ℕ → Bool
is_token_byte c = is_base64url_byte c || c == b'.'

token_byte-no_space : (c : ℕ) → is_token_byte c ≡ true → not (is_ascii_whitespace c) ≡ true
unfolding is_token_byte is_base64url_byte
token_byte-no_space c h = ground arith

token_byte-ascii : (c : ℕ) → is_token_byte c ≡ true → ltb c 128 ≡ true
unfolding is_token_byte is_base64url_byte
token_byte-ascii c h = ground arith

base64url-no_dot : (c : ℕ) → is_base64url_byte c ≡ true → not (c == b'.') ≡ true
unfolding is_base64url_byte
base64url-no_dot c h = ground arith

-- Letters that are the same but for their case are blank together.
eq_ignore-no_blank :
    (s t : List ℕ)
    → eq_ignore_ascii_case s t ≡ true
    → all (λ c. not (is_blank_byte c)) t ≡ true
    → all (λ c. not (is_blank_byte c)) s ≡ true
unfolding eq_ignore_ascii_case
eq_ignore-no_blank [] t h k = refl
eq_ignore-no_blank (x ∷ xs) [] h k = cc
eq_ignore-no_blank (x ∷ xs) (y ∷ ys) h k =
    ground (arith, eq_ignore-no_blank xs ys (ground arith) (ground arith))

module _ (a b c : List ℕ) (p : is_segment a ≡ true) (q : is_segment b ≡ true)
    (r : is_segment c ≡ true) where
  segment_bytes : (s : List ℕ) → is_segment s ≡ true → all is_token_byte s ≡ true
  unfolding is_token_byte
  segment_bytes s h =
      all_mono is_base64url_byte is_token_byte (λ c k. ground arith) s (ground arith)

  no_dot : (s : List ℕ) → is_segment s ≡ true → all (λ d. not (d == b'.')) s ≡ true
  no_dot s h = all_mono is_base64url_byte _ base64url-no_dot s (ground arith)

  dot : all is_token_byte (b'.' ∷ []) ≡ true
  unfolding is_token_byte is_base64url_byte
  dot = refl

  after_dot : (s : List ℕ) → all is_token_byte s ≡ true → all is_token_byte (b'.' ∷ s) ≡ true
  after_dot s h = ground (arith, dot)

  token_bytes : all is_token_byte (compact a b c) ≡ true
  token_bytes = all-append is_token_byte a _ (segment_bytes a p) (
      after_dot _
        (all-append is_token_byte b _ (segment_bytes b q) (after_dot c (segment_bytes c r))))

  token-not_empty : is_empty (compact a b c) ≡ false
  token-not_empty = is_empty-append a (b'.' ∷ (b ++ b'.' ∷ c)) refl

  parts : is_compact (split b'.' (compact a b c)) ≡ true
  parts =
      ap is_compact (
        split-append b'.' a (b ++ b'.' ∷ c) (no_dot a p)
        ∙ ap (λ ss. a ∷ ss)
            (split-append b'.' b c (no_dot b q)
              ∙ ap (λ ss. b ∷ ss) (split-none b'.' c (no_dot c r))))
      ∙ ground arith

  token-no_space : all (λ d. not (is_ascii_whitespace d)) (compact a b c) ≡ true
  token-no_space = all_mono is_token_byte _ token_byte-no_space (compact a b c) token_bytes

  token-no_blank : all (λ d. not (is_blank_byte d)) (compact a b c) ≡ true
  token-no_blank =
      all_mono (λ d. not (is_ascii_whitespace d)) _ (λ d h. ground arith) (compact a b c)
        token-no_space

  kept_token : trim_start (λ d. d == b' ') (compact a b c) ≡ compact a b c
  kept_token =
      ap (trim_start (λ d. d == b' ')) (sym (append-nil (compact a b c)))
      ∙ trim_start-kept (λ d. d == b' ') (compact a b c) [] token-not_empty
          (all_mono (λ d. not (is_blank_byte d)) _ (λ d h. ground arith) (compact a b c)
            token-no_blank)
      ∙ append-nil (compact a b c)

  checked :
      (max : ℕ)
      → max ≤ max_u64
      → length (compact a b c) ≤ max
      → check_token max (compact a b c) ≡ ok (compact a b c)
  checked max small h = (check_token_iff max (compact a b c) (compact a b c)).1 (
    token-not_empty,
    any-none is_ascii_whitespace (compact a b c) token-no_space,
    small,
    h,
    all_mono is_token_byte _ token_byte-ascii (compact a b c) token_bytes,
    parts,
    refl,
  )

bearer-no_blank : all (λ c. not (is_blank_byte c)) (as_bytes "bearer") ≡ true
unfolding as_bytes utf8
bearer-no_blank = refl

scheme-not_empty :
    (scheme : List ℕ)
    → eq_ignore_ascii_case scheme (as_bytes "bearer") ≡ true
    → is_empty scheme ≡ false
unfolding eq_ignore_ascii_case as_bytes utf8
scheme-not_empty [] h = cc
scheme-not_empty (c ∷ cs) h = refl

module _ (before scheme spaces token after : List ℕ) where
  abbrev body : List ℕ
  body = scheme ++ b' ' ∷ (spaces ++ token)

  body-trimmed :
      all is_blank_byte before ≡ true
      → all is_blank_byte after ≡ true
      → is_empty scheme ≡ false
      → all (λ c. not (is_blank_byte c)) scheme ≡ true
      → is_empty token ≡ false
      → all (λ c. not (is_blank_byte c)) token ≡ true
      → trim_end is_blank_byte (trim_start is_blank_byte (before ++ (body ++ after))) ≡ body
  body-trimmed h k s s' t t' =
      ap (trim_end is_blank_byte) (
        trim_start-append is_blank_byte before (body ++ after) h
        ∙ ap (trim_start is_blank_byte) (append_assoc scheme (b' ' ∷ (spaces ++ token)) after)
        ∙ trim_start-kept is_blank_byte scheme (b' ' ∷ (spaces ++ token) ++ after) s s'
        ∙ sym (append_assoc scheme (b' ' ∷ (spaces ++ token)) after))
      ∙ trim_end-append is_blank_byte body after k
      ∙ ap (trim_end is_blank_byte) (sym (append_assoc scheme (b' ' ∷ spaces) token))
      ∙ trim_end-kept is_blank_byte (scheme ++ b' ' ∷ spaces) token t t'
      ∙ append_assoc scheme (b' ' ∷ spaces) token

  extracted :
      (max : ℕ)
      → trim_end is_blank_byte (trim_start is_blank_byte (before ++ (body ++ after))) ≡ body
      → split_once b' ' body ≡ some (scheme, spaces ++ token)
      → eq_ignore_ascii_case scheme (as_bytes "bearer") ≡ true
      → trim_start (λ c. c == b' ') (spaces ++ token) ≡ token
      → check_token max token ≡ ok token
      → is_empty body ≡ false
      → extract_bearer max (before ++ (body ++ after)) ≡ ok token
  unfolding extract_bearer
  extracted max e parts s trimmed checks some' = rw (e, some', parts, s, trimmed) checks

-- A header is accepted for the token in it when it is the scheme `bearer` in letters of either case, at
-- least one space, and three non-empty parts in base64url with dots between them, within any spaces
-- and tabs; the token is what it gives, provided it is not longer than the configured bound, which
-- is a `u64`.
pub extract_bearer-compact :
    (max : ℕ) (before scheme spaces a b c after : List ℕ)
    → all is_blank_byte before ≡ true
    → eq_ignore_ascii_case scheme (as_bytes "bearer") ≡ true
    → all (λ d. d == b' ') spaces ≡ true
    → is_segment a ≡ true
    → is_segment b ≡ true
    → is_segment c ≡ true
    → all is_blank_byte after ≡ true
    → max ≤ max_u64
    → length (compact a b c) ≤ max
    → extract_bearer max (before ++ (scheme ++ b' ' ∷ (spaces ++ compact a b c) ++ after))
      ≡ ok (compact a b c)
extract_bearer-compact max before scheme spaces a b c after h s sp p q r k small short =
    let token = compact a b c in
    let no_blank = eq_ignore-no_blank scheme (as_bytes "bearer") s bearer-no_blank in
    let not_empty = scheme-not_empty scheme s in
    extracted before scheme spaces token after max
      (body-trimmed before scheme spaces token after h k not_empty no_blank
        (token-not_empty a b c p q r) (token-no_blank a b c p q r))
      (split_once-append b' ' scheme (spaces ++ token)
        (all_mono (λ d. not (is_blank_byte d)) _ (λ d e. ground arith) scheme no_blank))
      s (trim_start-append (λ d. d == b' ') spaces token sp ∙ kept_token a b c p q r)
      (checked a b c p q r max small short) (is_empty-append scheme (b' ' ∷ (spaces ++ token)) refl)
