-- ===== src/Auth/Bearer.antt =====
-- `extract_bearer` of crates/postgresem/src/mcp_http_auth.rs, over the bytes of the header.
pub mod Laws
mod Trimmed
pub mod Accepted
use postgresem.Prelude.{
  ℕ, Bool, true, false, not, ◌&&◌, ◌||◌, Option, none, some, List, [], ◌∷◌, ◌++◌, leb, ltb, ◌==◌,
  length, all, any, is_empty, if◌then◌else◌,
}
use postgresem.Prelude.Results.{Result, ok, err, ◌>>=◌, ◌>>◌, reject_if}
use postgresem.Prelude.Text.{as_bytes}
use postgresem.Auth.{
  AuthError, missing_credentials, malformed_request, token_too_large, malformed_token, internal,
}
use postgresem.Auth.Words.{eq_ignore_ascii_case, split_once, split, is_base64url_byte}

abbrev pub is_blank_byte : ℕ → Bool
is_blank_byte c = c == b' ' || c == 9

-- `trim_start_matches`
unfoldable pub trim_start : (ℕ → Bool) → List ℕ → List ℕ
trim_start p [] = []
trim_start p (c ∷ cs) = if p c then trim_start p cs else c ∷ cs

-- `trim_end_matches`
unfoldable pub trim_end : (ℕ → Bool) → List ℕ → List ℕ
trim_end p [] = []
trim_end p (c ∷ cs) = let rest = trim_end p cs in if p c && is_empty rest then [] else c ∷ rest

-- `char::is_ascii_whitespace`
abbrev pub is_ascii_whitespace : ℕ → Bool
is_ascii_whitespace c = c == 32 || c == 9 || c == 10 || c == 12 || c == 13

abbrev pub is_segment : List ℕ → Bool
is_segment segment = not (is_empty segment) && all is_base64url_byte segment

-- three segments of base64url
abbrev pub is_compact : List (List ℕ) → Bool
is_compact (a ∷ b ∷ c ∷ []) = is_segment a && is_segment b && is_segment c
is_compact _ = false

-- `u64::MAX`, and `usize::MAX` on a target of 64 bits
abbrev pub max_u64 : ℕ
max_u64 = 18_446_744_073_709_551_615

-- `usize::try_from` of a `u64`, and `u64::try_from` of a `usize`
abbrev pub try_usize : ℕ → Result AuthError ℕ
try_usize n = if leb n max_u64 then ok n else err internal

-- the checks of `extract_bearer` on the token
unfoldable pub check_token : ℕ → List ℕ → Result AuthError (List ℕ)
check_token max_token_bytes token = do
  reject_if (is_empty token) missing_credentials
  reject_if (any is_ascii_whitespace token) malformed_request
  max ← try_usize max_token_bytes
  reject_if (ltb max (length token)) token_too_large
  reject_if (not (all (λ c. ltb c 128) token)) malformed_token
  reject_if (not (is_compact (split b'.' token))) malformed_token
  ok token

-- `extract_bearer`
unfoldable pub extract_bearer : ℕ → List ℕ → Result AuthError (List ℕ)
extract_bearer max_token_bytes header =
    let trimmed = trim_end is_blank_byte (trim_start is_blank_byte header) in
    if is_empty trimmed then err missing_credentials else elim (split_once b' ' trimmed) [
      | none ↦
          if eq_ignore_ascii_case trimmed (as_bytes "bearer")
          then err missing_credentials
          else err malformed_request
      | some (scheme, rest) ↦
          if eq_ignore_ascii_case scheme (as_bytes "bearer")
          then check_token max_token_bytes (trim_start (λ c. c == b' ') rest)
          else err malformed_request
    ]
