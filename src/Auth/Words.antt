-- ===== src/Auth/Words.antt =====
-- crates/postgresem/src/mcp_http_auth.rs: the tests of words, and the texts of `str` that they use.
use Prim.Native.Char.{Char, code}
use Prim.Native.String.{char_at}
use postgresem.Prelude.{
  ℕ, ◌+◌, ◌-◌, String, Bool, true, false, not, ◌&&◌, ◌||◌, Option, none, some, List, [], ◌∷◌, leb,
  ltb, ◌==◌, length, all, is_empty, str_eq, if◌then◌else◌,
}
use postgresem.Prelude.Results.{Result, err, ◌>>◌, reject_if}
use postgresem.Prelude.Text.{as_bytes, is_ascii_digit}
use postgresem.Lsq.Literals.{parse_digits}
use postgresem.Auth.Library.{Algorithm}

-- `str::chars`, as code points
unfoldable pub chars : String → List ℕ
chars String.[] = []
chars (String.◌∷◌ c s) = code c ∷ chars s

-- `str::len`
abbrev pub byte_length : String → ℕ
byte_length value = length (as_bytes value)

-- `str::is_empty`
abbrev pub is_empty_text : String → Bool
is_empty_text s = is_empty (as_bytes s)

abbrev pub is_ascii_upper : ℕ → Bool
is_ascii_upper c = leb b'A' c && leb c b'Z'

abbrev pub is_ascii_alphabetic : ℕ → Bool
is_ascii_alphabetic c = is_ascii_upper c || (leb b'a' c && leb c b'z')

abbrev pub is_ascii_alphanumeric : ℕ → Bool
is_ascii_alphanumeric c = is_ascii_alphabetic c || is_ascii_digit c

abbrev lower_char : Char → Char
lower_char c =
    if is_ascii_upper (code c) then char_at "abcdefghijklmnopqrstuvwxyz" (code c - b'A') else c

-- `str::to_ascii_lowercase`
unfoldable pub to_ascii_lowercase : String → String
to_ascii_lowercase String.[] = ""
to_ascii_lowercase (String.◌∷◌ c s) = String.◌∷◌ (lower_char c) (to_ascii_lowercase s)

-- `char::is_control`: the category Cc of Unicode
abbrev pub is_control : ℕ → Bool
is_control c = leb c 0x1f || (leb 0x7f c && leb c 0x9f)

unfoldable pub parse_algorithm : String → Option Algorithm
parse_algorithm name =
    if str_eq name "RS256"
    then some Algorithm.rs256
    else if str_eq name "RS384"
    then some Algorithm.rs384
    else if str_eq name "RS512"
    then some Algorithm.rs512
    else if str_eq name "ES256"
    then some Algorithm.es256
    else if str_eq name "ES384"
    then some Algorithm.es384
    else if str_eq name "EdDSA"
    then some Algorithm.eddsa
    else none

abbrev pub is_scope_char : ℕ → Bool
is_scope_char c = c == 0x21 || (leb 0x23 c && leb c 0x5b) || (leb 0x5d c && leb c 0x7e)

unfoldable pub is_scope_token : String → Bool
is_scope_token value =
    not (is_empty (as_bytes value))
    && leb (byte_length value) 128
    && all is_scope_char (chars value)

-- a first character, and those that follow it
abbrev starts_and_goes_on : (ℕ → Bool) → (ℕ → Bool) → List ℕ → Bool
starts_and_goes_on first rest [] = false
starts_and_goes_on first rest (c ∷ cs) = first c && all rest cs

unfoldable pub is_claim_name : String → Bool
is_claim_name value =
    if is_empty (as_bytes value) || ltb 64 (byte_length value)
    then false
    else starts_and_goes_on (λ c. is_ascii_alphabetic c || c == b'_')
        (λ c. is_ascii_alphanumeric c || c == b'_' || c == b'.' || c == b'-') (chars value)

unfoldable pub is_authority_id : String → Bool
is_authority_id value =
    if is_empty (as_bytes value) || ltb 128 (byte_length value)
    then false
    else starts_and_goes_on is_ascii_alphanumeric
        (λ c. is_ascii_alphanumeric c || c == b'.' || c == b'_' || c == b':' || c == b'-')
        (chars value)

-- `str::split_once` at a character, over the characters
unfoldable pub split_once : ℕ → List ℕ → Option (List ℕ × List ℕ)
split_once separator [] = none
split_once separator (c ∷ cs) =
    if c == separator then some ([], cs) else elim (split_once separator cs) [
      | none ↦ none
      | some (before, after) ↦ some (c ∷ before, after)
    ]

-- a character before the first part
abbrev pub extend : ℕ → List (List ℕ) → List (List ℕ)
extend c [] = (c ∷ []) ∷ []
extend c (s ∷ ss) = (c ∷ s) ∷ ss

-- `str::split` at a character
unfoldable pub split : ℕ → List ℕ → List (List ℕ)
split separator [] = [] ∷ []
split separator (c ∷ cs) =
    let rest = split separator cs in if c == separator then [] ∷ rest else extend c rest

-- the digits of a port, of which there are at most five
abbrev pub is_port : List ℕ → Bool
is_port port =
    not (is_empty port)
    && leb (length port) 5
    && all is_ascii_digit port
    && elim (parse_digits port) [ none ↦ false | some p ↦ leb p 65_535 ]

abbrev pub is_host : List ℕ → Bool
is_host host =
    not (is_empty host) && all (λ c. is_ascii_alphanumeric c || c == b'.' || c == b'-') host

unfoldable pub is_host_pattern : String → Bool
is_host_pattern value =
    if is_empty (as_bytes value) || ltb 255 (byte_length value)
    then false
    else elim (split_once b':' (chars value)) [
      | none ↦ is_host (chars value)
      | some (host, port) ↦ is_host host && is_port port
    ]

unfoldable pub is_base64url_byte : ℕ → Bool
is_base64url_byte byte = is_ascii_alphanumeric byte || byte == b'-' || byte == b'_'

abbrev pub lower_code : ℕ → ℕ
lower_code c = if is_ascii_upper c then c + 32 else c

-- `eq_ignore_ascii_case`, over the characters
unfoldable pub eq_ignore_ascii_case : List ℕ → List ℕ → Bool
eq_ignore_ascii_case [] [] = true
eq_ignore_ascii_case (a ∷ as') (b ∷ bs) =
    lower_code a == lower_code b && eq_ignore_ascii_case as' bs
eq_ignore_ascii_case _ _ = false

abbrev has_reserved_prefix : List ℕ → Bool
has_reserved_prefix (a ∷ b ∷ c ∷ cs) = eq_ignore_ascii_case (a ∷ b ∷ c ∷ []) (chars "pg_")
has_reserved_prefix _ = false

abbrev validate_role_chars : List ℕ → Result String (Unit {0})
validate_role_chars [] = err "database role must not be empty"
validate_role_chars (c ∷ cs) = do
  reject_if (not (is_ascii_alphabetic c || c == b'_'))
      "database role must start with a letter or underscore"
  reject_if (not (all (λ d. is_ascii_alphanumeric d || d == b'_') cs))
      "database role contains an invalid character"
  reject_if (has_reserved_prefix (c ∷ cs)) "database role must not use the reserved pg_ prefix"

unfoldable pub validate_role : String → Result String (Unit {0})
validate_role role = do
  reject_if (is_empty (as_bytes role) || ltb 63 (byte_length role))
      "database role must be 1 to 63 bytes"
  validate_role_chars (chars role)
