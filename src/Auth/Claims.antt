-- ===== src/Auth/Claims.antt =====
-- The checks of crates/postgresem/src/mcp_http_auth.rs on the claims of a token.
use Prim.Native.Char.{Char, code}
use postgresem.Prelude.{
  ℕ, suc, String, Bool, false, not, ◌||◌, Option, none, some, List, [], ◌∷◌, leb, ltb, ◌==◌, length,
  any, is_empty, str_eq, if◌then◌else◌,
}
use postgresem.Prelude.Results.{Result, ok, err, ◌>>=◌, ◌>>◌, reject_if, ok_or, or_error}
use postgresem.Prelude.Text.{as_bytes}
use postgresem.Prelude.Ordered.{set_insert}
use postgresem.Lsq.{ℤ, pos, negsuc}
use postgresem.Lsm.Json.{Value, Values, Members, Number, nil, cons, end, member}
use postgresem.Auth.{
  AuthError, AuthorityDocument, invalid_issuer, invalid_audience, invalid_claims, token_expired,
  token_not_yet_valid, token_too_old, internal,
}
use postgresem.Auth.Words.{chars, byte_length, is_control, is_scope_token}
use postgresem.Auth.Integers.{max_i64, ltb_ℤ, saturating_add, saturating_sub}

-- `Map::get`
unfoldable pub get : String → Members → Option Value
get key end = none
get key (member k v more) = if str_eq k key then some v else get key more

-- `Map::len`
unfoldable pub count : Members → ℕ
count end = 0
count (member k v more) = suc (count more)

-- the length of an array
unfoldable pub array_length : Values → ℕ
array_length nil = 0
array_length (cons v vs) = suc (array_length vs)

-- `Value::as_str`
abbrev pub as_str : Value → Option String
as_str (Value.string text) = some text
as_str _ = none

abbrev text_of : Option Value → Option String
text_of none = none
text_of (some v) = as_str v

unfoldable pub bounded_string : Option Value → ℕ → Result AuthError String
bounded_string value max = do
  text ← ok_or (text_of value) invalid_claims
  reject_if (is_empty (as_bytes text) || ltb max (byte_length text) || any is_control (chars text))
      invalid_claims
  ok text

-- `Number::as_i64`
abbrev pub as_i64 : Number → Option ℤ
as_i64 (Number.i64 (pos n)) = if leb n max_i64 then some (pos n) else none
as_i64 (Number.i64 (negsuc n)) = some (negsuc n)
as_i64 (Number.u64 n) = if leb n max_i64 then some (pos n) else none
as_i64 (Number.f64 _) = none

abbrev pub numeric_value : Option Value → Result AuthError (Option ℤ)
numeric_value none = ok none
numeric_value (some Value.null) = ok none
numeric_value (some (Value.number n)) = elim (as_i64 n) [
  | none ↦ err invalid_claims
  | some z ↦ ok (some z)
]
numeric_value (some _) = err invalid_claims

unfoldable pub numeric_claim : Members → String → Result AuthError (Option ℤ)
numeric_claim claims name = numeric_value (get name claims)

-- `MAX_ISSUER_BYTES`
abbrev pub max_issuer_bytes : ℕ
max_issuer_bytes = 2048

unfoldable pub check_issuer : AuthorityDocument → Members → Result AuthError (Unit {0})
check_issuer document claims = do
  issuer ← or_error (bounded_string (get "iss" claims) max_issuer_bytes) invalid_issuer
  if str_eq issuer document.issuer then ok tt else err invalid_issuer

-- `MAX_AUDIENCE_ENTRIES`
abbrev pub max_audience_entries : ℕ
max_audience_entries = 16

-- the loop over the entries, with `matched` before it
unfoldable pub match_entries : String → Bool → Values → Result AuthError Bool
match_entries resource matched nil = ok matched
match_entries resource matched (cons value values) = do
  entry ← ok_or (as_str value) invalid_audience
  match_entries resource (str_eq entry resource || matched) values

abbrev pub audience_of : String → Option Value → Result AuthError (Unit {0})
audience_of resource (some (Value.string value)) =
    if str_eq value resource then ok tt else err invalid_audience
audience_of resource (some (Value.array values)) = do
  reject_if (array_length values == 0 || ltb max_audience_entries (array_length values))
      invalid_audience
  matched ← match_entries resource false values
  if matched then ok tt else err invalid_audience
audience_of resource _ = err invalid_audience

unfoldable pub check_audience : AuthorityDocument → Members → Result AuthError (Unit {0})
check_audience document claims = audience_of document.audience (get "aud" claims)

-- `i64::try_from` of a `u64`
abbrev pub try_i64 : ℕ → Result AuthError ℤ
try_i64 n = if leb n max_i64 then ok (pos n) else err internal

abbrev pub starts_after : ℤ → Option ℤ → Bool
starts_after limit none = false
starts_after limit (some nbf) = ltb_ℤ limit nbf

-- `check_time` once its numbers are read
unfoldable pub check_window : ℤ → ℤ → ℤ → ℤ → Option ℤ → ℤ → Result AuthError (Unit {0})
check_window skew max_age exp iat nbf now = do
  reject_if (ltb_ℤ exp iat) invalid_claims
  reject_if (not (ltb_ℤ (saturating_sub now skew) exp)) token_expired
  reject_if (starts_after (saturating_add now skew) nbf) token_not_yet_valid
  reject_if (ltb_ℤ (saturating_add now skew) iat) invalid_claims
  reject_if (ltb_ℤ (saturating_add max_age skew) (saturating_sub now iat)) token_too_old

unfoldable pub check_time : AuthorityDocument → Members → ℤ → Result AuthError (Unit {0})
check_time document claims now = do
  skew ← try_i64 document.clock_skew_seconds
  max_age ← try_i64 document.max_token_age_seconds
  exp ← numeric_claim claims "exp" >>= λ claim. ok_or claim invalid_claims
  iat ← numeric_claim claims "iat" >>= λ claim. ok_or claim invalid_claims
  nbf ← numeric_claim claims "nbf"
  check_window skew max_age exp iat nbf now

-- `MAX_TOKEN_SCOPES`
abbrev pub max_token_scopes : ℕ
max_token_scopes = 64

abbrev pub extend_word : Char → List String → List String
extend_word c [] = String.◌∷◌ c "" ∷ []
extend_word c (w ∷ ws) = String.◌∷◌ c w ∷ ws

-- `value.split([' ', '\t'])`
unfoldable pub split_words : String → List String
split_words String.[] = "" ∷ []
split_words (String.◌∷◌ c s) =
    let rest = split_words s in
    if code c == b' ' || code c == 9 then "" ∷ rest else extend_word c rest

unfoldable pub insert_words : List String → List String → Result AuthError (List String)
insert_words [] scopes = ok scopes
insert_words (token ∷ tokens) scopes =
    if is_empty (as_bytes token)
    then insert_words tokens scopes
    else if not (is_scope_token token)
    then err invalid_claims
    else insert_words tokens (set_insert token scopes)

unfoldable pub insert_values : Values → List String → Result AuthError (List String)
insert_values nil scopes = ok scopes
insert_values (cons value values) scopes = do
  token ← ok_or (as_str value) invalid_claims
  reject_if (not (is_scope_token token)) invalid_claims
  insert_values values (set_insert token scopes)

abbrev pub insert_claim : Option Value → List String → Result AuthError (List String)
insert_claim none scopes = ok scopes
insert_claim (some Value.null) scopes = ok scopes
insert_claim (some (Value.string value)) scopes = insert_words (split_words value) scopes
insert_claim (some (Value.array values)) scopes = do
  reject_if (ltb max_token_scopes (array_length values)) invalid_claims
  insert_values values scopes
insert_claim (some _) scopes = err invalid_claims

-- `collect_scopes` over the claims' names, with the set so far
unfoldable pub collect_scopes : Members → List String → List String → Result AuthError (List String)
collect_scopes claims [] scopes = ok scopes
collect_scopes claims (claim ∷ names) scopes = do
  more ← insert_claim (get claim claims) scopes
  reject_if (ltb max_token_scopes (length more)) invalid_claims
  collect_scopes claims names more
