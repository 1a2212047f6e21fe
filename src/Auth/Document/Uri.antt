-- ===== src/Auth/Document/Uri.antt =====
-- `canonical_https_uri` of crates/postgresem/src/mcp_http_auth.rs.
use postgresem.Prelude.{
  ℕ, ◌+◌, ◌≤◌, ◌≡◌, arith, ap, String, Bool, true, false, not, ◌&&◌, ◌||◌, Option, none, some, List,
  [], ◌∷◌, ltb, ◌==◌, all, any, is_some, str_eq, if◌then◌else◌, drop,
}
use postgresem.Prelude.Results.{
  Result, ok, err, ◌>>=◌, ◌>>◌, reject_if, ok_or, err-ok, ok-injective, reject_if-ok,
}
use postgresem.Prelude.Text.{as_bytes}
use postgresem.Auth.{ConfigError, config_error, schema}
use postgresem.Auth.Library.{Library, Url}
use postgresem.Auth.Words.{is_empty_text, byte_length, split}

-- `MAX_URI_BYTES`
abbrev pub max_uri_bytes : ℕ
max_uri_bytes = 2048

abbrev has_no_host : Option String → Bool
has_no_host none = true
has_no_host (some host) = is_empty_text host

-- `starts_with`, over the bytes
unfoldable pub starts_with : List ℕ → List ℕ → Bool
starts_with text [] = true
starts_with [] (p ∷ ps) = false
starts_with (c ∷ cs) (p ∷ ps) = c == p && starts_with cs ps

unfoldable pub ends_with : ℕ → List ℕ → Bool
ends_with c [] = false
ends_with c (x ∷ []) = x == c
ends_with c (x ∷ y ∷ more) = ends_with c (y ∷ more)

-- an empty segment, `.` or `..`
abbrev is_unnormalized : List ℕ → Bool
is_unnormalized [] = true
is_unnormalized (a ∷ []) = a == b'.'
is_unnormalized (a ∷ b ∷ []) = a == b'.' && b == b'.'
is_unnormalized _ = false

unfoldable pub check_path : Bool → List ℕ → Result String (Unit {0})
check_path allow_path path = do
  reject_if (not allow_path) "uri must not contain a path"
  reject_if (ends_with b'/' path) "uri path must not end with a slash"
  reject_if (any is_unnormalized (drop 1 (split b'/' path))) "uri path is not normalized"

-- `matches_raw`
abbrev matches_raw : Url → String → Bool
matches_raw url raw =
    str_eq url.text raw
    || (str_eq url.path "/"
        && byte_length url.text == byte_length raw + 1
        && starts_with (as_bytes url.text) (as_bytes raw))

module _ (l : Library) where
  unfoldable pub canonical_https_uri : String → Bool → Result String Url
  canonical_https_uri raw allow_path = do
    reject_if (is_empty_text raw || ltb max_uri_bytes (byte_length raw))
        "uri must be 1 to 2048 bytes"
    reject_if (not (all (λ c. ltb c 128) (as_bytes raw))) "uri must be ASCII"
    reject_if (any (λ c. c == b'%') (as_bytes raw)) "uri must not use percent-encoding"
    url ← ok_or (l.parse_url raw) "uri is not a valid absolute URI"
    reject_if (not (str_eq url.scheme "https")) "uri must use https"
    reject_if (not (is_empty_text url.username) || is_some url.password)
        "uri must not contain userinfo"
    reject_if (is_some url.query) "uri must not contain a query"
    reject_if (is_some url.fragment) "uri must not contain a fragment"
    reject_if (has_no_host url.host) "uri must contain a host"
    if str_eq url.path "/" then ok tt else check_path allow_path (as_bytes url.path)
    reject_if (not (matches_raw url raw)) "uri is not in canonical form"
    ok url

-- `map_err(ConfigError::schema)`
abbrev pub schema_error {ℓ} : {A : Type ℓ} → Result String A → Result ConfigError A
schema_error (ok a) = ok a
schema_error (err reason) = err (config_error schema reason)

schema_error-ok : {A : Type 0} (r : Result String A) {a : A} → schema_error r ≡ ok a → r ≡ ok a
schema_error-ok (ok a) h = ap ok (ok-injective h)
schema_error-ok (err reason) h = absurd (err-ok h)

module _ (l : Library) where
  -- A text that is accepted as a URI is at most 2048 bytes long.
  pub canonical_https_uri-short :
      (raw : String) (allow_path : Bool) {url : Url}
      → schema_error (canonical_https_uri l raw allow_path) ≡ ok url
      → byte_length raw ≤ max_uri_bytes
  unfolding canonical_https_uri
  canonical_https_uri-short raw allow_path h =
      let (short, _) =
        reject_if-ok (is_empty_text raw || ltb max_uri_bytes (byte_length raw))
          "uri must be 1 to 2048 bytes" _ (schema_error-ok _ h) in
      ground arith
