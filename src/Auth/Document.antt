-- ===== src/Auth/Document.antt =====
-- `validate_document` of crates/postgresem/src/mcp_http_auth.rs.
pub mod Bounds
pub mod Valid
pub mod Whole
pub mod Uri
pub mod Entries
pub mod Limits
pub mod Principals
use Prim.Native.Nat.{suc}
use Prim.Native.String
use postgresem.Prelude.{
  ℕ, ◌+◌, String, Bool, true, false, not, ◌&&◌, ◌||◌, Option, none, some, List, [], ◌∷◌, leb, ltb,
  ◌==◌, length, is_empty, contains, is_none, str_eq, if◌then◌else◌,
}
use postgresem.Prelude.Results.{Result, ok, err, ◌>>=◌, ◌>>◌, reject_if, ok_or}
use postgresem.Prelude.Text.{as_bytes, decimal}
use postgresem.Auth.{ConfigError, config_error, error_at, schema, semantic, AuthorityDocument}
use postgresem.Auth.Library.{Library, Url}
use postgresem.Auth.Words.{
  is_empty_text, byte_length, to_ascii_lowercase, parse_algorithm, is_scope_token, is_claim_name,
  is_host_pattern,
}
use postgresem.Auth.Document.Uri.{canonical_https_uri, schema_error, max_uri_bytes}
use postgresem.Auth.Document.Entries.{
  check_that, unique_entries, distinct_entries, validate_scope_list,
}
use postgresem.Auth.Document.Limits.{validate_limits}
use postgresem.Auth.Document.Principals.{validate_principals}

-- `MAX_PATH_BYTES`
abbrev pub max_path_bytes : ℕ
max_path_bytes = 4096

abbrev is_token_type : String → Bool
is_token_type s = str_eq s "at+jwt" || str_eq s "application/at+jwt" || str_eq s "JWT"

abbrev pub bad_path : String → Bool
bad_path path = is_empty_text path || ltb max_path_bytes (byte_length path)

abbrev resource_authority : String → Option ℕ → String
resource_authority host none = host
resource_authority host (some port) = String.◌++◌ host (String.◌++◌ ":" (decimal port))

-- the four scope checks of `validate_document`
unfoldable pub validate_scopes : AuthorityDocument → Result ConfigError (Unit {0})
validate_scopes document = do
  reject_if
      (not (is_scope_token document.query_scope) || not (is_scope_token document.mutation_scope))
      (config_error schema "query_scope and mutation_scope must be valid scopes")
  reject_if (str_eq document.query_scope document.mutation_scope)
      (config_error semantic "query_scope must differ from mutation_scope")
  reject_if (not (contains document.scopes_supported document.query_scope))
      (config_error semantic "query_scope must appear in scopes_supported")
  reject_if (not (contains document.scopes_supported document.mutation_scope))
      (config_error semantic "mutation_scope must appear in scopes_supported")

-- the checks of `validate_document` on the token types, the algorithms and the claims of scopes
unfoldable pub validate_token_lists : AuthorityDocument → Result ConfigError (Unit {0})
validate_token_lists document = do
  reject_if (is_empty document.allowed_token_types || ltb 3 (length document.allowed_token_types))
      (config_error schema "allowed_token_types must hold 1 to 3 entries")
  distinct_entries (check_that is_token_type "allowed_token_types contains an unknown value")
      "allowed_token_types must be unique" document.allowed_token_types
  reject_if (is_empty document.allowed_algorithms || ltb 6 (length document.allowed_algorithms))
      (config_error schema "allowed_algorithms must hold 1 to 6 entries")
  distinct_entries
      (check_that (λ value. not (is_none (parse_algorithm value)))
        "allowed_algorithms contains an unknown value")
      "allowed_algorithms must be unique" document.allowed_algorithms
  reject_if (is_empty document.scope_claims || ltb 4 (length document.scope_claims))
      (config_error schema "scope_claims must hold 1 to 4 entries")
  distinct_entries (check_that is_claim_name "scope_claims contains an invalid claim name")
      "scope_claims must be unique" document.scope_claims

-- the two bounds of time of `validate_document`
unfoldable pub validate_times : AuthorityDocument → Result ConfigError (Unit {0})
validate_times document = do
  reject_if (ltb 300 document.clock_skew_seconds)
      (config_error schema "clock_skew_seconds must be 0 to 300")
  reject_if (document.max_token_age_seconds == 0 || ltb 86_400 document.max_token_age_seconds)
      (config_error schema "max_token_age_seconds must be 1 to 86400")

abbrev check_host : ℕ → String → Result ConfigError (Unit {0})
check_host index host = do
  reject_if (not (is_host_pattern host))
      (error_at (config_error schema "allowed_hosts contains an invalid host") index)
  reject_if (not (str_eq host (to_ascii_lowercase host)))
      (error_at (config_error schema "allowed_hosts must be lowercase") index)

unfoldable pub validate_hosts : AuthorityDocument → Url → Result ConfigError (Unit {0})
validate_hosts document resource = do
  reject_if (is_empty document.allowed_hosts || ltb 32 (length document.allowed_hosts))
      (config_error schema "allowed_hosts must hold 1 to 32 entries")
  seen ←
      unique_entries check_host
        (λ index. error_at (config_error schema "allowed_hosts must be unique") index) 0
        document.allowed_hosts []
  host ← ok_or resource.host (config_error schema "resource has no host")
  reject_if (not (contains seen (resource_authority host resource.port)))
      (config_error semantic "allowed_hosts must contain the resource host")

module _ (l : Library) where
  abbrev check_origin : ℕ → String → Result ConfigError (Unit {0})
  check_origin index origin = do
    reject_if (ltb max_uri_bytes (byte_length origin))
        (error_at (config_error schema "allowed_origins entry is too long") index)
    parsed ←
        ok_or (l.parse_url origin)
          (error_at (config_error schema "allowed_origins entry is not a URI") index)
    reject_if (not (str_eq parsed.scheme "https"))
        (error_at (config_error schema "allowed_origins entry must be https") index)
    reject_if (not (str_eq parsed.origin origin))
        (error_at (config_error schema "allowed_origins entry must be a bare origin") index)

  unfoldable pub validate_origins : AuthorityDocument → Result ConfigError (Unit {0})
  validate_origins document = do
    reject_if (ltb 32 (length document.allowed_origins))
        (config_error schema "allowed_origins must hold at most 32 entries")
    distinct_entries check_origin "allowed_origins must be unique" document.allowed_origins

  abbrev pub check_server : ℕ → String → Result ConfigError (Unit {0})
  check_server index server = elim (canonical_https_uri l server true) [
    | ok url ↦ ok tt
    | err reason ↦ err (error_at (config_error schema reason) index)
  ]

  unfoldable pub validate_document : AuthorityDocument → Result ConfigError (Unit {0})
  validate_document document = do
    reject_if (not (str_eq document.schema_version "1"))
        (config_error schema "schema_version must be \"1\"")
    resource ← schema_error (canonical_https_uri l document.resource true)
    reject_if (not (str_eq document.audience document.resource))
        (config_error semantic "audience must equal resource")
    issuer ← schema_error (canonical_https_uri l document.issuer true)
    reject_if
        (is_empty document.authorization_servers || ltb 8 (length document.authorization_servers))
        (config_error schema "authorization_servers must hold 1 to 8 entries")
    distinct_entries check_server "authorization_servers must be unique"
        document.authorization_servers
    validate_scope_list document.scopes_supported 1 32 "scopes_supported"
    validate_scopes document
    reject_if (bad_path document.jwks_path)
        (config_error schema "jwks_path must be 1 to 4096 bytes")
    reject_if (bad_path document.principal_hmac_key_path)
        (config_error schema "principal_hmac_key_path must be 1 to 4096 bytes")
    validate_token_lists document
    validate_times document
    validate_hosts document resource
    validate_origins document
    validate_limits document.server_limits
    validate_principals document document.scopes_supported
