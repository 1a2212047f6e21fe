-- ===== src/Auth.antt =====
-- crates/postgresem/src/mcp_http_auth.rs: the configured authority, the identities that it verifies,
-- and the errors of both.
pub mod Library
pub mod Words
pub mod Bearer
pub mod Integers
pub mod Claims
pub mod Token
pub mod Document
pub mod Load
mod Window
mod Scopes
mod Pseudonym
mod Verified
mod Configured
mod Answers
mod Errors
mod Admitted
mod Tests
use postgresem.Prelude.{ℕ, String, Bool, Option, none, some, List}

-- `AuthError`
pub data AuthError : Type 0 where
  missing_credentials malformed_request token_too_large malformed_token : AuthError
  unsupported_token_type unsupported_algorithm unknown_key invalid_signature : AuthError
  invalid_issuer invalid_audience token_expired token_not_yet_valid token_too_old : AuthError
  invalid_claims unknown_principal insufficient_scope internal : AuthError

-- `AuthError::code`
pub error_code : AuthError → String
error_code missing_credentials = "missing_credentials"
error_code malformed_request = "malformed_request"
error_code token_too_large = "token_too_large"
error_code malformed_token = "malformed_token"
error_code unsupported_token_type = "unsupported_token_type"
error_code unsupported_algorithm = "unsupported_algorithm"
error_code unknown_key = "unknown_key"
error_code invalid_signature = "invalid_signature"
error_code invalid_issuer = "invalid_issuer"
error_code invalid_audience = "invalid_audience"
error_code token_expired = "token_expired"
error_code token_not_yet_valid = "token_not_yet_valid"
error_code token_too_old = "token_too_old"
error_code invalid_claims = "invalid_claims"
error_code unknown_principal = "unknown_principal"
error_code insufficient_scope = "insufficient_scope"
error_code internal = "internal_error"

-- `AuthError::oauth_error`
pub oauth_error : AuthError → String
oauth_error missing_credentials = ""
oauth_error malformed_request = "invalid_request"
oauth_error token_too_large = "invalid_request"
oauth_error insufficient_scope = "insufficient_scope"
oauth_error internal = "server_error"
oauth_error _ = "invalid_token"

pub data ConfigErrorKind : Type 0 where
  io parse schema semantic key : ConfigErrorKind

-- `ConfigErrorKind::code`
pub kind_code : ConfigErrorKind → String
kind_code io = "authority_io"
kind_code parse = "authority_parse"
kind_code schema = "authority_schema"
kind_code semantic = "authority_semantic"
kind_code key = "authority_key"

pub record ConfigError : Type 0 where
  pub kind : ConfigErrorKind
  pub reason : String
  pub index : Option ℕ

-- `ConfigError::new`, and its five kinds
abbrev pub config_error : ConfigErrorKind → String → ConfigError
config_error kind reason = record { kind = kind; reason = reason; index = none }

-- `ConfigError::at`
abbrev pub error_at : ConfigError → ℕ → ConfigError
error_at error index = record error { index = some index }

pub record RateLimitConfig : Type 0 where
  pub requests_per_minute : ℕ
  pub burst : ℕ
  pub max_concurrent : ℕ

pub record ServerLimits : Type 0 where
  pub max_request_body_bytes : ℕ
  pub max_token_bytes : ℕ
  pub max_header_bytes : ℕ
  pub max_execution_seconds : ℕ
  pub max_result_bytes : ℕ
  pub max_concurrent_requests : ℕ
  pub max_pre_auth_concurrent_requests : ℕ
  pub max_database_connections : ℕ
  pub sse_keepalive_seconds : ℕ
  pub max_sse_seconds : ℕ

pub record PrincipalConfig : Type 0 where
  pub subject : String
  pub authority_id : String
  pub query_role : String
  pub mutation_role : Option String
  pub allowed_scopes : List String
  pub rate_limit : RateLimitConfig

pub record AuthorityDocument : Type 0 where
  pub schema_version : String
  pub resource : String
  pub issuer : String
  pub audience : String
  pub authorization_servers : List String
  pub scopes_supported : List String
  pub jwks_path : String
  pub principal_hmac_key_path : String
  pub allowed_token_types : List String
  pub allowed_algorithms : List String
  pub scope_claims : List String
  pub clock_skew_seconds : ℕ
  pub max_token_age_seconds : ℕ
  pub allowed_hosts : List String
  pub allowed_origins : List String
  pub query_scope : String
  pub mutation_scope : String
  pub remote_mutation_enabled : Bool
  pub server_limits : ServerLimits
  pub principals : List PrincipalConfig

-- `granted_scopes` is a `BTreeSet`.
pub record AuthenticatedPrincipal : Type 0 where
  pub authority_id : String
  pub query_role : String
  pub mutation_role : Option String
  pub granted_scopes : List String
  pub rate_limit : RateLimitConfig
  pub audit_pseudonym : String

pub record PrincipalRecord : Type 0 where
  pub authority_id : String
  pub query_role : String
  pub mutation_role : Option String
  pub allowed_scopes : List String
  pub rate_limit : RateLimitConfig
