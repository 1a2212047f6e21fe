-- ===== src/Auth/Document/Principals.antt =====
-- `validate_principals` of crates/postgresem/src/mcp_http_auth.rs.
use Prim.Native.Nat.{suc}
use postgresem.Prelude.{
  ℕ, String, Bool, false, not, ◌&&◌, ◌||◌, Option, none, some, List, [], ◌∷◌, ltb, length, all, any,
  is_empty, contains, is_some, str_eq,
}
use postgresem.Prelude.Results.{Result, ok, err, ◌>>=◌, ◌>>◌, reject_if}
use postgresem.Prelude.Text.{as_bytes}
use postgresem.Prelude.Ordered.{set_insert}
use postgresem.Auth.{
  ConfigError, config_error, error_at, schema, semantic, AuthorityDocument, PrincipalConfig,
}
use postgresem.Auth.Words.{chars, byte_length, is_control, is_authority_id, validate_role}
use postgresem.Auth.Token.{max_subject_bytes}
use postgresem.Auth.Document.Uri.{schema_error}
use postgresem.Auth.Document.Entries.{validate_scope_list}
use postgresem.Auth.Document.Limits.{validate_rate_limit}

-- `map_err(|error| error.at(index))`
abbrev pub at_index {ℓ} : {A : Type ℓ} → ℕ → Result ConfigError A → Result ConfigError A
at_index index (ok a) = ok a
at_index index (err e) = err (error_at e index)

abbrev pub check_mutation_role : Option String → Result String (Unit {0})
check_mutation_role none = ok tt
check_mutation_role (some role) = validate_role role

abbrev pub is_role : Option String → String → Bool
is_role none role = false
is_role (some mutation_role) role = str_eq mutation_role role

-- the checks of one principal on its roles and its scopes, from those of its roles on
unfoldable pub validate_grants :
    AuthorityDocument → List String → PrincipalConfig → Result ConfigError (Unit {0})
validate_grants document supported principal = do
  schema_error (validate_role principal.query_role)
  schema_error (check_mutation_role principal.mutation_role)
  validate_scope_list principal.allowed_scopes 1 32 "allowed_scopes"
  reject_if (not (all (contains supported) principal.allowed_scopes))
      (config_error semantic "allowed_scopes must be a subset of scopes_supported")
  let grants_mutation = contains principal.allowed_scopes document.mutation_scope
  let has_role = is_some principal.mutation_role
  reject_if (not (contains principal.allowed_scopes document.query_scope))
      (config_error semantic "allowed_scopes must contain the query scope")
  reject_if ((grants_mutation && not has_role) || (not grants_mutation && has_role)) (
      config_error semantic
        "mutation_role must be present exactly when the mutation scope is allowed")
  reject_if (grants_mutation && is_role principal.mutation_role principal.query_role)
      (config_error semantic "mutation_role must differ from query_role")
  validate_rate_limit principal.rate_limit

-- the checks of one principal, with the sets before it
unfoldable pub validate_principal :
    AuthorityDocument
    → List String
    → List String
    → List String
    → PrincipalConfig
    → Result ConfigError (Unit {0})
validate_principal document supported subjects authority_ids principal = do
  reject_if
      (is_empty (as_bytes principal.subject)
        || ltb max_subject_bytes (byte_length principal.subject))
      (config_error schema "subject must be 1 to 512 bytes")
  reject_if (any is_control (chars principal.subject))
      (config_error schema "subject must not contain control characters")
  reject_if (contains subjects principal.subject)
      (config_error semantic "principal subjects must be unique")
  reject_if (not (is_authority_id principal.authority_id))
      (config_error schema "authority_id has an invalid format")
  reject_if (contains authority_ids principal.authority_id)
      (config_error semantic "authority_id values must be unique")
  validate_grants document supported principal

-- the loop over the principals, with the sets and the flag before it
unfoldable pub principals_from :
    AuthorityDocument
    → List String
    → ℕ
    → List PrincipalConfig
    → List String
    → List String
    → Bool
    → Result ConfigError Bool
principals_from document supported index [] subjects authority_ids mutation_capable =
    ok mutation_capable
principals_from document supported index (principal ∷ more) subjects authority_ids
      mutation_capable =
    do
      at_index index (validate_principal document supported subjects authority_ids principal)
      principals_from document supported (suc index) more (set_insert principal.subject subjects)
          (set_insert principal.authority_id authority_ids)
          (mutation_capable || contains principal.allowed_scopes document.mutation_scope)

unfoldable pub validate_principals : AuthorityDocument → List String → Result ConfigError (Unit {0})
validate_principals document supported = do
  reject_if (is_empty document.principals || ltb 10_000 (length document.principals))
      (config_error schema "principals must hold 1 to 10000 entries")
  mutation_capable ← principals_from document supported 0 document.principals [] [] false
  reject_if (document.remote_mutation_enabled && not mutation_capable) (
      config_error semantic
        "remote_mutation_enabled requires at least one mutation capable principal")
