-- ===== src/Auth/Document/Whole.antt =====
-- What `validate_document` of crates/postgresem/src/mcp_http_auth.rs has checked.
use postgresem.Prelude.{
  ◌≤◌, ◌≡◌, true, not, ◌||◌, map, ltb, length, is_empty, arith, str_eq, str_eq_iff, All, IsDistinct,
}
use postgresem.Prelude.Results.{Result, ok, ◌>>◌, reject_if, >>=-ok, reject_if-ok}
use postgresem.Auth.{ConfigError, config_error, schema, semantic, AuthorityDocument}
use postgresem.Auth.Library.{Library}
use postgresem.Auth.Document.{
  validate_document, validate_times, validate_scopes, validate_token_lists, validate_hosts,
  validate_origins, check_server, bad_path,
}
use postgresem.Auth.Document.Uri.{
  canonical_https_uri, schema_error, max_uri_bytes, canonical_https_uri-short,
}
use postgresem.Auth.Words.{byte_length}
use postgresem.Auth.Document.Entries.{distinct_entries, validate_scope_list}
use postgresem.Auth.Document.Limits.{validate_limits}
use postgresem.Auth.Document.Bounds.{IsBetween, IsWithinLimits, validate_limits_iff}
use postgresem.Auth.Document.Valid.{IsPrincipal, validate_principals-IsPrincipal}
use postgresem.Auth.Document.Principals.{validate_principals}

abbrev pub IsDocument : AuthorityDocument → Type 0
IsDocument document =
    (document.audience ≡ document.resource)
    × (document.clock_skew_seconds ≤ 300)
    × IsBetween 1 86_400 document.max_token_age_seconds
    × IsWithinLimits document.server_limits
    × All (IsPrincipal document) document.principals
    × IsDistinct (map (λ p. p.subject) document.principals)
    × IsDistinct (map (λ p. p.authority_id) document.principals)

validate_times-bounds :
    (d : AuthorityDocument)
    → validate_times d ≡ ok tt
    → (d.clock_skew_seconds ≤ 300) × IsBetween 1 86_400 d.max_token_age_seconds
unfolding validate_times
validate_times-bounds d h = ground arith

module _ (l : Library) where
  -- the checks of a document after those of its scopes
  abbrev later : AuthorityDocument → Result ConfigError (Unit {0}) → Result ConfigError (Unit {0})
  later d hosts = do
    reject_if (bad_path d.jwks_path) (config_error schema "jwks_path must be 1 to 4096 bytes")
    reject_if (bad_path d.principal_hmac_key_path)
        (config_error schema "principal_hmac_key_path must be 1 to 4096 bytes")
    validate_token_lists d
    validate_times d
    hosts
    validate_origins l d
    validate_limits d.server_limits
    validate_principals d d.scopes_supported

  later-valid :
      (d : AuthorityDocument) (hosts : Result ConfigError (Unit {0}))
      → later d hosts ≡ ok tt
      → (validate_times d ≡ ok tt)
        × (validate_limits d.server_limits ≡ ok tt)
        × (validate_principals d d.scopes_supported ≡ ok tt)
  later-valid d hosts h =
      let (_, h₁) =
        reject_if-ok (bad_path d.jwks_path)
          (config_error schema "jwks_path must be 1 to 4096 bytes") _ h in
      let (_, h₂) =
        reject_if-ok (bad_path d.principal_hmac_key_path)
          (config_error schema "principal_hmac_key_path must be 1 to 4096 bytes") _ h₁ in
      let (_, _, h₃) = >>=-ok (validate_token_lists d) _ h₂ in
      let (done, times, h₄) = >>=-ok (validate_times d) _ h₃ in
      let (_, _, h₅) = >>=-ok hosts _ h₄ in
      let (_, _, h₆) = >>=-ok (validate_origins l d) _ h₅ in
      let (done₁, limits, h₇) = >>=-ok (validate_limits d.server_limits) _ h₆ in (times, limits, h₇)

  -- A document that is accepted names its resource as the audience, and has its times, its limits and
  -- its principals within their bounds; no two principals share a subject or an authority id.
  pub validate_document-IsDocument :
      (d : AuthorityDocument) → validate_document l d ≡ ok tt → IsDocument d
  unfolding validate_document
  validate_document-IsDocument d h =
      let (_, h₁) =
        reject_if-ok (not (str_eq d.schema_version "1"))
          (config_error schema "schema_version must be \"1\"") _ h in
      let (resource, _, h₂) = >>=-ok (schema_error (canonical_https_uri l d.resource true)) _ h₁ in
      let (same, h₃) =
        reject_if-ok (not (str_eq d.audience d.resource))
          (config_error semantic "audience must equal resource") _ h₂ in
      let (_, _, h₄) = >>=-ok (schema_error (canonical_https_uri l d.issuer true)) _ h₃ in
      let (_, h₅) =
        reject_if-ok (is_empty d.authorization_servers || ltb 8 (length d.authorization_servers))
          (config_error schema "authorization_servers must hold 1 to 8 entries") _ h₄ in
      let (_, _, h₆) =
        >>=-ok
          (distinct_entries (check_server l) "authorization_servers must be unique"
            d.authorization_servers)
          _ h₅ in
      let (_, _, h₇) =
        >>=-ok (validate_scope_list d.scopes_supported 1 32 "scopes_supported") _ h₆ in
      let (_, _, h₈) = >>=-ok (validate_scopes d) _ h₇ in
      let (times, limits, principals) = later-valid d (validate_hosts d resource) h₈ in
      let (skew, age) = validate_times-bounds d times in
      let (valid, subjects, ids) =
        validate_principals-IsPrincipal d d.scopes_supported principals in
      (
        (str_eq_iff d.audience d.resource).0 (ground arith),
        skew,
        age,
        (validate_limits_iff d.server_limits).0 limits,
        valid,
        subjects,
        ids,
      )

  pub validate_document-issuer :
      (d : AuthorityDocument) → validate_document l d ≡ ok tt → byte_length d.issuer ≤ max_uri_bytes
  unfolding validate_document
  validate_document-issuer d h =
      let (_, h₁) =
        reject_if-ok (not (str_eq d.schema_version "1"))
          (config_error schema "schema_version must be \"1\"") _ h in
      let (_, _, h₂) = >>=-ok (schema_error (canonical_https_uri l d.resource true)) _ h₁ in
      let (_, h₃) =
        reject_if-ok (not (str_eq d.audience d.resource))
          (config_error semantic "audience must equal resource") _ h₂ in
      let (_, issuer, _) = >>=-ok (schema_error (canonical_https_uri l d.issuer true)) _ h₃ in
      canonical_https_uri-short l d.issuer true issuer
