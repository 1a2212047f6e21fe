-- ===== src/Auth/Document/Valid.antt =====
-- What `validate_principals` of crates/postgresem/src/mcp_http_auth.rs has checked of the principals.
use postgresem.Prelude.{
  ℕ, suc, ◌≡◌, refl, sym, ◌∙◌, String, Bool, true, false, not, ◌&&◌, ◌||◌, Option, List, [], ◌∷◌,
  map, ltb, length, all, any, is_empty, contains, is_some, arith, str_eq_iff, All, IsDistinct,
}
use postgresem.Prelude.Results.{Result, ok, err, >>=-ok, reject_if-ok}
use postgresem.Prelude.Text.{as_bytes}
use postgresem.Prelude.Ordered.{set_insert, contains-set_insert}
use postgresem.Auth.{
  ConfigError, config_error, schema, semantic, AuthorityDocument, PrincipalConfig,
}
use postgresem.Auth.Words.{chars, byte_length, is_control, is_authority_id, validate_role}
use postgresem.Auth.Token.{max_subject_bytes}
use postgresem.Auth.Document.Uri.{schema_error}
use postgresem.Auth.Document.Entries.{validate_scope_list}
use postgresem.Auth.Document.Bounds.{IsRateLimit, validate_rate_limit_iff}
use postgresem.Auth.Document.Principals.{
  at_index, check_mutation_role, is_role, validate_grants, validate_principal, principals_from,
  validate_principals,
}

-- A principal that may query, that has a mutation role exactly when it may mutate, with another role
-- than for its queries, and whose rate limit is within its bounds.
abbrev pub IsPrincipal : AuthorityDocument → PrincipalConfig → Type 0
IsPrincipal document p =
    (contains p.allowed_scopes document.query_scope ≡ true)
    × (is_some p.mutation_role ≡ contains p.allowed_scopes document.mutation_scope)
    × (is_role p.mutation_role p.query_role ≡ false)
    × IsRateLimit p.rate_limit

grants : (m r : Bool) → ((m && not r) || (not m && r)) ≡ false → r ≡ m
grants m r h = ground arith

no_role :
    (role : Option String) (s : String) (m : Bool)
    → is_some role ≡ m
    → (m && is_role role s) ≡ false
    → is_role role s ≡ false
no_role role s m h k = ground arith

abbrev grants_wrongly : AuthorityDocument → PrincipalConfig → Bool
grants_wrongly document p =
    let grants_mutation = contains p.allowed_scopes document.mutation_scope in
    (grants_mutation && not (is_some p.mutation_role))
    || (not grants_mutation && is_some p.mutation_role)

module _ (document : AuthorityDocument) (supported : List String) where
  validate_grants-IsPrincipal :
      (p : PrincipalConfig) → validate_grants document supported p ≡ ok tt → IsPrincipal document p
  unfolding validate_grants
  validate_grants-IsPrincipal p h =
      let (_, _, h₁) = >>=-ok (schema_error (validate_role p.query_role)) _ h in
      let (_, _, h₂) = >>=-ok (schema_error (check_mutation_role p.mutation_role)) _ h₁ in
      let (_, _, h₃) = >>=-ok (validate_scope_list p.allowed_scopes 1 32 "allowed_scopes") _ h₂ in
      let (_, h₄) =
        reject_if-ok (not (all (contains supported) p.allowed_scopes))
          (config_error semantic "allowed_scopes must be a subset of scopes_supported") _ h₃ in
      let (query, h₅) =
        reject_if-ok (not (contains p.allowed_scopes document.query_scope))
          (config_error semantic "allowed_scopes must contain the query scope") _ h₄ in
      let (exactly, h₆) =
        reject_if-ok (grants_wrongly document p)
          (config_error semantic
            "mutation_role must be present exactly when the mutation scope is allowed")
          _ h₅ in
      let (other, h₇) =
        reject_if-ok
          (contains p.allowed_scopes document.mutation_scope
            && is_role p.mutation_role p.query_role)
          (config_error semantic "mutation_role must differ from query_role") _ h₆ in
      let same =
        grants (contains p.allowed_scopes document.mutation_scope) (is_some p.mutation_role)
          exactly in
      (
        ground arith,
        same,
        no_role p.mutation_role p.query_role _ same other,
        (validate_rate_limit_iff p.rate_limit).0 h₇,
      )

  validate_principal-valid :
      (subjects authority_ids : List String) (p : PrincipalConfig)
      → validate_principal document supported subjects authority_ids p ≡ ok tt
      → (contains subjects p.subject ≡ false)
        × (contains authority_ids p.authority_id ≡ false)
        × IsPrincipal document p
  unfolding validate_principal
  validate_principal-valid subjects authority_ids p h =
      let (_, h₁) =
        reject_if-ok
          (is_empty (as_bytes p.subject) || ltb max_subject_bytes (byte_length p.subject))
          (config_error schema "subject must be 1 to 512 bytes") _ h in
      let (_, h₂) =
        reject_if-ok (any is_control (chars p.subject))
          (config_error schema "subject must not contain control characters") _ h₁ in
      let (new, h₃) =
        reject_if-ok (contains subjects p.subject)
          (config_error semantic "principal subjects must be unique") _ h₂ in
      let (_, h₄) =
        reject_if-ok (not (is_authority_id p.authority_id))
          (config_error schema "authority_id has an invalid format") _ h₃ in
      let (new_id, h₅) =
        reject_if-ok (contains authority_ids p.authority_id)
          (config_error semantic "authority_id values must be unique") _ h₄ in
      (new, new_id, validate_grants-IsPrincipal p h₅)

  -- the names are distinct, and none of them was seen before
  abbrev IsNew : List String → List String → Type 0
  IsNew seen names = IsDistinct names × All (λ n. contains seen n ≡ false) names

  not_met :
      (x : String) (seen names : List String)
      → All (λ n. contains (set_insert x seen) n ≡ false) names
      → (contains names x ≡ false) × All (λ n. contains seen n ≡ false) names
  not_met x seen [] h = (refl, tt)
  not_met x seen (n ∷ ns) (h, hs) =
      let (new, rest) = not_met x seen ns hs in
      let e = sym (contains-set_insert x n seen) ∙ h in
      (ground (arith, str_eq_iff x n, str_eq_iff n x), (ground arith, rest))

  one_more :
      (x : String) (seen names : List String)
      → contains seen x ≡ false
      → IsNew (set_insert x seen) names
      → IsNew seen (x ∷ names)
  one_more x seen names h (distinct, new) =
      let (absent, rest) = not_met x seen names new in ((absent, distinct), (h, rest))

  at_index-ok :
      (index : ℕ) (r : Result ConfigError (Unit {0})) → at_index index r ≡ ok tt → r ≡ ok tt
  at_index-ok index (ok done) h = h
  at_index-ok index (err e) h = cc

  principals_from-valid :
      (index : ℕ) (ps : List PrincipalConfig) (subjects authority_ids : List String)
      (before after : Bool)
      → principals_from document supported index ps subjects authority_ids before ≡ ok after
      → All (IsPrincipal document) ps
        × IsNew subjects (map (λ p. p.subject) ps)
        × IsNew authority_ids (map (λ p. p.authority_id) ps)
  unfolding principals_from
  principals_from-valid index [] subjects authority_ids before after h = (tt, (tt, tt), (tt, tt))
  principals_from-valid index (p ∷ ps) subjects authority_ids before after h =
      let (_, first, rest) =
        >>=-ok (at_index index (validate_principal document supported subjects authority_ids p)) _
          h in
      let (new, new_id, valid) =
        validate_principal-valid subjects authority_ids p (at_index-ok index _ first) in
      let (valids, news, new_ids) =
        principals_from-valid (suc index) ps (set_insert p.subject subjects)
          (set_insert p.authority_id authority_ids)
          (before || contains p.allowed_scopes document.mutation_scope) after rest in
      (
        (valid, valids),
        one_more p.subject subjects (map (λ q. q.subject) ps) new news,
        one_more p.authority_id authority_ids (map (λ q. q.authority_id) ps) new_id new_ids,
      )

  -- When the principals of a document are accepted, no two of them have the same subject or the same
  -- authority id, and each may query, has a mutation role exactly when it may mutate, which is another
  -- role than that for its queries, and has a rate limit within its bounds.
  pub validate_principals-IsPrincipal :
      validate_principals document supported ≡ ok tt
      → All (IsPrincipal document) document.principals
        × IsDistinct (map (λ p. p.subject) document.principals)
        × IsDistinct (map (λ p. p.authority_id) document.principals)
  unfolding validate_principals
  validate_principals-IsPrincipal h =
      let (_, h₁) =
        reject_if-ok (is_empty document.principals || ltb 10_000 (length document.principals))
          (config_error schema "principals must hold 1 to 10000 entries") _ h in
      let (after, all', _) =
        >>=-ok (principals_from document supported 0 document.principals [] [] false) _ h₁ in
      let (valid, new, new_ids) =
        principals_from-valid 0 document.principals [] [] false after all' in
      (valid, new.0, new_ids.0)
