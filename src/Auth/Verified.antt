-- ===== src/Auth/Verified.antt =====
-- What `authenticate_at` of crates/postgresem/src/mcp_http_auth.rs has verified when it gives a principal.
pub mod Checks
use mathlib.Core.Path.{subst}
use postgresem.Prelude.{
  ℕ, ◌≡◌, refl, sym, ap, ◌∙◌, String, Bool, true, false, not, ◌&&◌, ◌||◌, Option, none, some, List,
  [], ◌∷◌, ltb, ◌==◌, any, is_empty, contains, arith, str_eq, str_eq_iff, if◌then◌else◌,
}
use postgresem.Prelude.Results.{
  Result, ok, err, ◌>>=◌, ◌>>◌, reject_if, ok_or, or_error, >>=-ok, reject_if-ok, ok-injective,
}
use postgresem.Prelude.Text.{as_bytes}
use postgresem.Prelude.Ordered.{lookup}
use postgresem.Lsq.{ℤ}
use postgresem.Lsm.Json.{Value, Values, Members, nil, cons}
use postgresem.Auth.{
  AuthError, AuthorityDocument, AuthenticatedPrincipal, PrincipalRecord, unsupported_token_type,
  unsupported_algorithm, unknown_key, invalid_signature, malformed_token, invalid_claims,
  unknown_principal, insufficient_scope, internal, invalid_issuer, invalid_audience,
}
use postgresem.Auth.Library.{Algorithm, Header, Library, VerificationKey, Authority}
use postgresem.Auth.Words.{to_ascii_lowercase, chars, byte_length, is_control}
use postgresem.Auth.Bearer.{extract_bearer}
use postgresem.Auth.Claims.{
  get, count, bounded_string, check_issuer, check_audience, check_time, collect_scopes,
  match_entries, array_length, audience_of, max_issuer_bytes, max_audience_entries,
}
use postgresem.Auth.Token.{
  intersection, contains_algorithm, has_foreign_key, as_object, pseudonym, select_key, read_claims,
  mutation_role_for, identify, authenticate_at, max_subject_bytes, max_token_claims,
}
use postgresem.Auth.Scopes.{carries, has_entry, collect_scopes-carries}
use postgresem.Auth.Verified.Checks.{
  has_audience, ok_or-some, bounded_string-text, check_issuer-text, check_audience-found,
  contains-intersection,
}

not_false : (b : Bool) → not b ≡ false → b ≡ true
not_false b h = ground arith

as_object-object :
    (v : Value) (members : Members) → as_object v ≡ some members → v ≡ Value.object members
as_object-object (Value.object ms) members h = ground arith
as_object-object Value.null members h = cc
as_object-object (Value.boolean b) members h = cc
as_object-object (Value.number n) members h = cc
as_object-object (Value.string s) members h = cc
as_object-object (Value.array vs) members h = cc

module _ (l : Library) where
  -- a token that a configured key signs with an algorithm that both the verifier and the key allow,
  -- under a header that names the key and no key of its own
  abbrev pub IsSigned : Authority l → List ℕ → Members → Type 0
  IsSigned self token claims =
      (header : Header) × (key : VerificationKey l) × (typ kid : String) × (l.decode_header token
        ≡ some header)
      × (has_foreign_key header ≡ false)
      × (header.typ ≡ some typ)
      × (contains self.token_types (to_ascii_lowercase typ) ≡ true)
      × (header.kid ≡ some kid)
      × (lookup kid self.keys ≡ some key)
      × (contains_algorithm header.alg self.algorithms ≡ true)
      × (contains_algorithm header.alg key.algorithms ≡ true)
      × (l.decode token key.key header.alg ≡ some (Value.object claims))

  -- claims of the configured issuer for the configured audience, at a time that `check_time` accepts
  abbrev pub IsAddressed : Authority l → Members → ℤ → Type 0
  IsAddressed self claims now =
      (get "iss" claims ≡ some (Value.string self.document.issuer))
      × (has_audience (get "aud" claims) self.document.audience ≡ true)
      × (check_time self.document claims now ≡ ok tt)

  -- the principal that is configured for the subject of the claims, with the scopes that are both
  -- allowed to it and carried by the claims, of which there is one
  abbrev pub IsGranted : Authority l → Members → AuthenticatedPrincipal → Type 0
  IsGranted self claims p =
      (subject : String) × (found : PrincipalRecord) × (get "sub" claims
        ≡ some (Value.string subject))
      × (lookup subject self.principals ≡ some found)
      × (p.authority_id ≡ found.authority_id)
      × (p.query_role ≡ found.query_role)
      × (p.rate_limit ≡ found.rate_limit)
      × (p.mutation_role ≡ mutation_role_for l self found p.granted_scopes)
      × (is_empty p.granted_scopes ≡ false)
      × ((s : String)
          → contains p.granted_scopes s ≡ (
              contains found.allowed_scopes s
              && any (λ name. carries (get name claims) s) self.scope_claims))

  module _ (self : Authority l) where
    SelectsKey : Header → VerificationKey l → Type 0
    SelectsKey header key =
        (typ kid : String) × (has_foreign_key header ≡ false)
        × (header.typ ≡ some typ)
        × (contains self.token_types (to_ascii_lowercase typ) ≡ true)
        × (header.kid ≡ some kid)
        × (lookup kid self.keys ≡ some key)
        × (contains_algorithm header.alg self.algorithms ≡ true)
        × (contains_algorithm header.alg key.algorithms ≡ true)

    select_key-SelectsKey :
        (header : Header) (key : VerificationKey l)
        → select_key l self header ≡ ok key
        → SelectsKey header key
    unfolding select_key SelectsKey
    select_key-SelectsKey header key h =
        let (own, h₁) = reject_if-ok (has_foreign_key header) unknown_key _ h in
        let (typ, t, h₂) = >>=-ok (ok_or header.typ unsupported_token_type) _ h₁ in
        let (typed, h₃) =
          reject_if-ok (not (contains self.token_types (to_ascii_lowercase typ)))
            unsupported_token_type _ h₂ in
        let (allowed, h₄) =
          reject_if-ok (not (contains_algorithm header.alg self.algorithms)) unsupported_algorithm _
            h₃ in
        let (kid, k, h₅) = >>=-ok (ok_or header.kid unknown_key) _ h₄ in
        let (_, h₆) = reject_if-ok (is_empty (as_bytes kid)) unknown_key _ h₅ in
        let (found, f, h₇) = >>=-ok (ok_or (lookup kid self.keys) unknown_key) _ h₆ in
        let (fits, h₈) =
          reject_if-ok (not (contains_algorithm header.alg found.algorithms)) unsupported_algorithm
            _ h₇ in
        subst (SelectsKey header) (ok-injective h₈) (
          typ,
          kid,
          own,
          ok_or-some header.typ _ typ t,
          not_false _ typed,
          ok_or-some header.kid _ kid k,
          ok_or-some (lookup kid self.keys) _ found f,
          not_false _ allowed,
          not_false _ fits,
        )

    identify-IsGranted :
        (claims : Members) (p : AuthenticatedPrincipal)
        → identify l self claims ≡ ok p
        → IsGranted self claims p
    unfolding identify
    identify-IsGranted claims p h =
        let (subject, s, h₁) = >>=-ok (bounded_string (get "sub" claims) max_subject_bytes) _ h in
        let (scopes, c, h₂) = >>=-ok (collect_scopes claims self.scope_claims []) _ h₁ in
        let (found, f, h₃) =
          >>=-ok (ok_or (lookup subject self.principals) unknown_principal) _ h₂ in
        let (some', h₄) =
          reject_if-ok (is_empty (intersection found.allowed_scopes scopes)) insufficient_scope _
            h₃ in
        let (pseudonym', _, h₅) = >>=-ok (pseudonym l self subject) _ h₄ in
        subst (IsGranted self claims) (ok-injective h₅) (
          subject,
          found,
          bounded_string-text (get "sub" claims) max_subject_bytes subject s,
          ok_or-some (lookup subject self.principals) _ found f,
          refl,
          refl,
          refl,
          refl,
          some',
          λ x.
              contains-intersection found.allowed_scopes scopes x
              ∙ ap (λ b. contains found.allowed_scopes x && b)
                  (collect_scopes-carries claims self.scope_claims scopes x c),
        )

    read_claims-verified :
        (token : List ℕ) (claims : Members) (now : ℤ)
        → read_claims l self token now ≡ ok claims
        → IsSigned self token claims × IsAddressed self claims now
    unfolding read_claims SelectsKey
    read_claims-verified token claims now h =
        let (header, r, h₁) = >>=-ok (ok_or (l.decode_header token) malformed_token) _ h in
        let (key, k, h₂) = >>=-ok (select_key l self header) _ h₁ in
        let (value, d, h₃) =
          >>=-ok (ok_or (l.decode token key.key header.alg) invalid_signature) _ h₂ in
        let (found, o, h₄) = >>=-ok (ok_or (as_object value) invalid_claims) _ h₃ in
        let (_, h₅) =
          reject_if-ok (count found == 0 || ltb max_token_claims (count found)) invalid_claims _
            h₄ in
        let (done, i, h₆) = >>=-ok (check_issuer self.document found) _ h₅ in
        let (done₁, a, h₇) = >>=-ok (check_audience self.document found) _ h₆ in
        let (done₂, t, h₈) = >>=-ok (check_time self.document found now) _ h₇ in
        let (typ, kid, own, has_typ, typed, has_kid, stored, allowed, fits) =
          select_key-SelectsKey header key k in
        subst (λ c. IsSigned self token c × IsAddressed self c now) (ok-injective h₈)
          (
            (
              header,
              key,
              typ,
              kid,
              ok_or-some (l.decode_header token) _ header r,
              own,
              has_typ,
              typed,
              has_kid,
              stored,
              allowed,
              fits,
              ok_or-some (l.decode token key.key header.alg) _ value d
                  ∙ ap some (as_object-object value found (ok_or-some (as_object value) _ found o)),
            ),
            (
              check_issuer-text self.document found i,
              check_audience-found self.document found a,
              t,
            ),
          )

    -- Whoever is authenticated has sent a token that a configured key signs, with an algorithm that the
    -- verifier and the key allow; its claims are of the configured issuer, for the configured audience
    -- and in their time; and the principal is the one that is configured for their subject, with the
    -- scopes that are both allowed to it and carried by the claims, of which there is one.
    pub authenticate_at-verified :
        (header : List ℕ) (now : ℤ) (p : AuthenticatedPrincipal)
        → authenticate_at l self header now ≡ ok p
        → (token : List ℕ) × (claims : Members) × (extract_bearer
              self.document.server_limits.max_token_bytes header
            ≡ ok token)
          × IsSigned self token claims
          × IsAddressed self claims now
          × IsGranted self claims p
    unfolding authenticate_at
    authenticate_at-verified header now p h =
        let (token, t, h₁) =
          >>=-ok (extract_bearer self.document.server_limits.max_token_bytes header) _ h in
        let (claims, c, h₂) = >>=-ok (read_claims l self token now) _ h₁ in
        let (signed, addressed) = read_claims-verified token claims now c in
        (token, claims, t, signed, addressed, identify-IsGranted claims p h₂)
