-- ===== src/Auth/Answers.antt =====
-- What a verifier that `Authority::load` of crates/postgresem/src/mcp_http_auth.rs gives answers to a
-- request.
use mathlib.Core.Path.{subst}
use postgresem.Prelude.{
  ℕ, ◌≤◌, ◌≡◌, refl, sym, ap, ◌∙◌, String, Bool, true, false, ◌&&◌, Option, none, some, List, [],
  ◌∷◌, any, contains, is_some, arith, Option-cases, inl, inr, if◌then◌else◌,
}
use postgresem.Prelude.Results.{ok}
use postgresem.Prelude.Ordered.{lookup}
use postgresem.Lsq.{ℤ, pos}
use postgresem.Lsm.Json.{Members}
use postgresem.Auth.{AuthenticatedPrincipal, PrincipalConfig, PrincipalRecord}
use postgresem.Auth.Library.{Algorithm, same_algorithm, Header, Library, Authority}
use postgresem.Auth.Words.{parse_algorithm}
use postgresem.Auth.Integers.{max_i64}
use postgresem.Auth.Bearer.{extract_bearer}
use postgresem.Auth.Claims.{get}
use postgresem.Auth.Token.{contains_algorithm, mutation_role_for, authenticate_at}
use postgresem.Auth.Document.Bounds.{IsRateLimit}
use postgresem.Auth.Document.Principals.{is_role}
use postgresem.Auth.Document.Valid.{IsPrincipal}
use postgresem.Auth.Document.Whole.{validate_document-IsDocument}
use postgresem.Auth.Load.{FileSystem, parse_algorithms, record_of, load}
use postgresem.Auth.Window.{InTime, check_time_iff}
use postgresem.Auth.Verified.{IsSigned, authenticate_at-verified}
use postgresem.Auth.Scopes.{carries}
use postgresem.Auth.Configured.{
  configured, configured-All, lookup-insert_principals, load-IsAssembled, contains-collect_set,
  found_after,
}

-- an algorithm of a public key
abbrev pub is_asymmetric : Algorithm → Bool
is_asymmetric Algorithm.hs256 = false
is_asymmetric Algorithm.hs384 = false
is_asymmetric Algorithm.hs512 = false
is_asymmetric _ = true

parse_algorithm-asymmetric :
    (name : String) (a b : Algorithm)
    → parse_algorithm name ≡ some b
    → same_algorithm a b ≡ true
    → is_asymmetric a ≡ true
unfolding parse_algorithm
parse_algorithm-asymmetric name a b h k = ground arith

parse_algorithms-asymmetric :
    (names : List String) (a : Algorithm)
    → contains_algorithm a (parse_algorithms names) ≡ true
    → is_asymmetric a ≡ true
unfolding parse_algorithms
parse_algorithms-asymmetric [] a h = cc
parse_algorithms-asymmetric (name ∷ names) a h = elim (Option-cases (parse_algorithm name)) [
  | inl unknown ↦ parse_algorithms-asymmetric names a (rw (unknown, parse_algorithms) at h)
  | inr (b, known) ↦
      ground (arith, parse_algorithm-asymmetric name a b known, parse_algorithms-asymmetric names a)
]

granted_role :
    (enabled granted allowed : Bool) (role : Option String)
    → is_some role ≡ allowed
    → (granted ≡ true → allowed ≡ true)
    → is_some (if enabled && granted then role else none) ≡ (enabled && granted)
granted_role enabled granted allowed role h k = ground arith

-- a mutation role that is given is the configured one
role_kept :
    (b : Bool) (role : Option String) (query : String)
    → is_role role query ≡ false
    → is_role (if b then role else none) query ≡ false
role_kept b role query h = ground arith

record-some : {a b : PrincipalRecord} → some a ≡ some b → a ≡ b
record-some h = cc

-- the configured principal of a record
known_config :
    (c : Option PrincipalConfig) (found : PrincipalRecord)
    → found_after c none ≡ some found
    → (p : PrincipalConfig) × (c ≡ some p) × (record_of p ≡ found)
known_config none found h = cc
known_config (some p) found h = (p, refl, record-some h)

module _ (l : Library) where
  -- A verifier that is loaded has for each subject the principal that its document configures for it,
  -- and for another subject none: none of the principals takes the place of another.
  pub load-configured :
      (fs : FileSystem) (path : String) (self : Authority l) (subject : String)
      → load l fs path ≡ ok self
      → lookup subject self.principals
        ≡ found_after (configured subject self.document.principals) none
  unfolding lookup
  load-configured fs path self subject loaded =
      let (valid, (same, principals, _, _)) = load-IsAssembled l fs path self loaded in
      let (_, _, _, _, _, distinct, _) = validate_document-IsDocument l self.document valid in
      ap (lookup subject) principals
      ∙ lookup-insert_principals self.document.principals [] subject distinct

  -- Whoever a loaded verifier authenticates has sent a token under an algorithm of a public key: a
  -- token that is signed with a shared secret is refused.
  pub load-asymmetric :
      (fs : FileSystem) (path : String) (self : Authority l) (header : List ℕ) (now : ℤ)
      (p : AuthenticatedPrincipal)
      → load l fs path ≡ ok self
      → authenticate_at l self header now ≡ ok p
      → (token : List ℕ) × (h : Header) × (extract_bearer
            self.document.server_limits.max_token_bytes header
          ≡ ok token)
        × (l.decode_header token ≡ some h)
        × (is_asymmetric h.alg ≡ true)
  load-asymmetric fs path self header now p loaded accepted =
      let (_, (_, _, algorithms, _)) = load-IsAssembled l fs path self loaded in
      let (token, claims, t, signed, _, _) =
        authenticate_at-verified l self header now p accepted in
      let (h, key, typ, kid, decoded, _, _, _, _, _, allowed, _, _) = signed in
      (
        token,
        h,
        t,
        decoded,
        parse_algorithms-asymmetric self.document.allowed_algorithms h.alg
            (subst (λ as'. contains_algorithm h.alg as' ≡ true) algorithms allowed),
      )

  -- Whoever a loaded verifier authenticates has sent a signed token whose claims put the time of the
  -- request, in exact integers, in the token's window, with the configured skew and age; the time is
  -- one from the epoch on that an `i64` holds.
  pub load-in_time :
      (fs : FileSystem) (path : String) (self : Authority l) (header : List ℕ) (now : ℕ)
      (p : AuthenticatedPrincipal)
      → now ≤ max_i64
      → load l fs path ≡ ok self
      → authenticate_at l self header (pos now) ≡ ok p
      → (token : List ℕ) × (claims : Members) × IsSigned l self token claims
        × InTime self.document claims now
  load-in_time fs path self header now p h loaded accepted =
      let (valid, _) = load-IsAssembled l fs path self loaded in
      let (_, skew, age, _, _, _, _) = validate_document-IsDocument l self.document valid in
      let (token, claims, _, signed, addressed, _) =
        authenticate_at-verified l self header (pos now) p accepted in
      let (_, _, in_time) = addressed in
      (token, claims, signed, (check_time_iff self.document claims now h (omega arith)).0 in_time)

  -- Whoever a loaded verifier authenticates is a configured principal, with its identity, its query role
  -- and a rate limit within the bounds; and has a mutation role exactly when mutation is enabled and the
  -- mutation scope is granted, which is another role than that for the queries.
  pub load-authorized :
      (fs : FileSystem) (path : String) (self : Authority l) (header : List ℕ) (now : ℤ)
      (p : AuthenticatedPrincipal)
      → load l fs path ≡ ok self
      → authenticate_at l self header now ≡ ok p
      → (subject : String) × (c : PrincipalConfig) × (configured subject self.document.principals
          ≡ some c)
        × (p.authority_id ≡ c.authority_id)
        × (p.query_role ≡ c.query_role)
        × (is_some p.mutation_role ≡ (
            self.document.remote_mutation_enabled
            && contains p.granted_scopes self.document.mutation_scope))
        × (is_role p.mutation_role p.query_role ≡ false)
        × IsRateLimit p.rate_limit
  load-authorized fs path self header now p loaded accepted =
      let (valid, _) = load-IsAssembled l fs path self loaded in
      let (_, _, _, _, principals, _, _) = validate_document-IsDocument l self.document valid in
      let (_, claims, _, _, _, granted) = authenticate_at-verified l self header now p accepted in
      let (subject, found, _, known, id, query, rate, role, _, scopes) = granted in
      let (c, is_c, same) =
        known_config (configured subject self.document.principals) found
          (sym (load-configured fs path self subject loaded) ∙ known) in
      let (can_query, has_role, other, limit) =
        configured-All (IsPrincipal self.document) self.document.principals subject c principals
          is_c in
      let now_role =
        subst (λ r. p.mutation_role ≡ mutation_role_for l self r p.granted_scopes) (sym same)
          role in
      let own_query = query ∙ sym (ap (λ r. r.query_role) same) in
      let m = self.document.mutation_scope in
      let may =
        scopes m
        ∙ ap (λ b. b && any (λ name. carries (get name claims) m) self.scope_claims)
            (sym (ap (λ r. contains r.allowed_scopes m) same)
              ∙ contains-collect_set c.allowed_scopes m) in
      (
        subject,
        c,
        is_c,
        id ∙ sym (ap (λ r. r.authority_id) same),
        own_query,
        ap is_some now_role
            ∙ granted_role self.document.remote_mutation_enabled (contains p.granted_scopes m)
                (contains c.allowed_scopes m) c.mutation_role has_role (λ g. ground arith),
        rw (now_role, own_query) (role_kept _ c.mutation_role c.query_role other),
        subst IsRateLimit (sym (rate ∙ sym (ap (λ r. r.rate_limit) same))) limit,
      )
