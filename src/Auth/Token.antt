-- ===== src/Auth/Token.antt =====
-- `Authority::authenticate_at` of crates/postgresem/src/mcp_http_auth.rs, and `pseudonym`.
use postgresem.Prelude.{
  ℕ, ◌/◌, ◌%◌, ◌^◌, String, Bool, not, ◌&&◌, ◌||◌, Option, none, some, List, [], ◌∷◌, ◌++◌, ltb,
  ◌==◌, length, any, is_empty, contains, if◌then◌else◌,
}
use postgresem.Prelude.Results.{Result, ok, ◌>>=◌, ◌>>◌, reject_if, ok_or}
use postgresem.Prelude.Text.{as_bytes}
use postgresem.Prelude.Ordered.{lookup}
use postgresem.Lsq.{ℤ, pos}
use postgresem.Lsm.Json.{Value, Members}
use postgresem.Auth.{
  AuthError, AuthenticatedPrincipal, PrincipalRecord, unsupported_token_type, unsupported_algorithm,
  unknown_key, invalid_signature, malformed_token, invalid_claims, unknown_principal,
  insufficient_scope, internal,
}
use postgresem.Auth.Library.{Algorithm, same_algorithm, Header, Library, VerificationKey, Authority}
use postgresem.Auth.Words.{is_empty_text, to_ascii_lowercase}
use postgresem.Auth.Integers.{max_i64}
use postgresem.Auth.Bearer.{try_usize, extract_bearer}
use postgresem.Auth.Claims.{
  get, count, bounded_string, check_issuer, check_audience, check_time, collect_scopes,
}

-- `MAX_TOKEN_CLAIMS`
abbrev pub max_token_claims : ℕ
max_token_claims = 64

-- `MAX_SUBJECT_BYTES`
abbrev pub max_subject_bytes : ℕ
max_subject_bytes = 512

-- `u64::to_be_bytes`
unfoldable pub be64 : ℕ → List ℕ
be64 n =
    (n / 256 ^ 7 % 256)
    ∷ (n / 256 ^ 6 % 256)
    ∷ (n / 256 ^ 5 % 256)
    ∷ (n / 256 ^ 4 % 256)
    ∷ (n / 256 ^ 3 % 256)
    ∷ (n / 256 ^ 2 % 256)
    ∷ (n / 256 % 256)
    ∷ (n % 256)
    ∷ []

-- a field of the pseudonym: its length, which is turned into a `u64`, and its bytes
unfoldable pub field_bytes : List ℕ → Result AuthError (List ℕ)
field_bytes field = do len ← try_usize (length field); ok (be64 len ++ field)

-- `PSEUDONYM_DOMAIN`
abbrev pub pseudonym_domain : String
pseudonym_domain = "postgresem.mcp-http.principal-pseudonym.v1"

-- what `pseudonym` hands to the MAC
unfoldable pub pseudonym_message : String → String → Result AuthError (List ℕ)
pseudonym_message issuer subject = do
  of_issuer ← field_bytes (as_bytes issuer)
  of_subject ← field_bytes (as_bytes subject)
  ok (as_bytes pseudonym_domain ++ (of_issuer ++ of_subject))

abbrev pub contains_algorithm : Algorithm → List Algorithm → Bool
contains_algorithm a algorithms = any (same_algorithm a) algorithms

-- `BTreeSet::intersection`
unfoldable pub intersection : List String → List String → List String
intersection [] t = []
intersection (x ∷ s) t = let rest = intersection s t in if contains t x then x ∷ rest else rest

abbrev pub as_object : Value → Option Members
as_object (Value.object members) = some members
as_object _ = none

-- a header that points at a key of its own
abbrev pub has_foreign_key : Header → Bool
has_foreign_key h = h.has_jwk || h.has_jku || h.has_x5u || h.has_x5c || h.has_x5t || h.has_x5t_s256

module _ (l : Library) where
  unfoldable pub is_allowed_host : Authority l → String → Bool
  is_allowed_host self host = contains self.allowed_hosts (to_ascii_lowercase host)

  unfoldable pub is_allowed_origin : Authority l → String → Bool
  is_allowed_origin self origin = contains self.allowed_origins origin

  unfoldable pub pseudonym : Authority l → String → Result AuthError String
  pseudonym self subject = do
    mac ← ok_or (l.new_from_slice self.pseudonym_key) internal
    message ← pseudonym_message self.document.issuer subject
    ok (l.encode_base64 (l.finalize mac message))

  -- the part of `authenticate_at` that finds the key that a header names
  unfoldable pub select_key : Authority l → Header → Result AuthError (VerificationKey l)
  select_key self header = do
    reject_if (has_foreign_key header) unknown_key
    typ ← ok_or header.typ unsupported_token_type
    reject_if (not (contains self.token_types (to_ascii_lowercase typ))) unsupported_token_type
    reject_if (not (contains_algorithm header.alg self.algorithms)) unsupported_algorithm
    kid ← ok_or header.kid unknown_key
    reject_if (is_empty_text kid) unknown_key
    key ← ok_or (lookup kid self.keys) unknown_key
    reject_if (not (contains_algorithm header.alg key.algorithms)) unsupported_algorithm
    ok key

  -- the part of `authenticate_at` that reads and checks the claims of a token
  unfoldable pub read_claims : Authority l → List ℕ → ℤ → Result AuthError Members
  read_claims self token now = do
    header ← ok_or (l.decode_header token) malformed_token
    key ← select_key self header
    data' ← ok_or (l.decode token key.key header.alg) invalid_signature
    claims ← ok_or (as_object data') invalid_claims
    reject_if (count claims == 0 || ltb max_token_claims (count claims)) invalid_claims
    check_issuer self.document claims
    check_audience self.document claims
    check_time self.document claims now
    ok claims

  -- the mutation role of `authenticate_at`
  abbrev pub mutation_role_for : Authority l → PrincipalRecord → List String → Option String
  mutation_role_for self record' granted =
      if self.document.remote_mutation_enabled && contains granted self.document.mutation_scope
      then record'.mutation_role
      else none

  -- the part of `authenticate_at` that maps the claims to a principal
  unfoldable pub identify : Authority l → Members → Result AuthError AuthenticatedPrincipal
  identify self claims = do
    subject ← bounded_string (get "sub" claims) max_subject_bytes
    token_scopes ← collect_scopes claims self.scope_claims []
    found ← ok_or (lookup subject self.principals) unknown_principal
    let granted = intersection found.allowed_scopes token_scopes
    reject_if (is_empty granted) insufficient_scope
    audit_pseudonym ← pseudonym self subject
    ok (record {
      authority_id = found.authority_id;
      query_role = found.query_role;
      mutation_role = mutation_role_for self found granted;
      granted_scopes = granted;
      rate_limit = found.rate_limit;
      audit_pseudonym = audit_pseudonym;
    })

  unfoldable pub authenticate_at :
      Authority l → List ℕ → ℤ → Result AuthError AuthenticatedPrincipal
  authenticate_at self authorization_header now_unix = do
    token ← extract_bearer self.document.server_limits.max_token_bytes authorization_header
    claims ← read_claims self token now_unix
    identify self claims

  -- `authenticate`, at the seconds since the Unix epoch when the clock is not before it
  unfoldable pub authenticate :
      Authority l → Option ℕ → List ℕ → Result AuthError AuthenticatedPrincipal
  authenticate self clock authorization_header = do
    now ← ok_or clock internal
    reject_if (ltb max_i64 now) internal
    authenticate_at self authorization_header (pos now)
