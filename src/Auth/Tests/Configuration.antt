-- ===== src/Auth/Tests/Configuration.antt =====
-- A configuration of crates/postgresem/src/mcp_http_auth.rs, and a library and files to run it with.
use postgresem.Prelude.{
  ltb, if◌then◌else◌, ◌+◌, ◌-◌, ◌*◌, ◌/◌, ℕ, true, false, none, some, List, [], ◌∷◌,
}
use postgresem.Prelude.Text.{as_bytes}
use postgresem.Lsm.Json.{Value, Members, Number, end, member}
use postgresem.Auth.{
  AuthorityDocument, PrincipalConfig, ServerLimits, RateLimitConfig, AuthenticatedPrincipal,
}
use postgresem.Auth.Library.{Algorithm, Header, KeyType, Jwk, Library, Authority}
use postgresem.Limiter.{Machine, PrincipalLimiter}
use postgresem.Auth.Load.{FileSystem, record_of}

abbrev pub limit : RateLimitConfig
limit = record { requests_per_minute = 60; burst = 10; max_concurrent = 2 }

abbrev pub limits : ServerLimits
limits = record {
  max_request_body_bytes = 2048;
  max_token_bytes = 512;
  max_header_bytes = 2048;
  max_execution_seconds = 30;
  max_result_bytes = 4096;
  max_concurrent_requests = 10;
  max_pre_auth_concurrent_requests = 5;
  max_database_connections = 4;
  sse_keepalive_seconds = 5;
  max_sse_seconds = 60;
}

abbrev pub ann : PrincipalConfig
ann = record {
  subject = "ann";
  authority_id = "a1";
  query_role = "reader";
  mutation_role = some "writer";
  allowed_scopes = "q" ∷ "m" ∷ [];
  rate_limit = limit;
}

abbrev pub document : AuthorityDocument
document = record {
  schema_version = "1";
  resource = "https://h";
  issuer = "https://i";
  audience = "https://h";
  authorization_servers = "https://i" ∷ [];
  scopes_supported = "q" ∷ "m" ∷ [];
  jwks_path = "/j";
  principal_hmac_key_path = "/k";
  allowed_token_types = "JWT" ∷ [];
  allowed_algorithms = "ES256" ∷ [];
  scope_claims = "scope" ∷ [];
  clock_skew_seconds = 10;
  max_token_age_seconds = 100;
  allowed_hosts = "h" ∷ [];
  allowed_origins = [];
  query_scope = "q";
  mutation_scope = "m";
  remote_mutation_enabled = true;
  server_limits = limits;
  principals = ann ∷ [];
}

abbrev pub claims : Members
claims = member "aud" (Value.string "https://h") (
    member "exp" (Value.number (Number.u64 1050)) (
      member "iat" (Value.number (Number.u64 1000)) (
        member "iss" (Value.string "https://i")
          (member "scope" (Value.string "m q x") (member "sub" (Value.string "ann") end)))))

abbrev pub signed_header : Header
signed_header = record {
  typ = some "jwt";
  alg = Algorithm.es256;
  kid = some "k";
  has_jwk = false;
  has_jku = false;
  has_x5u = false;
  has_x5c = false;
  has_x5t = false;
  has_x5t_s256 = false;
}

abbrev pub jwk : Jwk
jwk = record {
  key_id = some "k";
  is_signature = some true;
  can_verify = none;
  key_type = KeyType.p256;
  key_algorithm = some "ES256";
  material = [];
}

-- a library under which every token carries the claims, and every text is an address
abbrev pub library : Library
library = record {
  Key = Jwk;
  from_jwk = λ k. some k;
  decode_header = λ token. some signed_header;
  decode = λ token key algorithm. some (Value.object claims);
  Mac = List ℕ;
  new_from_slice = λ key. some key;
  finalize = λ mac message. mac;
  encode_base64 = λ bytes. "p";
  parse_url = λ text. some (record {
    text = text;
    scheme = "https";
    username = "";
    password = none;
    host = some "h";
    port = none;
    path = "/";
    query = none;
    fragment = none;
    origin = text;
  });
  parse_document = λ bytes. some document;
  parse_jwks = λ bytes. some (jwk ∷ []);
}

abbrev pub files : FileSystem
files = record {
  metadata = λ path. some (true, 32);
  read = λ path. some (as_bytes "0123456789abcdef0123456789abcdef");
  is_absolute = λ path. true;
  join = λ base path. path;
  parent = λ path. none;
}

abbrev pub request : List ℕ
request = as_bytes "Bearer a.b.c"

abbrev pub verifier : Authority library
verifier = record {
  document = document;
  algorithms = Algorithm.es256 ∷ [];
  token_types = "jwt" ∷ [];
  scope_claims = "scope" ∷ [];
  scopes_supported = "m" ∷ "q" ∷ [];
  allowed_hosts = "h" ∷ [];
  allowed_origins = [];
  keys = ("k", record { key = jwk; algorithms = Algorithm.es256 ∷ [] }) ∷ [];
  principals = ("ann", record_of ann) ∷ [];
  pseudonym_key = as_bytes "0123456789abcdef0123456789abcdef";
}

abbrev pub principal : AuthenticatedPrincipal
principal = record {
  authority_id = "a1";
  query_role = "reader";
  mutation_role = some "writer";
  granted_scopes = "m" ∷ "q" ∷ [];
  rate_limit = limit;
  audit_pseudonym = "p";
}

-- whole numbers and seconds, in place of floats and instants
abbrev pub whole : Machine
whole = record {
  Float = ℕ;
  Instant = ℕ;
  from_u32 = λ n. n;
  plus = λ a b. a + b;
  minus = λ a b. a - b;
  times = λ a b. a * b;
  divided = λ a b. a / b;
  minimum = λ a b. if ltb a b then a else b;
  less_than = ltb;
  seconds_since = λ now past. now - past;
}

abbrev pub no_buckets : PrincipalLimiter whole
no_buckets = record { buckets = []; poisoned = false }
