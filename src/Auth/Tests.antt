-- ===== src/Auth/Tests.antt =====
-- Runs of the token verification of crates/postgresem/src/mcp_http_auth.rs on small inputs.
mod Configuration
use postgresem.Auth.Load.Keys.Laws.{IsLoaded, load_keys-IsLoaded}
use postgresem.Prelude.{
  All, ltb, if◌then◌else◌, ◌+◌, ◌-◌, ◌*◌, ◌/◌, ℕ, Option, ◌++◌, ◌≤◌, ◌≢◌, ◌↔◌, ◌&&◌, any, length,
  ◌≡◌, refl, arith, String, true, false, none, some, List, [], ◌∷◌, contains,
}
use postgresem.Prelude.Results.{ok, err}
use postgresem.Prelude.Text.{as_bytes, utf8}
use postgresem.Prelude.Ordered.{lookup, map_insert, set_insert}
use postgresem.Lsq.{ℤ, pos}
use postgresem.Lsm.Json.{Value, Members, Number, end, member}
use postgresem.Auth.{
  AuthorityDocument, PrincipalConfig, ServerLimits, RateLimitConfig, AuthenticatedPrincipal,
  internal,
}
use postgresem.Auth.Library.{Algorithm, Header, KeyType, Jwk, Library, Authority}
use postgresem.Auth.Words.{
  chars, to_ascii_lowercase, parse_algorithm, is_scope_token, is_claim_name, is_authority_id,
  split_once, split, is_host_pattern, is_base64url_byte, eq_ignore_ascii_case, validate_role,
}
use postgresem.Auth.Integers.{saturating_add, saturating_sub}
use postgresem.Auth.Bearer.{trim_start, trim_end, check_token, extract_bearer}
use postgresem.Auth.Claims.{
  get, count, array_length, bounded_string, numeric_claim, check_issuer, match_entries,
  check_audience, check_window, check_time, split_words, insert_words, insert_values,
  collect_scopes,
}
use postgresem.Auth.Token.{
  be64, field_bytes, pseudonym_message, pseudonym_domain, authenticate, intersection, pseudonym,
  select_key, read_claims, identify, authenticate_at,
}
use postgresem.Auth.Document.{
  validate_scopes, validate_token_lists, validate_times, validate_hosts, validate_origins,
  validate_document,
}
use postgresem.Auth.Document.Uri.{check_path, canonical_https_uri}
use postgresem.Auth.Document.Entries.{unique_entries, distinct_entries, validate_scope_list}
use postgresem.Auth.Document.Limits.{validate_limits, validate_rate_limit}
use postgresem.Auth.Document.Principals.{
  validate_grants, validate_principal, principals_from, validate_principals,
}
use postgresem.Auth.Bearer.Laws.{IsCompact, extract_bearer-IsCompact}
use postgresem.Auth.Bearer.Accepted.{extract_bearer-compact}
use postgresem.Auth.Document.Bounds.{IsRateLimit, IsWithinLimits, validate_limits_iff}
use postgresem.Auth.Document.Whole.{IsDocument, validate_document-IsDocument}
use postgresem.Auth.Document.Principals.{is_role}
use postgresem.Auth.Window.{InTime, check_time_iff}
use postgresem.Auth.Scopes.{carries, collect_scopes-carries}
use postgresem.Auth.Pseudonym.{pseudonym_message-injective}
use postgresem.Auth.Verified.{IsSigned, IsAddressed, IsGranted, authenticate_at-verified}
use postgresem.Auth.Configured.{configured}
use postgresem.Auth.Answers.{
  is_asymmetric, load-configured, load-asymmetric, load-in_time, load-authorized,
}
use postgresem.Auth.Errors.{IsOutOfRange, load-not_internal}
use postgresem.Auth.Admitted.{IsExact, load-admitted}
use postgresem.Limiter.{Machine, PrincipalLimiter, PrincipalPermit, acquire}
use postgresem.Auth.Load.{
  FileSystem, record_of, parse_algorithms, collect_set, insert_principals, assemble, resolve_path,
  read_bounded, load,
}
use postgresem.Auth.Load.Keys.{
  filter_algorithms, algorithms_of_type, check_jwk, key_algorithms, load_pseudonym_key, keys_from,
  load_keys,
}
use postgresem.Auth.Tests.Configuration.{
  limit, limits, ann, document, claims, signed_header, jwk, library, files, request, verifier,
  principal, whole, no_buckets,
}

loads : load library files "/a" ≡ ok verifier
unfolding load read_bounded resolve_path assemble load_keys keys_from load_pseudonym_key
    key_algorithms check_jwk algorithms_of_type insert_principals collect_set parse_algorithms
    filter_algorithms validate_principals principals_from validate_principal validate_grants
    validate_rate_limit validate_limits validate_scope_list distinct_entries unique_entries
    canonical_https_uri check_path validate_document validate_origins validate_hosts validate_times
    validate_token_lists validate_scopes parse_algorithm is_scope_token is_claim_name
    is_authority_id split_once split is_host_pattern validate_role eq_ignore_ascii_case chars
    to_ascii_lowercase as_bytes utf8 lookup map_insert set_insert
loads = refl

authenticates : authenticate_at library verifier request (pos 1010) ≡ ok principal
unfolding authenticate_at identify read_claims select_key pseudonym pseudonym_message field_bytes
    be64 intersection collect_scopes insert_values insert_words split_words check_time check_window
    saturating_add saturating_sub check_audience match_entries check_issuer numeric_claim
    bounded_string array_length count get extract_bearer check_token trim_end trim_start
    eq_ignore_ascii_case is_base64url_byte split split_once is_scope_token to_ascii_lowercase chars
    as_bytes utf8 lookup set_insert collect_set
authenticates = refl

extracts : extract_bearer 512 request ≡ ok (as_bytes "a.b.c")
unfolding extract_bearer check_token trim_end trim_start eq_ignore_ascii_case is_base64url_byte
    split split_once as_bytes utf8
extracts = refl

collects : collect_scopes claims ("scope" ∷ []) [] ≡ ok ("m" ∷ "q" ∷ "x" ∷ [])
unfolding collect_scopes insert_values insert_words split_words array_length get is_scope_token
    chars as_bytes utf8 set_insert
collects = refl

validates : validate_document library document ≡ ok tt
unfolding validate_principals principals_from validate_principal validate_grants validate_rate_limit
    validate_limits validate_scope_list distinct_entries unique_entries canonical_https_uri
    check_path validate_document validate_origins validate_hosts validate_times validate_token_lists
    validate_scopes parse_algorithm is_scope_token is_claim_name is_authority_id split_once split
    is_host_pattern validate_role eq_ignore_ascii_case chars to_ascii_lowercase as_bytes utf8
    set_insert
validates = refl

authenticate_at-verified_example :
    (token : List ℕ) × (c : Members) × (extract_bearer 512 request ≡ ok token)
    × IsSigned library verifier token c
    × IsAddressed library verifier c (pos 1010)
    × IsGranted library verifier c principal
authenticate_at-verified_example =
    authenticate_at-verified library verifier request (pos 1010) principal authenticates

load-configured_example : lookup "ann" verifier.principals ≡ some (record_of ann)
load-configured_example = load-configured library files "/a" verifier "ann" loads

load-asymmetric_example :
    (token : List ℕ) × (h : Header) × (extract_bearer 512 request ≡ ok token)
    × (some signed_header ≡ some h)
    × (is_asymmetric h.alg ≡ true)
load-asymmetric_example =
    load-asymmetric library files "/a" verifier request (pos 1010) principal loads authenticates

load-in_time_example :
    (token : List ℕ) × (c : Members) × IsSigned library verifier token c × InTime document c 1010
load-in_time_example =
    load-in_time library files "/a" verifier request 1010 principal (omega arith) loads
      authenticates

load-authorized_example :
    (subject : String) × (c : PrincipalConfig) × (configured subject (ann ∷ []) ≡ some c)
    × ("a1" ≡ c.authority_id)
    × ("reader" ≡ c.query_role)
    × (true ≡ (true && contains ("m" ∷ "q" ∷ []) "m"))
    × (is_role (some "writer") "reader" ≡ false)
    × IsRateLimit limit
load-authorized_example =
    load-authorized library files "/a" verifier request (pos 1010) principal loads authenticates

load-not_internal_example :
    ((now : ℤ) → authenticate_at library verifier request now ≢ err internal)
    × ((clock : Option ℕ)
        → (authenticate library verifier clock request ≡ err internal) ↔ IsOutOfRange clock)
load-not_internal_example = load-not_internal library files "/a" verifier request loads

check_time_iff_example :
    (check_time document claims (pos 1010) ≡ ok tt) ↔ InTime document claims 1010
check_time_iff_example = check_time_iff document claims 1010 (omega arith) (omega arith)

extract_bearer-IsCompact_example : (length (as_bytes "a.b.c") ≤ 512) × IsCompact (as_bytes "a.b.c")
extract_bearer-IsCompact_example = extract_bearer-IsCompact 512 request (as_bytes "a.b.c") extracts

extract_bearer-compact_example :
    extract_bearer 512 (as_bytes "\tBEARER  a.b.c ") ≡ ok (as_bytes "a.b.c")
unfolding as_bytes utf8 eq_ignore_ascii_case is_base64url_byte
extract_bearer-compact_example =
    extract_bearer-compact 512 (as_bytes "\t") (as_bytes "BEARER") (as_bytes " ") (as_bytes "a")
      (as_bytes "b") (as_bytes "c") (as_bytes " ") refl refl refl refl refl refl refl (omega arith)
      (omega arith)

abbrev message : List ℕ
message = as_bytes pseudonym_domain ++ (be64 2 ++ as_bytes "ab") ++ (be64 1 ++ as_bytes "c")

pseudonym_message-injective_example :
    (as_bytes "ab" ≡ as_bytes "ab") × (as_bytes "c" ≡ as_bytes "c")
unfolding pseudonym_message field_bytes be64 as_bytes utf8
pseudonym_message-injective_example =
    pseudonym_message-injective "ab" "ab" "c" "c" message refl refl

collect_scopes-carries_example :
    contains ("m" ∷ "q" ∷ "x" ∷ []) "q" ≡ any (λ name. carries (get name claims) "q") ("scope" ∷ [])
collect_scopes-carries_example =
    collect_scopes-carries claims ("scope" ∷ []) ("m" ∷ "q" ∷ "x" ∷ []) "q" collects

validate_limits_iff_example : (validate_limits limits ≡ ok tt) ↔ IsWithinLimits limits
validate_limits_iff_example = validate_limits_iff limits

loads_keys : load_keys library [] (Algorithm.es256 ∷ []) ≡ ok verifier.keys
unfolding load_keys keys_from key_algorithms check_jwk algorithms_of_type filter_algorithms
    parse_algorithm as_bytes utf8 lookup map_insert
loads_keys = refl

load_keys-IsLoaded_example :
    (jwks : List Jwk) × (some (jwk ∷ []) ≡ some jwks)
    × All (IsLoaded library (Algorithm.es256 ∷ []) jwks) verifier.keys
load_keys-IsLoaded_example =
    load_keys-IsLoaded library (Algorithm.es256 ∷ []) [] verifier.keys loads_keys

validate_document-IsDocument_example : IsDocument document
validate_document-IsDocument_example = validate_document-IsDocument library document validates

whole-no_time : (now tokens rate : ℕ) → tokens + (now - now) * (rate / 60) ≡ tokens
whole-no_time now tokens rate = let none' : now - now ≡ 0 = omega arith in rw none' (omega arith)

whole-IsExact : IsExact whole
whole-IsExact = record {
  not_less = λ a b h. ground arith;
  no_time = whole-no_time;
  same_minimum = λ a. ground arith;
}

load-admitted_example :
    (permit : PrincipalPermit) × ((acquire whole no_buckets 7 "a1" 60 10 2).1 ≡ ok permit)
unfolding lookup
load-admitted_example =
    load-admitted library files "/a" verifier request (pos 1010) principal whole no_buckets 7 loads
      authenticates whole-IsExact refl refl
