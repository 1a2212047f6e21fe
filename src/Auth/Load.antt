-- ===== src/Auth/Load.antt =====
-- `Authority::load` of crates/postgresem/src/mcp_http_auth.rs: its files, its keys and its assembly.
pub mod Keys
use Prim.Native.Nat.{suc}
use postgresem.Prelude.{
  ℕ, String, Bool, true, false, not, ◌&&◌, ◌||◌, Option, none, some, List, [], ◌∷◌, ltb, ◌==◌,
  length, all, is_empty, map, is_some, str_eq, if◌then◌else◌,
}
use postgresem.Prelude.Results.{Result, ok, err, ◌>>=◌, ◌>>◌, reject_if, ok_or}
use postgresem.Prelude.Text.{as_bytes}
use postgresem.Prelude.Ordered.{set_insert, map_insert, lookup}
use postgresem.Auth.{
  ConfigError, config_error, error_at, io, parse, schema, key as key_error, AuthorityDocument,
  PrincipalConfig, PrincipalRecord,
}
use postgresem.Auth.Library.{
  Algorithm, KeyType, rsa, p256, p384, other_curve, octet_key_pair, octet_key, Jwk, Library,
  VerificationKey, Authority,
}
use postgresem.Auth.Words.{byte_length, to_ascii_lowercase, parse_algorithm}
use postgresem.Auth.Token.{contains_algorithm}
use postgresem.Auth.Document.{validate_document}
use postgresem.Auth.Load.Keys.{max_hmac_key_bytes, load_pseudonym_key, load_keys}

-- `std::fs` and `std::path`: whether the entry at a path is a regular file and its length, its bytes,
-- and the operations on paths
pub record FileSystem : Type 0 where
  pub metadata : String → Option (Bool × ℕ)
  pub read : String → Option (List ℕ)
  pub is_absolute : String → Bool
  pub join : String → String → String
  pub parent : String → Option String

-- `MAX_AUTHORITY_FILE_BYTES` and `MAX_JWKS_FILE_BYTES`
abbrev pub max_authority_file_bytes : ℕ
max_authority_file_bytes = 4_194_304

abbrev pub max_jwks_file_bytes : ℕ
max_jwks_file_bytes = 1_048_576

-- `filter_map(parse_algorithm)`
unfoldable pub parse_algorithms : List String → List Algorithm
parse_algorithms [] = []
parse_algorithms (name ∷ names) =
    let rest = parse_algorithms names in
    elim (parse_algorithm name) [ none ↦ rest | some a ↦ a ∷ rest ]

-- the elements of a list as a `BTreeSet`
unfoldable pub collect_set : List String → List String
collect_set [] = []
collect_set (x ∷ xs) = set_insert x (collect_set xs)

-- the record of a principal
abbrev pub record_of : PrincipalConfig → PrincipalRecord
record_of p = record {
  authority_id = p.authority_id;
  query_role = p.query_role;
  mutation_role = p.mutation_role;
  allowed_scopes = collect_set p.allowed_scopes;
  rate_limit = p.rate_limit;
}

-- the map of the principals: the last of those with the same subject is kept
unfoldable pub insert_principals :
    List PrincipalConfig → List (String × PrincipalRecord) → List (String × PrincipalRecord)
insert_principals [] principals = principals
insert_principals (p ∷ more) principals =
    insert_principals more (map_insert p.subject (record_of p) principals)

module _ (l : Library) where
  unfoldable pub assemble : AuthorityDocument → List ℕ → List ℕ → Result ConfigError (Authority l)
  assemble document jwks_bytes hmac_bytes = do
    let algorithms = parse_algorithms document.allowed_algorithms
    reject_if (not (length algorithms == length document.allowed_algorithms))
        (config_error schema "allowed_algorithms contains an unsupported value")
    keys ← load_keys l jwks_bytes algorithms
    pseudonym_key ← load_pseudonym_key l hmac_bytes
    let token_types = collect_set (map to_ascii_lowercase document.allowed_token_types)
    reject_if (not (length token_types == length document.allowed_token_types))
        (config_error schema "allowed_token_types contains a case-insensitive duplicate")
    ok (record {
      document = document;
      algorithms = algorithms;
      token_types = token_types;
      scope_claims = document.scope_claims;
      scopes_supported = collect_set document.scopes_supported;
      allowed_hosts = collect_set document.allowed_hosts;
      allowed_origins = collect_set document.allowed_origins;
      keys = keys;
      principals = insert_principals document.principals [];
      pseudonym_key = pseudonym_key;
    })

  module _ (fs : FileSystem) where
    unfoldable pub resolve_path : String → String → String
    resolve_path base configured =
        if fs.is_absolute configured then configured else fs.join base configured

    abbrev unreadable : String → String
    unreadable what =
        if str_eq what "jwks document"
        then "jwks document is not readable"
        else if str_eq what "principal hmac key"
        then "principal hmac key is not readable"
        else "authority document is not readable"

    unfoldable pub read_bounded : String → ℕ → String → Result ConfigError (List ℕ)
    read_bounded path max what = do
      (is_file, size) ← ok_or (fs.metadata path) (config_error io (unreadable what))
      reject_if (not is_file) (config_error io "configured path is not a regular file")
      reject_if (ltb max size) (config_error io "configured file exceeds its size bound")
      bytes ← ok_or (fs.read path) (config_error io "configured file is not readable")
      reject_if (ltb max (length bytes)) (config_error io "configured file exceeds its size bound")
      ok bytes

    abbrev pub base_of : Option String → String
    base_of none = "."
    base_of (some base) = base

    unfoldable pub load : String → Result ConfigError (Authority l)
    load path = do
      raw ← read_bounded path max_authority_file_bytes "authority document"
      document ←
          ok_or (l.parse_document raw)
            (config_error parse "authority document is not schema valid JSON")
      validate_document l document
      let base = base_of (fs.parent path)
      jwks_bytes ←
          read_bounded (resolve_path base document.jwks_path) max_jwks_file_bytes "jwks document"
      hmac_bytes ←
          read_bounded (resolve_path base document.principal_hmac_key_path) max_hmac_key_bytes
            "principal hmac key"
      assemble document jwks_bytes hmac_bytes
