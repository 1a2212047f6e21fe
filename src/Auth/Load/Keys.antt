-- ===== src/Auth/Load/Keys.antt =====
-- `load_keys` and `load_pseudonym_key` of crates/postgresem/src/mcp_http_auth.rs.
pub mod Laws
use Prim.Native.Nat.{suc}
use postgresem.Prelude.{
  ℕ, String, Bool, false, not, ◌||◌, Option, none, some, List, [], ◌∷◌, ltb, ◌==◌, length, all,
  is_empty, is_some, if◌then◌else◌,
}
use postgresem.Prelude.Results.{Result, ok, err, ◌>>=◌, ◌>>◌, reject_if, ok_or}
use postgresem.Prelude.Text.{as_bytes}
use postgresem.Prelude.Ordered.{map_insert, lookup}
use postgresem.Auth.{ConfigError, config_error, error_at, parse, key as key_error}
use postgresem.Auth.Library.{
  Algorithm, KeyType, rsa, p256, p384, other_curve, octet_key_pair, octet_key, Jwk, Library,
  VerificationKey,
}
use postgresem.Auth.Words.{byte_length, parse_algorithm}
use postgresem.Auth.Token.{contains_algorithm}

-- `MIN_HMAC_KEY_BYTES`, `MAX_HMAC_KEY_BYTES` and `MAX_JWKS_KEYS`
abbrev pub min_hmac_key_bytes : ℕ
min_hmac_key_bytes = 32

abbrev pub max_hmac_key_bytes : ℕ
max_hmac_key_bytes = 4096

abbrev pub max_jwks_keys : ℕ
max_jwks_keys = 64

unfoldable pub filter_algorithms : (Algorithm → Bool) → List Algorithm → List Algorithm
filter_algorithms keep [] = []
filter_algorithms keep (a ∷ more) =
    let rest = filter_algorithms keep more in if keep a then a ∷ rest else rest

abbrev pub key_at : String → ℕ → ConfigError
key_at reason index = error_at (config_error key_error reason) index

-- a property that is given and does not hold
abbrev pub denies : Option Bool → Bool
denies none = false
denies (some accepted) = not accepted

-- the algorithms of the type of a key
unfoldable pub algorithms_of_type : ℕ → KeyType → Result ConfigError (List Algorithm)
algorithms_of_type index rsa = ok (Algorithm.rs256 ∷ Algorithm.rs384 ∷ Algorithm.rs512 ∷ [])
algorithms_of_type index p256 = ok (Algorithm.es256 ∷ [])
algorithms_of_type index p384 = ok (Algorithm.es384 ∷ [])
algorithms_of_type index other_curve = err (key_at "jwks entry uses an unsupported curve" index)
algorithms_of_type index octet_key_pair = ok (Algorithm.eddsa ∷ [])
algorithms_of_type index octet_key = err (key_at "jwks entry is a symmetric key" index)

-- the algorithms that are left when the key declares one
abbrev pub declared_only : ℕ → List Algorithm → Option String → Result ConfigError (List Algorithm)
declared_only index algorithms none = ok algorithms
declared_only index algorithms (some name) = do
  declared ← ok_or (parse_algorithm name) (key_at "jwks entry declares an unsupported alg" index)
  reject_if (not (contains_algorithm declared algorithms))
      (key_at "jwks entry alg conflicts with its key type" index)
  ok (declared ∷ [])

-- the name of a key, once the key is fit for signatures
unfoldable pub check_jwk : ℕ → Jwk → Result ConfigError String
check_jwk index jwk = do
  kid ← ok_or jwk.key_id (key_at "jwks entry has no kid" index)
  reject_if
      (is_empty (as_bytes kid)
        || ltb 256 (byte_length kid)
        || not (all (λ c. ltb c 128) (as_bytes kid)))
      (key_at "jwks entry has an unusable kid" index)
  reject_if (denies jwk.is_signature) (key_at "jwks entry is not a signature key" index)
  reject_if (denies jwk.can_verify) (key_at "jwks entry cannot be used to verify" index)
  ok kid

-- the algorithms of a key
unfoldable pub key_algorithms : List Algorithm → ℕ → Jwk → Result ConfigError (List Algorithm)
key_algorithms allowed index jwk = do
  of_type ← algorithms_of_type index jwk.key_type
  let retained = filter_algorithms (λ a. contains_algorithm a allowed) of_type
  reject_if (length retained == 0) (key_at "jwks entry matches no allowed algorithm" index)
  declared_only index retained jwk.key_algorithm

unfoldable pub load_pseudonym_key : Library → List ℕ → Result ConfigError (List ℕ)
load_pseudonym_key l bytes = do
  reject_if (ltb (length bytes) min_hmac_key_bytes)
      (config_error key_error "principal hmac key is shorter than 32 bytes")
  reject_if (ltb max_hmac_key_bytes (length bytes))
      (config_error key_error "principal hmac key exceeds 4096 bytes")
  reject_if (all (λ byte. byte == 0) bytes)
      (config_error key_error "principal hmac key is all zero bytes")
  mac ← ok_or (l.new_from_slice bytes) (config_error key_error "principal hmac key is unusable")
  ok bytes

module _ (l : Library) where
  -- the loop over the keys
  unfoldable pub keys_from :
      List Algorithm
      → ℕ
      → List Jwk
      → List (String × VerificationKey l)
      → Result ConfigError (List (String × VerificationKey l))
  keys_from allowed index [] keys = ok keys
  keys_from allowed index (jwk ∷ more) keys = do
    kid ← check_jwk index jwk
    algorithms ← key_algorithms allowed index jwk
    key ← ok_or (l.from_jwk jwk) (key_at "jwks entry is not a usable decoding key" index)
    reject_if (is_some (lookup kid keys)) (key_at "jwks document contains a duplicate kid" index)
    keys_from allowed (suc index) more
        (map_insert kid (record { key = key; algorithms = algorithms }) keys)

  unfoldable pub load_keys :
      List ℕ → List Algorithm → Result ConfigError (List (String × VerificationKey l))
  load_keys bytes allowed = do
    keys ← ok_or (l.parse_jwks bytes) (config_error parse "jwks document is not a valid JWK set")
    reject_if (is_empty keys) (config_error key_error "jwks document contains no keys")
    reject_if (ltb max_jwks_keys (length keys))
        (config_error key_error "jwks document contains too many keys")
    keys_from allowed 0 keys []
