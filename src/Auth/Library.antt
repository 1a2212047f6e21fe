-- ===== src/Auth/Library.antt =====
-- What crates/postgresem/src/mcp_http_auth.rs takes of other packages: `jsonwebtoken`, `hmac`, `sha2`,
-- `base64`, `url` and `serde_json`; and the verifier that it assembles of them.
use postgresem.Prelude.{ℕ, String, Bool, Option, List, ◌==◌}
use postgresem.Lsm.Json.{Value}
use postgresem.Auth.{AuthorityDocument, PrincipalRecord}

-- `jsonwebtoken::Algorithm`
pub data Algorithm : Type 0 where
  hs256 hs384 hs512 es256 es384 rs256 rs384 rs512 ps256 ps384 ps512 eddsa : Algorithm

abbrev rank : Algorithm → ℕ
rank hs256 = 0
rank hs384 = 1
rank hs512 = 2
rank es256 = 3
rank es384 = 4
rank rs256 = 5
rank rs384 = 6
rank rs512 = 7
rank ps256 = 8
rank ps384 = 9
rank ps512 = 10
rank eddsa = 11

-- `Algorithm::eq`
abbrev pub same_algorithm : Algorithm → Algorithm → Bool
same_algorithm a b = rank a == rank b

-- the parts of `jsonwebtoken::Header` that the code reads
pub record Header : Type 0 where
  pub typ : Option String
  pub alg : Algorithm
  pub kid : Option String
  pub has_jwk : Bool
  pub has_jku : Bool
  pub has_x5u : Bool
  pub has_x5c : Bool
  pub has_x5t : Bool
  pub has_x5t_s256 : Bool

-- `jwk::AlgorithmParameters`, with the curves that the code tells apart
pub data KeyType : Type 0 where
  rsa p256 p384 other_curve octet_key_pair octet_key : KeyType

-- the parts of `jsonwebtoken::jwk::Jwk` that the code reads: whether the use is for signatures, whether
-- the operations contain `Verify`, and the text of the declared algorithm
pub record Jwk : Type 0 where
  pub key_id : Option String
  pub is_signature : Option Bool
  pub can_verify : Option Bool
  pub key_type : KeyType
  pub key_algorithm : Option String
  pub material : List ℕ

-- `url::Url`, by its accessors
pub record Url : Type 0 where
  pub text : String
  pub scheme : String
  pub username : String
  pub password : Option String
  pub host : Option String
  pub port : Option ℕ
  pub path : String
  pub query : Option String
  pub fragment : Option String
  pub origin : String

pub record Library : Type 1 where
  -- `DecodingKey`
  pub Key : Type 0
  pub from_jwk : Jwk → Option Key
  pub decode_header : List ℕ → Option Header
  -- `decode`, where the validation allows one algorithm and looks at no claim
  pub decode : List ℕ → Key → Algorithm → Option Value
  -- `HmacSha256`, `new_from_slice`, and `update` up to `finalize`
  pub Mac : Type 0
  pub new_from_slice : List ℕ → Option Mac
  pub finalize : Mac → List ℕ → List ℕ
  pub encode_base64 : List ℕ → String
  pub parse_url : String → Option Url
  pub parse_document : List ℕ → Option AuthorityDocument
  pub parse_jwks : List ℕ → Option (List Jwk)

module _ (l : Library) where
  pub record VerificationKey : Type 0 where
    pub key : l.Key
    pub algorithms : List Algorithm

  -- `Authority`: the sets are ordered, and `keys` and `principals` are ordered by their names.
  pub record Authority : Type 0 where
    pub document : AuthorityDocument
    pub algorithms : List Algorithm
    pub token_types : List String
    pub scope_claims : List String
    pub scopes_supported : List String
    pub allowed_hosts : List String
    pub allowed_origins : List String
    pub keys : List (String × VerificationKey)
    pub principals : List (String × PrincipalRecord)
    pub pseudonym_key : List ℕ
