-- ===== src/Lsq.antt =====
-- crates/postgresem-compiler/src/lsq.rs: the syntax of Logical Semantic Queries and the errors of
-- their validation. The literals' checks and the query's checks are in the modules below.
pub mod Literals
pub mod Validate
use postgresem.Prelude.{ℕ, String, Bool, List, Option}
use postgresem.Prelude.Results.{Result}

-- `i64`: `negsuc n` is -(n + 1).
pub data ℤ : Type 0 where
  pos : ℕ → ℤ
  negsuc : ℕ → ℤ

pub data SortDirection : Type 0 where
  asc desc : SortDirection

pub data TimeGrain : Type 0 where
  day week month quarter year : TimeGrain

pub data Literal : Type 0 where
  text : String → Literal
  boolean : Bool → Literal
  integer : ℤ → Literal
  numeric date timestamp : String → Literal

pub record Dimension : Type 0 where
  pub field : String
  pub time_grain : Option TimeGrain

pub record MetricReference : Type 0 where
  pub metric : String

pub record OrderBy : Type 0 where
  pub output_reference : String
  pub direction : SortDirection

mutual
  pub data Filter : Type 0 where
    and or : Filters → Filter
    not : Filter → Filter
    eq not_eq gt gte lt lte : String → Literal → Filter
    is_in : String → List Literal → Filter
    is_null is_not_null : String → Filter

  -- `Vec<Filter>`
  pub data Filters : Type 0 where
    nil : Filters
    cons : Filter → Filters → Filters

pub record LogicalSemanticQuery : Type 0 where
  pub schema_version : String
  pub model : String
  pub dimensions : List Dimension
  pub metrics : List MetricReference
  pub filters : Option Filter
  pub order_by : List OrderBy
  pub limit : Option ℕ

pub record NormalizedLsq : Type 0 where
  pub query : LogicalSemanticQuery
  pub canonical_json : String
  pub hash : String

-- `invalid_json` keeps the message of the JSON library's error.
pub data LsqError : Type 0 where
  invalid_json unsupported_schema_version : String → LsqError
  empty_model empty_projection empty_reference : LsqError
  duplicate_reference duplicate_order_reference invalid_literal_value : String → LsqError
  invalid_limit filter_too_deep filter_too_large : LsqError
  empty_logical_filter invalid_in_filter_size : LsqError

abbrev pub max_limit : ℕ
max_limit = 10_000

abbrev pub max_filter_depth : ℕ
max_filter_depth = 16

abbrev pub max_filter_nodes : ℕ
max_filter_nodes = 128

abbrev pub max_in_values : ℕ
max_in_values = 100

-- `LsqError::code`
pub error_code : LsqError → String
error_code (invalid_json _) = "LSQ_INVALID_JSON"
error_code (unsupported_schema_version _) = "LSQ_UNSUPPORTED_SCHEMA_VERSION"
error_code empty_model = "LSQ_EMPTY_MODEL"
error_code empty_projection = "LSQ_EMPTY_PROJECTION"
error_code empty_reference = "LSQ_EMPTY_REFERENCE"
error_code (duplicate_reference _) = "LSQ_DUPLICATE_REFERENCE"
error_code (duplicate_order_reference _) = "LSQ_DUPLICATE_ORDER_REFERENCE"
error_code (invalid_literal_value _) = "LSQ_INVALID_LITERAL_VALUE"
error_code invalid_limit = "LSQ_INVALID_LIMIT"
error_code filter_too_deep = "LSQ_FILTER_TOO_DEEP"
error_code filter_too_large = "LSQ_FILTER_TOO_LARGE"
error_code empty_logical_filter = "LSQ_EMPTY_LOGICAL_FILTER"
error_code invalid_in_filter_size = "LSQ_INVALID_IN_FILTER_SIZE"
