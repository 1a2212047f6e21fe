-- ===== src/Compiler.antt =====
-- crates/postgresem-compiler/src/compiler.rs: the compiler's options, results and errors, and the
-- validated query that stands between its two passes.
mod Tests
pub mod Parameters
pub mod Identifiers
pub mod Resolve
pub mod Validate
pub mod Expressions
pub mod Render
pub mod Compile
use postgresem.Prelude.{ℕ, String, Option, List}
use postgresem.Lsq.{Literal, TimeGrain, OrderBy}
use postgresem.Semantic.{DataType, Field, Metric, Model, Relationship}

pub record CompilerOptions : Type 0 where
  pub default_limit : ℕ
  pub hard_limit : ℕ

-- `CompilerOptions::default`
abbrev pub default_options : CompilerOptions
default_options = record { default_limit = 100; hard_limit = 10_000 }

pub record CompiledParameter : Type 0 where
  pub position : ℕ
  pub data_type : DataType
  pub value : Literal

pub record OutputColumn : Type 0 where
  pub name : String
  pub data_type : DataType

pub record AggregationAnchorLineage : Type 0 where
  pub metric : String
  pub field : String

pub record Lineage : Type 0 where
  pub models : List String
  pub metrics : List String
  pub aggregation_anchors : List AggregationAnchorLineage
  pub relationships : List String
  pub source_columns : List String

pub record CompiledQuery : Type 0 where
  pub sql : String
  pub parameters : List CompiledParameter
  pub output_schema : List OutputColumn
  pub lineage : Lineage
  pub query_hash : String
  pub sql_hash : String

pub data CompileError : Type 0 where
  unsupported_snapshot_version : String → CompileError
  invalid_revision_hash unknown_model : CompileError
  unknown_field unknown_metric hidden_field hidden_metric : String → CompileError
  invalid_time_grain literal_type_mismatch unknown_order_reference : String → CompileError
  unknown_relationship unsafe_relationship missing_metric_metadata : String → CompileError
  invalid_aggregation_anchor missing_aggregation_anchor : String → CompileError
  mixed_aggregation_anchors : CompileError
  joined_metric_filter unsupported_fanout_additivity : String → CompileError
  invalid_metric_field joined_metric_field : String → CompileError
  count_distinct_requires_entity_key count_requires_entity_key : String → CompileError
  invalid_metric_type invalid_relationship_target : String → CompileError
  relationship_target_not_entity_key missing_timezone : String → CompileError
  hash_serialization invalid_limit_configuration limit_exceeded : CompileError

-- `CompileError::code`
pub error_code : CompileError → String
error_code (unsupported_snapshot_version _) = "SEMANTIC_UNSUPPORTED_SNAPSHOT_VERSION"
error_code invalid_revision_hash = "SEMANTIC_INVALID_REVISION_HASH"
error_code unknown_model = "SEMANTIC_MODEL_NOT_AVAILABLE"
error_code (unknown_field _) = "SEMANTIC_FIELD_NOT_AVAILABLE"
error_code (unknown_metric _) = "SEMANTIC_METRIC_NOT_AVAILABLE"
error_code (hidden_field _) = "SEMANTIC_FIELD_NOT_AVAILABLE"
error_code (hidden_metric _) = "SEMANTIC_METRIC_NOT_AVAILABLE"
error_code (invalid_time_grain _) = "SEMANTIC_INVALID_TIME_GRAIN"
error_code (literal_type_mismatch _) = "SEMANTIC_LITERAL_TYPE_MISMATCH"
error_code (unknown_order_reference _) = "SEMANTIC_ORDER_REFERENCE_NOT_PROJECTED"
error_code (unknown_relationship _) = "SEMANTIC_RELATIONSHIP_NOT_AVAILABLE"
error_code (unsafe_relationship _) = "SEMANTIC_UNSAFE_RELATIONSHIP"
error_code (missing_metric_metadata _) = "SEMANTIC_MISSING_METRIC_METADATA"
error_code (invalid_aggregation_anchor _) = "SEMANTIC_INVALID_AGGREGATION_ANCHOR"
error_code (missing_aggregation_anchor _) = "SEMANTIC_MISSING_AGGREGATION_ANCHOR"
error_code mixed_aggregation_anchors = "SEMANTIC_MIXED_AGGREGATION_ANCHORS"
error_code (joined_metric_filter _) = "SEMANTIC_JOINED_METRIC_FILTER"
error_code (unsupported_fanout_additivity _) = "SEMANTIC_UNSUPPORTED_FANOUT_ADDITIVITY"
error_code (invalid_metric_field _) = "SEMANTIC_INVALID_METRIC_FIELD"
error_code (joined_metric_field _) = "SEMANTIC_JOINED_METRIC_FIELD"
error_code (count_distinct_requires_entity_key _) = "SEMANTIC_COUNT_DISTINCT_REQUIRES_ENTITY_KEY"
error_code (count_requires_entity_key _) = "SEMANTIC_COUNT_REQUIRES_ENTITY_KEY"
error_code (invalid_metric_type _) = "SEMANTIC_INVALID_METRIC_TYPE"
error_code (invalid_relationship_target _) = "SEMANTIC_INVALID_RELATIONSHIP_TARGET"
error_code (relationship_target_not_entity_key _) = "SEMANTIC_RELATIONSHIP_TARGET_NOT_ENTITY_KEY"
error_code (missing_timezone _) = "SEMANTIC_MISSING_TIMEZONE"
error_code hash_serialization = "COMPILER_HASH_SERIALIZATION_FAILED"
error_code invalid_limit_configuration = "COMPILER_INVALID_LIMIT_CONFIGURATION"
error_code limit_exceeded = "COMPILER_LIMIT_EXCEEDED"

pub data ComparisonOperator : Type 0 where
  eq not_eq gt gte lt lte : ComparisonOperator

pub record ResolvedDimension : Type 0 where
  pub field : Field
  pub time_grain : Option TimeGrain

pub record ResolvedMetric : Type 0 where
  pub metric : Metric
  pub field : Field
  pub filter : Option (Field × Literal)
  pub aggregation_anchor : Option Field

mutual
  pub data ResolvedFilter : Type 0 where
    and or : ResolvedFilters → ResolvedFilter
    not : ResolvedFilter → ResolvedFilter
    comparison : ComparisonOperator → Field → Literal → ResolvedFilter
    is_in : Field → List Literal → ResolvedFilter
    is_null is_not_null : Field → ResolvedFilter

  -- `Vec<ResolvedFilter>`
  pub data ResolvedFilters : Type 0 where
    nil : ResolvedFilters
    cons : ResolvedFilter → ResolvedFilters → ResolvedFilters

pub record ValidatedQuery : Type 0 where
  pub model : Model
  pub dimensions : List ResolvedDimension
  pub metrics : List ResolvedMetric
  pub filter : Option ResolvedFilter
  pub order_by : List OrderBy
  pub relationships : List (String × Relationship)
  pub aggregation_anchor : Option Field
  pub limit : ℕ
