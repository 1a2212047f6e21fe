-- ===== src/Compiler/Resolve.antt =====
-- crates/postgresem-compiler/src/compiler.rs: the names of a query resolved in its model. The state
-- is `required_relationships`.
use postgresem.Prelude.{
  String, Bool, true, false, not, ◌&&◌, ◌||◌, Option, none, some, List, [], ◌∷◌, str_eq, find,
  is_some, is_none, if◌then◌else◌,
}
use postgresem.Prelude.Results.{Result, ok, err, reject_if, ok_or, or_error}
use postgresem.Prelude.Ordered.{set_insert}
use postgresem.Prelude.Stateful.{Stateful, pure, lift, modify, ◌>>=◌, ◌>>◌}
use postgresem.Lsq.{Literal, Dimension, MetricReference, Filter, Filters}
use postgresem.Semantic.{DataType, Aggregation, Field, Metric, MetricFilter, Model, same_type}
use postgresem.Compiler.{
  CompileError, unknown_field, hidden_field, unknown_metric, hidden_metric, invalid_time_grain,
  literal_type_mismatch, invalid_metric_field, joined_metric_field, count_requires_entity_key,
  count_distinct_requires_entity_key, invalid_metric_type, invalid_aggregation_anchor,
  missing_metric_metadata, ComparisonOperator, ResolvedDimension, ResolvedMetric, ResolvedFilter,
  ResolvedFilters,
}

abbrev pub Resolve : Type 0 → Type 0
Resolve A = Stateful CompileError (List String) A

abbrev pub has_name : String → Field → Bool
has_name name field = str_eq field.semantic_name name

unfoldable pub resolve_field : Model → String → Result CompileError Field
resolve_field model name = ok_or (find (has_name name) model.fields) (unknown_field name)

-- the change of the set that `record_relationship` makes
unfoldable pub with_relationship : Field → List String → List String
with_relationship field required = elim field.relationship [
  | none ↦ required
  | some relationship ↦ set_insert relationship required
]

unfoldable pub record_relationship : Field → Resolve (Unit {0})
record_relationship field = modify (with_relationship field)

unfoldable pub visible_field : Model → String → Result CompileError Field
visible_field model name = elim (resolve_field model name) [
  | err e ↦ err e
  | ok field ↦ if field.visible then ok field else err (hidden_field name)
]

abbrev pub compatible : DataType → Literal → Bool
compatible DataType.boolean (Literal.boolean _) = true
compatible DataType.integer (Literal.integer _) = true
compatible DataType.numeric (Literal.integer _) = true
compatible DataType.numeric (Literal.numeric _) = true
compatible DataType.text (Literal.text _) = true
compatible DataType.date (Literal.date _) = true
compatible DataType.timestamp (Literal.timestamp _) = true
compatible DataType.timestamp_tz (Literal.date _) = true
compatible DataType.timestamp_tz (Literal.timestamp _) = true
compatible _ _ = false

unfoldable pub validate_literal : Field → Literal → Result CompileError (Unit {0})
validate_literal field literal =
    if compatible field.data_type literal
    then ok tt
    else err (literal_type_mismatch field.semantic_name)

pub validate_literals : Field → List Literal → Result CompileError (Unit {0})
validate_literals field [] = ok tt
validate_literals field (value ∷ values) = elim (validate_literal field value) [
  | err e ↦ err e
  | ok _ ↦ validate_literals field values
]

pub resolve_comparison : Model → String → Literal → ComparisonOperator → Resolve ResolvedFilter
resolve_comparison model field value operator = do
  resolved ← lift (visible_field model field)
  lift (validate_literal resolved value)
  record_relationship resolved
  pure (ResolvedFilter.comparison operator resolved value)

-- the arm of `In`
pub resolve_in : Model → String → List Literal → Resolve ResolvedFilter
resolve_in model field values = do
  resolved ← lift (visible_field model field)
  lift (validate_literals resolved values)
  record_relationship resolved
  pure (ResolvedFilter.is_in resolved values)

-- the arms of `IsNull` and `IsNotNull`
pub resolve_null_test : Model → String → (Field → ResolvedFilter) → Resolve ResolvedFilter
resolve_null_test model field test = do
  resolved ← lift (visible_field model field)
  record_relationship resolved
  pure (test resolved)

mutual
  pub resolve_filter : Model → Filter → Resolve ResolvedFilter
  resolve_filter model (Filter.and args) = do
    resolved ← resolve_filters model args
    pure (ResolvedFilter.and resolved)
  resolve_filter model (Filter.or args) = do
    resolved ← resolve_filters model args
    pure (ResolvedFilter.or resolved)
  resolve_filter model (Filter.not arg) = do
    resolved ← resolve_filter model arg
    pure (ResolvedFilter.not resolved)
  resolve_filter model (Filter.eq field value) =
      resolve_comparison model field value ComparisonOperator.eq
  resolve_filter model (Filter.not_eq field value) =
      resolve_comparison model field value ComparisonOperator.not_eq
  resolve_filter model (Filter.gt field value) =
      resolve_comparison model field value ComparisonOperator.gt
  resolve_filter model (Filter.gte field value) =
      resolve_comparison model field value ComparisonOperator.gte
  resolve_filter model (Filter.lt field value) =
      resolve_comparison model field value ComparisonOperator.lt
  resolve_filter model (Filter.lte field value) =
      resolve_comparison model field value ComparisonOperator.lte
  resolve_filter model (Filter.is_in field values) = resolve_in model field values
  resolve_filter model (Filter.is_null field) = resolve_null_test model field ResolvedFilter.is_null
  resolve_filter model (Filter.is_not_null field) =
      resolve_null_test model field ResolvedFilter.is_not_null

  pub resolve_filters : Model → Filters → Resolve ResolvedFilters
  resolve_filters model Filters.nil = pure ResolvedFilters.nil
  resolve_filters model (Filters.cons arg args) = do
    first ← resolve_filter model arg
    rest ← resolve_filters model args
    pure (ResolvedFilters.cons first rest)

-- `matches!(field.data_type, Date | Timestamp | TimestampTz)`
abbrev pub is_time_type : DataType → Bool
is_time_type DataType.date = true
is_time_type DataType.timestamp = true
is_time_type DataType.timestamp_tz = true
is_time_type _ = false

-- the closure over `query.dimensions` in `validate`
unfoldable pub resolve_dimension : Model → Dimension → Resolve ResolvedDimension
resolve_dimension model dimension = do
  field ← lift (resolve_field model dimension.field)
  lift (reject_if (not field.visible) (hidden_field dimension.field))
  lift (
      reject_if
        (is_some dimension.time_grain
          && (not field.time_dimension || not (is_time_type field.data_type)))
        (invalid_time_grain dimension.field))
  record_relationship field
  pure (record { field = field; time_grain = dimension.time_grain })

unfoldable pub expected_metric_type : Aggregation → DataType → DataType
expected_metric_type Aggregation.count field_type = DataType.integer
expected_metric_type Aggregation.count_distinct field_type = DataType.integer
expected_metric_type Aggregation.avg field_type = DataType.numeric
expected_metric_type Aggregation.sum DataType.integer = DataType.numeric
expected_metric_type _ field_type = field_type

abbrev is_count : Aggregation → Bool
is_count Aggregation.count = true
is_count _ = false

abbrev is_count_distinct : Aggregation → Bool
is_count_distinct Aggregation.count_distinct = true
is_count_distinct _ = false

-- the filter of a metric
unfoldable pub resolve_metric_filter :
    Model → String → Option MetricFilter → Resolve (Option (Field × Literal))
resolve_metric_filter model name none = pure none
resolve_metric_filter model name (some filter) = do
  field ← lift (or_error (resolve_field model filter.field) (invalid_metric_field name))
  lift (validate_literal field filter.value)
  record_relationship field
  pure (some (field, filter.value))

-- the anchor of a metric
unfoldable pub resolve_anchor : Model → String → Option String → Result CompileError (Option Field)
resolve_anchor model name none = ok none
resolve_anchor model name (some anchor) =
    elim (or_error (resolve_field model anchor) (invalid_aggregation_anchor name)) [
      | err e ↦ err e
      | ok field ↦
          if is_some field.relationship || not field.entity_key
          then err (invalid_aggregation_anchor name)
          else ok (some field)
    ]

-- the metadata that each snapshot version wants of a metric
unfoldable pub check_metadata : String → Metric → Result CompileError (Unit {0})
check_metadata version metric =
    if str_eq version "1" && (is_some metric.additivity || is_some metric.aggregation_anchor)
    then err (invalid_aggregation_anchor metric.semantic_name)
    else if str_eq version "2" && is_none metric.additivity
    then err (missing_metric_metadata metric.semantic_name)
    else ok tt

-- the tests of a metric against its source field
unfoldable pub check_metric : Metric → Field → Result CompileError (Unit {0})
check_metric metric field =
    if is_some field.relationship
    then err (joined_metric_field metric.semantic_name)
    else if is_count metric.aggregation && not field.entity_key
    then err (count_requires_entity_key metric.semantic_name)
    else if is_count_distinct metric.aggregation && not field.entity_key
    then err (count_distinct_requires_entity_key metric.semantic_name)
    else if not
        (same_type metric.data_type (expected_metric_type metric.aggregation field.data_type))
    then err (invalid_metric_type metric.semantic_name)
    else ok tt

-- the closure over `query.metrics` in `validate`
unfoldable pub resolve_metric : Model → String → MetricReference → Resolve ResolvedMetric
resolve_metric model version reference = do
  metric ← lift (
      ok_or (find (λ (m : Metric). str_eq m.semantic_name reference.metric) model.metrics)
        (unknown_metric reference.metric))
  lift (reject_if (not metric.visible) (hidden_metric reference.metric))
  field ←
      lift (or_error (resolve_field model metric.field) (invalid_metric_field metric.semantic_name))
  lift (check_metric metric field)
  record_relationship field
  filter ← resolve_metric_filter model metric.semantic_name metric.filter
  lift (check_metadata version metric)
  anchor ← lift (resolve_anchor model metric.semantic_name metric.aggregation_anchor)
  pure (record { metric = metric; field = field; filter = filter; aggregation_anchor = anchor })
