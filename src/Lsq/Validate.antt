-- ===== src/Lsq/Validate.antt =====
-- crates/postgresem-compiler/src/lsq.rs: the checks of a whole query, and `normalize_lsq`.
mod Tests
pub mod Trees
pub mod Queries
use postgresem.Prelude.{
  ℕ, ◌+◌, String, Bool, true, false, not, ◌&&◌, ◌||◌, Option, none, some, List, [], ◌∷◌, ◌++◌, map,
  ltb, ◌==◌, str_eq, if◌then◌else◌, length, is_empty, contains,
}
use postgresem.Prelude.Results.{Result, ok, err, ◌>>=◌, ◌>>◌, reject_if, or_error}
use postgresem.Prelude.Text.{as_bytes, is_blank}
use postgresem.Hash.{sha256}
use postgresem.Lsq.{
  Literal, Dimension, MetricReference, OrderBy, Filter, Filters, nil, cons, LogicalSemanticQuery,
  NormalizedLsq, LsqError, invalid_json, unsupported_schema_version, empty_model, empty_projection,
  empty_reference, duplicate_reference, duplicate_order_reference, invalid_literal_value,
  invalid_limit, filter_too_deep, filter_too_large, empty_logical_filter, invalid_in_filter_size,
  max_limit, max_filter_depth, max_filter_nodes, max_in_values,
}
use postgresem.Lsq.Literals.{is_well_formed, type_name}

pub validate_reference : String → Result LsqError (Unit {0})
validate_reference reference = reject_if (is_blank reference) empty_reference

pub validate_literal_value : Literal → Result LsqError (Unit {0})
validate_literal_value literal =
    if is_well_formed literal then ok tt else err (invalid_literal_value (type_name literal))

-- The two tests at the head of `validate_filter`; the node count after them.
pub enter_filter : ℕ → ℕ → Result LsqError ℕ
enter_filter depth node_count = do
  reject_if (ltb max_filter_depth depth) filter_too_deep
  reject_if (ltb max_filter_nodes (node_count + 1)) filter_too_large
  ok (node_count + 1)

pub validate_literal_values : List Literal → Result LsqError (Unit {0})
validate_literal_values [] = ok tt
validate_literal_values (value ∷ values) =
    validate_literal_value value >> validate_literal_values values

abbrev pub is_no_filter : Filters → Bool
is_no_filter nil = true
is_no_filter (cons _ _) = false

-- the arms of the comparisons
pub validate_comparison : String → Literal → ℕ → Result LsqError ℕ
validate_comparison field value node_count = do
  validate_reference field
  validate_literal_value value
  ok node_count

-- the arm of `In`
pub validate_in : String → List Literal → ℕ → Result LsqError ℕ
validate_in field values node_count = do
  validate_reference field
  reject_if (is_empty values || ltb max_in_values (length values)) invalid_in_filter_size
  validate_literal_values values
  ok node_count

-- the arms of `IsNull` and `IsNotNull`
pub validate_null_test : String → ℕ → Result LsqError ℕ
validate_null_test field node_count = validate_reference field >> ok node_count

-- The result is the node count that `*node_count` holds after the call.
mutual
  pub validate_filter : Filter → ℕ → ℕ → Result LsqError ℕ
  validate_filter (Filter.and args) depth node_count = do
    entered ← enter_filter depth node_count
    reject_if (is_no_filter args) empty_logical_filter
    validate_filters args (depth + 1) entered
  validate_filter (Filter.or args) depth node_count = do
    entered ← enter_filter depth node_count
    reject_if (is_no_filter args) empty_logical_filter
    validate_filters args (depth + 1) entered
  validate_filter (Filter.not arg) depth node_count = do
    entered ← enter_filter depth node_count
    validate_filter arg (depth + 1) entered
  validate_filter (Filter.eq field value) depth node_count =
      enter_filter depth node_count >>= validate_comparison field value
  validate_filter (Filter.not_eq field value) depth node_count =
      enter_filter depth node_count >>= validate_comparison field value
  validate_filter (Filter.gt field value) depth node_count =
      enter_filter depth node_count >>= validate_comparison field value
  validate_filter (Filter.gte field value) depth node_count =
      enter_filter depth node_count >>= validate_comparison field value
  validate_filter (Filter.lt field value) depth node_count =
      enter_filter depth node_count >>= validate_comparison field value
  validate_filter (Filter.lte field value) depth node_count =
      enter_filter depth node_count >>= validate_comparison field value
  validate_filter (Filter.is_in field values) depth node_count =
      enter_filter depth node_count >>= validate_in field values
  validate_filter (Filter.is_null field) depth node_count =
      enter_filter depth node_count >>= validate_null_test field
  validate_filter (Filter.is_not_null field) depth node_count =
      enter_filter depth node_count >>= validate_null_test field

  pub validate_filters : Filters → ℕ → ℕ → Result LsqError ℕ
  validate_filters nil depth node_count = ok node_count
  validate_filters (cons arg args) depth node_count = do
    counted ← validate_filter arg depth node_count
    validate_filters args depth counted

-- The loops over the projected and over the order references; `seen` is the `HashSet`.
pub validate_distinct : (String → LsqError) → List String → List String → Result LsqError (Unit {0})
validate_distinct duplicate seen [] = ok tt
validate_distinct duplicate seen (reference ∷ references) = do
  validate_reference reference
  reject_if (contains seen reference) (duplicate reference)
  validate_distinct duplicate (reference ∷ seen) references

-- `query.limit.is_some_and(|limit| limit == 0 || limit > MAX_LIMIT)`
abbrev pub is_bad_limit : Option ℕ → Bool
is_bad_limit none = false
is_bad_limit (some limit) = limit == 0 || ltb max_limit limit

-- the names that a query projects, dimensions first
abbrev pub projected_names : LogicalSemanticQuery → List String
projected_names query =
    map (λ (d : Dimension). d.field) query.dimensions
    ++ map (λ (m : MetricReference). m.metric) query.metrics

abbrev pub order_names : LogicalSemanticQuery → List String
order_names query = map (λ (o : OrderBy). o.output_reference) query.order_by

pub validate_filter_option : Option Filter → Result LsqError (Unit {0})
validate_filter_option none = ok tt
validate_filter_option (some filter) = validate_filter filter 1 0 >>= λ _. ok tt

pub validate_query : LogicalSemanticQuery → Result LsqError (Unit {0})
validate_query query = do
  reject_if (not (str_eq query.schema_version "1"))
      (unsupported_schema_version query.schema_version)
  reject_if (is_blank query.model) empty_model
  reject_if (is_empty query.dimensions && is_empty query.metrics) empty_projection
  reject_if (is_bad_limit query.limit) invalid_limit
  validate_distinct duplicate_reference [] (projected_names query)
  validate_distinct duplicate_order_reference [] (order_names query)
  validate_filter_option query.filters

-- What `normalize_lsq` takes of `serde_json` and of `sha2`.
pub record QueryCodec : Type 0 where
  pub from_slice : List ℕ → Result String LogicalSemanticQuery
  pub to_string : LogicalSemanticQuery → Result String String
  pub digest : List ℕ → List ℕ

-- `?` on a result of `serde_json`
abbrev json {ℓ} : {A : Type ℓ} → Result String A → Result LsqError A
json (ok a) = ok a
json (err message) = err (invalid_json message)

pub normalize_lsq : QueryCodec → List ℕ → Result LsqError NormalizedLsq
normalize_lsq codec input = do
  query ← json (codec.from_slice input)
  validate_query query
  canonical_json ← json (codec.to_string query)
  ok (record {
    query = query;
    canonical_json = canonical_json;
    hash = sha256 codec.digest (as_bytes canonical_json);
  })
