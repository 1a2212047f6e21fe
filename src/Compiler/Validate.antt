-- ===== src/Compiler/Validate.antt =====
-- crates/postgresem-compiler/src/compiler.rs: `validate`, the first pass of the compiler.
pub mod Fanout
pub mod Accepted
pub mod Visible
use postgresem.Prelude.{
  ℕ, String, Bool, true, false, not, ◌&&◌, ◌||◌, Option, none, some, List, [], ◌∷◌, ◌++◌, map,
  str_eq, ltb, ◌==◌, find, any, contains, is_empty, is_some, is_none, if◌then◌else◌,
}
use postgresem.Prelude.Results.{Result, ok, err, ◌>>=◌, ◌>>◌, reject_if, ok_or}
use postgresem.Prelude.Ordered.{map_insert}
use postgresem.Prelude.Stateful.{traverse}
use postgresem.Hash.{is_sha256}
use postgresem.Lsq.{Filter, OrderBy, LogicalSemanticQuery, NormalizedLsq}
use postgresem.Lsq.Validate.{projected_names}
use postgresem.Semantic.{
  Additivity, Cardinality, Field, Model, Relationship, SemanticSnapshot, SnapshotCodec,
  calculate_revision_hash, same_relation,
}
use postgresem.Compiler.{
  CompilerOptions, CompileError, unsupported_snapshot_version, invalid_revision_hash, unknown_model,
  unknown_order_reference, unknown_relationship, unsafe_relationship, missing_aggregation_anchor,
  mixed_aggregation_anchors, joined_metric_filter, unsupported_fanout_additivity,
  invalid_aggregation_anchor, invalid_relationship_target, relationship_target_not_entity_key,
  hash_serialization, invalid_limit_configuration, limit_exceeded, ResolvedMetric, ResolvedFilter,
  ValidatedQuery,
}
use postgresem.Compiler.Resolve.{Resolve, resolve_filter, resolve_dimension, resolve_metric}

-- `!is_sha256(..) || calculate_revision_hash()? != ..`: the hash is computed only for a
-- well-formed identifier.
unfoldable pub check_revision : SnapshotCodec → SemanticSnapshot → Result CompileError (Unit {0})
check_revision codec snapshot =
    if not (is_sha256 snapshot.revision_hash)
    then err invalid_revision_hash
    else elim (calculate_revision_hash codec snapshot) [
      | err _ ↦ err hash_serialization
      | ok hash ↦ if str_eq hash snapshot.revision_hash then ok tt else err invalid_revision_hash
    ]

unfoldable pub check_options : CompilerOptions → Result CompileError (Unit {0})
check_options options =
    reject_if
      (options.default_limit == 0
        || options.hard_limit == 0
        || ltb options.hard_limit options.default_limit)
      invalid_limit_configuration

abbrev pub is_queried : LogicalSemanticQuery → Model → Bool
is_queried query model = str_eq model.semantic_name query.model && model.queryable

unfoldable pub find_model : SemanticSnapshot → LogicalSemanticQuery → Result CompileError Model
find_model snapshot query = ok_or (find (is_queried query) snapshot.models) unknown_model

abbrev pub limit_or : Option ℕ → ℕ → ℕ
limit_or none default = default
limit_or (some limit) default = limit

unfoldable pub check_limit : LogicalSemanticQuery → CompilerOptions → Result CompileError ℕ
check_limit query options =
    let limit = limit_or query.limit options.default_limit in
    if ltb options.hard_limit limit then err limit_exceeded else ok limit

unfoldable pub resolve_filter_option : Model → Option Filter → Resolve (Option ResolvedFilter)
resolve_filter_option model none required = ok (none, required)
resolve_filter_option model (some filter) required = elim (resolve_filter model filter required) [
  | err e ↦ err e
  | ok (resolved, required') ↦ ok (some resolved, required')
]

unfoldable pub check_order : List String → List OrderBy → Result CompileError (Unit {0})
check_order projected [] = ok tt
check_order projected (o ∷ os) =
    if contains projected o.output_reference
    then check_order projected os
    else err (unknown_order_reference o.output_reference)

-- an entity key of the model itself, over the given column
abbrev is_own_key : String → Field → Bool
is_own_key column field =
    str_eq field.column column && is_none field.relationship && field.entity_key

-- `match relationship.cardinality`
unfoldable pub check_keys : String → Model → Model → Relationship → Result CompileError (Unit {0})
check_keys name model target relationship = elim relationship.cardinality [
  | Cardinality.many_to_one ↦
      reject_if (not (any (is_own_key relationship.to_column) target.fields))
        (relationship_target_not_entity_key relationship.semantic_name)
  | Cardinality.one_to_one ↦
      reject_if (not (any (is_own_key relationship.to_column) target.fields))
        (relationship_target_not_entity_key relationship.semantic_name)
  | Cardinality.one_to_many ↦
      reject_if (not (any (is_own_key relationship.from_column) model.fields))
        (invalid_aggregation_anchor relationship.semantic_name)
  | Cardinality.many_to_many ↦ err (unsafe_relationship name)
]

abbrev is_many_to_many : Cardinality → Bool
is_many_to_many Cardinality.many_to_many = true
is_many_to_many _ = false

abbrev pub is_fanout : Relationship → Bool
is_fanout relationship = elim relationship.cardinality [
  | Cardinality.one_to_many ↦ true
  | _ ↦ false
]

abbrev pub has_relationship_name : String → Relationship → Bool
has_relationship_name name relationship = str_eq relationship.semantic_name name

-- the closure over `required_relationships`
unfoldable pub resolve_relationship :
    SemanticSnapshot → Model → String → Result CompileError Relationship
resolve_relationship snapshot model name = do
  relationship ←
      ok_or (find (has_relationship_name name) model.relationships) (unknown_relationship name)
  reject_if (is_many_to_many relationship.cardinality) (unsafe_relationship name)
  target ←
      ok_or (find (λ (m : Model). str_eq m.semantic_name relationship.target_model) snapshot.models)
        (invalid_relationship_target relationship.semantic_name)
  reject_if (not (same_relation target.source relationship.target))
      (invalid_relationship_target relationship.semantic_name)
  check_keys name model target relationship
  ok relationship

-- `collect::<Result<BTreeMap<_, _>, _>>()`
unfoldable pub resolve_relationships :
    SemanticSnapshot
    → Model
    → List String
    → List (String × Relationship)
    → Result CompileError (List (String × Relationship))
resolve_relationships snapshot model [] found = ok found
resolve_relationships snapshot model (name ∷ names) found =
    elim (resolve_relationship snapshot model name) [
      | err e ↦ err e
      | ok relationship ↦
          resolve_relationships snapshot model names
            (map_insert relationship.semantic_name relationship found)
    ]

abbrev pub values : List (String × Relationship) → List Relationship
values = map (λ (entry : String × Relationship). entry.1)

abbrev pub has_joined_filter : ResolvedMetric → Bool
has_joined_filter metric = elim metric.filter [
  | none ↦ false
  | some (field, _) ↦ is_some field.relationship
]

abbrev pub is_semi_additive : ResolvedMetric → Bool
is_semi_additive metric = elim metric.metric.additivity [
  | none ↦ false
  | some Additivity.semi_additive ↦ true
  | some _ ↦ false
]

-- `anchor_name.is_some_and(|name| name != anchor)`
abbrev pub is_other_anchor : Option String → Field → Bool
is_other_anchor none anchor = false
is_other_anchor (some name) anchor = not (str_eq name anchor.semantic_name)

-- One round of the loop over the metrics of a fan-out query; the metric's anchor.
unfoldable pub check_anchor : Option String → ResolvedMetric → Result CompileError Field
check_anchor anchor_name metric = do
  anchor ← ok_or metric.aggregation_anchor (missing_aggregation_anchor metric.metric.semantic_name)
  reject_if (has_joined_filter metric) (joined_metric_filter metric.metric.semantic_name)
  reject_if (is_semi_additive metric) (unsupported_fanout_additivity metric.metric.semantic_name)
  reject_if (is_other_anchor anchor_name anchor) mixed_aggregation_anchors
  ok anchor

unfoldable pub check_anchors :
    Option String → Option Field → List ResolvedMetric → Result CompileError (Option Field)
check_anchors anchor_name anchor_field [] = ok anchor_field
check_anchors anchor_name anchor_field (metric ∷ metrics) = do
  anchor ← check_anchor anchor_name metric
  check_anchors (some anchor.semantic_name) (some anchor) metrics

unfoldable pub choose_anchor :
    List (String × Relationship) → List ResolvedMetric → Result CompileError (Option Field)
choose_anchor relationships metrics = elim (find is_fanout (values relationships)) [
  | none ↦ ok none
  | some relationship ↦
      if is_empty metrics
      then err (unsafe_relationship relationship.semantic_name)
      else check_anchors none none metrics
]

unfoldable pub validate :
    SnapshotCodec
    → NormalizedLsq
    → SemanticSnapshot
    → CompilerOptions
    → Result CompileError ValidatedQuery
validate codec normalized snapshot options = do
  reject_if (not (str_eq snapshot.schema_version "1" || str_eq snapshot.schema_version "2"))
      (unsupported_snapshot_version snapshot.schema_version)
  check_revision codec snapshot
  check_options options
  let query = normalized.query
  model ← find_model snapshot query
  limit ← check_limit query options
  (dimensions, required₁) ← traverse (resolve_dimension model) query.dimensions []
  (metrics, required₂) ←
      traverse (resolve_metric model snapshot.schema_version) query.metrics required₁
  (filter, required) ← resolve_filter_option model query.filters required₂
  check_order (projected_names query) query.order_by
  relationships ← resolve_relationships snapshot model required []
  aggregation_anchor ← choose_anchor relationships metrics
  ok (record {
    model = model;
    dimensions = dimensions;
    metrics = metrics;
    filter = filter;
    order_by = query.order_by;
    relationships = relationships;
    aggregation_anchor = aggregation_anchor;
    limit = limit;
  })
