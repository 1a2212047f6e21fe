-- ===== src/Compiler/Validate/Accepted.antt =====
-- What a query that `validate` of crates/postgresem-compiler/src/compiler.rs accepts has.
use mathlib.Core.Path.{subst}
use postgresem.Prelude.{
  ℕ, String, Bool, true, false, not, ◌||◌, ◌≡◌, ◌≤◌, refl, Option, some, List, [], ◌∷◌, All, find,
  find-some, contains, is_empty, str_eq, str_eq_iff, arith, Option-cases, Bool-cases, inl, inr,
}
use postgresem.Prelude.Results.{ok, reject_if, >>=-ok, Result-cases, ok-injective}
use postgresem.Prelude.Stateful.{traverse}
use postgresem.Hash.{is_sha256}
use postgresem.Lsq.{OrderBy, LogicalSemanticQuery, NormalizedLsq}
use postgresem.Lsq.Validate.{projected_names}
use postgresem.Semantic.{
  Field, Model, Relationship, SemanticSnapshot, SnapshotCodec, calculate_revision_hash,
}
use postgresem.Compiler.{
  CompilerOptions, CompileError, ResolvedDimension, ResolvedMetric, ResolvedFilter, ValidatedQuery,
}
use postgresem.Compiler.Resolve.{resolve_dimension, resolve_metric}
use postgresem.Compiler.Validate.{
  check_revision, check_options, find_model, is_queried, check_limit, limit_or, check_order,
  resolve_filter_option, resolve_relationships, choose_anchor, is_fanout, values, validate,
}
use postgresem.Compiler.Validate.Visible.{IsVisible, traverse-All, resolve_dimension-IsVisible}
use postgresem.Compiler.Validate.Fanout.{IsAnchored, choose_anchor-IsAnchored}

-- The identifier of the snapshot is the hash of its contents.
pub record IsRevision (codec : SnapshotCodec) (snapshot : SemanticSnapshot) : Type 0 where
  pub well_formed : is_sha256 snapshot.revision_hash ≡ true
  pub calculated : calculate_revision_hash codec snapshot ≡ ok snapshot.revision_hash

check_revision_lem :
    (codec : SnapshotCodec) (snapshot : SemanticSnapshot) {u : Unit {0}}
    → check_revision codec snapshot ≡ ok u
    → IsRevision codec snapshot
unfolding check_revision
check_revision_lem codec snapshot h = elim (Bool-cases (is_sha256 snapshot.revision_hash)) [
  | inr bad ↦ ground arith
  | inl good ↦ elim (Result-cases (calculate_revision_hash codec snapshot)) [
    | inr (e, failed) ↦ ground arith
    | inl (hash, done) ↦ record {
      well_formed = good;
      calculated = ground (arith, str_eq_iff hash snapshot.revision_hash);
    }
  ]
]

check_limit_lem :
    (query : LogicalSemanticQuery) (options : CompilerOptions) {limit : ℕ}
    → check_limit query options ≡ ok limit
    → (limit ≡ limit_or query.limit options.default_limit) × (limit ≤ options.hard_limit)
unfolding check_limit
check_limit_lem query options h = ground arith

check_order_lem :
    (projected : List String) (os : List OrderBy) {u : Unit {0}}
    → check_order projected os ≡ ok u
    → All (λ o. contains projected o.output_reference ≡ true) os
unfolding check_order
check_order_lem projected [] h = tt
check_order_lem projected (o ∷ os) h = elim (Bool-cases (contains projected o.output_reference)) [
  | inl found ↦ (found, check_order_lem projected os (rw (found, check_order) at h))
  | inr missing ↦ ground arith
]

find_model_lem :
    (snapshot : SemanticSnapshot) (query : LogicalSemanticQuery) {model : Model}
    → find_model snapshot query ≡ ok model
    → (model.queryable ≡ true) × (model.semantic_name ≡ query.model)
unfolding find_model
find_model_lem snapshot query {model} h =
    elim (Option-cases (find (is_queried query) snapshot.models)) [
      | inl missing ↦ ground arith
      | inr (m, found) ↦
          let hit = find-some (is_queried query) snapshot.models m found in
          ground (arith, str_eq_iff m.semantic_name query.model)
    ]

-- What a validated query keeps of the query, the snapshot and the options.
pub record IsAccepted (codec : SnapshotCodec) (query : LogicalSemanticQuery)
    (snapshot : SemanticSnapshot) (options : CompilerOptions) (v : ValidatedQuery) : Type 0 where
  pub version : (str_eq snapshot.schema_version "1" || str_eq snapshot.schema_version "2") ≡ true
  pub revision : IsRevision codec snapshot
  pub queryable : v.model.queryable ≡ true
  pub named : v.model.semantic_name ≡ query.model
  pub limited : v.limit ≡ limit_or query.limit options.default_limit
  pub bounded : v.limit ≤ options.hard_limit
  pub ordered : v.order_by ≡ query.order_by
  pub projected :
      All
        (λ (o : OrderBy). contains (projected_names query) o.output_reference ≡ true)
        query.order_by
  pub visible : All IsVisible v.dimensions
  pub chosen : choose_anchor v.relationships v.metrics ≡ ok v.aggregation_anchor

reject_if-not : (b : Bool) (e : CompileError) {u : Unit {0}} → reject_if (not b) e ≡ ok u → b ≡ true
reject_if-not true e h = refl
reject_if-not false e h = cc

-- A query that `validate` accepts was checked against a snapshot of version 1 or 2 whose identifier
-- is the hash of its contents; its model is a queryable one of the name that the query gives; its
-- limit is the query's, or the default, and is at most the hard limit; it is ordered as the query
-- says, by names that the query selects; its dimensions are visible fields, with a grain only on
-- time dimensions of a time type; and its anchor is the one `choose_anchor` chose for its
-- relationships and metrics.
pub validate-IsAccepted :
    (codec : SnapshotCodec) (normalized : NormalizedLsq) (snapshot : SemanticSnapshot)
    (options : CompilerOptions) (v : ValidatedQuery)
    → validate codec normalized snapshot options ≡ ok v
    → IsAccepted codec normalized.query snapshot options v
unfolding validate
validate-IsAccepted codec normalized snapshot options v h =
    let (_, version, h₁) = >>=-ok _ _ h in
    let (_, revision, h₂) = >>=-ok (check_revision codec snapshot) _ h₁ in
    let (_, _, h₃) = >>=-ok (check_options options) _ h₂ in
    let (model, found, h₄) = >>=-ok (find_model snapshot normalized.query) _ h₃ in
    let (limit, limited, h₅) = >>=-ok (check_limit normalized.query options) _ h₄ in
    let (dimensions, selected, h₆) =
      >>=-ok {A = List ResolvedDimension × List String}
        (traverse (resolve_dimension model) normalized.query.dimensions []) _ h₅ in
    let (metrics, _, h₇) =
      >>=-ok {A = List ResolvedMetric × List String}
        (traverse (resolve_metric model snapshot.schema_version) normalized.query.metrics
          dimensions.1)
        _ h₆ in
    let (filter, _, h₈) =
      >>=-ok {A = Option ResolvedFilter × List String}
        (resolve_filter_option model normalized.query.filters metrics.1) _ h₇ in
    let (_, ordered, h₉) =
      >>=-ok (check_order (projected_names normalized.query) normalized.query.order_by) _ h₈ in
    let (relationships, _, h₁₀) = >>=-ok (resolve_relationships snapshot model filter.1 []) _ h₉ in
    let (anchor, chosen, h₁₁) = >>=-ok (choose_anchor relationships metrics.0) _ h₁₀ in
    let made : ValidatedQuery = record {
      model = model;
      dimensions = dimensions.0;
      metrics = metrics.0;
      filter = filter.0;
      order_by = normalized.query.order_by;
      relationships = relationships;
      aggregation_anchor = anchor;
      limit = limit;
    } in
    let same : made ≡ v = ok-injective h₁₁ in
    let (queryable, named) = find_model_lem snapshot normalized.query found in
    let (equal, bounded) = check_limit_lem normalized.query options limited in
    subst (IsAccepted codec normalized.query snapshot options) same (record {
      version = reject_if-not _ _ version;
      revision = check_revision_lem codec snapshot revision;
      queryable = queryable;
      named = named;
      limited = equal;
      bounded = bounded;
      ordered = refl;
      projected =
          check_order_lem (projected_names normalized.query) normalized.query.order_by ordered;
      visible =
          traverse-All (resolve_dimension model) IsVisible (resolve_dimension-IsVisible model)
            normalized.query.dimensions [] dimensions.1 dimensions.0 selected;
      chosen = chosen;
    })

-- When `validate` accepts a query that joins along a one-to-many relationship, the query has
-- metrics and an anchor, and every metric is anchored at a field of the anchor's name, is not
-- semi-additive and has no filter on a joined column.
pub validate-IsAnchored :
    (codec : SnapshotCodec) (normalized : NormalizedLsq) (snapshot : SemanticSnapshot)
    (options : CompilerOptions) (v : ValidatedQuery) (relationship : Relationship)
    → validate codec normalized snapshot options ≡ ok v
    → find is_fanout (values v.relationships) ≡ some relationship
    → (anchor : Field) × (v.aggregation_anchor ≡ some anchor)
      × (is_empty v.metrics ≡ false)
      × All (IsAnchored anchor.semantic_name) v.metrics
validate-IsAnchored codec normalized snapshot options v relationship h fanout =
    choose_anchor-IsAnchored v.relationships v.metrics relationship v.aggregation_anchor fanout
      (validate-IsAccepted codec normalized snapshot options v h).chosen
