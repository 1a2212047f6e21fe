-- ===== src/Compiler/Compile.antt =====
-- crates/postgresem-compiler/src/compiler.rs: the statement of a fan-out query, `render`, the second
-- pass, and `compile_lsq`.
pub mod Limited
use Prim.Native.Char.{code}
use Prim.Native.String.{compare}
use Prim.Native.String
use postgresem.Prelude.{
  ℕ, suc, ◌+◌, String, Bool, true, false, Option, none, some, List, [], ◌∷◌, ◌++◌, map, str_eq,
  length, is_empty, is_some, if◌then◌else◌, ◌==◌,
}
use postgresem.Prelude.Results.{Result, ok, err}
use postgresem.Prelude.Stateful.{pure, ◌>>=◌}
use postgresem.Prelude.Text.{◌⊕◌, as_bytes, join, decimal}
use postgresem.Hash.{sha256}
use postgresem.Lsq.{Literal, ℤ, SortDirection, OrderBy, NormalizedLsq}
use postgresem.Semantic.{
  DataType, Field, Model, Relationship, SemanticSnapshot, SnapshotCodec, sort_by,
}
use postgresem.Compiler.{
  CompilerOptions, CompiledParameter, OutputColumn, AggregationAnchorLineage, Lineage,
  CompiledQuery, CompileError, hash_serialization, ResolvedDimension, ResolvedMetric,
  ValidatedQuery,
}
use postgresem.Compiler.Identifiers.{quote_identifier}
use postgresem.Compiler.Expressions.{
  Render, RenderState, Aliases, add_parameter, render_field, render_dimension,
  render_anchor_metric_input, aggregate_text,
}
use postgresem.Compiler.Render.{
  named, key, group_by, aliases_from, render_each, positional_group_by,
  render_from_joins_and_filter, render_flat_sql,
}
use postgresem.Compiler.Validate.{validate, values}

-- an item of the inner SELECT list
unfoldable pub inner_dimension : ValidatedQuery → Aliases → ℕ → ResolvedDimension → Render String
inner_dimension v aliases index dimension = do
  expression ← render_dimension v.model aliases dimension
  pure (expression ⊕ " AS " ⊕ key "d" index)

unfoldable pub inner_metric : ValidatedQuery → Aliases → ℕ → ResolvedMetric → Render String
inner_metric v aliases index metric = do
  input ← render_anchor_metric_input v.model aliases metric
  pure (input ⊕ " AS " ⊕ key "m" index)

unfoldable pub outer_dimensions : ℕ → List ResolvedDimension → List String
outer_dimensions index [] = []
outer_dimensions index (dimension ∷ more) =
    named ("a." ⊕ key "d" index) dimension.field.semantic_name ∷ outer_dimensions (suc index) more

unfoldable pub outer_metrics : ℕ → List ResolvedMetric → List String
outer_metrics index [] = []
outer_metrics index (metric ∷ more) =
    named (aggregate_text metric.metric.aggregation ("a." ⊕ key "m" index))
      metric.metric.semantic_name
    ∷ outer_metrics (suc index) more

-- `from.replace('\n', "\n  ")`
unfoldable pub indented : String → String
indented String.[] = ""
indented (String.◌∷◌ c s) =
    let rest = indented s in if code c == 10 then String.◌∷◌ c ("  " ⊕ rest) else String.◌∷◌ c rest

unfoldable pub render_anchored_sql : ValidatedQuery → Aliases → Field → Render String
render_anchored_sql v aliases anchor = do
  dimensions ← render_each (inner_dimension v aliases) 0 v.dimensions
  anchor_column ← render_field v.model aliases anchor
  metrics ← render_each (inner_metric v aliases) 0 v.metrics
  from ← render_from_joins_and_filter v aliases
  pure (
      "WITH \"__postgresem_anchor_groups\" AS (\n  SELECT "
      ⊕ join ", " (dimensions ++ ((anchor_column ⊕ " AS \"__anchor\"") ∷ metrics))
      ⊕ "\n  "
      ⊕ indented from
      ⊕ "\n  GROUP BY "
      ⊕ positional_group_by (length v.dimensions + 1) 1
      ⊕ "\n)\nSELECT "
      ⊕ join ", " (outer_dimensions 0 v.dimensions ++ outer_metrics 0 v.metrics)
      ⊕ "\nFROM \"__postgresem_anchor_groups\" AS a"
      ⊕ group_by v)

abbrev direction_text : SortDirection → String
direction_text SortDirection.asc = "ASC"
direction_text SortDirection.desc = "DESC"

abbrev order_item : OrderBy → String
order_item o = quote_identifier o.output_reference ⊕ " " ⊕ direction_text o.direction

abbrev pub order_text : List OrderBy → String
order_text [] = ""
order_text (o ∷ os) = "\nORDER BY " ⊕ join ", " (map order_item (o ∷ os))

unfoldable pub append_order_and_limit : ValidatedQuery → String → Render String
append_order_and_limit v sql = do
  position ← add_parameter DataType.integer (Literal.integer (ℤ.pos v.limit))
  pure (sql ⊕ order_text v.order_by ⊕ "\nLIMIT $" ⊕ decimal position ⊕ "::text::bigint")

-- the `match` of `render`
unfoldable pub render_statement : ValidatedQuery → Aliases → Option Field → Render String
render_statement v aliases none = render_flat_sql v aliases
render_statement v aliases (some anchor) = render_anchored_sql v aliases anchor

unfoldable pub render_sql : ValidatedQuery → Aliases → Render String
render_sql v aliases = do
  sql ← render_statement v aliases v.aggregation_anchor
  append_order_and_limit v sql

abbrev dimension_column : ResolvedDimension → OutputColumn
dimension_column d = record {
  name = d.field.semantic_name;
  data_type = if is_some d.time_grain then DataType.date else d.field.data_type;
}

abbrev metric_column : ResolvedMetric → OutputColumn
metric_column m = record { name = m.metric.semantic_name; data_type = m.metric.data_type }

unfoldable pub output_schema : ValidatedQuery → List OutputColumn
output_schema v = map dimension_column v.dimensions ++ map metric_column v.metrics

-- `Vec::dedup`, behind the last element kept
unfoldable pub dedup_from : String → List String → List String
dedup_from last [] = []
dedup_from last (x ∷ xs) =
    let kept = x ∷ dedup_from x xs in
    let dropped = dedup_from last xs in if str_eq last x then dropped else kept

unfoldable pub dedup : List String → List String
dedup [] = []
dedup (x ∷ xs) = x ∷ dedup_from x xs

abbrev anchor_lineage : List ResolvedMetric → List AggregationAnchorLineage
anchor_lineage [] = []
anchor_lineage (m ∷ ms) = elim m.aggregation_anchor [
  | none ↦ anchor_lineage ms
  | some anchor ↦
      record { metric = m.metric.semantic_name; field = anchor.semantic_name } ∷ anchor_lineage ms
]

unfoldable pub lineage_of : ValidatedQuery → List String → Lineage
lineage_of v source_columns = record {
  models = dedup (
      sort_by compare (
        v.model.semantic_name
        ∷ map (λ (r : Relationship). r.target_model) (values v.relationships)));
  metrics = map (λ (m : ResolvedMetric). m.metric.semantic_name) v.metrics;
  aggregation_anchors = anchor_lineage v.metrics;
  relationships = map (λ (entry : String × Relationship). entry.0) v.relationships;
  source_columns = source_columns;
}

-- What the compiler takes of `serde_json` and of `sha2`.
pub record CompilerCodec : Type 0 where
  pub snapshot : SnapshotCodec
  pub parameters_to_string : List CompiledParameter → Result String String

abbrev pub hash : CompilerCodec → String → String
hash codec value = sha256 codec.snapshot.digest (as_bytes value)

-- `COMPILER_SEMANTIC_VERSION`
abbrev pub compiler_semantic_version : String
compiler_semantic_version = "0.2.0"

-- the compiled query of a rendered statement
unfoldable pub finish :
    CompilerCodec
    → NormalizedLsq
    → SemanticSnapshot
    → ValidatedQuery
    → String
    → RenderState
    → Result CompileError CompiledQuery
finish codec normalized snapshot v sql s = elim (codec.parameters_to_string s.parameters) [
  | err _ ↦ err hash_serialization
  | ok parameters_json ↦
      let sql_hash = hash codec sql in
      ok (record {
        sql = sql;
        parameters = s.parameters;
        output_schema = output_schema v;
        lineage = lineage_of v s.source_columns;
        query_hash = hash codec (
            normalized.hash ⊕ "|" ⊕ snapshot.revision_hash ⊕ "|" ⊕ compiler_semantic_version ⊕ "|"
            ⊕ sql_hash ⊕ "|" ⊕ parameters_json);
        sql_hash = sql_hash;
      })
]

abbrev pub empty_state : RenderState
empty_state = record { parameters = []; source_columns = [] }

unfoldable pub render :
    CompilerCodec
    → NormalizedLsq
    → SemanticSnapshot
    → ValidatedQuery
    → Result CompileError CompiledQuery
render codec normalized snapshot v =
    elim (render_sql v (aliases_from 1 v.relationships) empty_state) [
      | err e ↦ err e
      | ok (sql, s) ↦ finish codec normalized snapshot v sql s
    ]

unfoldable pub compile_lsq :
    CompilerCodec
    → NormalizedLsq
    → SemanticSnapshot
    → CompilerOptions
    → Result CompileError CompiledQuery
compile_lsq codec normalized snapshot options =
    elim (validate codec.snapshot normalized snapshot options) [
      | err e ↦ err e
      | ok v ↦ render codec normalized snapshot v
    ]
