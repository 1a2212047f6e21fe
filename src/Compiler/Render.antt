-- ===== src/Compiler/Render.antt =====
-- crates/postgresem-compiler/src/compiler.rs: the joins, and the statement of a query without
-- fan-out.
pub mod Keeps
use Prim.Native.String
use postgresem.Prelude.{
  ℕ, zero, suc, ◌+◌, String, Bool, true, false, Option, none, some, List, [], ◌∷◌, ◌++◌, map,
  str_eq, length, is_empty, if◌then◌else◌,
}
use postgresem.Prelude.Results.{Result, ok, err, ok_or}
use postgresem.Prelude.Ordered.{set_insert, lookup}
use postgresem.Prelude.Stateful.{Stateful, pure, lift, ◌>>=◌, ◌>>◌}
use postgresem.Prelude.Text.{◌⊕◌, as_bytes, join, decimal}
use postgresem.Hash.{sha256}
use postgresem.Lsq.{Literal, ℤ, SortDirection, OrderBy, NormalizedLsq}
use postgresem.Semantic.{
  DataType, Aggregation, Field, JoinType, Model, Relationship, SemanticSnapshot, SnapshotCodec,
}
use postgresem.Compiler.{
  CompilerOptions, CompiledParameter, OutputColumn, AggregationAnchorLineage, Lineage,
  CompiledQuery, CompileError, unknown_relationship, hash_serialization, ResolvedDimension,
  ResolvedMetric, ValidatedQuery,
}
use postgresem.Compiler.Identifiers.{quote_identifier, source_column}
use postgresem.Compiler.Expressions.{
  Render, RenderState, Aliases, add_column, add_parameter, render_field, render_dimension,
  render_metric, render_anchor_metric_input, aggregate_text, render_filter,
}
use postgresem.Compiler.Validate.{validate, values}

-- `enumerate` over the keys: `t1`, `t2`, ...
unfoldable pub aliases_from : ℕ → List (String × Relationship) → Aliases
aliases_from n [] = []
aliases_from n ((name, _) ∷ more) = (name, "t" ⊕ decimal n) ∷ aliases_from (suc n) more

abbrev pub key : String → ℕ → String
key letter index = quote_identifier ("__" ⊕ letter ⊕ decimal index)

-- Each element rendered with its index, the elements in order.
unfoldable pub render_each {ℓ} :
    {A : Type ℓ} → (ℕ → A → Render String) → ℕ → List A → Render (List String)
render_each f n [] = pure []
render_each f n (x ∷ xs) = do first ← f n x; rest ← render_each f (suc n) xs; pure (first ∷ rest)

abbrev pub named : String → String → String
named expression name = expression ⊕ " AS " ⊕ quote_identifier name

unfoldable pub positions : ℕ → ℕ → List String
positions zero start = []
positions (suc count) start = decimal start ∷ positions count (start + 1)

unfoldable pub positional_group_by : ℕ → ℕ → String
positional_group_by count start = join ", " (positions count start)

abbrev join_text : JoinType → String
join_text JoinType.inner = "INNER JOIN"
join_text JoinType.left = "LEFT JOIN"

-- One round of the loop over the relationships: the text that it adds.
unfoldable pub render_join : Model → Aliases → String → Relationship → Render String
render_join model aliases name relationship = do
  alias ← lift (ok_or (lookup name aliases) (unknown_relationship name))
  add_column (source_column model.source relationship.from_column)
  add_column (source_column relationship.target relationship.to_column)
  pure (
      "\n"
      ⊕ join_text relationship.join_type
      ⊕ " "
      ⊕ quote_identifier relationship.target.schema
      ⊕ "."
      ⊕ quote_identifier relationship.target.relation
      ⊕ " AS "
      ⊕ alias
      ⊕ " ON t0."
      ⊕ quote_identifier relationship.from_column
      ⊕ " = "
      ⊕ alias
      ⊕ "."
      ⊕ quote_identifier relationship.to_column)

unfoldable pub render_joins : Model → Aliases → List (String × Relationship) → Render String
render_joins model aliases [] = pure ""
render_joins model aliases ((name, relationship) ∷ more) = do
  text ← render_join model aliases name relationship
  rest ← render_joins model aliases more
  pure (text ⊕ rest)

unfoldable pub render_where : ValidatedQuery → Aliases → Render String
render_where v aliases = elim v.filter [
  | none ↦ pure ""
  | some filter ↦ do predicate ← render_filter v.model aliases filter; pure ("\nWHERE " ⊕ predicate)
]

unfoldable pub render_from_joins_and_filter : ValidatedQuery → Aliases → Render String
render_from_joins_and_filter v aliases = do
  joins ← render_joins v.model aliases v.relationships
  filter ← render_where v aliases
  pure (
      "FROM "
      ⊕ quote_identifier v.model.source.schema
      ⊕ "."
      ⊕ quote_identifier v.model.source.relation
      ⊕ " AS t0"
      ⊕ joins
      ⊕ filter)

abbrev pub group_by : ValidatedQuery → String
group_by v =
    if is_empty v.dimensions
    then ""
    else "\nGROUP BY " ⊕ positional_group_by (length v.dimensions) 1

-- an item of the flat SELECT list
pub flat_dimension : ValidatedQuery → Aliases → ℕ → ResolvedDimension → Render String
flat_dimension v aliases index dimension = do
  expression ← render_dimension v.model aliases dimension
  pure (named expression dimension.field.semantic_name)

pub flat_metric : ValidatedQuery → Aliases → ℕ → ResolvedMetric → Render String
flat_metric v aliases index metric = do
  expression ← render_metric v.model aliases metric
  pure (named expression metric.metric.semantic_name)

pub render_flat_sql : ValidatedQuery → Aliases → Render String
render_flat_sql v aliases = do
  dimensions ← render_each (flat_dimension v aliases) 0 v.dimensions
  metrics ← render_each (flat_metric v aliases) 0 v.metrics
  from ← render_from_joins_and_filter v aliases
  pure ("SELECT " ⊕ join ", " (dimensions ++ metrics) ⊕ "\n" ⊕ from ⊕ group_by v)
