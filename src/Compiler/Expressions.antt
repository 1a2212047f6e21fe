-- ===== src/Compiler/Expressions.antt =====
-- crates/postgresem-compiler/src/compiler.rs: the SQL of fields, dimensions, metrics and filters.
-- The state is the parameters and the source columns that the functions are handed by reference.
pub mod Keeps
pub mod Rendered
use Prim.Native.String.{◌++◌}
use postgresem.Prelude.{
  ℕ, String, Bool, true, false, ◌&&◌, Option, none, some, List, [], ◌∷◌, str_eq, find,
  if◌then◌else◌,
}
use postgresem.Prelude.Results.{Result, ok, err, ok_or}
use postgresem.Prelude.Ordered.{set_insert, lookup}
use postgresem.Prelude.Stateful.{Stateful, pure, lift, ◌>>=◌, ◌>>◌}
use postgresem.Prelude.Text.{join, decimal}
use postgresem.Lsq.{Literal, TimeGrain}
use postgresem.Semantic.{
  DataType, Aggregation, Field, Metric, Model, Relation, Relationship, same_type,
}
use postgresem.Compiler.{
  CompiledParameter, CompileError, unknown_relationship, missing_timezone, ResolvedDimension,
  ResolvedMetric, ResolvedFilter, ResolvedFilters,
}
use postgresem.Compiler.Parameters.{
  push_parameter, push_literal, render_parameter, comparison_operator,
}
use postgresem.Compiler.Identifiers.{quote_identifier, source_column}
use postgresem.Compiler.Validate.{has_relationship_name}

pub record RenderState : Type 0 where
  pub parameters : List CompiledParameter
  pub source_columns : List String

abbrev pub Render : Type 0 → Type 0
Render A = Stateful CompileError RenderState A

-- `BTreeMap<String, String>`: the alias of each relationship
abbrev pub Aliases : Type 0
Aliases = List (String × String)

unfoldable pub add_column : String → Render (Unit {0})
add_column column s = ok (tt, record s { source_columns = set_insert column s.source_columns })

unfoldable pub add_parameter : DataType → Literal → Render ℕ
add_parameter data_type value s =
    let (position, parameters) = push_parameter s.parameters data_type value in
    ok (position, record s { parameters = parameters })

pub add_literal : Literal → Render ℕ
add_literal value s =
    let (position, parameters) = push_literal s.parameters value in
    ok (position, record s { parameters = parameters })

-- the alias and the relation that a field is read from
unfoldable pub locate_field : Model → Field → Aliases → Result CompileError (String × Relation)
locate_field model field aliases = elim field.relationship [
  | none ↦ ok ("t0", model.source)
  | some name ↦ elim (find (has_relationship_name name) model.relationships) [
    | none ↦ err (unknown_relationship name)
    | some relationship ↦ elim (lookup name aliases) [
      | none ↦ err (unknown_relationship name)
      | some alias ↦ ok (alias, relationship.target)
    ]
  ]
]

unfoldable pub render_field : Model → Aliases → Field → Render String
render_field model aliases field = do
  (alias, relation) ← lift (locate_field model field aliases)
  add_column (source_column relation field.column)
  pure (alias ++ ("." ++ quote_identifier field.column))

pub time_grain_text : TimeGrain → String
time_grain_text TimeGrain.day = "day"
time_grain_text TimeGrain.week = "week"
time_grain_text TimeGrain.month = "month"
time_grain_text TimeGrain.quarter = "quarter"
time_grain_text TimeGrain.year = "year"

-- `model.timezone.as_ref().ok_or_else(..)`
pub timezone_of : Model → Field → Result CompileError String
timezone_of model field = ok_or model.timezone (missing_timezone field.semantic_name)

abbrev truncated : TimeGrain → String → String
truncated grain expression =
    "date_trunc('" ++ (time_grain_text grain ++ ("', " ++ (expression ++ ")::date")))

-- `${position}::text`
abbrev text_placeholder : ℕ → String
text_placeholder position = "$" ++ (decimal position ++ "::text")

-- the arm of a grain over a timestamp with time zone
pub render_zoned_dimension : Model → Field → TimeGrain → String → Render String
render_zoned_dimension model field grain column = do
  timezone ← lift (timezone_of model field)
  position ← add_parameter DataType.text (Literal.text timezone)
  pure (truncated grain ("timezone(" ++ (text_placeholder position ++ (", " ++ (column ++ ")")))))

unfoldable pub render_dimension : Model → Aliases → ResolvedDimension → Render String
render_dimension model aliases dimension = do
  column ← render_field model aliases dimension.field
  elim dimension.time_grain [
    | none ↦ pure column
    | some grain ↦
        if same_type dimension.field.data_type DataType.timestamp_tz
        then render_zoned_dimension model dimension.field grain column
        else pure (truncated grain column)
  ]

unfoldable pub aggregate_text : Aggregation → String → String
aggregate_text Aggregation.count field = "count(" ++ (field ++ ")")
aggregate_text Aggregation.count_distinct field = "count(DISTINCT " ++ (field ++ ")")
aggregate_text Aggregation.sum field = "sum(" ++ (field ++ ")")
aggregate_text Aggregation.min field = "min(" ++ (field ++ ")")
aggregate_text Aggregation.max field = "max(" ++ (field ++ ")")
aggregate_text Aggregation.avg field = "avg(" ++ (field ++ ")")

-- The condition of a metric's filter: `{filter_expression} = {parameter}`.
pub render_metric_condition : Model → Aliases → Field → Literal → Render String
render_metric_condition model aliases field value = do
  expression ← render_field model aliases field
  position ← add_parameter field.data_type value
  pure (expression ++ (" = " ++ render_parameter position field.data_type))

pub render_metric : Model → Aliases → ResolvedMetric → Render String
render_metric model aliases metric = do
  field ← render_field model aliases metric.field
  elim metric.filter [
    | none ↦ pure (aggregate_text metric.metric.aggregation field)
    | some (filter_field, value) ↦ do
      condition ← render_metric_condition model aliases filter_field value
      pure (
          aggregate_text metric.metric.aggregation field
          ++ (" FILTER (WHERE " ++ (condition ++ ")")))
  ]

unfoldable pub render_anchor_metric_input : Model → Aliases → ResolvedMetric → Render String
render_anchor_metric_input model aliases metric = do
  field ← render_field model aliases metric.field
  elim metric.filter [
    | none ↦ pure ("max(" ++ (field ++ ")"))
    | some (filter_field, value) ↦ do
      condition ← render_metric_condition model aliases filter_field value
      pure ("max(CASE WHEN " ++ (condition ++ (" THEN " ++ (field ++ " END)"))))
  ]

abbrev pub is_date : Literal → Bool
is_date (Literal.date _) = true
is_date _ = false

-- the placeholders of the values of `IN`
pub render_values : DataType → List Literal → Render (List String)
render_values data_type [] = pure []
render_values data_type (value ∷ values) = do
  position ← add_parameter data_type value
  rest ← render_values data_type values
  pure (render_parameter position data_type ∷ rest)

-- a date against a timestamp with time zone
pub render_zoned_comparison : Model → Field → String → Literal → String → Render String
render_zoned_comparison model field operator value column = do
  timezone ← lift (timezone_of model field)
  timezone_position ← add_parameter DataType.text (Literal.text timezone)
  value_position ← add_literal value
  pure (
      column
      ++ (" "
          ++ (operator
              ++ (" timezone("
                  ++ (text_placeholder timezone_position
                      ++ (", " ++ (text_placeholder value_position ++ "::date::timestamp)")))))))

pub render_plain_comparison : Field → String → Literal → String → Render String
render_plain_comparison field operator value column = do
  position ← add_parameter field.data_type value
  pure (column ++ (" " ++ (operator ++ (" " ++ render_parameter position field.data_type))))

pub render_comparison : Model → Aliases → Field → String → Literal → Render String
render_comparison model aliases field operator value = do
  column ← render_field model aliases field
  (if same_type field.data_type DataType.timestamp_tz && is_date value
      then render_zoned_comparison model field operator value column
      else render_plain_comparison field operator value column)

mutual
  pub render_filter : Model → Aliases → ResolvedFilter → Render String
  render_filter model aliases (ResolvedFilter.and args) = do
    rendered ← render_filters model aliases args
    pure ("(" ++ (join " AND " rendered ++ ")"))
  render_filter model aliases (ResolvedFilter.or args) = do
    rendered ← render_filters model aliases args
    pure ("(" ++ (join " OR " rendered ++ ")"))
  render_filter model aliases (ResolvedFilter.not arg) = do
    rendered ← render_filter model aliases arg
    pure ("NOT (" ++ (rendered ++ ")"))
  render_filter model aliases (ResolvedFilter.comparison operator field value) =
      render_comparison model aliases field (comparison_operator operator) value
  render_filter model aliases (ResolvedFilter.is_in field values) = do
    column ← render_field model aliases field
    placeholders ← render_values field.data_type values
    pure (column ++ (" IN (" ++ (join ", " placeholders ++ ")")))
  render_filter model aliases (ResolvedFilter.is_null field) = do
    column ← render_field model aliases field
    pure (column ++ " IS NULL")
  render_filter model aliases (ResolvedFilter.is_not_null field) = do
    column ← render_field model aliases field
    pure (column ++ " IS NOT NULL")

  -- the arguments of `render_logical`
  pub render_filters : Model → Aliases → ResolvedFilters → Render (List String)
  render_filters model aliases ResolvedFilters.nil = pure []
  render_filters model aliases (ResolvedFilters.cons arg args) = do
    first ← render_filter model aliases arg
    rest ← render_filters model aliases args
    pure (first ∷ rest)
