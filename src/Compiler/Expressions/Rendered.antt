-- ===== src/Compiler/Expressions/Rendered.antt =====
-- The expressions of crates/postgresem-compiler/src/compiler.rs and the query's parameters.
use postgresem.Prelude.{String, ◌&&◌, List, [], ◌∷◌, Bool-cases, inl, inr, Option-cases}
use postgresem.Lsq.{Literal, TimeGrain}
use postgresem.Semantic.{DataType, Field, Model, same_type}
use postgresem.Compiler.{ResolvedDimension, ResolvedMetric, ResolvedFilter, ResolvedFilters}
use postgresem.Compiler.Expressions.{
  Aliases, render_field, render_dimension, render_zoned_dimension, render_metric_condition,
  render_metric, render_anchor_metric_input, render_values, render_zoned_comparison,
  render_plain_comparison, render_comparison, render_filter, render_filters, is_date,
}
use postgresem.Compiler.Expressions.Keeps.{
  Keeps, pure-Keeps, lift-Keeps, >>=-Keeps, add_column-Keeps, add_parameter-Keeps,
  add_literal-Keeps,
}

module _ (model : Model) (aliases : Aliases) where
  pub render_field-Keeps : (field : Field) → Keeps (render_field model aliases field)
  unfolding render_field
  render_field-Keeps field =
      >>=-Keeps _ _ (lift-Keeps _) (λ place. >>=-Keeps _ _ (add_column-Keeps _) (λ _. pure-Keeps _))

  pub render_zoned_dimension-Keeps :
      (field : Field) (grain : TimeGrain) (column : String)
      → Keeps (render_zoned_dimension model field grain column)
  unfolding render_zoned_dimension
  render_zoned_dimension-Keeps field grain column =
      >>=-Keeps _ _ (lift-Keeps _)
        (λ timezone. >>=-Keeps _ _ (add_parameter-Keeps _ _) (λ position. pure-Keeps _))

  pub render_dimension-Keeps :
      (dimension : ResolvedDimension) → Keeps (render_dimension model aliases dimension)
  unfolding render_dimension
  render_dimension-Keeps dimension = >>=-Keeps _ _ (render_field-Keeps dimension.field) (λ column.
      elim (Option-cases dimension.time_grain) [
        | inl none_given ↦ rw none_given (pure-Keeps column)
        | inr (grain, given) ↦
            rw given
              (elim (Bool-cases (same_type dimension.field.data_type DataType.timestamp_tz)) [
                | inl zoned ↦ rw zoned (render_zoned_dimension-Keeps dimension.field grain column)
                | inr plain ↦ rw plain (pure-Keeps _)
              ])
      ])

  render_metric_condition-Keeps :
      (field : Field) (value : Literal) → Keeps (render_metric_condition model aliases field value)
  unfolding render_metric_condition
  render_metric_condition-Keeps field value =
      >>=-Keeps _ _ (render_field-Keeps field)
        (λ expression. >>=-Keeps _ _ (add_parameter-Keeps _ _) (λ position. pure-Keeps _))

  pub render_metric-Keeps : (metric : ResolvedMetric) → Keeps (render_metric model aliases metric)
  unfolding render_metric
  render_metric-Keeps metric = >>=-Keeps _ _ (render_field-Keeps metric.field) (λ field.
      elim (Option-cases metric.filter) [
        | inl unfiltered ↦ rw unfiltered (pure-Keeps _)
        | inr ((filter_field, value), filtered) ↦ rw filtered (
            >>=-Keeps _ _ (render_metric_condition-Keeps filter_field value)
              (λ condition. pure-Keeps _))
      ])

  pub render_anchor_metric_input-Keeps :
      (metric : ResolvedMetric) → Keeps (render_anchor_metric_input model aliases metric)
  unfolding render_anchor_metric_input
  render_anchor_metric_input-Keeps metric =
      >>=-Keeps _ _ (render_field-Keeps metric.field) (λ field. elim (Option-cases metric.filter) [
        | inl unfiltered ↦ rw unfiltered (pure-Keeps _)
        | inr ((filter_field, value), filtered) ↦ rw filtered (
            >>=-Keeps _ _ (render_metric_condition-Keeps filter_field value)
              (λ condition. pure-Keeps _))
      ])

  render_comparison-Keeps :
      (field : Field) (operator : String) (value : Literal)
      → Keeps (render_comparison model aliases field operator value)
  unfolding render_comparison render_zoned_comparison render_plain_comparison
  render_comparison-Keeps field operator value = >>=-Keeps _ _ (render_field-Keeps field) (λ column.
      elim (Bool-cases (same_type field.data_type DataType.timestamp_tz && is_date value)) [
        | inl zoned ↦ rw zoned (
            >>=-Keeps _ _ (lift-Keeps _) (λ timezone.
              >>=-Keeps _ _ (add_parameter-Keeps _ _)
                (λ place. >>=-Keeps _ _ (add_literal-Keeps _) (λ position. pure-Keeps _))))
        | inr plain ↦ rw plain (>>=-Keeps _ _ (add_parameter-Keeps _ _) (λ position. pure-Keeps _))
      ])

render_values-Keeps :
    (data_type : DataType) (values : List Literal) → Keeps (render_values data_type values)
unfolding render_values
render_values-Keeps data_type [] = pure-Keeps _
render_values-Keeps data_type (value ∷ values) =
    >>=-Keeps _ _ (add_parameter-Keeps _ _)
      (λ position. >>=-Keeps _ _ (render_values-Keeps data_type values) (λ rest. pure-Keeps _))

module _ (model : Model) (aliases : Aliases) where
  mutual
    unfolding render_filter render_filters

    pub render_filter-Keeps : (filter : ResolvedFilter) → Keeps (render_filter model aliases filter)
    render_filter-Keeps (ResolvedFilter.and args) =
        >>=-Keeps _ _ (render_filters-Keeps args) (λ rendered. pure-Keeps _)
    render_filter-Keeps (ResolvedFilter.or args) =
        >>=-Keeps _ _ (render_filters-Keeps args) (λ rendered. pure-Keeps _)
    render_filter-Keeps (ResolvedFilter.not arg) =
        >>=-Keeps _ _ (render_filter-Keeps arg) (λ rendered. pure-Keeps _)
    render_filter-Keeps (ResolvedFilter.comparison operator field value) =
        render_comparison-Keeps model aliases field _ value
    render_filter-Keeps (ResolvedFilter.is_in field values) =
        >>=-Keeps _ _ (render_field-Keeps model aliases field)
          (λ column. >>=-Keeps _ _ (render_values-Keeps _ values) (λ placeholders. pure-Keeps _))
    render_filter-Keeps (ResolvedFilter.is_null field) =
        >>=-Keeps _ _ (render_field-Keeps model aliases field) (λ column. pure-Keeps _)
    render_filter-Keeps (ResolvedFilter.is_not_null field) =
        >>=-Keeps _ _ (render_field-Keeps model aliases field) (λ column. pure-Keeps _)

    render_filters-Keeps : (args : ResolvedFilters) → Keeps (render_filters model aliases args)
    render_filters-Keeps ResolvedFilters.nil = pure-Keeps _
    render_filters-Keeps (ResolvedFilters.cons arg args) =
        >>=-Keeps _ _ (render_filter-Keeps arg)
          (λ first. >>=-Keeps _ _ (render_filters-Keeps args) (λ rest. pure-Keeps _))
