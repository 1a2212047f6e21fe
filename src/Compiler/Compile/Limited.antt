-- ===== src/Compiler/Compile/Limited.antt =====
-- What a statement that `compile_lsq` of crates/postgresem-compiler/src/compiler.rs compiles has.
use mathlib.Core.Path.{subst}
use text.Mathlib.TextLemmas.{append_assoc}
use postgresem.Prelude.{
  ℕ, suc, String, ◌≡◌, ◌≤◌, ap, sym, ◌∙◌, Option, none, some, List, get_elem?, arith, inl, inr,
}
use postgresem.Prelude.Results.{ok, Result-cases, ok-injective, err-ok}
use postgresem.Prelude.Text.{◌⊕◌, decimal}
use postgresem.Lsq.{Literal, ℤ, NormalizedLsq}
use postgresem.Semantic.{DataType, Field, SemanticSnapshot}
use postgresem.Compiler.{CompilerOptions, CompiledParameter, CompiledQuery, ValidatedQuery}
use postgresem.Compiler.Parameters.Laws.{AreParameters, entry, push_parameter-IsPushed}
use postgresem.Compiler.Validate.{validate}
use postgresem.Compiler.Validate.Accepted.{validate-IsAccepted}
use postgresem.Compiler.Expressions.{Aliases, RenderState, add_parameter}
use postgresem.Compiler.Expressions.Keeps.{Keeps, pure-Keeps, >>=-Keeps}
use postgresem.Compiler.Expressions.Rendered.{
  render_field-Keeps, render_dimension-Keeps, render_anchor_metric_input-Keeps,
}
use postgresem.Compiler.Render.{aliases_from}
use postgresem.Compiler.Render.Keeps.{
  render_each-Keeps, render_from_joins_and_filter-Keeps, render_flat_sql-Keeps,
}
use postgresem.Compiler.Compile.{
  inner_dimension, inner_metric, render_anchored_sql, render_statement, order_text,
  append_order_and_limit, render_sql, CompilerCodec, finish, empty_state, render, compile_lsq,
}

module _ (v : ValidatedQuery) (aliases : Aliases) where
  render_anchored_sql-Keeps : (anchor : Field) → Keeps (render_anchored_sql v aliases anchor)
  unfolding render_anchored_sql inner_dimension inner_metric
  render_anchored_sql-Keeps anchor =
      >>=-Keeps _ _
        (render_each-Keeps _
          (λ n d. >>=-Keeps _ _ (render_dimension-Keeps v.model aliases d) (λ _. pure-Keeps _)) 0
          v.dimensions)
        (λ dimensions. >>=-Keeps _ _ (render_field-Keeps v.model aliases anchor) (λ column.
          >>=-Keeps _ _
            (render_each-Keeps _
              (λ n m.
                >>=-Keeps _ _ (render_anchor_metric_input-Keeps v.model aliases m)
                  (λ _. pure-Keeps _))
              0 v.metrics)
            (λ metrics.
              >>=-Keeps _ _ (render_from_joins_and_filter-Keeps v aliases) (λ from. pure-Keeps _))))

  render_statement-Keeps : (anchor : Option Field) → Keeps (render_statement v aliases anchor)
  unfolding render_statement
  render_statement-Keeps none = render_flat_sql-Keeps v aliases
  render_statement-Keeps (some anchor) = render_anchored_sql-Keeps anchor

-- The text ends in a limit whose placeholder stands for an integer of at most `bound`.
pub record IsLimited (bound : ℕ) (sql : String) (parameters : List CompiledParameter) : Type 0 where
  pub body : String
  pub index : ℕ
  pub limit : ℕ
  pub ends : sql ≡ (body ⊕ "\nLIMIT $" ⊕ decimal (suc index) ⊕ "::text::bigint")
  pub within : limit ≤ bound
  pub given :
      get_elem? parameters index
      ≡ some (entry (suc index) DataType.integer (Literal.integer (ℤ.pos limit)))
  pub ordered : AreParameters parameters

append_order_and_limit-IsLimited :
    (v : ValidatedQuery) (sql text : String) (s t : RenderState)
    → AreParameters s.parameters
    → append_order_and_limit v sql s ≡ ok (text, t)
    → IsLimited v.limit text t.parameters
unfolding append_order_and_limit add_parameter
append_order_and_limit-IsLimited v sql text s t h e =
    let pushed =
      push_parameter-IsPushed s.parameters DataType.integer (Literal.integer (ℤ.pos v.limit)) h in
    subst (λ (p : String × RenderState). IsLimited v.limit p.0 p.1.parameters) (ok-injective e)
      (record {
        body = sql ⊕ order_text v.order_by;
        index = pushed.index;
        limit = v.limit;
        ends =
            ap (λ n. sql ⊕ order_text v.order_by ⊕ "\nLIMIT $" ⊕ decimal n ⊕ "::text::bigint")
              pushed.place
            ∙ sym (append_assoc sql (order_text v.order_by) _);
        within = omega arith;
        given =
            pushed.bound
            ∙ ap (λ n. some (entry n DataType.integer (Literal.integer (ℤ.pos v.limit))))
                pushed.place;
        ordered = pushed.after_ok;
      })

render_sql-IsLimited :
    (v : ValidatedQuery) (aliases : Aliases) (text : String) (s t : RenderState)
    → AreParameters s.parameters
    → render_sql v aliases s ≡ ok (text, t)
    → IsLimited v.limit text t.parameters
unfolding render_sql
render_sql-IsLimited v aliases text s t h e =
    elim (Result-cases (render_statement v aliases v.aggregation_anchor s)) [
      | inr (x, failed) ↦ absurd (err-ok (rw failed at e))
      | inl ((sql, u), done) ↦
          append_order_and_limit-IsLimited v sql text u t
            (render_statement-Keeps v aliases v.aggregation_anchor s sql u h done).ordered
            (rw done at e)
    ]

no_parameters : AreParameters empty_state.parameters
no_parameters = record { numbered = tt; unique = tt }

finish_lem :
    (codec : CompilerCodec) (normalized : NormalizedLsq) (snapshot : SemanticSnapshot)
    (v : ValidatedQuery) (sql : String) (s : RenderState) (q : CompiledQuery)
    → finish codec normalized snapshot v sql s ≡ ok q
    → (q.sql ≡ sql) × (q.parameters ≡ s.parameters)
unfolding finish
finish_lem codec normalized snapshot v sql s q h =
    elim (Result-cases (codec.parameters_to_string s.parameters)) [
      | inr (x, failed) ↦ absurd (err-ok (rw (failed, finish) at h))
      | inl (json, written) ↦
          let same = ok-injective (rw (written, finish) at h) in
          (
            ap (λ (c : CompiledQuery). c.sql) (sym same),
            ap (λ (c : CompiledQuery). c.parameters) (sym same),
          )
    ]

render-IsLimited :
    (codec : CompilerCodec) (normalized : NormalizedLsq) (snapshot : SemanticSnapshot)
    (v : ValidatedQuery) (q : CompiledQuery)
    → render codec normalized snapshot v ≡ ok q
    → IsLimited v.limit q.sql q.parameters
unfolding render
render-IsLimited codec normalized snapshot v q h =
    elim (Result-cases (render_sql v (aliases_from 1 v.relationships) empty_state)) [
      | inr (x, failed) ↦ absurd (err-ok (rw (failed, render) at h))
      | inl ((sql, s), done) ↦
          let (text, given) =
            finish_lem codec normalized snapshot v sql s q (rw (done, render) at h) in
          let limited =
            render_sql-IsLimited v (aliases_from 1 v.relationships) sql empty_state s no_parameters
              done in
          rw (text, given) limited
    ]

-- The statement of a query that `compile_lsq` compiles ends in a limit whose placeholder stands for
-- an integer parameter of at most the hard limit, and the parameters are numbered from 1 in order,
-- no type and value among them twice.
pub compile_lsq-IsLimited :
    (codec : CompilerCodec) (normalized : NormalizedLsq) (snapshot : SemanticSnapshot)
    (options : CompilerOptions) (q : CompiledQuery)
    → compile_lsq codec normalized snapshot options ≡ ok q
    → IsLimited options.hard_limit q.sql q.parameters
unfolding compile_lsq
compile_lsq-IsLimited codec normalized snapshot options q h =
    elim (Result-cases (validate codec.snapshot normalized snapshot options)) [
      | inr (x, failed) ↦ absurd (err-ok (rw (failed, compile_lsq) at h))
      | inl (v, valid) ↦
          let limited =
            render-IsLimited codec normalized snapshot v q (rw (valid, compile_lsq) at h) in
          let accepted = validate-IsAccepted codec.snapshot normalized snapshot options v valid in
          record {
            body = limited.body;
            index = limited.index;
            limit = limited.limit;
            ends = limited.ends;
            within = omega (arith, limited.within, accepted.bounded);
            given = limited.given;
            ordered = limited.ordered;
          }
    ]
