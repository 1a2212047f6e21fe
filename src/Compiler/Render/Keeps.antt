-- ===== src/Compiler/Render/Keeps.antt =====
-- The parts of a statement that crates/postgresem-compiler/src/compiler.rs renders, and the query's
-- parameters.
use postgresem.Prelude.{ℕ, suc, String, List, [], ◌∷◌, Option-cases, inl, inr}
use postgresem.Semantic.{Model, Relationship}
use postgresem.Compiler.{ValidatedQuery}
use postgresem.Compiler.Expressions.{Render, Aliases}
use postgresem.Compiler.Expressions.Keeps.{
  Keeps, pure-Keeps, lift-Keeps, >>=-Keeps, add_column-Keeps,
}
use postgresem.Compiler.Expressions.Rendered.{
  render_dimension-Keeps, render_metric-Keeps, render_filter-Keeps,
}
use postgresem.Compiler.Render.{
  render_each, render_join, render_joins, render_where, render_from_joins_and_filter,
  flat_dimension, flat_metric, render_flat_sql,
}

pub render_each-Keeps :
    {A : Type 0} (f : ℕ → A → Render String)
    → ((n : ℕ) (x : A) → Keeps (f n x))
    → (n : ℕ) (xs : List A) → Keeps (render_each f n xs)
unfolding render_each
render_each-Keeps f h n [] = pure-Keeps _
render_each-Keeps f h n (x ∷ xs) =
    >>=-Keeps _ _ (h n x)
      (λ first. >>=-Keeps _ _ (render_each-Keeps f h (suc n) xs) (λ rest. pure-Keeps _))

module _ (model : Model) (aliases : Aliases) where
  render_joins-Keeps :
      (relationships : List (String × Relationship))
      → Keeps (render_joins model aliases relationships)
  unfolding render_joins render_join
  render_joins-Keeps [] = pure-Keeps _
  render_joins-Keeps ((name, relationship) ∷ more) =
      >>=-Keeps _ _
        (>>=-Keeps _ _ (lift-Keeps _) (λ alias.
          >>=-Keeps _ _ (add_column-Keeps _)
            (λ _. >>=-Keeps _ _ (add_column-Keeps _) (λ _. pure-Keeps _))))
        (λ text. >>=-Keeps _ _ (render_joins-Keeps more) (λ rest. pure-Keeps _))

module _ (v : ValidatedQuery) (aliases : Aliases) where
  render_where-Keeps : Keeps (render_where v aliases)
  unfolding render_where
  render_where-Keeps = elim (Option-cases v.filter) [
    | inl unfiltered ↦ rw unfiltered (pure-Keeps _)
    | inr (filter, filtered) ↦
        rw filtered
          (>>=-Keeps _ _ (render_filter-Keeps v.model aliases filter) (λ predicate. pure-Keeps _))
  ]

  pub render_from_joins_and_filter-Keeps : Keeps (render_from_joins_and_filter v aliases)
  unfolding render_from_joins_and_filter
  render_from_joins_and_filter-Keeps =
      >>=-Keeps _ _ (render_joins-Keeps v.model aliases v.relationships)
        (λ joins. >>=-Keeps _ _ render_where-Keeps (λ filter. pure-Keeps _))

  pub render_flat_sql-Keeps : Keeps (render_flat_sql v aliases)
  unfolding render_flat_sql flat_dimension flat_metric
  render_flat_sql-Keeps =
      >>=-Keeps _ _
        (render_each-Keeps _
          (λ n d. >>=-Keeps _ _ (render_dimension-Keeps v.model aliases d) (λ _. pure-Keeps _)) 0
          v.dimensions)
        (λ dimensions.
          >>=-Keeps _ _
            (render_each-Keeps _
              (λ n m. >>=-Keeps _ _ (render_metric-Keeps v.model aliases m) (λ _. pure-Keeps _)) 0
              v.metrics)
            (λ metrics. >>=-Keeps _ _ render_from_joins_and_filter-Keeps (λ from. pure-Keeps _)))
