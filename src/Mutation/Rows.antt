-- ===== src/Mutation/Rows.antt =====
-- crates/postgresem-compiler/src/mutation.rs: the rows of `VALUES`, in `render`.
pub mod Laws
use postgresem.Prelude.{ℕ, ◌+◌, String, List, [], ◌∷◌, ◌++◌, length}
use postgresem.Prelude.Results.{Result, ok}
use postgresem.Prelude.Stateful.{Stateful, pure, lift, traverse, ◌>>=◌}
use postgresem.Prelude.Text.{◌⊕◌, join, decimal}
use postgresem.Semantic.{DataType, Field}
use postgresem.Lsm.{MutationValue, Row}
use postgresem.Mutation.{MutationParameter, Failure, index}
use postgresem.Mutation.Validate.{FieldMap}

unfoldable pub parameter_sql : ℕ → DataType → String
parameter_sql position DataType.boolean = "$" ⊕ decimal position ⊕ "::text::boolean"
parameter_sql position DataType.integer = "$" ⊕ decimal position ⊕ "::text::bigint"
parameter_sql position DataType.numeric = "$" ⊕ decimal position ⊕ "::text::numeric"
parameter_sql position DataType.text = "$" ⊕ decimal position ⊕ "::text"
parameter_sql position DataType.date = "$" ⊕ decimal position ⊕ "::text::date"
parameter_sql position DataType.timestamp = "$" ⊕ decimal position ⊕ "::text::timestamp"
parameter_sql position DataType.timestamp_tz = "$" ⊕ decimal position ⊕ "::text::timestamptz"

-- The state is `parameters`.
abbrev pub Insert : Type 0 → Type 0
Insert A = Stateful Failure (List MutationParameter) A

-- `parameters.push(..)`; the position
unfoldable pub push_value : DataType → MutationValue → Insert ℕ
push_value data_type value parameters =
    let position = length parameters + 1 in
    ok (
      position,
      parameters ++ record { position = position; data_type = data_type; value = value } ∷ [],
    )

-- the inner loop over `input_names`
unfoldable pub render_value : FieldMap → Row → String → Insert String
render_value fields row name = do
  field ← lift (index fields name)
  value ← lift (index row name)
  position ← push_value field.data_type value
  pure (parameter_sql position field.data_type)

-- one round of the loop over the rows
unfoldable pub render_row : FieldMap → List String → Row → Insert String
render_row fields input_names row = do
  values ← traverse (render_value fields row) input_names
  pure ("  (" ⊕ join ", " values ⊕ ")")
