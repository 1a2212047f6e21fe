-- ===== src/Compiler/Parameters.antt =====
-- crates/postgresem-compiler/src/compiler.rs: the query's parameters and the text of a placeholder.
pub mod Laws
use Prim.Native.String
use postgresem.Prelude.{
  ℕ, ◌+◌, String, Bool, true, false, ◌&&◌, Option, none, some, List, [], ◌∷◌, ◌++◌, ◌==◌, str_eq,
  find, length, if◌then◌else◌, ◌≡◌, ◌↔◌, arith, str_eq_iff,
}
use postgresem.Prelude.Text.{decimal}
use postgresem.Lsq.{Literal, ℤ, pos, negsuc}
use postgresem.Semantic.{DataType, same_type}
use postgresem.Compiler.{CompiledParameter, ComparisonOperator}

abbrev same_integer : ℤ → ℤ → Bool
same_integer (pos a) (pos b) = a == b
same_integer (negsuc a) (negsuc b) = a == b
same_integer _ _ = false

abbrev same_boolean : Bool → Bool → Bool
same_boolean true b = b
same_boolean false true = false
same_boolean false false = true

-- `Literal::eq`
unfoldable pub same_literal : Literal → Literal → Bool
same_literal (Literal.text a) (Literal.text b) = str_eq a b
same_literal (Literal.boolean a) (Literal.boolean b) = same_boolean a b
same_literal (Literal.integer a) (Literal.integer b) = same_integer a b
same_literal (Literal.numeric a) (Literal.numeric b) = str_eq a b
same_literal (Literal.date a) (Literal.date b) = str_eq a b
same_literal (Literal.timestamp a) (Literal.timestamp b) = str_eq a b
same_literal _ _ = false

-- the closure of `find` in `push_parameter`
abbrev pub is_parameter : DataType → Literal → CompiledParameter → Bool
is_parameter data_type value parameter =
    same_type parameter.data_type data_type && same_literal parameter.value value

-- The position of the value, and the parameters with it.
unfoldable pub push_parameter :
    List CompiledParameter → DataType → Literal → ℕ × List CompiledParameter
push_parameter parameters data_type value = elim (find (is_parameter data_type value) parameters) [
  | some existing ↦ (existing.position, parameters)
  | none ↦
      let position = length parameters + 1 in
      (
        position,
        parameters ++ record { position = position; data_type = data_type; value = value } ∷ [],
      )
]

pub literal_type : Literal → DataType
literal_type (Literal.text _) = DataType.text
literal_type (Literal.boolean _) = DataType.boolean
literal_type (Literal.integer _) = DataType.integer
literal_type (Literal.numeric _) = DataType.numeric
literal_type (Literal.date _) = DataType.date
literal_type (Literal.timestamp _) = DataType.timestamp_tz

unfoldable pub push_literal : List CompiledParameter → Literal → ℕ × List CompiledParameter
push_literal parameters value = push_parameter parameters (literal_type value) value

pub postgres_type : DataType → String
postgres_type DataType.boolean = "boolean"
postgres_type DataType.integer = "bigint"
postgres_type DataType.numeric = "numeric"
postgres_type DataType.text = "text"
postgres_type DataType.date = "date"
postgres_type DataType.timestamp = "timestamp"
postgres_type DataType.timestamp_tz = "timestamptz"

pub render_parameter : ℕ → DataType → String
render_parameter position data_type =
    let cast = String.◌++◌ (String.◌++◌ "$" (decimal position)) "::text" in
    if same_type data_type DataType.text
    then cast
    else String.◌++◌ (String.◌++◌ cast "::") (postgres_type data_type)

pub comparison_operator : ComparisonOperator → String
comparison_operator ComparisonOperator.eq = "="
comparison_operator ComparisonOperator.not_eq = "<>"
comparison_operator ComparisonOperator.gt = ">"
comparison_operator ComparisonOperator.gte = ">="
comparison_operator ComparisonOperator.lt = "<"
comparison_operator ComparisonOperator.lte = "<="
