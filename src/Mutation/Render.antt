-- ===== src/Mutation/Render.antt =====
-- crates/postgresem-compiler/src/mutation.rs: `render`, the statement of a mutation.
pub mod Total
use postgresem.Prelude.{ℕ, String, Option, none, some, List, [], ◌∷◌, ◌++◌, length}
use postgresem.Prelude.Results.{Result, ok, err, ◌>>=◌, ok_or, map_results}
use postgresem.Prelude.Ordered.{set_insert}
use postgresem.Prelude.Stateful.{traverse}
use postgresem.Prelude.Text.{◌⊕◌, as_bytes, join}
use postgresem.Hash.{sha256}
use postgresem.Semantic.{
  Relation, Field, UpsertPolicy, WritableModel, SemanticSnapshot, SnapshotCodec,
}
use postgresem.Lsm.{MutationOperation, insert, upsert, NormalizedLsm}
use postgresem.Compiler.{OutputColumn}
use postgresem.Compiler.Identifiers.{quote_identifier, source_column}
use postgresem.Mutation.{
  MutationParameter, CompiledMutation, invalid_writable_model, hash_serialization, Failure, error,
  index, checked, compiler_semantic_version,
}
use postgresem.Mutation.Validate.{FieldMap}
use postgresem.Mutation.Rows.{render_row}

-- `quote_identifier(&fields[name].column)`
unfoldable pub quoted_column : FieldMap → String → Result Failure String
quoted_column fields name = index fields name >>= λ field. ok (quote_identifier field.column)

-- an item of `DO UPDATE SET`
unfoldable pub update_item : FieldMap → String → Result Failure String
update_item fields name = do
  column ← quoted_column fields name
  ok ("  " ⊕ column ⊕ " = EXCLUDED." ⊕ column)

-- the clause of an upsert
unfoldable pub conflict_clause :
    MutationOperation → FieldMap → Option UpsertPolicy → List String → Result Failure String
conflict_clause insert fields policy update_names = ok ""
conflict_clause upsert fields policy update_names = do
  found ← checked (ok_or policy invalid_writable_model)
  conflict ← map_results (quoted_column fields) found.conflict_fields
  updates ← map_results (update_item fields) update_names
  ok ("\nON CONFLICT (" ⊕ join ", " conflict ⊕ ") DO UPDATE SET\n" ⊕ join ",\n" updates)

unfoldable pub returning_column : FieldMap → String → Result Failure OutputColumn
returning_column fields name = do
  field ← index fields name
  ok (record { name = name; data_type = field.data_type })

-- an item of `RETURNING`
unfoldable pub returning_item : FieldMap → String → Result Failure String
returning_item fields name = do
  column ← quoted_column fields name
  ok ("  " ⊕ column ⊕ " AS " ⊕ quote_identifier name)

-- What the mutation compiler takes of `serde_json` and of `sha2`.
pub record MutationCompilerCodec : Type 0 where
  pub snapshot : SnapshotCodec
  pub parameters_to_string : List MutationParameter → Result String String

abbrev pub hash : MutationCompilerCodec → String → String
hash codec text = sha256 codec.snapshot.digest (as_bytes text)

abbrev pub written : MutationCompilerCodec → List MutationParameter → Result Failure String
written codec parameters = elim (codec.parameters_to_string parameters) [
  | err _ ↦ err (error hash_serialization)
  | ok text ↦ ok text
]

unfoldable pub column_of : Relation → FieldMap → String → Result Failure String
column_of relation fields name = do
  field ← index fields name
  ok (source_column relation field.column)

-- `collect::<BTreeSet<_>>()`
unfoldable pub set_of : List String → List String → List String
set_of [] set = set
set_of (x ∷ xs) set = set_of xs (set_insert x set)

-- the text before `ON CONFLICT`
unfoldable pub insert_text : Relation → List String → List String → String
insert_text relation columns value_rows =
    "INSERT INTO "
    ⊕ quote_identifier relation.schema
    ⊕ "."
    ⊕ quote_identifier relation.relation
    ⊕ " ("
    ⊕ join ", " columns
    ⊕ ")\nVALUES\n"
    ⊕ join ",\n" value_rows

-- the text and the parameters
unfoldable pub render_statement :
    NormalizedLsm
    → Relation
    → WritableModel
    → FieldMap
    → List String
    → List String
    → Result Failure (String × List MutationParameter)
render_statement normalized relation writable fields input_names update_names = do
  columns ← map_results (quoted_column fields) input_names
  (value_rows, parameters) ← traverse (render_row fields input_names) normalized.mutation.rows []
  conflict ← conflict_clause normalized.mutation.operation fields writable.upsert update_names
  returning ← map_results (returning_item fields) writable.returning
  ok (
    insert_text relation columns value_rows ⊕ conflict ⊕ "\nRETURNING\n" ⊕ join ",\n" returning,
    parameters,
  )

unfoldable pub render :
    MutationCompilerCodec
    → NormalizedLsm
    → SemanticSnapshot
    → Relation
    → WritableModel
    → FieldMap
    → List String
    → List String
    → String
    → Result Failure CompiledMutation
render codec normalized snapshot relation writable fields input_names update_names profile = do
  (statement, parameters) ←
      render_statement normalized relation writable fields input_names update_names
  returning_schema ← map_results (returning_column fields) writable.returning
  parameters_json ← written codec parameters
  columns ← map_results (column_of relation fields) (input_names ++ writable.returning)
  let statement_hash = hash codec statement
  ok (record {
    statement = statement;
    parameters = parameters;
    returning_schema = returning_schema;
    lineage = record {
      model = normalized.mutation.model;
      fields = input_names;
      returning_fields = writable.returning;
      source_columns = set_of columns [];
    };
    mutation_hash = hash codec (
        normalized.hash ⊕ "\n" ⊕ snapshot.revision_hash ⊕ "\n" ⊕ compiler_semantic_version ⊕ "\n"
        ⊕ profile ⊕ "\n" ⊕ statement_hash ⊕ "\n" ⊕ parameters_json);
    statement_hash = statement_hash;
    expected_rows = length normalized.mutation.rows;
    operation = normalized.mutation.operation;
    model = normalized.mutation.model;
  })
