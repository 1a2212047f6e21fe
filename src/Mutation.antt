-- ===== src/Mutation.antt =====
-- crates/postgresem-compiler/src/mutation.rs: the mutation compiler's options, results and errors.
pub mod Panics
pub mod Validate
pub mod Rows
pub mod Render
pub mod Compile
mod Tests
use postgresem.Prelude.{ℕ, String, Bool, Option, none, some, List, [], ◌∷◌, contains}
use postgresem.Prelude.Results.{Result, ok, err, or_error}
use postgresem.Prelude.Ordered.{map_insert, lookup}
use postgresem.Semantic.{DataType}
use postgresem.Lsm.{MutationOperation, MutationValue}
use postgresem.Compiler.{OutputColumn}

-- `MUTATION_COMPILER_SEMANTIC_VERSION`
abbrev pub compiler_semantic_version : String
compiler_semantic_version = "0.1.0"

-- `writable_models` is a `BTreeSet`.
pub record MutationCapabilities : Type 0 where
  pub profile : String
  pub writable_models : List String

-- `MutationCapabilities::allows`
unfoldable pub allows : MutationCapabilities → String → Bool
allows capabilities model = contains capabilities.writable_models model

pub record MutationCompilerOptions : Type 0 where
  pub hard_row_limit : ℕ
  pub hard_request_byte_limit : ℕ

-- `MutationCompilerOptions::default`
abbrev pub default_options : MutationCompilerOptions
default_options = record { hard_row_limit = 100; hard_request_byte_limit = 1_048_576 }

pub record MutationParameter : Type 0 where
  pub position : ℕ
  pub data_type : DataType
  pub value : MutationValue

pub record MutationLineage : Type 0 where
  pub model : String
  pub fields : List String
  pub returning_fields : List String
  pub source_columns : List String

pub record CompiledMutation : Type 0 where
  pub statement : String
  pub parameters : List MutationParameter
  pub returning_schema : List OutputColumn
  pub lineage : MutationLineage
  pub mutation_hash : String
  pub statement_hash : String
  pub expected_rows : ℕ
  pub operation : MutationOperation
  pub model : String

pub data MutationCompileError : Type 0 where
  unsupported_snapshot_version : String → MutationCompileError
  invalid_revision_hash invalid_limit_configuration model_not_writable : MutationCompileError
  operation_not_enabled row_limit_exceeded request_byte_limit_exceeded : MutationCompileError
  invalid_writable_model : MutationCompileError
  field_not_writable required_field_missing field_type_mismatch : String → MutationCompileError
  null_not_allowed conflict_field_missing : String → MutationCompileError
  no_updatable_field hash_serialization : MutationCompileError

-- `MutationCompileError::code`
pub error_code : MutationCompileError → String
error_code (unsupported_snapshot_version _) = "SEMANTIC_UNSUPPORTED_SNAPSHOT_VERSION"
error_code invalid_revision_hash = "SEMANTIC_INVALID_REVISION_HASH"
error_code invalid_limit_configuration = "MUTATION_INVALID_LIMIT_CONFIGURATION"
error_code model_not_writable = "MUTATION_MODEL_NOT_WRITABLE"
error_code operation_not_enabled = "MUTATION_OPERATION_NOT_ENABLED"
error_code row_limit_exceeded = "MUTATION_ROW_LIMIT_EXCEEDED"
error_code request_byte_limit_exceeded = "MUTATION_REQUEST_BYTES_EXCEEDED"
error_code invalid_writable_model = "MUTATION_INVALID_WRITABLE_MODEL"
error_code (field_not_writable _) = "MUTATION_FIELD_NOT_WRITABLE"
error_code (required_field_missing _) = "MUTATION_REQUIRED_FIELD_MISSING"
error_code (field_type_mismatch _) = "MUTATION_FIELD_TYPE_MISMATCH"
error_code (null_not_allowed _) = "MUTATION_NULL_NOT_ALLOWED"
error_code (conflict_field_missing _) = "MUTATION_CONFLICT_FIELD_MISSING"
error_code no_updatable_field = "MUTATION_NO_UPDATABLE_FIELD"
error_code hash_serialization = "MUTATION_HASH_SERIALIZATION_FAILED"

-- How a call ends that returns no value: by an error, or by the panic of an index that is not there.
pub data Failure : Type 0 where
  error : MutationCompileError → Failure
  panic : Failure

-- `map[key]`
abbrev pub index : {V : Type 0} → List (String × V) → String → Result Failure V
index m key = elim (lookup key m) [ none ↦ err panic | some v ↦ ok v ]

-- `rows[0]`
abbrev pub first : {A : Type 0} → List A → Result Failure A
first [] = err panic
first (x ∷ xs) = ok x

-- `?` on a function that returns an error of the compiler
abbrev pub checked : {A : Type 0} → Result MutationCompileError A → Result Failure A
checked (ok a) = ok a
checked (err e) = err (error e)

-- `iter().map(|x| (name(x), x)).collect::<BTreeMap<_, _>>()`: the last of a name stays
unfoldable pub collect :
    {A : Type 0} → (A → String) → List A → List (String × A) → List (String × A)
collect name [] found = found
collect name (x ∷ xs) found = collect name xs (map_insert (name x) x found)
