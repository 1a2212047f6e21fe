-- ===== src/Lsm.antt =====
-- crates/postgresem-compiler/src/lsm.rs: the syntax of Logical Semantic Mutations and the errors of
-- their validation.
pub mod Json
pub mod Validate
mod Tests
use postgresem.Prelude.{ℕ, String, Bool, Option, none, some, List}
use postgresem.Lsq.{ℤ, Literal}
use postgresem.Lsq.Literals as Literals

pub data MutationOperation : Type 0 where
  insert upsert : MutationOperation

pub data MutationValue : Type 0 where
  null : MutationValue
  text : String → MutationValue
  boolean : Bool → MutationValue
  integer : ℤ → MutationValue
  numeric date timestamp : String → MutationValue

-- `BTreeMap<String, MutationValue>`: the entries in the order of the names
abbrev pub Row : Type 0
Row = List (String × MutationValue)

pub record LogicalSemanticMutation : Type 0 where
  pub schema_version : String
  pub operation : MutationOperation
  pub model : String
  pub idempotency_key : String
  pub rows : List Row

pub record NormalizedLsm : Type 0 where
  pub mutation : LogicalSemanticMutation
  pub canonical_json : String
  pub hash : String
  pub idempotency_key_hash : String
  pub input_bytes : ℕ

-- `invalid_json` keeps the message of the JSON library's error.
pub data LsmError : Type 0 where
  input_too_large : LsmError
  invalid_json unsupported_schema_version : String → LsmError
  invalid_model invalid_idempotency_key invalid_row_count invalid_field_count : LsmError
  invalid_field_name inconsistent_row_fields invalid_value : LsmError

abbrev pub max_input_bytes : ℕ
max_input_bytes = 1_048_576

abbrev pub max_rows : ℕ
max_rows = 100

abbrev pub max_fields_per_row : ℕ
max_fields_per_row = 64

abbrev pub max_semantic_name_bytes : ℕ
max_semantic_name_bytes = 255

abbrev pub max_idempotency_key_bytes : ℕ
max_idempotency_key_bytes = 256

-- `LsmError::code`
pub error_code : LsmError → String
error_code LsmError.input_too_large = "LSM_INPUT_TOO_LARGE"
error_code (LsmError.invalid_json _) = "LSM_INVALID_JSON"
error_code (LsmError.unsupported_schema_version _) = "LSM_UNSUPPORTED_SCHEMA_VERSION"
error_code LsmError.invalid_model = "LSM_INVALID_MODEL"
error_code LsmError.invalid_idempotency_key = "LSM_INVALID_IDEMPOTENCY_KEY"
error_code LsmError.invalid_row_count = "LSM_INVALID_ROW_COUNT"
error_code LsmError.invalid_field_count = "LSM_INVALID_FIELD_COUNT"
error_code LsmError.invalid_field_name = "LSM_INVALID_FIELD_NAME"
error_code LsmError.inconsistent_row_fields = "LSM_INCONSISTENT_ROW_FIELDS"
error_code LsmError.invalid_value = "LSM_INVALID_VALUE"

-- `MutationValue::as_literal`
unfoldable pub as_literal : MutationValue → Option Literal
as_literal MutationValue.null = none
as_literal (MutationValue.text value) = some (Literal.text value)
as_literal (MutationValue.boolean value) = some (Literal.boolean value)
as_literal (MutationValue.integer value) = some (Literal.integer value)
as_literal (MutationValue.numeric value) = some (Literal.numeric value)
as_literal (MutationValue.date value) = some (Literal.date value)
as_literal (MutationValue.timestamp value) = some (Literal.timestamp value)

-- `MutationValue::is_well_formed`
unfoldable pub is_well_formed : MutationValue → Bool
unfolding as_literal
is_well_formed value = elim (as_literal value) [
  | none ↦ Bool.true
  | some literal ↦ Literals.is_well_formed literal
]
