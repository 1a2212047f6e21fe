-- ===== src/Mutation/Compile.antt =====
-- crates/postgresem-compiler/src/mutation.rs: `compile_lsm`.
pub mod Total
pub mod Checked
pub mod Permitted
use postgresem.Prelude.{
  ℕ, String, Bool, true, false, not, ◌&&◌, ◌||◌, Option, none, some, List, [], ◌∷◌, str_eq, ltb,
  ◌==◌, length, find, contains, is_some, is_none, is_empty, if◌then◌else◌,
}
use postgresem.Prelude.Results.{Result, ok, err, ◌>>=◌, ◌>>◌, reject_if, ok_or}
use postgresem.Prelude.Ordered.{lookup}
use postgresem.Prelude.Text.{is_blank}
use postgresem.Semantic.{Field, WritableField, UpsertPolicy, WritableModel, Model, SemanticSnapshot}
use postgresem.Lsm.{MutationOperation, insert, upsert, Row, NormalizedLsm}
use postgresem.Lsm.Validate.{keys}
use postgresem.Mutation.{
  MutationCapabilities, allows, MutationCompilerOptions, CompiledMutation, MutationCompileError,
  invalid_limit_configuration, model_not_writable, invalid_writable_model, row_limit_exceeded,
  request_byte_limit_exceeded, operation_not_enabled, field_not_writable, conflict_field_missing,
  no_updatable_field, required_field_missing, Failure, error, index, first, checked, collect,
}
use postgresem.Mutation.Validate.{
  validate_snapshot, FieldMap, fields_by_name, validate_writable_model, validate_value,
}
use postgresem.Mutation.Render.{MutationCompilerCodec, render}

abbrev pub PolicyMap : Type 0
PolicyMap = List (String × WritableField)

unfoldable pub policies_by_name : List WritableField → PolicyMap
policies_by_name fields = collect (λ (f : WritableField). f.field) fields []

abbrev pub is_upsert : MutationOperation → Bool
is_upsert insert = false
is_upsert upsert = true

unfoldable pub check_limits :
    MutationCompilerOptions → WritableModel → NormalizedLsm → Result MutationCompileError (Unit {0})
check_limits options writable normalized = do
  reject_if
      (writable.max_rows == 0
        || ltb options.hard_row_limit writable.max_rows
        || writable.max_request_bytes == 0
        || ltb options.hard_request_byte_limit writable.max_request_bytes)
      invalid_writable_model
  reject_if (ltb writable.max_rows (length normalized.mutation.rows)) row_limit_exceeded
  reject_if (ltb writable.max_request_bytes normalized.input_bytes) request_byte_limit_exceeded

-- the match of the operation against the policy
unfoldable pub check_operation :
    MutationOperation → WritableModel → Result MutationCompileError (Unit {0})
check_operation insert writable = reject_if (not writable.insert) operation_not_enabled
check_operation upsert writable = reject_if (is_none writable.upsert) operation_not_enabled

-- the loop over the rows for one name
unfoldable pub check_values : Field → WritableField → String → List Row → Result Failure (Unit {0})
check_values field policy name [] = ok tt
check_values field policy name (row ∷ rows) = do
  value ← index row name
  checked (validate_value field policy value)
  check_values field policy name rows

-- `upsert.is_some_and(|upsert| upsert.conflict_fields.contains(name))`
abbrev pub is_conflict_field : Option UpsertPolicy → String → Bool
is_conflict_field none name = false
is_conflict_field (some policy) name = contains policy.conflict_fields name

-- One round of the loop over `input_names`.
unfoldable pub check_name :
    MutationOperation → WritableModel → FieldMap → List Row → String → Result Failure (Unit {0})
check_name operation writable fields rows name = do
  policy ←
      checked (ok_or (lookup name (policies_by_name writable.fields)) (field_not_writable name))
  field ← checked (ok_or (lookup name fields) invalid_writable_model)
  checked (reject_if (is_some field.relationship) invalid_writable_model)
  check_values field policy name rows
  checked (
      reject_if
        (is_upsert operation
          && not policy.updatable_on_conflict
          && not (is_conflict_field writable.upsert name))
        (field_not_writable name))

unfoldable pub check_names :
    MutationOperation
    → WritableModel
    → FieldMap
    → List Row
    → List String
    → Result Failure (Unit {0})
check_names operation writable fields rows [] = ok tt
check_names operation writable fields rows (name ∷ names) = do
  check_name operation writable fields rows name
  check_names operation writable fields rows names

-- every conflict field is among the names
unfoldable pub check_conflict_fields :
    List String → List String → Result MutationCompileError (Unit {0})
check_conflict_fields input_names [] = ok tt
check_conflict_fields input_names (field ∷ fields) = do
  reject_if (not (contains input_names field)) (conflict_field_missing field)
  check_conflict_fields input_names fields

-- `writable_by_name.get(name).is_some_and(|field| field.updatable_on_conflict)`
abbrev pub is_updatable : PolicyMap → String → Bool
is_updatable policies name = elim (lookup name policies) [
  | none ↦ false
  | some policy ↦ policy.updatable_on_conflict
]

unfoldable pub updatable_names : PolicyMap → List String → List String
updatable_names policies [] = []
updatable_names policies (name ∷ names) =
    let rest = updatable_names policies names in
    if is_updatable policies name then name ∷ rest else rest

unfoldable pub resolve_update_names :
    MutationOperation
    → WritableModel
    → Option UpsertPolicy
    → List String
    → Result MutationCompileError (List String)
resolve_update_names operation writable none input_names = ok []
resolve_update_names insert writable (some policy) input_names = ok []
resolve_update_names upsert writable (some policy) input_names = do
  check_conflict_fields input_names policy.conflict_fields
  let names = updatable_names (policies_by_name writable.fields) input_names
  reject_if (is_empty names) no_updatable_field
  ok names

-- the loop over the fields that are required on insert
unfoldable pub check_required :
    List String → List WritableField → Result MutationCompileError (Unit {0})
check_required input_names [] = ok tt
check_required input_names (policy ∷ policies) = do
  reject_if (policy.required_on_insert && not (contains input_names policy.field))
      (required_field_missing policy.field)
  check_required input_names policies

abbrev pub has_model_name : String → Model → Bool
has_model_name name model = str_eq model.semantic_name name

abbrev pub is_denied : MutationCapabilities → String → Bool
is_denied capabilities name = is_blank capabilities.profile || not (allows capabilities name)

-- the model that the mutation names, with its writable metadata
unfoldable pub find_writable :
    SemanticSnapshot
    → MutationCapabilities
    → String
    → Result MutationCompileError (Model × WritableModel)
find_writable snapshot capabilities name = do
  reject_if (is_denied capabilities name) model_not_writable
  model ← ok_or (find (has_model_name name) snapshot.models) model_not_writable
  writable ← ok_or model.writable model_not_writable
  validate_writable_model model.fields writable
  ok (model, writable)

-- the rest of `compile_lsm`, once the model, the limits and the operation are checked
unfoldable pub compile_rows :
    MutationCompilerCodec
    → NormalizedLsm
    → SemanticSnapshot
    → Model
    → WritableModel
    → String
    → Result Failure CompiledMutation
compile_rows codec normalized snapshot model writable profile = do
  row ← first normalized.mutation.rows
  let fields = fields_by_name model.fields
  check_names normalized.mutation.operation writable fields normalized.mutation.rows (keys row)
  update_names ←
      checked
        (resolve_update_names normalized.mutation.operation writable writable.upsert (keys row))
  checked (check_required (keys row) writable.fields)
  render codec normalized snapshot model.source writable fields (keys row) update_names profile

unfoldable pub compile_lsm :
    MutationCompilerCodec
    → NormalizedLsm
    → SemanticSnapshot
    → MutationCapabilities
    → MutationCompilerOptions
    → Result Failure CompiledMutation
compile_lsm codec normalized snapshot capabilities options = do
  checked (validate_snapshot codec.snapshot snapshot)
  checked (
      reject_if (options.hard_row_limit == 0 || options.hard_request_byte_limit == 0)
        invalid_limit_configuration)
  (model, writable) ← checked (find_writable snapshot capabilities normalized.mutation.model)
  checked (check_limits options writable normalized)
  checked (check_operation normalized.mutation.operation writable)
  compile_rows codec normalized snapshot model writable capabilities.profile
