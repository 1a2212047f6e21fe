-- ===== src/Mutation/Validate.antt =====
-- crates/postgresem-compiler/src/mutation.rs: the checks of the snapshot, of the model's writable
-- metadata and of a value.
pub mod Laws
use postgresem.Prelude.{
  ℕ, String, Bool, true, false, not, ◌&&◌, ◌||◌, Option, none, some, List, [], ◌∷◌, str_eq, find,
  contains, is_empty, is_some, is_none, if◌then◌else◌,
}
use postgresem.Prelude.Results.{Result, ok, err, ◌>>=◌, ◌>>◌, reject_if, ok_or}
use postgresem.Prelude.Ordered.{lookup}
use postgresem.Prelude.Text.{is_blank}
use postgresem.Hash.{is_sha256}
use postgresem.Semantic.{
  DataType, Field, WritableField, UpsertPolicy, WritableModel, SemanticSnapshot, SnapshotCodec,
  calculate_revision_hash,
}
use postgresem.Lsm.{MutationValue}
use postgresem.Mutation.{
  MutationCompileError, unsupported_snapshot_version, invalid_revision_hash, hash_serialization,
  invalid_writable_model, null_not_allowed, field_type_mismatch, collect,
}

unfoldable pub validate_snapshot :
    SnapshotCodec → SemanticSnapshot → Result MutationCompileError (Unit {0})
validate_snapshot codec snapshot =
    if not (str_eq snapshot.schema_version "1" || str_eq snapshot.schema_version "2")
    then err (unsupported_snapshot_version snapshot.schema_version)
    else if not (is_sha256 snapshot.revision_hash)
    then err invalid_revision_hash
    else elim (calculate_revision_hash codec snapshot) [
      | err _ ↦ err hash_serialization
      | ok hash ↦ if str_eq hash snapshot.revision_hash then ok tt else err invalid_revision_hash
    ]

-- `BTreeMap<&str, &Field>`
abbrev pub FieldMap : Type 0
FieldMap = List (String × Field)

unfoldable pub fields_by_name : List Field → FieldMap
fields_by_name fields = collect (λ (f : Field). f.semantic_name) fields []

-- `model_fields.get(name).is_none_or(|field| field.relationship.is_some())`
abbrev pub is_no_own_field : FieldMap → String → Bool
is_no_own_field fields name = elim (lookup name fields) [
  | none ↦ true
  | some field ↦ is_some field.relationship
]

-- the loop over `writable.fields`
unfoldable pub check_fields :
    FieldMap → List String → List WritableField → Result MutationCompileError (Unit {0})
check_fields model_fields names [] = ok tt
check_fields model_fields names (field ∷ fields) = do
  reject_if
      (contains names field.field
        || is_blank field.field
        || is_no_own_field model_fields field.field)
      invalid_writable_model
  check_fields model_fields (field.field ∷ names) fields

-- the loop over `writable.returning`
unfoldable pub check_returning :
    FieldMap → List String → List String → Result MutationCompileError (Unit {0})
check_returning model_fields seen [] = ok tt
check_returning model_fields seen (field ∷ fields) = do
  reject_if (contains seen field || is_no_own_field model_fields field) invalid_writable_model
  check_returning model_fields (field ∷ seen) fields

abbrev pub has_policy_name : String → WritableField → Bool
has_policy_name name policy = str_eq policy.field name

-- the loop over `upsert.conflict_fields`
unfoldable pub check_conflicts :
    List WritableField → List String → List String → Result MutationCompileError (Unit {0})
check_conflicts fields conflict [] = ok tt
check_conflicts fields conflict (name ∷ names) = do
  policy ← ok_or (find (has_policy_name name) fields) invalid_writable_model
  reject_if (contains conflict name || policy.updatable_on_conflict) invalid_writable_model
  check_conflicts fields (name ∷ conflict) names

unfoldable pub check_upsert :
    List WritableField → Option UpsertPolicy → Result MutationCompileError (Unit {0})
check_upsert fields none = ok tt
check_upsert fields (some upsert) = do
  reject_if (is_empty upsert.conflict_fields) invalid_writable_model
  check_conflicts fields [] upsert.conflict_fields

-- nothing may be written, or nothing is returned
abbrev pub is_incomplete : WritableModel → Bool
is_incomplete writable =
    (not writable.insert && is_none writable.upsert)
    || is_empty writable.fields
    || is_empty writable.returning

unfoldable pub validate_writable_model :
    List Field → WritableModel → Result MutationCompileError (Unit {0})
validate_writable_model model_fields writable = do
  reject_if (is_incomplete writable) invalid_writable_model
  check_fields (fields_by_name model_fields) [] writable.fields
  check_returning (fields_by_name model_fields) [] writable.returning
  check_upsert writable.fields writable.upsert

abbrev pub is_null : MutationValue → Bool
is_null MutationValue.null = true
is_null _ = false

abbrev pub compatible : DataType → MutationValue → Bool
compatible DataType.text (MutationValue.text _) = true
compatible DataType.boolean (MutationValue.boolean _) = true
compatible DataType.integer (MutationValue.integer _) = true
compatible DataType.numeric (MutationValue.numeric _) = true
compatible DataType.date (MutationValue.date _) = true
compatible DataType.timestamp (MutationValue.timestamp _) = true
compatible DataType.timestamp_tz (MutationValue.timestamp _) = true
compatible _ _ = false

unfoldable pub validate_value :
    Field → WritableField → MutationValue → Result MutationCompileError (Unit {0})
validate_value field writable_field value =
    if is_null value
    then (if writable_field.nullable then ok tt else err (null_not_allowed field.semantic_name))
    else if compatible field.data_type value
    then ok tt
    else err (field_type_mismatch field.semantic_name)
