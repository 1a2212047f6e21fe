-- ===== src/Lsm/Validate.antt =====
-- crates/postgresem-compiler/src/lsm.rs: the checks of a mutation, and `normalize_lsm`.
pub mod Laws
use postgresem.Prelude.{
  ℕ, String, Bool, true, false, not, ◌&&◌, ◌||◌, Option, List, [], ◌∷◌, map, ltb, leb, str_eq,
  length, is_empty, if◌then◌else◌,
}
use postgresem.Prelude.Results.{Result, ok, err, ◌>>=◌, ◌>>◌, reject_if}
use postgresem.Prelude.Text.{as_bytes, is_blank}
use postgresem.Hash.{sha256}
use postgresem.Lsm.{
  MutationValue, Row, LogicalSemanticMutation, NormalizedLsm, LsmError, input_too_large,
  invalid_json, unsupported_schema_version, invalid_model, invalid_idempotency_key,
  invalid_row_count, invalid_field_count, invalid_field_name, inconsistent_row_fields,
  invalid_value, max_input_bytes, max_rows, max_fields_per_row, max_semantic_name_bytes,
  max_idempotency_key_bytes, is_well_formed,
}
use postgresem.Lsm.Json.{Value, visit}

unfoldable pub valid_bounded_text : String → ℕ → Bool
valid_bounded_text value maximum_bytes =
    not (is_blank value) && leb (length (as_bytes value)) maximum_bytes

-- `row.keys()`
abbrev pub keys : Row → List String
keys = map (λ (entry : String × MutationValue). entry.0)

-- `mutation.rows[0].keys()`; there is a first row where the code reads it
abbrev pub first_keys : List Row → List String
first_keys [] = []
first_keys (row ∷ rows) = keys row

abbrev pub same_names : List String → List String → Bool
same_names [] [] = true
same_names (x ∷ xs) (y ∷ ys) = str_eq x y && same_names xs ys
same_names _ _ = false

-- the loop over the entries of a row
unfoldable pub validate_entries : Row → Result LsmError (Unit {0})
validate_entries [] = ok tt
validate_entries ((field, value) ∷ row) = do
  reject_if (not (valid_bounded_text field max_semantic_name_bytes)) invalid_field_name
  reject_if (not (is_well_formed value)) invalid_value
  validate_entries row

-- the loop over the rows
unfoldable pub validate_rows : List String → List Row → Result LsmError (Unit {0})
validate_rows expected_fields [] = ok tt
validate_rows expected_fields (row ∷ rows) = do
  reject_if (is_empty row || ltb max_fields_per_row (length row)) invalid_field_count
  reject_if (not (same_names (keys row) expected_fields)) inconsistent_row_fields
  validate_entries row
  validate_rows expected_fields rows

unfoldable pub validate_mutation : LogicalSemanticMutation → Result LsmError (Unit {0})
validate_mutation mutation = do
  reject_if (not (str_eq mutation.schema_version "1"))
      (unsupported_schema_version mutation.schema_version)
  reject_if (not (valid_bounded_text mutation.model max_semantic_name_bytes)) invalid_model
  reject_if (not (valid_bounded_text mutation.idempotency_key max_idempotency_key_bytes))
      invalid_idempotency_key
  reject_if (is_empty mutation.rows || ltb max_rows (length mutation.rows)) invalid_row_count
  validate_rows (first_keys mutation.rows) mutation.rows

-- What `normalize_lsm` takes of `serde_json` and of `sha2`: the reader of JSON documents, the
-- finite floats, the derived reader and writer of mutations, and the digest.
pub record MutationCodec : Type 0 where
  pub parse : List ℕ → Result String Value
  pub from_f64 : ℕ → Option ℕ
  pub from_value : Value → Result String LogicalSemanticMutation
  pub to_string : LogicalSemanticMutation → Result String String
  pub digest : List ℕ → List ℕ

-- `?` on a result of `serde_json`
abbrev pub json {ℓ} : {A : Type ℓ} → Result String A → Result LsmError A
json (ok a) = ok a
json (err message) = err (invalid_json message)

unfoldable pub normalize_lsm : MutationCodec → List ℕ → Result LsmError NormalizedLsm
normalize_lsm codec input = do
  reject_if (ltb max_input_bytes (length input)) input_too_large
  document ← json (codec.parse input)
  unique ← json (visit codec.from_f64 document)
  mutation ← json (codec.from_value unique)
  validate_mutation mutation
  canonical_json ← json (codec.to_string mutation)
  ok (record {
    mutation = mutation;
    canonical_json = canonical_json;
    hash = sha256 codec.digest (as_bytes canonical_json);
    idempotency_key_hash = sha256 codec.digest (as_bytes mutation.idempotency_key);
    input_bytes = length input;
  })
