-- ===== src/Lsm/Validate/Laws.antt =====
-- `validate_mutation` and `normalize_lsm` of crates/postgresem-compiler/src/lsm.rs.
use mathlib.Core.Path.{subst}
use postgresem.Lsm.Json.Laws.{IsUnique, visit_iff}
use postgresem.Prelude.{
  ap, ltb, ℕ, ◌≤◌, ◌≡◌, ◌↔◌, refl, String, true, false, List, [], ◌∷◌, arith, length, All,
  str_eq_iff,
}
use postgresem.Prelude.Results.{Result, ok, err, reject_if, >>=-ok, ok-injective, err-ok}
use postgresem.Prelude.Text.{is_blank, as_bytes}
use postgresem.Hash.{sha256}
use postgresem.Lsm.{
  MutationValue, Row, LogicalSemanticMutation, NormalizedLsm, is_well_formed, max_rows,
  max_fields_per_row, max_semantic_name_bytes, max_idempotency_key_bytes, max_input_bytes,
}
use postgresem.Lsm.Json.{Value, visit}
use postgresem.Lsm.Validate.{
  valid_bounded_text, keys, first_keys, same_names, validate_entries, validate_rows,
  validate_mutation, MutationCodec, json, normalize_lsm,
}

-- not blank, and at most so many bytes of UTF-8
abbrev pub IsBounded : String → ℕ → Type 0
IsBounded value bytes = (is_blank value ≡ false) × (length (as_bytes value) ≤ bytes)

abbrev pub IsEntry : String × MutationValue → Type 0
IsEntry (field, value) = IsBounded field max_semantic_name_bytes × (is_well_formed value ≡ true)

-- A row of 1 to 64 named values, under the given names.
pub record IsRow (names : List String) (row : Row) : Type 0 where
  pub some_field : 1 ≤ length row
  pub few_fields : length row ≤ max_fields_per_row
  pub same_fields : keys row ≡ names
  pub entries : All IsEntry row

pub record IsMutation (m : LogicalSemanticMutation) : Type 0 where
  pub version : m.schema_version ≡ "1"
  pub model : IsBounded m.model max_semantic_name_bytes
  pub idempotency_key : IsBounded m.idempotency_key max_idempotency_key_bytes
  pub some_row : 1 ≤ length m.rows
  pub few_rows : length m.rows ≤ max_rows
  pub rows : All (IsRow (first_keys m.rows)) m.rows

same_names_iff : (xs ys : List String) → (same_names xs ys ≡ true) ↔ (xs ≡ ys)
same_names_iff [] [] = ground arith
same_names_iff [] (y ∷ ys) = ground arith
same_names_iff (x ∷ xs) [] = ground arith
same_names_iff (x ∷ xs) (y ∷ ys) = ground (arith, str_eq_iff x y, same_names_iff xs ys)

validate_entries_iff : (row : Row) → (validate_entries row ≡ ok tt) ↔ All IsEntry row
unfolding validate_entries valid_bounded_text
validate_entries_iff [] = ground arith
validate_entries_iff ((field, value) ∷ row) = ground (arith, validate_entries_iff row)

validate_rows_iff :
    (names : List String) (rows : List Row)
    → (validate_rows names rows ≡ ok tt) ↔ All (IsRow names) rows
unfolding validate_rows
validate_rows_iff names [] = ground arith
validate_rows_iff names ([] ∷ rows) = ground arith
validate_rows_iff names ((entry ∷ row) ∷ rows) = ground (
  arith,
  validate_rows_iff names rows,
  validate_entries_iff (entry ∷ row),
  same_names_iff (keys (entry ∷ row)) names,
)

-- A mutation passes exactly when it has the one schema version, a model and an idempotency key that
-- are not blank and within their bounds, and 1 to 100 rows, each with 1 to 64 entries under the
-- names of the first row, the names bounded and the values well formed.
pub validate_mutation_iff :
    (m : LogicalSemanticMutation) → (validate_mutation m ≡ ok tt) ↔ IsMutation m
unfolding validate_mutation valid_bounded_text
validate_mutation_iff m =
    ground (arith, str_eq_iff m.schema_version "1", validate_rows_iff (first_keys m.rows) m.rows)

-- What `normalize_lsm` returns of an input: the document is read as the value that the visitor makes of
-- it, and the mutation is the one that is read from that value.
pub record IsNormalized (codec : MutationCodec) (input : List ℕ) (n : NormalizedLsm) : Type 0 where
  pub size : length input ≤ max_input_bytes
  pub bytes : n.input_bytes ≡ length input
  pub document : Value
  pub parsed : codec.parse input ≡ ok document
  pub unique : IsUnique codec.from_f64 document
  pub value : Value
  pub visited : visit codec.from_f64 document ≡ ok value
  pub read : codec.from_value value ≡ ok n.mutation
  pub mutation : IsMutation n.mutation
  pub written : codec.to_string n.mutation ≡ ok n.canonical_json
  pub hash : n.hash ≡ sha256 codec.digest (as_bytes n.canonical_json)
  pub key_hash : n.idempotency_key_hash ≡ sha256 codec.digest (as_bytes n.mutation.idempotency_key)

json-ok : {A : Type 0} (r : Result String A) {a : A} → json r ≡ ok a → r ≡ ok a
json-ok (ok a) h = ap ok (ok-injective h)
json-ok (err m) h = absurd (err-ok h)

normalized :
    (codec : MutationCodec) (input : List ℕ) (n : NormalizedLsm)
    → normalize_lsm codec input ≡ ok n
    → IsNormalized codec input n
unfolding normalize_lsm
normalized codec input n h =
    let (_, small, h₁) = >>=-ok (reject_if (ltb max_input_bytes (length input)) _) _ h in
    let (d, parsed, h₂) = >>=-ok (json (codec.parse input)) _ h₁ in
    let (u, unique, h₃) = >>=-ok (json (visit codec.from_f64 d)) _ h₂ in
    let (m, read, h₄) = >>=-ok (json (codec.from_value u)) _ h₃ in
    let (_, valid, h₅) = >>=-ok (validate_mutation m) _ h₄ in
    let (text, written, h₆) = >>=-ok (json (codec.to_string m)) _ h₅ in
    subst (IsNormalized codec input) (ok-injective h₆) (record {
      size = ground arith;
      bytes = refl;
      document = d;
      parsed = json-ok _ parsed;
      unique = (visit_iff codec.from_f64 d).0 (u, json-ok _ unique);
      value = u;
      visited = json-ok _ unique;
      read = json-ok _ read;
      mutation = (validate_mutation_iff m).0 valid;
      written = json-ok _ written;
      hash = refl;
      key_hash = refl;
    })
