-- ===== src/Mutation/Compile/Checked.antt =====
-- The names and the values that crates/postgresem-compiler/src/mutation.rs checks.
use postgresem.Prelude.{
  ◌≡◌, ◌⊎◌, inl, inr, refl, String, true, false, not, ◌&&◌, Option, none, some, List, [], ◌∷◌, All,
  contains, arith, Bool-cases, is_some,
}
use postgresem.Prelude.Results.{ok, reject_if, ok_or, >>=-ok, err-ok}
use postgresem.Prelude.Ordered.{lookup}
use postgresem.Semantic.{Field, WritableField, WritableModel}
use postgresem.Lsm.{MutationOperation, MutationValue, Row}
use postgresem.Mutation.{
  index, checked, invalid_writable_model, field_not_writable, required_field_missing,
}
use postgresem.Mutation.Panics.{index-lookup}
use postgresem.Mutation.Validate.{FieldMap, is_null, compatible, validate_value}
use postgresem.Mutation.Validate.Laws.{checked-ok, ok_or-some}
use postgresem.Mutation.Compile.{
  PolicyMap, policies_by_name, check_values, check_name, check_names, check_required,
}

-- The value is null where the policy lets it be, or is of the field's type.
abbrev pub IsAccepted : Field → WritableField → MutationValue → Type 0
IsAccepted field policy value =
    ((is_null value ≡ true) × (policy.nullable ≡ true)) ⊎ (compatible field.data_type value ≡ true)

validate_value-IsAccepted :
    (field : Field) (policy : WritableField) (value : MutationValue) {u : Unit {0}}
    → validate_value field policy value ≡ ok u
    → IsAccepted field policy value
unfolding validate_value
validate_value-IsAccepted field policy value h = elim (Bool-cases (is_null value)) [
  | inl null ↦ elim (Bool-cases policy.nullable) [
    | inl free ↦ inl (null, free)
    | inr never ↦ ground arith
  ]
  | inr given ↦ elim (Bool-cases (compatible field.data_type value)) [
    | inl right ↦ inr right
    | inr wrong ↦ ground arith
  ]
]

-- The name is of a field with a policy, and each row has an accepted value for it.
abbrev pub IsWritable : FieldMap → PolicyMap → List Row → String → Type 0
IsWritable fields policies rows name =
    (policy : WritableField) × (field : Field) × (lookup name policies ≡ some policy)
    × (lookup name fields ≡ some field)
    × (field.relationship ≡ none)
    × All
        (λ row.
          (value : MutationValue) × (lookup name row ≡ some value) × IsAccepted field policy value)
        rows

check_values-IsAccepted :
    (field : Field) (policy : WritableField) (name : String) (rows : List Row) {u : Unit {0}}
    → check_values field policy name rows ≡ ok u
    → All
        (λ row.
          (value : MutationValue) × (lookup name row ≡ some value) × IsAccepted field policy value)
        rows
unfolding check_values
check_values-IsAccepted field policy name [] h = tt
check_values-IsAccepted field policy name (row ∷ rows) h =
    let (value, given, h₁) = >>=-ok (index row name) _ h in
    let (_, valid, h₂) = >>=-ok (checked (validate_value field policy value)) _ h₁ in
    (
      (
        value,
        index-lookup row name value given,
        validate_value-IsAccepted field policy value (checked-ok _ valid),
      ),
      check_values-IsAccepted field policy name rows h₂,
    )

not_some :
    {A : Type 0} (o : Option A) {u : Unit {0}}
    → reject_if (is_some o) invalid_writable_model ≡ ok u
    → o ≡ none
not_some none h = refl
not_some (some a) h = absurd (err-ok h)

module _ (operation : MutationOperation) (writable : WritableModel) (fields : FieldMap)
    (rows : List Row) where
  check_name-IsWritable :
      (name : String) {u : Unit {0}}
      → check_name operation writable fields rows name ≡ ok u
      → IsWritable fields (policies_by_name writable.fields) rows name
  unfolding check_name
  check_name-IsWritable name h =
      let find_policy =
        ok_or (lookup name (policies_by_name writable.fields)) (field_not_writable name) in
      let (policy, one, h₁) = >>=-ok (checked find_policy) _ h in
      let (field, two, h₂) =
        >>=-ok (checked (ok_or (lookup name fields) invalid_writable_model)) _ h₁ in
      let (_, own, h₃) =
        >>=-ok (checked (reject_if (is_some field.relationship) invalid_writable_model)) _ h₂ in
      let (_, values, _) = >>=-ok (check_values field policy name rows) _ h₃ in
      (
        policy,
        field,
        ok_or-some _ _ (checked-ok find_policy one),
        ok_or-some _ _ (checked-ok _ two),
        not_some field.relationship (checked-ok _ own),
        check_values-IsAccepted field policy name rows values,
      )

  pub check_names-IsWritable :
      (names : List String) {u : Unit {0}}
      → check_names operation writable fields rows names ≡ ok u
      → All (IsWritable fields (policies_by_name writable.fields) rows) names
  unfolding check_names
  check_names-IsWritable [] h = tt
  check_names-IsWritable (name ∷ names) h =
      let (_, one, more) = >>=-ok (check_name operation writable fields rows name) _ h in
      (check_name-IsWritable name one, check_names-IsWritable names more)

-- A field that an insert needs is among the names.
abbrev pub IsGiven : List String → WritableField → Type 0
IsGiven names policy = (policy.required_on_insert ≡ false) ⊎ (contains names policy.field ≡ true)

pub check_required-IsGiven :
    (names : List String) (policies : List WritableField) {u : Unit {0}}
    → check_required names policies ≡ ok u
    → All (IsGiven names) policies
unfolding check_required
check_required-IsGiven names [] h = tt
check_required-IsGiven names (policy ∷ policies) h =
    let (_, one, more) =
      >>=-ok
        (reject_if (policy.required_on_insert && not (contains names policy.field))
          (required_field_missing policy.field))
        _ h in
    (
      elim (Bool-cases policy.required_on_insert) [
        | inr optional ↦ inl optional
        | inl required ↦ inr (ground arith)
      ],
      check_required-IsGiven names policies more,
    )
