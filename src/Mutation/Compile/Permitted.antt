-- ===== src/Mutation/Compile/Permitted.antt =====
-- What `compile_lsm` of crates/postgresem-compiler/src/mutation.rs was allowed to write.
use postgresem.Prelude.{
  ◌≤◌, ◌≡◌, sym, ap, ◌∙◌, String, true, false, ◌||◌, some, All, length, find, arith, is_some, ◌==◌,
  ltb,
}
use postgresem.Prelude.Results.{ok, reject_if, ok_or, >>=-ok, ok-injective}
use postgresem.Prelude.Text.{is_blank}
use postgresem.Semantic.{WritableModel, Model, SemanticSnapshot}
use postgresem.Lsm.{MutationOperation, insert, upsert, Row, NormalizedLsm}
use postgresem.Lsm.Validate.{keys}
use postgresem.Mutation.{
  MutationCapabilities, allows, MutationCompilerOptions, CompiledMutation, first, checked,
  invalid_limit_configuration, model_not_writable, invalid_writable_model, row_limit_exceeded,
}
use postgresem.Mutation.Validate.{validate_snapshot, fields_by_name, validate_writable_model}
use postgresem.Mutation.Validate.Laws.{checked-ok, ok_or-some}
use postgresem.Mutation.Render.{MutationCompilerCodec}
use postgresem.Mutation.Compile.{
  policies_by_name, check_limits, check_operation, check_names, resolve_update_names,
  check_required, has_model_name, is_denied, find_writable, compile_rows, compile_lsm,
}
use postgresem.Mutation.Compile.Checked.{
  IsWritable, check_names-IsWritable, IsGiven, check_required-IsGiven,
}

abbrev pub IsEnabled : MutationOperation → WritableModel → Type 0
IsEnabled insert writable = writable.insert ≡ true
IsEnabled upsert writable = is_some writable.upsert ≡ true

check_operation-IsEnabled :
    (operation : MutationOperation) (writable : WritableModel) {u : Unit {0}}
    → check_operation operation writable ≡ ok u
    → IsEnabled operation writable
unfolding check_operation
check_operation-IsEnabled insert writable h = ground arith
check_operation-IsEnabled upsert writable h = ground arith

-- The mutation is within the limits of the policy, and those are within the compiler's.
pub record IsWithin (options : MutationCompilerOptions) (writable : WritableModel)
    (n : NormalizedLsm) : Type 0 where
  pub rows : length n.mutation.rows ≤ writable.max_rows
  pub hard_rows : writable.max_rows ≤ options.hard_row_limit
  pub bytes : n.input_bytes ≤ writable.max_request_bytes
  pub hard_bytes : writable.max_request_bytes ≤ options.hard_request_byte_limit

check_limits-IsWithin :
    (options : MutationCompilerOptions) (writable : WritableModel) (n : NormalizedLsm)
    {u : Unit {0}}
    → check_limits options writable n ≡ ok u
    → IsWithin options writable n
unfolding check_limits
check_limits-IsWithin options writable n h =
    let (_, one, h₁) =
      >>=-ok
        (reject_if
          (writable.max_rows == 0
            || ltb options.hard_row_limit writable.max_rows
            || writable.max_request_bytes == 0
            || ltb options.hard_request_byte_limit writable.max_request_bytes)
          invalid_writable_model)
        _ h in
    let (_, two, three) =
      >>=-ok (reject_if (ltb writable.max_rows (length n.mutation.rows)) row_limit_exceeded) _ h₁ in
    record {
      rows = ground arith;
      hard_rows = ground arith;
      bytes = ground arith;
      hard_bytes = ground arith;
    }

found_writable :
    (snapshot : SemanticSnapshot) (capabilities : MutationCapabilities) (name : String)
    (model : Model) (writable : WritableModel)
    → find_writable snapshot capabilities name ≡ ok (model, writable)
    → (is_denied capabilities name ≡ false)
      × (find (has_model_name name) snapshot.models ≡ some model)
      × (model.writable ≡ some writable)
unfolding find_writable
found_writable snapshot capabilities name model writable h =
    let (_, free, h₁) = >>=-ok (reject_if (is_denied capabilities name) model_not_writable) _ h in
    let (m, found, h₂) =
      >>=-ok (ok_or (find (has_model_name name) snapshot.models) model_not_writable) _ h₁ in
    let (w, policy, h₃) = >>=-ok (ok_or m.writable model_not_writable) _ h₂ in
    let (_, _, h₄) = >>=-ok (validate_writable_model m.fields w) _ h₃ in
    let same = ok-injective {a = (m, w)} h₄ in
    let same_model = ap (λ (p : Model × WritableModel). p.0) same in
    (
      ground arith,
      ok_or-some _ _ found ∙ ap some same_model,
      ap (λ (x : Model). x.writable) (sym same_model)
          ∙ (ok_or-some _ _ policy ∙ ap some (ap (λ (p : Model × WritableModel). p.1) same)),
    )

-- What a mutation that compiles was allowed.
pub record IsPermitted (n : NormalizedLsm) (snapshot : SemanticSnapshot)
    (capabilities : MutationCapabilities) (options : MutationCompilerOptions) : Type 0 where
  pub model : Model
  pub writable : WritableModel
  pub row : Row
  pub profile : is_blank capabilities.profile ≡ false
  pub allowed : allows capabilities n.mutation.model ≡ true
  pub found : find (has_model_name n.mutation.model) snapshot.models ≡ some model
  pub policy : model.writable ≡ some writable
  pub within : IsWithin options writable n
  pub enabled : IsEnabled n.mutation.operation writable
  pub some_row : first n.mutation.rows ≡ ok row
  pub fields :
      All
        (IsWritable
          (fields_by_name model.fields)
          (policies_by_name writable.fields)
          n.mutation.rows)
        (keys row)
  pub required : All (IsGiven (keys row)) writable.fields

-- A mutation compiles only where the caller has a profile and may write the model, the model is in the
-- snapshot with a policy for writing, which enables the operation and whose limits the mutation keeps
-- and are within the compiler's, each field of the first row is a field of the model itself that has a
-- policy and in each row a value of its type, or null where the policy lets it be, and each field that
-- an insert needs is given.
pub compile_lsm-IsPermitted :
    (codec : MutationCompilerCodec) (n : NormalizedLsm) (snapshot : SemanticSnapshot)
    (capabilities : MutationCapabilities) (options : MutationCompilerOptions)
    (compiled : CompiledMutation)
    → compile_lsm codec n snapshot capabilities options ≡ ok compiled
    → IsPermitted n snapshot capabilities options
unfolding compile_lsm compile_rows
compile_lsm-IsPermitted codec n snapshot capabilities options compiled h =
    let name = n.mutation.model in
    let no_limit = options.hard_row_limit == 0 || options.hard_request_byte_limit == 0 in
    let (_, _, h₁) = >>=-ok (checked (validate_snapshot codec.snapshot snapshot)) _ h in
    let (_, _, h₂) = >>=-ok (checked (reject_if no_limit invalid_limit_configuration)) _ h₁ in
    let ((model, writable), e, h₃) =
      >>=-ok {A = Model × WritableModel} (checked (find_writable snapshot capabilities name)) _
        h₂ in
    let (_, within, h₄) = >>=-ok (checked (check_limits options writable n)) _ h₃ in
    let (_, enabled, h₅) = >>=-ok (checked (check_operation n.mutation.operation writable)) _ h₄ in
    let (row, one, h₆) = >>=-ok (first n.mutation.rows) _ h₅ in
    let fields = fields_by_name model.fields in
    let (_, names, h₇) =
      >>=-ok (check_names n.mutation.operation writable fields n.mutation.rows (keys row)) _ h₆ in
    let (_, _, h₈) =
      >>=-ok
        (checked (resolve_update_names n.mutation.operation writable writable.upsert (keys row))) _
        h₇ in
    let (_, required, _) = >>=-ok (checked (check_required (keys row) writable.fields)) _ h₈ in
    let (denied, found, policy) =
      found_writable snapshot capabilities name model writable (checked-ok _ e) in
    record {
      model = model;
      writable = writable;
      row = row;
      profile = ground arith;
      allowed = ground arith;
      found = found;
      policy = policy;
      within = check_limits-IsWithin options writable n (checked-ok _ within);
      enabled = check_operation-IsEnabled n.mutation.operation writable (checked-ok _ enabled);
      some_row = one;
      fields =
          check_names-IsWritable n.mutation.operation writable fields n.mutation.rows (keys row)
            names;
      required = check_required-IsGiven (keys row) writable.fields (checked-ok _ required);
    }
