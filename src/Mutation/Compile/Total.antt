-- ===== src/Mutation/Compile/Total.antt =====
-- `compile_lsm` of crates/postgresem-compiler/src/mutation.rs indexes only what is there.
use mathlib.Core.Path.{subst}
use postgresem.Prelude.{
  ◌≤◌, ◌≡◌, refl, String, true, not, ◌||◌, ◌&&◌, Option, none, some, List, [], ◌∷◌, All, find,
  All-map, length, contains, is_empty, str_eq, str_eq_refl, arith, Bool-cases, inl, inr, is_some,
  ◌==◌,
}
use postgresem.Prelude.Results.{ok, reject_if, ok_or, >>=-ok, ok-injective}
use postgresem.Prelude.Ordered.{lookup}
use postgresem.Semantic.{Field, WritableField, UpsertPolicy, WritableModel, Model, SemanticSnapshot}
use postgresem.Lsm.{MutationOperation, insert, upsert, Row, LogicalSemanticMutation, NormalizedLsm}
use postgresem.Lsm.Validate.{keys, first_keys}
use postgresem.Lsm.Validate.Laws.{IsRow, IsMutation}
use postgresem.Mutation.{
  MutationCapabilities, MutationCompilerOptions, first, checked, invalid_limit_configuration,
  invalid_writable_model, model_not_writable, field_not_writable, conflict_field_missing,
  no_updatable_field,
}
use postgresem.Mutation.Panics.{
  IsKnown, NoPanic, ok-NoPanic, checked-NoPanic, >>=-NoPanic, index-NoPanic, All-contains,
}
use postgresem.Mutation.Validate.{
  validate_snapshot, FieldMap, fields_by_name, validate_writable_model,
}
use postgresem.Mutation.Validate.Laws.{checked-ok, ok_or-some, validate_writable_model-IsKnown}
use postgresem.Mutation.Render.{MutationCompilerCodec}
use postgresem.Mutation.Render.Total.{HaveKeys, KnowsPolicy, render-NoPanic}
use postgresem.Mutation.Compile.{
  check_values, check_name, check_names, check_conflict_fields, resolve_update_names,
  updatable_names, PolicyMap, is_updatable, policies_by_name, is_upsert, is_conflict_field,
  check_limits, check_operation, check_required, has_model_name, is_denied, find_writable,
  compile_rows, compile_lsm,
}

-- every name of the row is a key of it
lookup-keys : (row : Row) (name : String) → contains (keys row) name ≡ true → IsKnown row name
unfolding lookup
lookup-keys [] name h = cc
lookup-keys ((field, value) ∷ row) name h = elim (Bool-cases (str_eq field name)) [
  | inl here ↦ (value, rw here)
  | inr there ↦ let (v, found) = lookup-keys row name (rw there at h) in (v, rw there found)
]

contains_self :
    (names : List String) (P : String → Type 0)
    → ((name : String) → contains names name ≡ true → P name)
    → All P names
contains_self [] P h = tt
contains_self (x ∷ xs) P h = (
  h x (rw (str_eq_refl x)),
  contains_self xs P
      (λ name e. h name (elim (Bool-cases (str_eq x name)) [ inl a ↦ rw a | inr b ↦ rw b e ])),
)

rows-HaveKeys :
    (names : List String) (rows : List Row) → All (IsRow names) rows → HaveKeys names rows
rows-HaveKeys names [] h = tt
rows-HaveKeys names (row ∷ rows) (r, h) = (
  subst (All (IsKnown row)) r.same_fields
      (contains_self (keys row) (IsKnown row) (lookup-keys row)),
  rows-HaveKeys names rows h,
)

find_writable-IsKnown :
    (snapshot : SemanticSnapshot) (capabilities : MutationCapabilities) (name : String)
    (model : Model) (writable : WritableModel)
    → find_writable snapshot capabilities name ≡ ok (model, writable)
    → All (IsKnown (fields_by_name model.fields)) writable.returning
unfolding find_writable
find_writable-IsKnown snapshot capabilities name model writable h =
    let (_, _, h₁) = >>=-ok (reject_if (is_denied capabilities name) model_not_writable) _ h in
    let (m, _, h₂) =
      >>=-ok (ok_or (find (has_model_name name) snapshot.models) model_not_writable) _ h₁ in
    let (w, _, h₃) = >>=-ok (ok_or m.writable model_not_writable) _ h₂ in
    let (_, valid, h₄) = >>=-ok (validate_writable_model m.fields w) _ h₃ in
    subst (λ (p : Model × WritableModel). All (IsKnown (fields_by_name p.0.fields)) p.1.returning)
      (ok-injective {a = (m, w)} h₄) (validate_writable_model-IsKnown m.fields w valid)

module _ (operation : MutationOperation) (writable : WritableModel) (fields : FieldMap)
    (rows : List Row) where
  check_name-IsKnown :
      (name : String) {u : Unit {0}}
      → check_name operation writable fields rows name ≡ ok u
      → IsKnown fields name
  unfolding check_name
  check_name-IsKnown name h =
      let (_, _, h₁) =
        >>=-ok
          (checked
            (ok_or (lookup name (policies_by_name writable.fields)) (field_not_writable name)))
          _ h in
      let (field, found, _) =
        >>=-ok (checked (ok_or (lookup name fields) invalid_writable_model)) _ h₁ in
      (field, ok_or-some (lookup name fields) _ (checked-ok _ found))

  check_names-IsKnown :
      (names : List String) {u : Unit {0}}
      → check_names operation writable fields rows names ≡ ok u
      → All (IsKnown fields) names
  unfolding check_names
  check_names-IsKnown [] h = tt
  check_names-IsKnown (name ∷ names) h =
      let (_, one, more) = >>=-ok (check_name operation writable fields rows name) _ h in
      (check_name-IsKnown name one, check_names-IsKnown names more)

  check_values-NoPanic :
      (field : Field) (policy : WritableField) (name : String) (some_rows : List Row)
      → All (λ row. IsKnown row name) some_rows
      → NoPanic (check_values field policy name some_rows)
  unfolding check_values
  check_values-NoPanic field policy name [] h = ok-NoPanic _
  check_values-NoPanic field policy name (row ∷ more) (known, h) =
      >>=-NoPanic _ _ (index-NoPanic row name known) (λ value _.
        >>=-NoPanic _ _ (checked-NoPanic _) (λ _ _. check_values-NoPanic field policy name more h))

  check_name-NoPanic :
      (name : String)
      → All (λ row. IsKnown row name) rows
      → NoPanic (check_name operation writable fields rows name)
  unfolding check_name
  check_name-NoPanic name h =
      let find_policy =
        ok_or (lookup name (policies_by_name writable.fields)) (field_not_writable name) in
      let find_field = ok_or (lookup name fields) invalid_writable_model in
      >>=-NoPanic (checked find_policy) _ (checked-NoPanic find_policy) (λ policy _.
        >>=-NoPanic (checked find_field) _ (checked-NoPanic find_field) (λ field _.
          >>=-NoPanic (checked (reject_if (is_some field.relationship) invalid_writable_model)) _
            (checked-NoPanic (reject_if (is_some field.relationship) invalid_writable_model))
            (λ _ _.
              >>=-NoPanic (check_values field policy name rows) _
                (check_values-NoPanic field policy name rows h)
                (λ _ _. checked-NoPanic (
                  reject_if
                    (is_upsert operation
                      && not policy.updatable_on_conflict
                      && not (is_conflict_field writable.upsert name))
                    (field_not_writable name))))))

  check_names-NoPanic :
      (names : List String)
      → HaveKeys names rows
      → NoPanic (check_names operation writable fields rows names)
  unfolding check_names
  check_names-NoPanic [] h = ok-NoPanic _
  check_names-NoPanic (name ∷ names) h =
      >>=-NoPanic (check_name operation writable fields rows name) _
        (check_name-NoPanic name
          (All-map (λ row (k : IsKnown row name × All (IsKnown row) names). k.0) rows h))
        (λ _ _.
          check_names-NoPanic names
            (All-map (λ row (k : IsKnown row name × All (IsKnown row) names). k.1) rows h))

some-injective : {A : Type 0} {a b : A} → some a ≡ some b → a ≡ b
some-injective h = cc

module _ (names : List String) (fields : FieldMap) (known : All (IsKnown fields) names) where
  check_conflict_fields-IsKnown :
      (conflicts : List String) {u : Unit {0}}
      → check_conflict_fields names conflicts ≡ ok u
      → All (IsKnown fields) conflicts
  unfolding check_conflict_fields
  check_conflict_fields-IsKnown [] h = tt
  check_conflict_fields-IsKnown (conflict ∷ conflicts) h =
      let (_, listed, more) =
        >>=-ok (reject_if (not (contains names conflict)) (conflict_field_missing conflict)) _ h in
      (
        All-contains (IsKnown fields) names conflict known (ground arith),
        check_conflict_fields-IsKnown conflicts more,
      )

updatable_names-All :
    (P : String → Type 0) (policies : PolicyMap) (names : List String)
    → All P names
    → All P (updatable_names policies names)
unfolding updatable_names
updatable_names-All P policies [] h = tt
updatable_names-All P policies (name ∷ names) (p, h) =
    elim (Bool-cases (is_updatable policies name)) [
      | inl kept ↦ rw kept (p, updatable_names-All P policies names h)
      | inr dropped ↦ rw dropped (updatable_names-All P policies names h)
    ]

module _ (writable : WritableModel) (names : List String) (fields : FieldMap)
    (known : All (IsKnown fields) names) where
  resolve_update_names-IsKnown :
      (operation : MutationOperation) (policy : Option UpsertPolicy) (updates : List String)
      → resolve_update_names operation writable policy names ≡ ok updates
      → All (IsKnown fields) updates × KnowsPolicy fields operation policy
  unfolding resolve_update_names
  resolve_update_names-IsKnown insert none updates h =
      (subst (All (IsKnown fields)) (ok-injective h) tt, λ p e q. cc)
  resolve_update_names-IsKnown upsert none updates h =
      (subst (All (IsKnown fields)) (ok-injective h) tt, λ p e q. cc)
  resolve_update_names-IsKnown insert (some policy) updates h =
      (subst (All (IsKnown fields)) (ok-injective h) tt, λ p e q. cc)
  resolve_update_names-IsKnown upsert (some policy) updates h =
      let (_, listed, h₁) = >>=-ok (check_conflict_fields names policy.conflict_fields) _ h in
      let kept = updatable_names (policies_by_name writable.fields) names in
      let (_, _, h₂) = >>=-ok (reject_if (is_empty kept) no_updatable_field) _ h₁ in
      (
        subst (All (IsKnown fields)) (ok-injective h₂)
            (updatable_names-All (IsKnown fields) (policies_by_name writable.fields) names known),
        λ p e q.
            subst (λ (r : UpsertPolicy). All (IsKnown fields) r.conflict_fields) (some-injective q)
              (check_conflict_fields-IsKnown names fields known policy.conflict_fields listed),
      )

-- the rows of a mutation are not none, and have the names of the first
rows-cases :
    (m : LogicalSemanticMutation)
    → IsMutation m
    → (row : Row) × (first m.rows ≡ ok row) × HaveKeys (keys row) m.rows
rows-cases m valid = of_rows m.rows valid.some_row valid.rows
  where
    of_rows :
        (rows : List Row)
        → 1 ≤ length rows
        → All (IsRow (first_keys rows)) rows
        → (row : Row) × (first rows ≡ ok row) × HaveKeys (keys row) rows
    of_rows [] some_row h = ground arith
    of_rows (row ∷ rows) some_row h = (row, refl, rows-HaveKeys (keys row) (row ∷ rows) h)

module _ (codec : MutationCompilerCodec) (normalized : NormalizedLsm)
    (snapshot : SemanticSnapshot) where
  compile_rows-NoPanic :
      (model : Model) (writable : WritableModel) (profile : String)
      → IsMutation normalized.mutation
      → All (IsKnown (fields_by_name model.fields)) writable.returning
      → NoPanic (compile_rows codec normalized snapshot model writable profile)
  unfolding compile_rows
  compile_rows-NoPanic model writable profile valid returning =
      let operation = normalized.mutation.operation in
      let rows = normalized.mutation.rows in
      let fields = fields_by_name model.fields in
      let (row, one, have) = rows-cases normalized.mutation valid in
      let names = keys row in
      let resolve = resolve_update_names operation writable writable.upsert names in
      rw one (
        >>=-NoPanic (check_names operation writable fields rows names) _
          (check_names-NoPanic operation writable fields rows names have)
          (λ _ e.
            let known = check_names-IsKnown operation writable fields rows names e in
            >>=-NoPanic (checked resolve) _ (checked-NoPanic resolve) (λ updates e'.
              let (up, policy) =
                resolve_update_names-IsKnown writable names fields known operation writable.upsert
                  updates (checked-ok resolve e') in
              >>=-NoPanic (checked (check_required names writable.fields)) _
                (checked-NoPanic (check_required names writable.fields))
                (λ _ _.
                  render-NoPanic fields codec normalized snapshot model.source writable names
                    updates profile known up returning policy have))))

  -- A mutation that is within the bounds of the language compiles or is refused with an error of the
  -- compiler: no index into the fields, the values or the rows is missing.
  pub compile_lsm-NoPanic :
      (capabilities : MutationCapabilities) (options : MutationCompilerOptions)
      → IsMutation normalized.mutation
      → NoPanic (compile_lsm codec normalized snapshot capabilities options)
  unfolding compile_lsm
  compile_lsm-NoPanic capabilities options valid =
      let find_model = find_writable snapshot capabilities normalized.mutation.model in
      let no_limit = options.hard_row_limit == 0 || options.hard_request_byte_limit == 0 in
      >>=-NoPanic _ _ (checked-NoPanic (validate_snapshot codec.snapshot snapshot)) (λ _ _.
        >>=-NoPanic _ _ (checked-NoPanic (reject_if no_limit invalid_limit_configuration)) (λ _ _.
          >>=-NoPanic (checked find_model) _ (checked-NoPanic find_model) (λ (model, writable) e.
            >>=-NoPanic _ _ (checked-NoPanic (check_limits options writable normalized)) (λ _ _.
              >>=-NoPanic _ _
                (checked-NoPanic (check_operation normalized.mutation.operation writable))
                (λ _ _. compile_rows-NoPanic model writable capabilities.profile valid (
                  find_writable-IsKnown snapshot capabilities normalized.mutation.model model
                    writable (checked-ok find_model e)))))))
