-- ===== src/Mutation/Render/Total.antt =====
-- `render` of crates/postgresem-compiler/src/mutation.rs indexes only what is there.
use postgresem.Prelude.{
  ◌≡◌, refl, sym, ap, String, Option, none, some, List, [], ◌∷◌, ◌++◌, All, All-append, All-map,
  inl, inr,
}
use postgresem.Prelude.Results.{
  Result, ok, Result-cases, err-injective, ok_or, ok-injective, err-ok, map_results,
}
use postgresem.Semantic.{DataType, Relation, UpsertPolicy, WritableModel, SemanticSnapshot}
use postgresem.Lsm.{MutationOperation, insert, upsert, MutationValue, Row, NormalizedLsm}
use postgresem.Mutation.{Failure, checked, MutationParameter, invalid_writable_model}
use postgresem.Mutation.Panics.{
  IsKnown, NoPanic, ok-NoPanic, checked-NoPanic, >>=-NoPanic, index-NoPanic, map_results-NoPanic,
  traverse-NoPanic, lift-NoPanic, steps-NoPanic, pure-NoPanic,
}
use postgresem.Mutation.Validate.{FieldMap}
use postgresem.Mutation.Rows.{render_value, render_row, push_value}
use postgresem.Mutation.Render.{
  quoted_column, update_item, conflict_clause, returning_column, returning_item, column_of,
  MutationCompilerCodec, written, render_statement, render,
}

-- The rows have each of the names.
abbrev pub HaveKeys : List String → List Row → Type 0
HaveKeys names = All (λ row. All (IsKnown row) names)

written-NoPanic :
    (codec : MutationCompilerCodec) (parameters : List MutationParameter)
    → NoPanic (written codec parameters)
written-NoPanic codec parameters = elim (Result-cases (codec.parameters_to_string parameters)) [
  | inl (text, done) ↦ λ h. err-ok (sym (rw (done, written) at h))
  | inr (e, failed) ↦ λ h. cc (err-injective (rw (failed, written) at h))
]

push_value-NoPanic :
    (t : DataType) (v : MutationValue) (s : List MutationParameter) → NoPanic (push_value t v s)
unfolding push_value
push_value-NoPanic t v s e = err-ok (sym e)

module _ (fields : FieldMap) where
  quoted_column-NoPanic :
      (name : String) → IsKnown fields name → NoPanic (quoted_column fields name)
  unfolding quoted_column
  quoted_column-NoPanic name h =
      >>=-NoPanic _ _ (index-NoPanic fields name h) (λ field e. ok-NoPanic _)

  update_item-NoPanic : (name : String) → IsKnown fields name → NoPanic (update_item fields name)
  unfolding update_item
  update_item-NoPanic name h =
      >>=-NoPanic _ _ (quoted_column-NoPanic name h) (λ column e. ok-NoPanic _)

  returning_item-NoPanic :
      (name : String) → IsKnown fields name → NoPanic (returning_item fields name)
  unfolding returning_item
  returning_item-NoPanic name h =
      >>=-NoPanic _ _ (quoted_column-NoPanic name h) (λ column e. ok-NoPanic _)

  returning_column-NoPanic :
      (name : String) → IsKnown fields name → NoPanic (returning_column fields name)
  unfolding returning_column
  returning_column-NoPanic name h =
      >>=-NoPanic _ _ (index-NoPanic fields name h) (λ field e. ok-NoPanic _)

  column_of-NoPanic :
      (relation : Relation) (name : String)
      → IsKnown fields name
      → NoPanic (column_of relation fields name)
  unfolding column_of
  column_of-NoPanic relation name h =
      >>=-NoPanic _ _ (index-NoPanic fields name h) (λ field e. ok-NoPanic _)

  -- A function of names that does not panic at a known name does not at known names.
  each-NoPanic :
      {A : Type 0} (f : String → Result Failure A)
      → ((name : String) → IsKnown fields name → NoPanic (f name))
      → (names : List String) → All (IsKnown fields) names
      → NoPanic (map_results f names)
  each-NoPanic f h names known = map_results-NoPanic f names (All-map h names known)

  render_value-NoPanic :
      (row : Row) (name : String)
      → IsKnown fields name
      → IsKnown row name
      → (ps : List MutationParameter) → NoPanic (render_value fields row name ps)
  unfolding render_value
  render_value-NoPanic row name known given =
      steps-NoPanic _ _ (lift-NoPanic _ (index-NoPanic fields name known)) (λ field.
        steps-NoPanic _ _ (lift-NoPanic _ (index-NoPanic row name given)) (λ value.
          steps-NoPanic _ _ (push_value-NoPanic field.data_type value)
            (λ position. pure-NoPanic _)))

  render_row-NoPanic :
      (names : List String) (row : Row)
      → All (IsKnown fields) names
      → All (IsKnown row) names
      → (ps : List MutationParameter) → NoPanic (render_row fields names row ps)
  unfolding render_row
  render_row-NoPanic names row known given =
      steps-NoPanic _ _ (traverse-NoPanic (render_value fields row) names (both names known given))
        (λ texts. pure-NoPanic _)
    where
      both :
          (names : List String)
          → All (IsKnown fields) names
          → All (IsKnown row) names
          → All
              (λ name. (ps : List MutationParameter) → NoPanic (render_value fields row name ps))
              names
      both [] known given = tt
      both (name ∷ names) (k, known) (g, given) =
          (render_value-NoPanic row name k g, both names known given)

  conflict_clause-NoPanic :
      (operation : MutationOperation) (policy : Option UpsertPolicy) (updates : List String)
      → ((p : UpsertPolicy)
          → operation ≡ upsert
          → policy ≡ some p
          → All (IsKnown fields) p.conflict_fields)
      → All (IsKnown fields) updates
      → NoPanic (conflict_clause operation fields policy updates)
  unfolding conflict_clause
  conflict_clause-NoPanic insert policy updates conflicts known = ok-NoPanic _
  conflict_clause-NoPanic upsert policy updates conflicts known =
      >>=-NoPanic _ _ (checked-NoPanic _) (λ found e.
        >>=-NoPanic _ _
          (each-NoPanic (quoted_column fields) quoted_column-NoPanic found.conflict_fields
            (conflicts found refl (ok_or-some policy found e)))
          (λ columns _.
            >>=-NoPanic _ _ (each-NoPanic (update_item fields) update_item-NoPanic updates known)
              (λ items _. ok-NoPanic _)))
    where
      ok_or-some :
          (policy : Option UpsertPolicy) (found : UpsertPolicy)
          → checked (ok_or policy invalid_writable_model) ≡ ok found
          → policy ≡ some found
      ok_or-some none found h = absurd (err-ok h)
      ok_or-some (some p) found h = ap some (ok-injective h)

  -- The fields of a policy that an operation reads are known.
  abbrev pub KnowsPolicy : MutationOperation → Option UpsertPolicy → Type 0
  KnowsPolicy operation policy =
      (p : UpsertPolicy)
      → operation ≡ upsert
      → policy ≡ some p
      → All (IsKnown fields) p.conflict_fields

  render_statement-NoPanic :
      (normalized : NormalizedLsm) (relation : Relation) (writable : WritableModel)
      (names updates : List String)
      → All (IsKnown fields) names
      → All (IsKnown fields) updates
      → All (IsKnown fields) writable.returning
      → KnowsPolicy normalized.mutation.operation writable.upsert
      → HaveKeys names normalized.mutation.rows
      → NoPanic (render_statement normalized relation writable fields names updates)
  unfolding render_statement
  render_statement-NoPanic normalized relation writable names updates known up ret conflicts have =
      >>=-NoPanic _ _ (each-NoPanic (quoted_column fields) quoted_column-NoPanic names known)
        (λ columns _.
          >>=-NoPanic _ _
            (traverse-NoPanic (render_row fields names) normalized.mutation.rows
              (All-map (λ row given. render_row-NoPanic names row known given)
                normalized.mutation.rows have)
              [])
            (λ rows _.
              >>=-NoPanic _ _
                (conflict_clause-NoPanic normalized.mutation.operation writable.upsert updates
                  conflicts up)
                (λ conflict _.
                  >>=-NoPanic _ _
                    (each-NoPanic (returning_item fields) returning_item-NoPanic writable.returning
                      ret)
                    (λ returning _. ok-NoPanic _))))

  -- Where the names, the updated names, the returned names and the fields of the policy are fields of
  -- the model, and every row has the names, `render` does not panic.
  pub render-NoPanic :
      (codec : MutationCompilerCodec) (normalized : NormalizedLsm) (snapshot : SemanticSnapshot)
      (relation : Relation) (writable : WritableModel) (names updates : List String)
      (profile : String)
      → All (IsKnown fields) names
      → All (IsKnown fields) updates
      → All (IsKnown fields) writable.returning
      → KnowsPolicy normalized.mutation.operation writable.upsert
      → HaveKeys names normalized.mutation.rows
      → NoPanic (render codec normalized snapshot relation writable fields names updates profile)
  unfolding render
  render-NoPanic codec normalized snapshot relation writable names updates profile known up ret
        conflicts have =
      >>=-NoPanic _ _
        (render_statement-NoPanic normalized relation writable names updates known up ret conflicts
          have)
        (λ statement _.
          >>=-NoPanic _ _
            (each-NoPanic (returning_column fields) returning_column-NoPanic writable.returning ret)
            (λ schema _. >>=-NoPanic _ _ (written-NoPanic codec statement.1) (λ json _.
              >>=-NoPanic _ _
                (each-NoPanic (column_of relation fields) (column_of-NoPanic relation)
                  (names ++ writable.returning)
                  (All-append (IsKnown fields) names writable.returning known ret))
                (λ columns _. ok-NoPanic _))))
