-- ===== src/Mutation/Validate/Laws.antt =====
-- What the checks of the writable metadata in crates/postgresem-compiler/src/mutation.rs leave known.
use postgresem.Prelude.{
  ◌≡◌, refl, ap, String, Bool, true, false, ◌||◌, Option, none, some, List, [], ◌∷◌, All, contains,
  arith, Option-cases, inl, inr,
}
use postgresem.Prelude.Results.{Result, ok, err, reject_if, ok_or, >>=-ok, ok-injective, err-ok}
use postgresem.Prelude.Ordered.{lookup}
use postgresem.Semantic.{Field, WritableModel}
use postgresem.Mutation.{MutationCompileError, invalid_writable_model, checked}
use postgresem.Mutation.Panics.{IsKnown}
use postgresem.Mutation.Validate.{
  FieldMap, fields_by_name, is_no_own_field, is_incomplete, check_fields, check_returning,
  validate_writable_model,
}

pub checked-ok :
    {A : Type 0} (r : Result MutationCompileError A) {a : A} → checked r ≡ ok a → r ≡ ok a
checked-ok (ok a) h = ap ok (ok-injective h)
checked-ok (err e) h = absurd (err-ok h)

pub not_rejected_right :
    (a b : Bool) (e : MutationCompileError) {u : Unit {0}} → reject_if (a || b) e ≡ ok u → b ≡ false
not_rejected_right true b e h = absurd (err-ok h)
not_rejected_right false true e h = absurd (err-ok h)
not_rejected_right false false e h = refl

pub ok_or-some :
    {A : Type 0} (o : Option A) (e : MutationCompileError) {a : A} → ok_or o e ≡ ok a → o ≡ some a
ok_or-some none e h = absurd (err-ok h)
ok_or-some (some b) e h = ap some (ok-injective h)

IsKnown-not_own :
    (fields : FieldMap) (name : String) → is_no_own_field fields name ≡ false → IsKnown fields name
IsKnown-not_own fields name h = elim (Option-cases (lookup name fields)) [
  | inl missing ↦ ground arith
  | inr known ↦ known
]

check_returning-IsKnown :
    (fields : FieldMap) (seen names : List String) {u : Unit {0}}
    → check_returning fields seen names ≡ ok u
    → All (IsKnown fields) names
unfolding check_returning
check_returning-IsKnown fields seen [] h = tt
check_returning-IsKnown fields seen (name ∷ names) h =
    let (_, own, more) =
      >>=-ok (reject_if (contains seen name || is_no_own_field fields name) invalid_writable_model)
        _ h in
    (
      IsKnown-not_own fields name (not_rejected_right _ _ _ own),
      check_returning-IsKnown fields (name ∷ seen) names more,
    )

pub validate_writable_model-IsKnown :
    (fields : List Field) (writable : WritableModel) {u : Unit {0}}
    → validate_writable_model fields writable ≡ ok u
    → All (IsKnown (fields_by_name fields)) writable.returning
unfolding validate_writable_model
validate_writable_model-IsKnown fields writable h =
    let (_, _, h₁) = >>=-ok (reject_if (is_incomplete writable) invalid_writable_model) _ h in
    let (_, _, h₂) = >>=-ok (check_fields (fields_by_name fields) [] writable.fields) _ h₁ in
    let (_, returning, _) =
      >>=-ok (check_returning (fields_by_name fields) [] writable.returning) _ h₂ in
    check_returning-IsKnown (fields_by_name fields) [] writable.returning returning
