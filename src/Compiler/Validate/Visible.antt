-- ===== src/Compiler/Validate/Visible.antt =====
-- The names that a query accepted by `validate` of crates/postgresem-compiler/src/compiler.rs uses.
use mathlib.Core.Path.{subst}
use postgresem.Prelude.{
  String, Bool, true, false, not, ◌&&◌, ◌||◌, ◌≡◌, refl, ap, List, [], ◌∷◌, All, arith, is_some,
  inl, inr,
}
use postgresem.Prelude.Results.{ok, Result-cases, reject_if, ok-injective, err-ok}
use postgresem.Prelude.Stateful.{steps, lifted, Stateful, traverse, lift}
use postgresem.Lsq.{Dimension}
use postgresem.Semantic.{Model}
use postgresem.Compiler.{hidden_field, invalid_time_grain, CompileError, ResolvedDimension}
use postgresem.Compiler.Resolve.{
  resolve_field, resolve_dimension, is_time_type, record_relationship,
}

module _ {E S A B : Type 0} (f : A → Stateful E S B) (P : B → Type 0)
    (step : (x : A) (s t : S) (y : B) → f x s ≡ ok (y, t) → P y) where
  -- What each element has, the list has.
  pub traverse-All : (xs : List A) (s t : S) (ys : List B) → traverse f xs s ≡ ok (ys, t) → All P ys
  unfolding traverse
  traverse-All [] s t ys h = subst (All P) (ap (λ (p : List B × S). p.0) (ok-injective h)) tt
  traverse-All (x ∷ xs) s t ys h = elim (Result-cases (f x s)) [
    | inr (e, failed) ↦ absurd (err-ok (rw (failed, traverse) at h))
    | inl ((y, u), done) ↦ elim (Result-cases (traverse f xs u)) [
      | inr (e, failed) ↦ absurd (err-ok (rw (done, failed, traverse) at h))
      | inl ((zs, w), more) ↦
          subst (All P)
            (ap (λ (p : List B × S). p.0) (ok-injective (rw (done, more, traverse) at h)))
            (step x s u y done, traverse-All xs u w zs more)
    ]
  ]

-- A dimension that a caller may see, with a grain only where the field is a time.
pub record IsVisible (d : ResolvedDimension) : Type 0 where
  pub visible : d.field.visible ≡ true
  pub timed :
      (is_some d.time_grain && (not d.field.time_dimension || not (is_time_type d.field.data_type)))
      ≡ false

not_rejected : (b : Bool) (e : CompileError) {u : Unit {0}} → reject_if b e ≡ ok u → b ≡ false
not_rejected true e h = absurd (err-ok h)
not_rejected false e h = refl

pub resolve_dimension-IsVisible :
    (model : Model) (dimension : Dimension) (s t : List String) (d : ResolvedDimension)
    → resolve_dimension model dimension s ≡ ok (d, t)
    → IsVisible d
unfolding resolve_dimension record_relationship
resolve_dimension-IsVisible model dimension s t d h =
    let (field, s₁, found, h₁) = steps (lift (resolve_field model dimension.field)) _ s t d h in
    let (_, s₂, shown, h₂) =
      steps (lift (reject_if (not field.visible) (hidden_field dimension.field))) _ s₁ t d h₁ in
    let (_, s₃, grained, h₃) =
      steps
        (lift (
          reject_if
            (is_some dimension.time_grain
              && (not field.time_dimension || not (is_time_type field.data_type)))
            (invalid_time_grain dimension.field)))
        _ s₂ t d h₂ in
    subst IsVisible (ap (λ (p : ResolvedDimension × List String). p.0) (ok-injective h₃)) (record {
      visible = ground (arith, not_rejected _ _ (lifted _ _ _ _ shown));
      timed = not_rejected _ _ (lifted _ _ _ _ grained);
    })
