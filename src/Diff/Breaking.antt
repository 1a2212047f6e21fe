-- ===== src/Diff/Breaking.antt =====
-- How many of the changes of crates/postgresem-compiler/src/diff.rs break.
use Prim.Native.Nat.{Ordering}
use mathlib.Core.Path.{subst}
use postgresem.Prelude.{
  ◌+◌, ◌≤◌, ◌≡◌, ◌↔◌, refl, sym, ap, ◌∙◌, String, Option, List, [], ◌∷◌, ◌++◌, All, arith, length,
}
use postgresem.Prelude.Results.{Result, ok, >>=-ok, ok-injective}
use postgresem.Semantic.{sort_by, insert_by}
use postgresem.Diff.{
  Compatibility, compatible, ChangeKind, SemanticObjectKind, SemanticChange, DiffError,
  breaking_changes, transposed, change,
}
use postgresem.Diff.Objects.{pushed}

module _ {Value : Type 0} where
  pub breaking_changes-nil :
      (none_yet : List (SemanticChange Value)) → none_yet ≡ [] → breaking_changes none_yet ≡ 0
  unfolding breaking_changes
  breaking_changes-nil none_yet h = ap breaking_changes h

  pub breaking_changes-append :
      (xs ys : List (SemanticChange Value))
      → breaking_changes (xs ++ ys) ≡ breaking_changes xs + breaking_changes ys
  unfolding breaking_changes
  breaking_changes-append [] ys = omega arith
  breaking_changes-append (x ∷ xs) ys = ground (arith, breaking_changes-append xs ys)

  pub breaking_changes≤length : (xs : List (SemanticChange Value)) → breaking_changes xs ≤ length xs
  unfolding breaking_changes
  breaking_changes≤length [] = omega arith
  breaking_changes≤length (x ∷ xs) = ground (arith, breaking_changes≤length xs)

  same_rest :
      (x : SemanticChange Value) (xs ys : List (SemanticChange Value))
      → breaking_changes xs ≡ breaking_changes ys
      → breaking_changes (x ∷ xs) ≡ breaking_changes (x ∷ ys)
  unfolding breaking_changes
  same_rest x xs ys h = ground (arith, h)

  module _ (cmp : SemanticChange Value → SemanticChange Value → Ordering) where
    breaking_changes-insert_by :
        (x : SemanticChange Value) (xs : List (SemanticChange Value))
        → breaking_changes (insert_by cmp x xs) ≡ breaking_changes (x ∷ xs)
    unfolding breaking_changes
    breaking_changes-insert_by x [] = refl
    breaking_changes-insert_by x (y ∷ ys) = ground (arith, breaking_changes-insert_by x ys)

    pub breaking_changes-sort_by :
        (xs : List (SemanticChange Value)) → breaking_changes (sort_by cmp xs) ≡ breaking_changes xs
    unfolding sort_by
    breaking_changes-sort_by [] = refl
    breaking_changes-sort_by (x ∷ xs) =
        breaking_changes-insert_by x (sort_by cmp xs)
        ∙ same_rest x _ _ (breaking_changes-sort_by xs)

  -- A change is as compatible as it is said to be.
  pub change-compatibility :
      {T : Type 0} (to_value : T → Result String Value) (path : String)
      (object_kind : SemanticObjectKind) (kind : ChangeKind) (compatibility : Compatibility)
      (before after : Option T) (changed : SemanticChange Value)
      → change to_value path object_kind kind compatibility before after ≡ ok changed
      → changed.compatibility ≡ compatibility
  unfolding change
  change-compatibility to_value path object_kind kind compatibility before after changed h =
      let (old, _, h₁) = >>=-ok (transposed to_value before) _ h in
      let (new, _, h₂) = >>=-ok (transposed to_value after) _ h₁ in
      ap (λ c. c.compatibility) (sym (ok-injective h₂))

  -- the changes of a loop break where those of a round do
  pub pushed-breaking :
      {A : Type 0} (f : A → Result DiffError (List (SemanticChange Value))) (P : A → Type 0)
      → ((x : A) (changes : List (SemanticChange Value))
          → f x ≡ ok changes
          → (breaking_changes changes ≡ 0) ↔ P x)
      → (xs : List A) (changes : List (SemanticChange Value)) → pushed f xs ≡ ok changes
      → (breaking_changes changes ≡ 0) ↔ All P xs
  unfolding pushed
  pushed-breaking f P each [] changes h =
      subst (λ cs. (breaking_changes cs ≡ 0) ↔ Unit) (ok-injective h)
        (λ _. tt, λ _. breaking_changes-nil [] refl)
  pushed-breaking f P each (x ∷ xs) changes h =
      let (first, one, h₁) = >>=-ok (f x) _ h in
      let (rest, more, h₂) = >>=-ok (pushed f xs) _ h₁ in
      subst (λ cs. (breaking_changes cs ≡ 0) ↔ (P x × All P xs)) (ok-injective h₂)
        (rw (breaking_changes-append first rest)
          (ground (arith, each x first one, pushed-breaking f P each xs rest more)))

  -- the changes of one element break where its change does
  pub breaking_changes-one :
      (c : SemanticChange Value) → (breaking_changes (c ∷ []) ≡ 0) ↔ (c.compatibility ≡ compatible)
  unfolding breaking_changes
  breaking_changes-one c = ground arith
