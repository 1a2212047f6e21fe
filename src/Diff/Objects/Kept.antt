-- ===== src/Diff/Objects/Kept.antt =====
-- When the changes of a collection of crates/postgresem-compiler/src/diff.rs break nothing.
use mathlib.Core.Path.{subst}
use postgresem.Prelude.{
  ◌+◌, ◌≡◌, ◌↔◌, refl, sym, ap, ◌∙◌, String, false, Option, none, some, List, [], ◌∷◌, All, All-map,
  All-each, find, is_some, holds, holds_iff, arith, Bool-cases, Option-cases, inl, inr, ◌⊎◌,
}
use postgresem.Prelude.Results.{Result, ok, err, ◌>>=◌, >>=-ok, ok-injective, err-ok}
use postgresem.Prelude.Ordered.{lookup}
use postgresem.Diff.{
  Compatibility, compatible, added, removed, modified, SemanticChange, DiffError, breaking_changes,
  change,
}
use postgresem.Diff.Breaking.{
  breaking_changes-nil, breaking_changes-append, breaking_changes-one, change-compatibility,
  pushed-breaking,
}
use postgresem.Diff.Objects.{
  Named, named_objects, Collection, path_of, removed_compatibility, diff_object, added_object,
  pushed, diff_named, diff_objects,
}
use postgresem.Diff.Objects.Laws.{has_name, named_objects-find, named_objects-All}

module _ {T Value : Type 0} (c : Collection T Value) where
  -- What becomes of an object does not break: a hidden one is gone, it is the same, or it is changed in
  -- a compatible way.
  abbrev pub IsKept : T → Option T → Type 0
  IsKept old none = c.visible old ≡ false
  IsKept old (some new) = (old ≡ new) ⊎ (c.modified_compatibility old new ≡ compatible)

  -- a round that returns one change, or an error
  pub one_change-breaking :
      (r : Result DiffError (SemanticChange Value)) (k : Compatibility)
      → ((changed : SemanticChange Value) → r ≡ ok changed → changed.compatibility ≡ k)
      → (changes : List (SemanticChange Value)) → (r >>= λ changed. ok (changed ∷ [])) ≡ ok changes
      → (breaking_changes changes ≡ 0) ↔ (k ≡ compatible)
  one_change-breaking (err e) k said changes h = absurd (err-ok h)
  one_change-breaking (ok changed) k said changes h =
      subst (λ cs. (breaking_changes cs ≡ 0) ↔ (k ≡ compatible)) (ok-injective h)
        (subst (λ j. (breaking_changes (changed ∷ []) ≡ 0) ↔ (j ≡ compatible)) (said changed refl)
          (breaking_changes-one changed))

  removed_compatibility_iff :
      (old : T) → (removed_compatibility c old ≡ compatible) ↔ (c.visible old ≡ false)
  removed_compatibility_iff old = ground arith

  diff_object-breaking :
      (path : String) (after : Named T) (name : String) (old : T)
      (changes : List (SemanticChange Value))
      → diff_object c path after (name, old) ≡ ok changes
      → (breaking_changes changes ≡ 0) ↔ IsKept old (lookup name after)
  unfolding diff_object
  diff_object-breaking path after name old changes h = elim (Option-cases (lookup name after)) [
    | inl gone ↦
        let both =
          one_change-breaking
            (change c.to_value (path_of c path name) c.kind removed (removed_compatibility c old)
              (some old) none)
            (removed_compatibility c old) (change-compatibility c.to_value _ _ _ _ _ _) changes
            (rw (gone, diff_object) at h) in
        rw gone (ground (arith, both, removed_compatibility_iff old))
    | inr (new, found) ↦ elim (Bool-cases (holds (c.same old new))) [
      | inl same ↦ rw found (
        λ _. inl ((holds_iff (c.same old new)).0 same),
        λ _. breaking_changes-nil changes (sym (ok-injective (rw (found, diff_object, same) at h))),
      )
      | inr other ↦
          let both =
            one_change-breaking
              (change c.to_value (path_of c path name) c.kind modified
                (c.modified_compatibility old new) (some old) (some new))
              (c.modified_compatibility old new) (change-compatibility c.to_value _ _ _ _ _ _)
              changes (rw (found, diff_object, other) at h) in
          rw found (ground (arith, both, holds_iff (c.same old new)))
    ]
  ]

  added_object-breaking :
      (path : String) (before : Named T) (name : String) (new : T)
      (changes : List (SemanticChange Value))
      → added_object c path before (name, new) ≡ ok changes
      → breaking_changes changes ≡ 0
  unfolding added_object
  added_object-breaking path before name new changes h =
      elim (Bool-cases (is_some (lookup name before))) [
        | inl old ↦ breaking_changes-nil changes (sym (ok-injective (rw old at h)))
        | inr absent ↦
            (one_change-breaking
                (change c.to_value (path_of c path name) c.kind added compatible none (some new))
                compatible (change-compatibility c.to_value _ _ _ _ _ _) changes (rw absent at h)).1
              refl
      ]

  all_added :
      (path : String) (before after : Named T) (changes : List (SemanticChange Value))
      → pushed (added_object c path before) after ≡ ok changes
      → breaking_changes changes ≡ 0
  all_added path before after changes h =
      (pushed-breaking (added_object c path before) (λ _. Unit)
          (λ (name, new) cs e. (λ _. tt, λ _. added_object-breaking path before name new cs e))
          after changes h).1
        (All-each (λ _. tt) after)

  diff_named-breaking :
      (path : String) (before after : Named T) (changes : List (SemanticChange Value))
      → diff_named c path before after ≡ ok changes
      → (breaking_changes changes ≡ 0) ↔ All (λ (name, old). IsKept old (lookup name after)) before
  unfolding diff_named
  diff_named-breaking path before after changes h =
      let (cs, one, h₁) = >>=-ok (pushed (diff_object c path after) before) _ h in
      let (additions, two, h₂) = >>=-ok (pushed (added_object c path before) after) _ h₁ in
      let both =
        pushed-breaking (diff_object c path after) (λ (name, old). IsKept old (lookup name after))
          (λ (name, old) some_changes e. diff_object-breaking path after name old some_changes e)
          before cs one in
      let total : breaking_changes changes ≡ breaking_changes cs + breaking_changes additions =
        sym (ap breaking_changes (ok-injective h₂)) ∙ breaking_changes-append cs additions in
      ground (arith, both, total, all_added path before after additions two)

  -- Every object of the one list is kept in the other, under its name.
  abbrev pub AreKept : (T → String) → List T → List T → Type 0
  AreKept name before after = All (λ old. IsKept old (find (has_name name (name old)) after)) before

  -- The changes of a collection break nothing if and only if each of its objects is kept.
  pub diff_objects-breaking :
      (kind : String) (name : T → String) (path : String) (before after : List T)
      (changes : List (SemanticChange Value))
      → diff_objects c kind name path before after ≡ ok changes
      → (breaking_changes changes ≡ 0) ↔ AreKept name before after
  unfolding diff_objects
  diff_objects-breaking kind name path before after changes h =
      let (old, one, h₁) = >>=-ok (named_objects kind name before) _ h in
      let (new, two, h₂) = >>=-ok (named_objects kind name after) _ h₁ in
      let both = diff_named-breaking path old new changes h₂ in
      let entries =
        named_objects-All name (λ (n, o). IsKept o (lookup n new)) kind before old one in
      let found = named_objects-find name kind after new two in
      (
        λ quiet. All-map (λ o. subst (IsKept o) (found (name o))) before (entries.0 (both.0 quiet)),
        λ kept.
            both.1 (entries.1 (All-map (λ o. subst (IsKept o) (sym (found (name o)))) before kept)),
      )
