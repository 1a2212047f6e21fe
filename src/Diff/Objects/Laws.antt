-- ===== src/Diff/Objects/Laws.antt =====
-- What crates/postgresem-compiler/src/diff.rs finds between the objects of two models.
use mathlib.Core.Path.{subst}
use postgresem.Prelude.{
  ◌≡◌, ◌↔◌, refl, sym, ap, ◌∙◌, String, Bool, false, Option, none, some, List, [], ◌∷◌, All, map,
  find, contains, IsDistinct, str_eq, str_eq_iff, str_eq_refl, is_some, if◌then◌else◌, arith,
  Bool-cases, inl, inr,
}
use postgresem.Prelude.Results.{ok, ok-injective, err-ok}
use postgresem.Prelude.Ordered.{
  map_insert, lookup, lookup-map_insert, All-map_insert, map_insert-All,
}
use postgresem.Diff.Objects.{Named, named_from, named_objects}

module _ {T : Type 0} (name : T → String) where
  abbrev pub has_name : String → T → Bool
  has_name n object = str_eq (name object) n

  else-none : (found : Option T) → found ≡ (if is_some found then found else none)
  else-none none = refl
  else-none (some object) = refl

  -- Where `named_objects` succeeds, it finds each object under its name, and the objects that it finds
  -- are the ones that a search of the list finds.
  named_from-lookup :
      (kind : String) (objects : List T) (named result : Named T)
      → named_from kind name objects named ≡ ok result
      → (n : String)
      → lookup n result
        ≡ (if is_some (lookup n named) then lookup n named else find (has_name n) objects)
  unfolding named_from
  named_from-lookup kind [] named result h n =
      ap (lookup n) (sym (ok-injective h)) ∙ else-none (lookup n named)
  named_from-lookup kind (object ∷ objects) named result h n =
      elim (Bool-cases (is_some (lookup (name object) named))) [
        | inl old ↦ absurd (err-ok (rw old at h))
        | inr new ↦
            let rest =
              named_from-lookup kind objects (map_insert (name object) object named) result
                (rw new at h) n in
            rest
            ∙ rw (lookup-map_insert (name object) n object named)
                (ground (arith, str_eq_iff (name object) n))
      ]

  -- none of the objects is there
  abbrev AreNew : Named T → List T → Type 0
  AreNew named = All (λ object. is_some (lookup (name object) named) ≡ false)

  AreNew-map_insert :
      (object : T) (named : Named T) (objects : List T)
      → AreNew (map_insert (name object) object named) objects
        ↔ ((contains (map name objects) (name object) ≡ false) × AreNew named objects)
  AreNew-map_insert object named [] = ground arith
  AreNew-map_insert object named (other ∷ objects) = ground (
    arith,
    lookup-map_insert (name object) (name other) object named,
    str_eq_iff (name object) (name other),
    str_eq_iff (name other) (name object),
    AreNew-map_insert object named objects,
  )

  named_from-IsDistinct :
      (kind : String) (objects : List T) (named result : Named T)
      → named_from kind name objects named ≡ ok result
      → IsDistinct (map name objects) × AreNew named objects
  unfolding named_from
  named_from-IsDistinct kind [] named result h = (tt, tt)
  named_from-IsDistinct kind (object ∷ objects) named result h =
      elim (Bool-cases (is_some (lookup (name object) named))) [
        | inl old ↦ absurd (err-ok (rw old at h))
        | inr new ↦
            let (distinct, fresh) =
              named_from-IsDistinct kind objects (map_insert (name object) object named) result
                (rw new at h) in
            let (other, more) = (AreNew-map_insert object named objects).0 fresh in
            ((other, distinct), (new, more))
      ]

  named_from-total :
      (kind : String) (objects : List T) (named : Named T)
      → IsDistinct (map name objects)
      → AreNew named objects
      → (result : Named T) × (named_from kind name objects named ≡ ok result)
  unfolding named_from
  named_from-total kind [] named distinct fresh = (named, refl)
  named_from-total kind (object ∷ objects) named (other, distinct) (new, more) =
      let (result, h) =
        named_from-total kind objects (map_insert (name object) object named) distinct
          ((AreNew-map_insert object named objects).1 (other, more)) in
      (result, rw new h)

  -- A property of the entries is one of the objects under their names.
  named_from-All :
      (P : String × T → Type 0) (kind : String) (objects : List T) (named result : Named T)
      → named_from kind name objects named ≡ ok result
      → All P result ↔ (All (λ object. P (name object, object)) objects × All P named)
  unfolding named_from
  named_from-All P kind [] named result h =
      subst (λ r. All P r ↔ (Unit × All P named)) (ok-injective h)
        (λ all. (tt, all), λ both. both.1)
  named_from-All P kind (object ∷ objects) named result h =
      elim (Bool-cases (is_some (lookup (name object) named))) [
        | inl old ↦ absurd (err-ok (rw old at h))
        | inr new ↦
            let rest =
              named_from-All P kind objects (map_insert (name object) object named) result
                (rw new at h) in
            (
              λ all.
                  let (more, inserted) = rest.0 all in
                  let (p, old) =
                    map_insert-All P (name object) object named (ground arith) inserted in
                  ((p, more), old),
              λ ((p, more), old). rest.1 (more, All-map_insert P (name object) object named p old),
            )
      ]

  pub named_objects-find :
      (kind : String) (objects : List T) (named : Named T)
      → named_objects kind name objects ≡ ok named
      → (n : String) → lookup n named ≡ find (has_name n) objects
  unfolding named_objects lookup
  named_objects-find kind objects named h n = named_from-lookup kind objects [] named h n

  pub named_objects-All :
      (P : String × T → Type 0) (kind : String) (objects : List T) (named : Named T)
      → named_objects kind name objects ≡ ok named
      → All P named ↔ All (λ object. P (name object, object)) objects
  unfolding named_objects
  named_objects-All P kind objects named h =
      let both = named_from-All P kind objects [] named h in
      (λ all. (both.0 all).0, λ all. both.1 (all, tt))

  -- `named_objects` takes the lists in which no name stands twice.
  pub named_objects_iff :
      (kind : String) (objects : List T)
      → ((named : Named T) × (named_objects kind name objects ≡ ok named))
        ↔ IsDistinct (map name objects)
  unfolding named_objects lookup
  named_objects_iff kind objects = (
    λ (named, h). (named_from-IsDistinct kind objects [] named h).0,
    λ distinct. named_from-total kind objects [] distinct (none_is_there objects),
  )
    where
      none_is_there : (objects : List T) → AreNew [] objects
      none_is_there [] = tt
      none_is_there (object ∷ objects) = (refl, none_is_there objects)

  -- A search for the name of an object finds it.
  pub find_self :
      (objects : List T)
      → IsDistinct (map name objects)
      → All (λ object. find (has_name (name object)) objects ≡ some object) objects
  find_self [] distinct = tt
  find_self (object ∷ objects) (other, distinct) =
      (rw (str_eq_refl (name object)) refl, later objects other (find_self objects distinct))
    where
      later :
          (some_objects : List T)
          → contains (map name some_objects) (name object) ≡ false
          → All (λ o. find (has_name (name o)) objects ≡ some o) some_objects
          → All (λ o. find (has_name (name o)) (object ∷ objects) ≡ some o) some_objects
      later [] other h = tt
      later (o ∷ more) other (found, h) = (
        ground (arith, str_eq_iff (name object) (name o), str_eq_iff (name o) (name object)),
        later more (ground arith) h,
      )
