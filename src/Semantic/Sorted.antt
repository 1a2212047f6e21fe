-- ===== src/Semantic/Sorted.antt =====
-- What `sort_by` of crates/postgresem-compiler/src/semantic.rs keeps of a list: its elements, and what a
-- search by name finds.
use Prim.Native.Nat.{Ordering}
use mathlib.Core.Path.{subst}
use mathlib.Core.Option.{some_inj}
use postgresem.Prelude.{
  ◌≡◌, ◌↔◌, refl, ◌∙◌, String, Bool, true, false, none, some, List, [], ◌∷◌, All, map, find,
  contains, IsDistinct, str_eq, str_eq_iff, arith, if◌then◌else◌, Bool-cases, inl, inr,
}
use postgresem.Semantic.{sort_by, insert_by}

module _ {A : Type 0} (cmp : A → A → Ordering) where
  module _ (P : A → Type 0) where
    All-insert_by : (x : A) (xs : List A) → All P (insert_by cmp x xs) ↔ (P x × All P xs)
    All-insert_by x [] = ground arith
    All-insert_by x (y ∷ ys) = ground (arith, All-insert_by x ys)

    -- What holds of all the elements holds of all of them sorted, and the other way round.
    pub All-sort_by : (xs : List A) → All P (sort_by cmp xs) ↔ All P xs
    unfolding sort_by
    All-sort_by [] = ground arith
    All-sort_by (x ∷ xs) = ground (arith, All-insert_by x (sort_by cmp xs), All-sort_by xs)

  module _ (p : A → Bool) where
    find-insert_by :
        (x : A) (xs : List A)
        → (p x ≡ true → find p xs ≡ none)
        → find p (insert_by cmp x xs) ≡ (if p x then some x else find p xs)
    find-insert_by x [] h = refl
    find-insert_by x (y ∷ ys) h = ground (arith, find-insert_by x ys)

  module _ (name : A → String) (n : String) where
    find-absent :
        (xs : List A) → contains (map name xs) n ≡ false → find (λ x. str_eq (name x) n) xs ≡ none
    find-absent [] h = refl
    find-absent (x ∷ xs) h = ground (arith, find-absent xs)

    -- A search by name finds in the sorted list what it finds in the list, where the names are distinct.
    pub find-sort_by :
        (xs : List A)
        → IsDistinct (map name xs)
        → find (λ x. str_eq (name x) n) (sort_by cmp xs) ≡ find (λ x. str_eq (name x) n) xs
    unfolding sort_by
    find-sort_by [] h = refl
    find-sort_by (x ∷ xs) (new, distinct) =
        let rest = find-sort_by xs distinct in
        find-insert_by (λ y. str_eq (name y) n) x (sort_by cmp xs)
          (λ e. rest ∙ find-absent xs (ground (arith, str_eq_iff (name x) n)))
        ∙ rw rest refl

module _ {A : Type 0} (P : A → Type 0) (p : A → Bool) where
  -- What a search finds is an element.
  pub find-All : (xs : List A) (x : A) → All P xs → find p xs ≡ some x → P x
  find-All [] x h e = cc
  find-All (y ∷ ys) x (h, hs) e = elim (Bool-cases (p y)) [
    | inl here ↦ subst P (some_inj.0 (rw here at e)) h
    | inr there ↦ find-All ys x hs (rw there at e)
  ]
