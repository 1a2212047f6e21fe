-- ===== src/Semantic/Ordered.antt =====
-- The order of what `sort_by` of crates/postgresem-compiler/src/semantic.rs and diff.rs returns.
use Prim.Native.Nat.{Ordering}
use postgresem.Prelude.{◌≡◌, ◌≢◌, List, [], ◌∷◌, arith, inl, inr}
use postgresem.Prelude.Ordered.{Ordering-cases}
use postgresem.Prelude.Comparisons.{reverse}
use postgresem.Semantic.{then_with, insert_by, sort_by}

pub then_with-reverse :
    (o p : Ordering) → reverse (then_with o p) ≡ then_with (reverse o) (reverse p)
then_with-reverse o p = ground arith

module _ {A : Type 0} (cmp : A → A → Ordering) where
  -- The element does not come after the first of the list.
  abbrev pub IsFirst : A → List A → Type 0
  IsFirst x [] = Unit
  IsFirst x (y ∷ ys) = cmp x y ≢ Ordering.gt

  -- No element of the list comes after the next one.
  abbrev pub IsOrdered : List A → Type 0
  IsOrdered [] = Unit
  IsOrdered (x ∷ xs) = IsFirst x xs × IsOrdered xs

  module _ (total : (x y : A) → cmp y x ≡ reverse (cmp x y)) where
    before_inserted :
        (y x : A) (ys : List A)
        → cmp x y ≡ Ordering.gt
        → IsFirst y ys
        → IsFirst y (insert_by cmp x ys)
    before_inserted y x [] h k = λ e. ground (arith, total x y)
    before_inserted y x (z ∷ ys) h k = elim (Ordering-cases (cmp x z)) [
      | inl lt ↦ rw (lt, IsFirst) (λ e. ground (arith, total x y))
      | inr (inl eq) ↦ rw (eq, IsFirst) (λ e. ground (arith, total x y))
      | inr (inr gt) ↦ rw (gt, IsFirst) k
    ]

    insert_by-IsOrdered : (x : A) (xs : List A) → IsOrdered xs → IsOrdered (insert_by cmp x xs)
    insert_by-IsOrdered x [] h = (tt, tt)
    insert_by-IsOrdered x (y ∷ ys) (first, rest) = elim (Ordering-cases (cmp x y)) [
      | inl lt ↦ rw (lt, IsOrdered) ((λ e. cc), (first, rest))
      | inr (inl eq) ↦ rw (eq, IsOrdered) ((λ e. cc), (first, rest))
      | inr (inr gt) ↦
          rw (gt, IsOrdered) (before_inserted y x ys gt first, insert_by-IsOrdered x ys rest)
    ]

    -- A sorted list is in order.
    pub sort_by-IsOrdered : (xs : List A) → IsOrdered (sort_by cmp xs)
    unfolding sort_by
    sort_by-IsOrdered [] = tt
    sort_by-IsOrdered (x ∷ xs) = insert_by-IsOrdered x (sort_by cmp xs) (sort_by-IsOrdered xs)
