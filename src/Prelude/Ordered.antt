-- ===== src/Prelude/Ordered.antt =====
-- `BTreeSet<String>` and `BTreeMap<String, V>`: their elements in ascending order, by the code
-- points of the keys, which is the order of the keys' bytes.
use Prim.Native.Nat.{Ordering}
use Prim.Native.String.{String, compare}
use mathlib.Core.Path.{◌≡◌, refl, subst}
use mathlib.Core.Logic.{◌⊎◌, inl, inr}
use mathlib.Core.Bool.{◌||◌}
use mathlib.Core.Option.{Option, none, some}
use mathlib.Core.List.{List, [], ◌∷◌}
use native.Mathlib.Omega.{arith}
use text.Mathlib.TextEquality.{path_by_compare}
use postgresem.Prelude.Tests.{if◌then◌else◌, str_eq, str_eq_iff}
use postgresem.Prelude.Lists.{contains, All}

unfoldable pub set_insert : String → List String → List String
set_insert k [] = k ∷ []
set_insert k (j ∷ s) = elim (compare k j) [
  | Ordering.lt ↦ k ∷ j ∷ s
  | Ordering.eq ↦ j ∷ s
  | Ordering.gt ↦ j ∷ set_insert k s
]

-- A set holds what is inserted and what it held before, and nothing else.
pub contains-set_insert :
    (k j : String) (s : List String) → contains (set_insert k s) j ≡ (str_eq k j || contains s j)
unfolding set_insert
contains-set_insert k j [] = refl
contains-set_insert k j (i ∷ s) =
    ground (arith, contains-set_insert k j s, str_eq_iff k j, str_eq_iff i j, path_by_compare k i)

module _ {ℓ} {V : Type ℓ} where
  -- `BTreeMap::insert`: the value of a key that is there is replaced
  unfoldable pub map_insert : String → V → List (String × V) → List (String × V)
  map_insert k v [] = (k, v) ∷ []
  map_insert k v ((j, w) ∷ m) = elim (compare k j) [
    | Ordering.lt ↦ (k, v) ∷ (j, w) ∷ m
    | Ordering.eq ↦ (j, v) ∷ m
    | Ordering.gt ↦ (j, w) ∷ map_insert k v m
  ]

  -- `BTreeMap::get`
  unfoldable pub lookup : String → List (String × V) → Option V
  lookup k [] = none
  lookup k ((j, v) ∷ m) = if str_eq j k then some v else lookup k m

  pub lookup-map_insert :
      (k j : String) (v : V) (m : List (String × V))
      → lookup j (map_insert k v m) ≡ (if str_eq k j then some v else lookup j m)
  unfolding map_insert lookup
  lookup-map_insert k j v [] = refl
  lookup-map_insert k j v ((i, w) ∷ m) =
      ground (arith, lookup-map_insert k j v m, str_eq_iff k j, str_eq_iff i j, path_by_compare k i)

pub Ordering-cases : (o : Ordering) → (o ≡ Ordering.lt) ⊎ (o ≡ Ordering.eq) ⊎ (o ≡ Ordering.gt)
Ordering-cases o = ground arith

module _ {ℓ κ} {V : Type ℓ} (P : String × V → Type κ) where
  pub All-map_insert :
      (k : String) (v : V) (m : List (String × V)) → P (k, v) → All P m → All P (map_insert k v m)
  unfolding map_insert
  All-map_insert k v [] p h = (p, tt)
  All-map_insert k v ((j, w) ∷ m) p (q, h) = elim (Ordering-cases (compare k j)) [
    | inl before ↦ rw (before, All) (p, (q, h))
    | inr (inl same) ↦ rw (same, All) (subst (λ i. P (i, v)) (path_by_compare k j same) p, h)
    | inr (inr after) ↦ rw (after, All) (q, All-map_insert k v m p h)
  ]

  -- A new key adds to the elements.
  pub map_insert-All :
      (k : String) (v : V) (m : List (String × V))
      → lookup k m ≡ none
      → All P (map_insert k v m)
      → P (k, v) × All P m
  unfolding map_insert lookup
  map_insert-All k v [] new h = (h.0, tt)
  map_insert-All k v ((j, w) ∷ m) new h = elim (Ordering-cases (compare k j)) [
    | inl before ↦ rw (before, All) at h
    | inr (inl same) ↦ ground (arith, str_eq_iff j k, path_by_compare k j same)
    | inr (inr after) ↦
        let (q, rest) = (rw (after, All) at h) in
        let (p, old) = map_insert-All k v m (ground arith) rest in (p, (q, old))
  ]
