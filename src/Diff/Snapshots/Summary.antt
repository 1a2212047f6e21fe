-- ===== src/Diff/Snapshots/Summary.antt =====
-- What the summary that `diff_snapshots` of crates/postgresem-compiler/src/diff.rs gives counts.
use Prim.Native.Nat.{Ordering, compare as compare_ℕ}
use Prim.Native.String.{compare}
use text.Mathlib.TextEquality.{path_by_compare}
use mathlib.Core.Path.{subst}
use postgresem.Prelude.Comparisons.{reverse, compare_ℕ-reverse, compare-reverse}
use postgresem.Semantic.Ordered.{then_with-reverse, IsOrdered, sort_by-IsOrdered}
use postgresem.Prelude.{
  Bool, false, sym, ◌≢◌, ◌⊎◌, ℕ, ◌+◌, ◌≡◌, ◌↔◌, refl, String, true, List, [], ◌∷◌, All, arith,
  length,
}
use postgresem.Prelude.Results.{ok, >>=-ok, ok-injective}
use postgresem.Semantic.{SemanticSnapshot, normalized, sort_by}
use postgresem.Diff.{
  Compatibility, compatible, breaking, SemanticChange, SemanticDiff, breaking_changes,
  has_breaking_changes, compare_changes, ChangeKind, added, removed, modified, change_rank,
}
use postgresem.Diff.Snapshots.{
  DiffCodec, named_models, validate_version, diff_models, summarized, diff_snapshots,
}

-- one for a change that is as compatible as is asked for
abbrev pub one_if : Compatibility → Compatibility → ℕ
one_if compatible compatible = 1
one_if breaking breaking = 1
one_if _ _ = 0

-- how many of the changes are compatible, or break
abbrev pub number_of : {Value : Type 0} → Compatibility → List (SemanticChange Value) → ℕ
number_of k [] = 0
number_of k (c ∷ changes) = one_if k c.compatibility + number_of k changes

-- Removals come first, then modifications, then additions.
abbrev pub comes_first : ChangeKind → ChangeKind → Bool
comes_first removed _ = true
comes_first modified removed = false
comes_first modified _ = true
comes_first added added = true
comes_first added _ = false

-- a smaller path, or the same path and no later kind
abbrev pub Precedes : {Value : Type 0} → SemanticChange Value → SemanticChange Value → Type 0
Precedes c d =
    (compare c.path d.path ≡ Ordering.lt)
    ⊎ ((c.path ≡ d.path) × (comes_first c.change d.change ≡ true))

-- Each change precedes the next one.
abbrev pub AreInOrder : {Value : Type 0} → List (SemanticChange Value) → Type 0
AreInOrder [] = Unit
AreInOrder (c ∷ []) = Unit
AreInOrder (c ∷ d ∷ changes) = Precedes c d × AreInOrder (d ∷ changes)

-- A diff that lists its changes in order, counts them and answers for all of them.
pub record IsSummarized {Value : Type 0} (diff : SemanticDiff Value) : Type 0 where
  pub total : diff.summary.total ≡ length diff.changes
  pub breaking_count : diff.summary.breaking ≡ number_of breaking diff.changes
  pub compatible_count : diff.summary.compatible ≡ number_of compatible diff.changes
  pub verdict :
      (diff.compatibility ≡ compatible) ↔ All (λ c. c.compatibility ≡ compatible) diff.changes
  pub breaks : (has_breaking_changes diff ≡ true) ↔ (diff.compatibility ≡ breaking)
  pub in_order : AreInOrder diff.changes

module _ {Value : Type 0} where
  compare_changes-reverse :
      (c d : SemanticChange Value) → compare_changes d c ≡ reverse (compare_changes c d)
  unfolding compare_changes
  compare_changes-reverse c d =
      rw
        (
          compare-reverse c.path d.path,
          compare_ℕ-reverse (change_rank c.change) (change_rank d.change),
        )
        (sym (
          then_with-reverse (compare c.path d.path)
            (compare_ℕ (change_rank c.change) (change_rank d.change))))

  compare_changes-Precedes :
      (c d : SemanticChange Value) → compare_changes c d ≢ Ordering.gt → Precedes c d
  unfolding compare_changes change_rank
  compare_changes-Precedes c d h = ground (arith, path_by_compare c.path d.path)

  IsOrdered-AreInOrder :
      (changes : List (SemanticChange Value))
      → IsOrdered compare_changes changes
      → AreInOrder changes
  IsOrdered-AreInOrder [] h = tt
  IsOrdered-AreInOrder (c ∷ []) h = tt
  IsOrdered-AreInOrder (c ∷ d ∷ changes) (first, rest) =
      (compare_changes-Precedes c d first, IsOrdered-AreInOrder (d ∷ changes) rest)

  breaking_changes-number_of :
      (changes : List (SemanticChange Value))
      → (breaking_changes changes ≡ number_of breaking changes)
        × (number_of compatible changes + number_of breaking changes ≡ length changes)
  unfolding breaking_changes
  breaking_changes-number_of [] = (refl, omega arith)
  breaking_changes-number_of (c ∷ changes) = ground (arith, breaking_changes-number_of changes)

  none_breaking :
      (changes : List (SemanticChange Value))
      → (number_of breaking changes ≡ 0) ↔ All (λ c. c.compatibility ≡ compatible) changes
  none_breaking [] = ground arith
  none_breaking (c ∷ changes) = ground (arith, none_breaking changes)

  summarized-IsSummarized :
      (from to : String) (changes : List (SemanticChange Value))
      → AreInOrder changes
      → IsSummarized (summarized from to changes)
  unfolding summarized
  summarized-IsSummarized from to changes sorted =
      let (counted, all) = breaking_changes-number_of changes in
      record {
        total = refl;
        breaking_count = counted;
        compatible_count = omega (arith, counted, all);
        verdict = ground (arith, counted, none_breaking changes);
        breaks = ground arith;
        in_order = sorted;
      }

-- A diff has the number of its changes, of those that break and of those that are compatible in its
-- summary; it is compatible if and only if each of its changes is, and otherwise it is said to
-- break. The changes are in the order of their paths, and under one path removals come before
-- modifications and these before additions.
pub diff_snapshots-summary :
    {Value : Type 0} (codec : DiffCodec Value) (before after : SemanticSnapshot)
    (diff : SemanticDiff Value)
    → diff_snapshots codec before after ≡ ok diff
    → IsSummarized diff
unfolding diff_snapshots
diff_snapshots-summary codec before after diff h =
    let (_, _, h₁) = >>=-ok (validate_version before) _ h in
    let (_, _, h₂) = >>=-ok (validate_version after) _ h₁ in
    let (old, _, h₃) = >>=-ok (named_models (normalized before).models) _ h₂ in
    let (new, _, h₄) = >>=-ok (named_models (normalized after).models) _ h₃ in
    let (changes, _, h₅) = >>=-ok (diff_models codec old new) _ h₄ in
    subst IsSummarized (ok-injective h₅) (
      summarized-IsSummarized (normalized before).revision_hash (normalized after).revision_hash
        (sort_by compare_changes changes)
        (IsOrdered-AreInOrder _
          (sort_by-IsOrdered compare_changes compare_changes-reverse changes)))
