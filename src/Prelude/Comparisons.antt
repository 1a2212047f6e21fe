-- ===== src/Prelude/Comparisons.antt =====
-- `Ord::cmp` of strings and numbers, with its arguments the other way round.
use Prim.Native.Nat.{ℕ, Ordering, compare as compare_ℕ}
use Prim.Native.String.compare
use Prim.Native.String.{[], ◌∷◌, compare, then}
use Prim.Native.Char.{code}
use Prim.Native.String.{String}
use mathlib.Core.Path.{◌≡◌, sym, ap, ◌∙◌}
use native.Mathlib.Omega.{arith}

abbrev pub reverse : Ordering → Ordering
reverse Ordering.lt = Ordering.gt
reverse Ordering.eq = Ordering.eq
reverse Ordering.gt = Ordering.lt

pub compare_ℕ-reverse : (m n : ℕ) → compare_ℕ n m ≡ reverse (compare_ℕ m n)
compare_ℕ-reverse m n = ground arith

reverse-then : (o p : Ordering) → reverse (then o p) ≡ then (reverse o) (reverse p)
reverse-then o p = ground arith

pub compare-reverse : (s t : String) → compare t s ≡ reverse (compare s t)
compare-reverse [] [] = compare.nil-nil ∙ sym (ap reverse compare.nil-nil)
compare-reverse [] (d ∷ t) = compare.cons-nil d t ∙ sym (ap reverse (compare.nil-cons d t))
compare-reverse (c ∷ s) [] = compare.nil-cons c s ∙ sym (ap reverse (compare.cons-nil c s))
compare-reverse (c ∷ s) (d ∷ t) =
    compare.cons-cons d c t s
    ∙ ap (λ o. then o (compare t s)) (compare_ℕ-reverse (code c) (code d))
    ∙ ap (then (reverse (compare_ℕ (code c) (code d)))) (compare-reverse s t)
    ∙ sym (reverse-then (compare_ℕ (code c) (code d)) (compare s t))
    ∙ sym (ap reverse (compare.cons-cons c d s t))
