-- ===== src/Mutation/Panics.antt =====
-- Where crates/postgresem-compiler/src/mutation.rs indexes a map, and when that does not panic.
use mathlib.Core.Path.{subst}
use postgresem.Prelude.{
  ◌≡◌, ◌≢◌, refl, sym, ap, ◌∙◌, String, true, some, List, [], ◌∷◌, All, contains, str_eq,
  str_eq_iff, Option-cases, Bool-cases, inl, inr, arith,
}
use postgresem.Prelude.Results.{
  Result, ok, err, ◌>>=◌, ok-injective, err-ok, err-injective, map_results, Result-cases,
}
use postgresem.Prelude.Ordered.{lookup}
use postgresem.Prelude.Stateful.{Stateful, lift, traverse}
use postgresem.Prelude.Stateful
use postgresem.Mutation.{MutationCompileError, Failure, panic, index, checked}

pub index-lookup :
    {V : Type 0} (m : List (String × V)) (key : String) (v : V)
    → index m key ≡ ok v
    → lookup key m ≡ some v
index-lookup m key v h = elim (Option-cases (lookup key m)) [
  | inl missing ↦ absurd (err-ok (rw (missing, index) at h))
  | inr (w, found) ↦ found ∙ ap some (ok-injective (rw (found, index) at h))
]

-- The key is there.
abbrev pub IsKnown : {V : Type 0} → List (String × V) → String → Type 0
IsKnown {V} m key = (v : V) × (lookup key m ≡ some v)

abbrev pub NoPanic : {A : Type 0} → Result Failure A → Type 0
NoPanic r = r ≢ err panic

pub ok-NoPanic : {A : Type 0} (a : A) → NoPanic (ok a)
ok-NoPanic a h = cc

pub checked-NoPanic : {A : Type 0} (r : Result MutationCompileError A) → NoPanic (checked r)
checked-NoPanic (ok a) h = cc
checked-NoPanic (err e) h = cc

pub >>=-NoPanic :
    {A B : Type 0} (m : Result Failure A) (f : A → Result Failure B)
    → NoPanic m
    → ((a : A) → m ≡ ok a → NoPanic (f a))
    → NoPanic (m >>= f)
>>=-NoPanic (ok a) f first rest = rest a refl
>>=-NoPanic (err e) f first rest = λ h. first (ground arith)

pub index-NoPanic :
    {V : Type 0} (m : List (String × V)) (key : String) → IsKnown m key → NoPanic (index m key)
index-NoPanic m key (v, found) h = ground arith

pub map_results-NoPanic :
    {A B : Type 0} (f : A → Result Failure B) (xs : List A)
    → All (λ x. NoPanic (f x)) xs
    → NoPanic (map_results f xs)
unfolding map_results
map_results-NoPanic f [] h = ok-NoPanic []
map_results-NoPanic f (x ∷ xs) (first, more) =
    >>=-NoPanic _ _ first
      (λ y e. >>=-NoPanic _ _ (map_results-NoPanic f xs more) (λ ys e'. ok-NoPanic _))

pub traverse-NoPanic :
    {A B S : Type 0} (f : A → Stateful Failure S B) (xs : List A)
    → All (λ x. (s : S) → NoPanic (f x s)) xs
    → (s : S) → NoPanic (traverse f xs s)
unfolding traverse
traverse-NoPanic f [] h s = ok-NoPanic _
traverse-NoPanic f (x ∷ xs) (first, more) s = elim (Result-cases (f x s)) [
  | inr (e, failed) ↦ λ h. first s (failed ∙ ap err (err-injective (rw (failed, traverse) at h)))
  | inl ((y, t), done) ↦ elim (Result-cases (traverse f xs t)) [
    | inr (e, failed) ↦ λ h.
        traverse-NoPanic f xs more t
          (failed ∙ ap err (err-injective (rw (done, failed, traverse) at h)))
    | inl (ys, rest) ↦ λ h. err-ok (sym (rw (done, rest, traverse) at h))
  ]
]

pub All-contains :
    (P : String → Type 0) (names : List String) (name : String)
    → All P names
    → contains names name ≡ true
    → P name
All-contains P [] name h e = cc
All-contains P (x ∷ xs) name (p, h) e = elim (Bool-cases (str_eq x name)) [
  | inl same ↦ subst P ((str_eq_iff x name).0 same) p
  | inr other ↦ All-contains P xs name h (ground arith)
]

pub lift-NoPanic : {A S : Type 0} (r : Result Failure A) → NoPanic r → (s : S) → NoPanic (lift r s)
lift-NoPanic (ok a) h s = λ e. err-ok (sym e)
lift-NoPanic (err x) h s = λ e. h (ap err (err-injective e))

pub steps-NoPanic :
    {A B S : Type 0} (m : Stateful Failure S A) (f : A → Stateful Failure S B)
    → ((s : S) → NoPanic (m s))
    → ((a : A) (t : S) → NoPanic (f a t))
    → (s : S) → NoPanic (Stateful.◌>>=◌ m f s)
steps-NoPanic m f first rest s = elim (Result-cases (m s)) [
  | inr (e, failed) ↦ λ h. first s (failed ∙ ap err (err-injective (rw failed at h)))
  | inl ((a, t), done) ↦ λ h. rest a t (rw done at h)
]

pub pure-NoPanic : {A S : Type 0} (a : A) (s : S) → NoPanic (Stateful.pure {E = Failure} a s)
pure-NoPanic a s e = err-ok (sym e)
