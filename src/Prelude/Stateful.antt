-- ===== src/Prelude/Stateful.antt =====
-- Functions of the source that fail and that change what a `&mut` argument refers to: the state
-- after the call comes back beside the value, and is dropped with an error.
use mathlib.Core.List.{List, [], ◌∷◌}
use mathlib.Core.Logic.{inl, inr}
use mathlib.Core.Path.{◌≡◌, ap, sym}
use postgresem.Prelude.Results.{Result-cases, ok-injective, err-ok, Result, ok, err}

abbrev pub Stateful {ℓ} : Type ℓ → Type ℓ → Type ℓ → Type ℓ
Stateful E S A = S → Result E (A × S)

module _ {ℓ} {E S A : Type ℓ} where
  abbrev pub pure : A → Stateful E S A
  pure a s = ok (a, s)

  abbrev pub lift : Result E A → Stateful E S A
  lift (ok a) s = ok (a, s)
  lift (err e) s = err e

abbrev pub modify {ℓ} : {E S : Type ℓ} → (S → S) → S → Result E (Unit {ℓ} × S)
modify f s = ok (tt, f s)

module _ {ℓ} {E S A B : Type ℓ} where
  abbrev continue : Result E (A × S) → (A → Stateful E S B) → Result E (B × S)
  continue (ok (a, s)) f = f a s
  continue (err e) f = err e

  infixl 5 ◌>>=◌ ◌>>◌
  abbrev pub ◌>>=◌ : Stateful E S A → (A → Stateful E S B) → Stateful E S B
  ◌>>=◌ m f s = continue (m s) f

  abbrev pub ◌>>◌ : Stateful E S A → Stateful E S B → Stateful E S B
  m >> n = m >>= λ _. n

  -- `iter().map(f).collect::<Result<Vec<_>, _>>()`
  unfoldable pub traverse : (A → Stateful E S B) → List A → Stateful E S (List B)
  traverse f [] s = ok ([], s)
  traverse f (x ∷ xs) s = elim (f x s) [
    | err e ↦ err e
    | ok (y, s') ↦ elim (traverse f xs s') [ err e ↦ err e | ok (ys, s'') ↦ ok (y ∷ ys, s'') ]
  ]

module _ {ℓ} {E S A B : Type ℓ} where
  -- A function that succeeds went past its first step.
  pub steps :
      (m : Stateful E S A) (f : A → Stateful E S B) (s t : S) (b : B)
      → (m >>= f) s ≡ ok (b, t)
      → (a : A) × (u : S) × (m s ≡ ok (a, u)) × (f a u ≡ ok (b, t))
  steps m f s t b h = elim (Result-cases (m s)) [
    | inr (e, failed) ↦ absurd (err-ok (rw failed at h))
    | inl ((a, u), done) ↦ (a, u, done, rw done at h)
  ]

module _ {ℓ} {E S A : Type ℓ} where
  pub lifted :
      (r : Result E A) (s t : S) (a : A)
      → ◌≡◌ {A = Result E (A × S)} (lift r s) (ok (a, t))
      → r ≡ ok a
  lifted (ok x) s t a h = ap (λ (p : A × S). ok p.0) (ok-injective h)
  lifted (err e) s t a h = absurd (err-ok h)

  pub lifted_state :
      (r : Result E A) (s t : S) (a : A) → ◌≡◌ {A = Result E (A × S)} (lift r s) (ok (a, t)) → t ≡ s
  lifted_state (ok x) s t a h = sym (ap (λ (p : A × S). p.1) (ok-injective h))
  lifted_state (err e) s t a h = absurd (err-ok h)
