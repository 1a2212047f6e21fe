-- ===== src/Prelude/Results.antt =====
-- `Result<T, E>` of the source, with `?` as bind.
use mathlib.Core.Path.{◌≡◌, refl}
use mathlib.Core.Logic.{◌⊎◌, inl, inr}
use mathlib.Core.Bool.{Bool, true, false}
use mathlib.Core.Option.{Option, none, some}
use mathlib.Core.List.{List, [], ◌∷◌}

pub data Result {ℓ κ} (E : Type ℓ) (A : Type κ) : Type (ℓ ⊔ κ) where
  ok : A → Result E A
  err : E → Result E A

module _ {ℓ κ ι} {E : Type ℓ} {A : Type κ} {B : Type ι} where
  infixl 5 ◌>>=◌
  -- `let a = result?;` before the rest of the function
  abbrev pub ◌>>=◌ : Result E A → (A → Result E B) → Result E B
  err failure >>= rest = err failure
  ok value >>= rest = rest value

-- `result?;`
infixl 5 ◌>>◌
abbrev pub ◌>>◌ {ℓ ι} : {E : Type ℓ} {B : Type ι} → Result E (Unit {0}) → Result E B → Result E B
checked >> rest = checked >>= λ done. rest

module _ {ℓ} {E : Type ℓ} where
  -- `if bad { return Err(e) }`
  abbrev pub reject_if : Bool → E → Result E (Unit {0})
  reject_if true e = err e
  reject_if false e = ok tt

  -- `Option::ok_or`
  abbrev pub ok_or {κ} : {A : Type κ} → Option A → E → Result E A
  ok_or none e = err e
  ok_or (some a) e = ok a

  -- `Result::map_err` with a function that ignores the error
  abbrev pub or_error {κ ι} : {D : Type ι} {A : Type κ} → Result D A → E → Result E A
  or_error (ok a) e = ok a
  or_error (err _) e = err e

module _ {ℓ κ ι} {E : Type ℓ} {A : Type κ} {B : Type ι} where
  -- A function that succeeds went past its first `?`.
  pub >>=-ok :
      (result : Result E A) (rest : A → Result E B) {returned : B}
      → (result >>= rest) ≡ ok returned
      → (value : A) × (result ≡ ok value) × (rest value ≡ ok returned)
  >>=-ok (err failure) rest h = cc
  >>=-ok (ok value) rest h = (value, refl, h)

module _ {ℓ κ} {E : Type ℓ} {A : Type κ} where
  pub Result-cases : (r : Result E A) → ((a : A) × (r ≡ ok a)) ⊎ ((e : E) × (r ≡ err e))
  Result-cases (ok a) = inl (a, refl)
  Result-cases (err e) = inr (e, refl)

  pub ok-injective : {a b : A} → ◌≡◌ {A = Result E A} (ok a) (ok b) → a ≡ b
  ok-injective h = cc

  pub err-injective : {a b : E} → ◌≡◌ {A = Result E A} (err a) (err b) → a ≡ b
  err-injective h = cc

  pub err-ok : {e : E} {a : A} → ◌≡◌ {A = Result E A} (err e) (ok a) → ⊥
  err-ok h = cc

module _ {ℓ κ ι} {E : Type ℓ} {A : Type κ} {B : Type ι} where
  -- `iter().map(f)`, where `f` may fail, collected in order
  unfoldable pub map_results : (A → Result E B) → List A → Result E (List B)
  map_results f [] = ok []
  map_results f (x ∷ xs) = f x >>= λ y. map_results f xs >>= λ ys. ok (y ∷ ys)

module _ {ℓ κ} {E : Type ℓ} {A : Type κ} where
  -- A function that returns past a guard returns because the guard does not hold.
  pub reject_if-ok :
      (bad : Bool) (e : E) (rest : Result E A) {a : A}
      → (reject_if bad e >> rest) ≡ ok a
      → (bad ≡ false) × (rest ≡ ok a)
  reject_if-ok true e rest h = cc
  reject_if-ok false e rest h = (refl, h)

  pub ok-reject_if :
      (bad : Bool) (e : E) (rest : Result E A) {a : A}
      → bad ≡ false
      → rest ≡ ok a
      → (reject_if bad e >> rest) ≡ ok a
  ok-reject_if true e rest b h = cc
  ok-reject_if false e rest b h = h
