-- ===== src/Auth/Bearer/Trimmed.antt =====
-- Trimming and splitting in `extract_bearer` of crates/postgresem/src/mcp_http_auth.rs.
use postgresem.Prelude.{
  ℕ, ◌≡◌, refl, Bool, true, false, not, some, List, [], ◌∷◌, ◌++◌, ◌==◌, all, any, is_empty, arith,
}
use postgresem.Auth.Words.{split_once, split}
use postgresem.Auth.Bearer.{trim_start, trim_end}

pub all-append :
    (p : ℕ → Bool) (xs ys : List ℕ) → all p xs ≡ true → all p ys ≡ true → all p (xs ++ ys) ≡ true
all-append p [] ys h k = k
all-append p (x ∷ xs) ys h k = ground (arith, all-append p xs ys)

pub all_mono :
    (p q : ℕ → Bool)
    → ((c : ℕ) → p c ≡ true → q c ≡ true)
    → (xs : List ℕ) → all p xs ≡ true
    → all q xs ≡ true
all_mono p q f [] h = refl
all_mono p q f (x ∷ xs) h = ground (arith, all_mono p q f xs, f x)

pub trim_start-append :
    (p : ℕ → Bool) (xs ys : List ℕ) → all p xs ≡ true → trim_start p (xs ++ ys) ≡ trim_start p ys
unfolding trim_start
trim_start-append p [] ys h = refl
trim_start-append p (x ∷ xs) ys h = ground (arith, trim_start-append p xs ys)

-- Nothing is trimmed before a character that stays.
pub trim_start-kept :
    (p : ℕ → Bool) (xs ys : List ℕ)
    → is_empty xs ≡ false
    → all (λ c. not (p c)) xs ≡ true
    → trim_start p (xs ++ ys) ≡ xs ++ ys
unfolding trim_start
trim_start-kept p [] ys h k = cc
trim_start-kept p (x ∷ xs) ys h k = ground arith

pub trim_end-all : (p : ℕ → Bool) (xs : List ℕ) → all p xs ≡ true → trim_end p xs ≡ []
unfolding trim_end
trim_end-all p [] h = refl
trim_end-all p (x ∷ xs) h = ground (arith, trim_end-all p xs)

pub trim_end-append :
    (p : ℕ → Bool) (xs ys : List ℕ) → all p ys ≡ true → trim_end p (xs ++ ys) ≡ trim_end p xs
unfolding trim_end
trim_end-append p [] ys h = trim_end-all p ys h
trim_end-append p (x ∷ xs) ys h = rw (trim_end-append p xs ys h) refl

pub trim_end-none :
    (p : ℕ → Bool) (xs : List ℕ) → all (λ c. not (p c)) xs ≡ true → trim_end p xs ≡ xs
unfolding trim_end
trim_end-none p [] h = refl
trim_end-none p (x ∷ xs) h = ground (arith, trim_end-none p xs)

pub is_empty-append : (xs ys : List ℕ) → is_empty ys ≡ false → is_empty (xs ++ ys) ≡ false
is_empty-append [] ys h = h
is_empty-append (x ∷ xs) ys h = refl

-- Nothing is trimmed after a character that stays.
pub trim_end-kept :
    (p : ℕ → Bool) (xs ys : List ℕ)
    → is_empty ys ≡ false
    → all (λ c. not (p c)) ys ≡ true
    → trim_end p (xs ++ ys) ≡ xs ++ ys
unfolding trim_end
trim_end-kept p [] ys h k = trim_end-none p ys k
trim_end-kept p (x ∷ xs) ys h k = ground (arith, trim_end-kept p xs ys h k, is_empty-append xs ys h)

pub split_once-append :
    (s : ℕ) (xs ys : List ℕ)
    → all (λ c. not (c == s)) xs ≡ true
    → split_once s (xs ++ s ∷ ys) ≡ some (xs, ys)
unfolding split_once
split_once-append s [] ys h = ground arith
split_once-append s (x ∷ xs) ys h = ground (arith, split_once-append s xs ys)

pub split-none : (s : ℕ) (xs : List ℕ) → all (λ c. not (c == s)) xs ≡ true → split s xs ≡ xs ∷ []
unfolding split
split-none s [] h = refl
split-none s (x ∷ xs) h = ground (arith, split-none s xs)

pub split-append :
    (s : ℕ) (xs ys : List ℕ)
    → all (λ c. not (c == s)) xs ≡ true
    → split s (xs ++ s ∷ ys) ≡ xs ∷ split s ys
unfolding split
split-append s [] ys h = ground arith
split-append s (x ∷ xs) ys h = ground (arith, split-append s xs ys)

pub any-none : (p : ℕ → Bool) (xs : List ℕ) → all (λ c. not (p c)) xs ≡ true → any p xs ≡ false
any-none p [] h = refl
any-none p (x ∷ xs) h = ground (arith, any-none p xs)
