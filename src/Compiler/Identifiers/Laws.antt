-- ===== src/Compiler/Identifiers/Laws.antt =====
-- `quote_identifier` of crates/postgresem-compiler/src/compiler.rs against PostgreSQL's rule for
-- quoted identifiers.
use Prim.Native.Char.{Char, code}
use Prim.Native.String.{[], ◌∷◌, ◌++◌}
use text.Mathlib.TextLemmas.{nil-append, cons-append, append_assoc}
use postgresem.Prelude.{
  String, ◌≡◌, ◌≢◌, refl, if◌then◌else◌, ◌==◌, Option, none, some, arith, ℕ_discrete,
}
use postgresem.Compiler.Identifiers.{double_quotes, quote_identifier}

abbrev prefixed : Char → Option (String × String) → Option (String × String)
prefixed c none = none
prefixed c (some (name, rest)) = some (c ∷ name, rest)

-- PostgreSQL's rule for the inside of a quoted identifier: two quotes stand for one, and one quote
-- ends it. The name, and the text behind it.
read_inside : String → Option (String × String)
read_inside [] = none
read_inside (c ∷ []) = if code c == b'"' then some ("", "") else none
read_inside (c ∷ d ∷ s) =
    let skip = prefixed c (read_inside s) in
    let step = prefixed c (read_inside (d ∷ s)) in
    if code c == b'"' then (if code d == b'"' then skip else some ("", d ∷ s)) else step

pub read_identifier : String → Option (String × String)
read_identifier [] = none
read_identifier (c ∷ s) = if code c == b'"' then read_inside s else none

-- the text does not begin with a quote
abbrev pub IsDelimited : String → Type 0
IsDelimited [] = Unit
IsDelimited (c ∷ s) = code c ≢ b'"'

read_inside-close :
    (rest : String) → IsDelimited rest → read_inside ("\"" ++ rest) ≡ some ("", rest)
unfolding read_inside
read_inside-close [] h = refl
read_inside-close (c ∷ s) h = rw (cons-append, nil-append) (ground arith)

read_inside-step :
    (c : Char) (s : String) → code c ≢ b'"' → read_inside (c ∷ s) ≡ prefixed c (read_inside s)
unfolding read_inside
read_inside-step c [] h = ground arith
read_inside-step c (d ∷ s) h = ground arith

read_inside-pair :
    (c : Char) (s : String) → code c ≡ b'"' → read_inside (c ∷ c ∷ s) ≡ prefixed c (read_inside s)
unfolding read_inside
read_inside-pair c s h = ground arith

double_quotes-quote :
    (c : Char) (s : String) → code c ≡ b'"' → double_quotes (c ∷ s) ≡ c ∷ c ∷ double_quotes s
unfolding double_quotes
double_quotes-quote c s h = ground arith

double_quotes-plain :
    (c : Char) (s : String) → code c ≢ b'"' → double_quotes (c ∷ s) ≡ c ∷ double_quotes s
unfolding double_quotes
double_quotes-plain c s h = ground arith

read_inside-double_quotes :
    (name rest : String)
    → IsDelimited rest
    → read_inside (double_quotes name ++ ("\"" ++ rest)) ≡ some (name, rest)
read_inside-double_quotes [] rest h =
    unfold double_quotes in rw nil-append (read_inside-close rest h)
read_inside-double_quotes (c ∷ s) rest h =
    let inner = read_inside-double_quotes s rest h in
    elim (ℕ_discrete (code c) b'"') [
      | yes e ↦
          rw (double_quotes-quote c s e, cons-append, cons-append, read_inside-pair c _ e, inner)
            refl
      | no e ↦ rw (double_quotes-plain c s e, cons-append, read_inside-step c _ e, inner) refl
    ]

-- Whatever the name, PostgreSQL reads the quoted name back and then the text that follows it, if
-- that does not begin with a quote: no name can close its own quotes and add to the statement.
pub read_identifier-quote_identifier :
    (name rest : String)
    → IsDelimited rest
    → read_identifier (quote_identifier name ++ rest) ≡ some (name, rest)
unfolding read_identifier quote_identifier
read_identifier-quote_identifier name rest h =
    rw (cons-append, cons-append, nil-append, append_assoc) (read_inside-double_quotes name rest h)
