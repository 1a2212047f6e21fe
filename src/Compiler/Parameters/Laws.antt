-- ===== src/Compiler/Parameters/Laws.antt =====
-- `push_parameter` of crates/postgresem-compiler/src/compiler.rs and the order of the parameters.
use postgresem.Prelude.{
  ℕ, suc, ◌+◌, ◌≤◌, ◌≡◌, ◌↔◌, refl, ap, sym, ◌∙◌, true, false, none, some, List, [], ◌∷◌, ◌++◌,
  arith, length, length-append, get_elem?, find, find-some, str_eq_iff, inl, inr, Option-cases, All,
  All-append, Bool-cases,
}
use mathlib.Core.List.{append-nil}
use postgresem.Lsq.{Literal, pos}
use postgresem.Semantic.{DataType}
use postgresem.Compiler.{CompiledParameter}
use postgresem.Compiler.Parameters.{same_literal, is_parameter, push_parameter}

same_literal_iff : (a b : Literal) → (same_literal a b ≡ true) ↔ (a ≡ b)
unfolding same_literal
same_literal_iff (Literal.text a) (Literal.text b) = ground (arith, str_eq_iff a b)
same_literal_iff (Literal.numeric a) (Literal.numeric b) = ground (arith, str_eq_iff a b)
same_literal_iff (Literal.date a) (Literal.date b) = ground (arith, str_eq_iff a b)
same_literal_iff (Literal.timestamp a) (Literal.timestamp b) = ground (arith, str_eq_iff a b)
same_literal_iff (Literal.integer (pos a)) (Literal.integer (pos b)) = ground arith
same_literal_iff a b = ground arith

abbrev pub entry : ℕ → DataType → Literal → CompiledParameter
entry n data_type value = record { position = n; data_type = data_type; value = value }

-- Each parameter carries its place, counted from `n + 1`.
abbrev pub IsNumberedFrom : ℕ → List CompiledParameter → Type 0
IsNumberedFrom n [] = Unit
IsNumberedFrom n (p ∷ ps) = (p.position ≡ suc n) × IsNumberedFrom (suc n) ps

abbrev IsAbsent : CompiledParameter → List CompiledParameter → Type 0
IsAbsent p = All (λ q. is_parameter p.data_type p.value q ≡ false)

-- No type and value stand at two places.
abbrev pub IsUnique : List CompiledParameter → Type 0
IsUnique [] = Unit
IsUnique (p ∷ ps) = IsAbsent p ps × IsUnique ps

-- The invariant of the parameters while a query is rendered.
pub record AreParameters (ps : List CompiledParameter) : Type 0 where
  pub numbered : IsNumberedFrom 0 ps
  pub unique : IsUnique ps

-- `after` begins with `before`, so that positions handed out stay valid.
abbrev pub Extends : List CompiledParameter → List CompiledParameter → Type 0
Extends before after = (added : List CompiledParameter) × (after ≡ before ++ added)

IsNumberedFrom-snoc :
    (n : ℕ) (ps : List CompiledParameter) (p : CompiledParameter)
    → IsNumberedFrom n ps
    → p.position ≡ suc (n + length ps)
    → IsNumberedFrom n (ps ++ p ∷ [])
IsNumberedFrom-snoc n [] p h e = (omega arith, tt)
IsNumberedFrom-snoc n (q ∷ ps) p (e₁, h) e = (e₁, IsNumberedFrom-snoc (suc n) ps p h (omega arith))

module _ (data_type : DataType) (value : Literal) where
  found_lem :
      (n : ℕ) (ps : List CompiledParameter) (p : CompiledParameter)
      → IsNumberedFrom n ps
      → find (is_parameter data_type value) ps ≡ some p
      → (i : ℕ) × (p.position ≡ suc (n + i)) × (i + 1 ≤ length ps) × (get_elem? ps i ≡ some p)
  found_lem n [] p h e = cc
  found_lem n (q ∷ ps) p (k, h) e = elim (Bool-cases (is_parameter data_type value q)) [
    | inl hit ↦ (0, ground arith, omega arith, ground arith)
    | inr miss ↦
        let (i, at, within, same) = found_lem (suc n) ps p h (rw miss at e) in
        (suc i, omega arith, omega arith, same)
  ]

  IsUnique-snoc :
      (ps : List CompiledParameter) (p : CompiledParameter)
      → IsUnique ps
      → find (is_parameter data_type value) ps ≡ none
      → p.data_type ≡ data_type
      → p.value ≡ value
      → IsUnique (ps ++ p ∷ [])
  IsUnique-snoc [] p h e t v = (tt, tt)
  IsUnique-snoc (q ∷ ps) p (a, h) e t v = elim (Bool-cases (is_parameter data_type value q)) [
    | inl hit ↦ ground arith
    | inr miss ↦
        let apart : is_parameter q.data_type q.value p ≡ false =
          ground (arith, same_literal_iff p.value q.value, same_literal_iff q.value value) in
        (
          All-append (λ r. is_parameter q.data_type q.value r ≡ false) ps (p ∷ []) a (apart, tt),
          IsUnique-snoc ps p h (rw miss at e) t v,
        )
  ]

get_elem?-snoc :
    (ps : List CompiledParameter) (p : CompiledParameter)
    → get_elem? (ps ++ p ∷ []) (length ps) ≡ some p
get_elem?-snoc [] p = refl
get_elem?-snoc (q ∷ ps) p = get_elem?-snoc ps p

-- What a caller of `push_parameter` relies on.
pub record IsPushed (before : List CompiledParameter) (data_type : DataType) (value : Literal)
    (position : ℕ) (after : List CompiledParameter) : Type 0 where
  pub index : ℕ
  pub place : position ≡ suc index
  pub within : position ≤ length after
  pub bound : get_elem? after index ≡ some (entry position data_type value)
  pub extends : Extends before after
  pub after_ok : AreParameters after

-- From numbered parameters without repetition, the position that comes back is that of a parameter
-- with the given type and value; the parameters before the call keep their places, and the result
-- is again numbered and without repetition.
pub push_parameter-IsPushed :
    (ps : List CompiledParameter) (data_type : DataType) (value : Literal)
    → AreParameters ps
    → IsPushed ps data_type value
        (push_parameter ps data_type value).0
        (push_parameter ps data_type value).1
unfolding push_parameter
push_parameter-IsPushed ps data_type value h =
    elim (Option-cases (find (is_parameter data_type value) ps)) [
      | inl new ↦
          rw (new, push_parameter)
            (record {
              index = length ps;
              place = omega arith;
              within = omega (arith, length-append ps (entry (length ps + 1) data_type value ∷ []));
              bound = get_elem?-snoc ps (entry (length ps + 1) data_type value);
              extends = (entry (length ps + 1) data_type value ∷ [], refl);
              after_ok = record {
                numbered = IsNumberedFrom-snoc 0 ps _ h.numbered (omega arith);
                unique = IsUnique-snoc data_type value ps _ h.unique new refl refl;
              };
            })
      | inr (p, old) ↦
          let (i, at, within, same) = found_lem data_type value 0 ps p h.numbered old in
          let hit = find-some (is_parameter data_type value) ps p old in
          let exact : p ≡ entry p.position data_type value =
            ground (arith, hit, same_literal_iff p.value value) in
          rw (old, push_parameter)
            (record {
              index = i;
              place = omega arith;
              within = omega arith;
              bound = same ∙ ap some exact;
              extends = ([], sym (append-nil ps));
              after_ok = h;
            })
    ]
