-- ===== src/Mutation/Rows/Laws.antt =====
-- The parameters that the rows of crates/postgresem-compiler/src/mutation.rs make.
use mathlib.Core.Path.{subst}
use mathlib.Core.List.{append-nil, append_assoc, map-append}
use postgresem.Prelude.{
  ℕ, suc, ◌+◌, ◌≡◌, sym, ap, ◌∙◌, String, Option, none, some, List, [], ◌∷◌, ◌++◌, map, length,
  arith, inl, inr,
}
use postgresem.Prelude.Results.{ok, Result-cases, ok-injective, err-ok}
use postgresem.Prelude.Ordered.{lookup}
use postgresem.Prelude.Stateful.{lift, traverse, steps, lifted, lifted_state}
use postgresem.Semantic.{DataType, Field}
use postgresem.Lsm.{MutationValue, Row}
use postgresem.Mutation.{MutationParameter, index}
use postgresem.Mutation.Panics.{index-lookup}
use postgresem.Mutation.Validate.{FieldMap}
use postgresem.Mutation.Rows.{Insert, push_value, render_value, render_row}

-- What a parameter carries; in a table, what stands under a name.
abbrev pub Cell : Type 0
Cell = Option DataType × Option MutationValue

abbrev pub cell : MutationParameter → Cell
cell p = (some p.data_type, some p.value)

abbrev type_of : Option Field → Option DataType
type_of none = none
type_of (some field) = some field.data_type

abbrev pub cell_of : FieldMap → Row → String → Cell
cell_of fields row name = (type_of (lookup name fields), lookup name row)

abbrev pub concat_map : {A B : Type 0} → (A → List B) → List A → List B
concat_map f [] = []
concat_map f (x ∷ xs) = f x ++ concat_map f xs

-- The rows as a table, row by row.
abbrev pub cells_of : FieldMap → List String → List Row → List Cell
cells_of fields names rows =
    concat_map (λ row. concat_map (λ name. cell_of fields row name ∷ []) names) rows

-- Each parameter carries its place, counted from `n + 1`.
abbrev pub IsNumberedFrom : ℕ → List MutationParameter → Type 0
IsNumberedFrom n [] = Unit
IsNumberedFrom n (p ∷ ps) = (p.position ≡ suc n) × IsNumberedFrom (suc n) ps

-- Parameters with these cells were added, and all are numbered.
pub record Adds (cells : List Cell) (before after : List MutationParameter) : Type 0 where
  pub numbered : IsNumberedFrom 0 after
  pub added : map cell after ≡ map cell before ++ cells

IsNumberedFrom-snoc :
    (n : ℕ) (ps : List MutationParameter) (p : MutationParameter)
    → IsNumberedFrom n ps
    → p.position ≡ suc (n + length ps)
    → IsNumberedFrom n (ps ++ p ∷ [])
IsNumberedFrom-snoc n [] p h e = (omega arith, tt)
IsNumberedFrom-snoc n (q ∷ ps) p (e₁, h) e = (e₁, IsNumberedFrom-snoc (suc n) ps p h (omega arith))

push_value-Adds :
    (t : DataType) (v : MutationValue) (ps qs : List MutationParameter) (n : ℕ)
    → IsNumberedFrom 0 ps
    → push_value t v ps ≡ ok (n, qs)
    → Adds ((some t, some v) ∷ []) ps qs
unfolding push_value
push_value-Adds t v ps qs n h e =
    subst (Adds ((some t, some v) ∷ []) ps)
      (ap (λ (p : ℕ × List MutationParameter). p.1) (ok-injective e))
      (record {
        numbered = IsNumberedFrom-snoc 0 ps _ h (omega arith);
        added = map-append cell ps _;
      })

module _ (fields : FieldMap) where
  render_value-Adds :
      (row : Row) (name : String) (ps qs : List MutationParameter) (text : String)
      → IsNumberedFrom 0 ps
      → render_value fields row name ps ≡ ok (text, qs)
      → Adds (cell_of fields row name ∷ []) ps qs
  unfolding render_value
  render_value-Adds row name ps qs text h e =
      let (field, ps₁, found, e₁) = steps (lift (index fields name)) _ ps qs text e in
      let (value, ps₂, given, e₂) = steps (lift (index row name)) _ ps₁ qs text e₁ in
      let (n, ps₃, pushed, e₃) = steps (push_value field.data_type value) _ ps₂ qs text e₂ in
      let here = index-lookup fields name field (lifted _ _ _ _ found) in
      let there = index-lookup row name value (lifted _ _ _ _ given) in
      let same : ps₂ ≡ ps = lifted_state _ _ _ _ given ∙ lifted_state _ _ _ _ found in
      let last : ps₃ ≡ qs = ap (λ (p : String × List MutationParameter). p.1) (ok-injective e₃) in
      rw (here, there) (push_value-Adds field.data_type value ps qs n h (rw (same, last) at pushed))

module _ {A B : Type 0} (f : A → Insert B) (cells : A → List Cell)
    (step : (x : A) (ps qs : List MutationParameter) (y : B)
      → IsNumberedFrom 0 ps
      → f x ps ≡ ok (y, qs)
      → Adds (cells x) ps qs) where
  traverse-Adds :
      (xs : List A) (ps qs : List MutationParameter) (ys : List B)
      → IsNumberedFrom 0 ps
      → traverse f xs ps ≡ ok (ys, qs)
      → Adds (concat_map cells xs) ps qs
  unfolding traverse
  traverse-Adds [] ps qs ys h e =
      subst (Adds [] ps) (ap (λ (p : List B × List MutationParameter). p.1) (ok-injective e))
        (record { numbered = h; added = sym (append-nil _) })
  traverse-Adds (x ∷ xs) ps qs ys h e = elim (Result-cases (f x ps)) [
    | inr (e', failed) ↦ absurd (err-ok (rw (failed, traverse) at e))
    | inl ((y, rs), done) ↦ elim (Result-cases (traverse f xs rs)) [
      | inr (e', failed) ↦ absurd (err-ok (rw (done, failed, traverse) at e))
      | inl ((zs, ts), more) ↦
          let one = step x ps rs y h done in
          let rest = traverse-Adds xs rs ts zs one.numbered more in
          subst (Adds (cells x ++ concat_map cells xs) ps)
            (ap (λ (p : List B × List MutationParameter). p.1)
              (ok-injective (rw (done, more, traverse) at e)))
            (record {
              numbered = rest.numbered;
              added =
                  rest.added
                  ∙ (ap (λ (c : List Cell). c ++ concat_map cells xs) one.added
                      ∙ append_assoc (map cell ps) (cells x) (concat_map cells xs));
            })
    ]
  ]

render_row-Adds :
    (fields : FieldMap) (names : List String) (row : Row) (ps qs : List MutationParameter)
    (text : String)
    → IsNumberedFrom 0 ps
    → render_row fields names row ps ≡ ok (text, qs)
    → Adds (concat_map (λ name. cell_of fields row name ∷ []) names) ps qs
unfolding render_row
render_row-Adds fields names row ps qs text h e =
    let (texts, ps₁, done, e₁) = steps (traverse (render_value fields row) names) _ ps qs text e in
    let last : ps₁ ≡ qs = ap (λ (p : String × List MutationParameter). p.1) (ok-injective e₁) in
    traverse-Adds (render_value fields row) (λ name. cell_of fields row name ∷ [])
      (λ name before after t. render_value-Adds fields row name before after t) names ps qs texts h
      (rw last at done)

-- The parameters of the rows are numbered from 1 in order, and carry the table row by row.
pub render_rows-Adds :
    (fields : FieldMap) (names : List String) (rows : List Row) (qs : List MutationParameter)
    (texts : List String)
    → traverse (render_row fields names) rows [] ≡ ok (texts, qs)
    → Adds (cells_of fields names rows) [] qs
render_rows-Adds fields names rows qs texts e =
    traverse-Adds (render_row fields names) _ (render_row-Adds fields names) rows [] qs texts tt e
