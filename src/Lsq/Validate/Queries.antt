-- ===== src/Lsq/Validate/Queries.antt =====
-- `validate_query` and `normalize_lsq` of crates/postgresem-compiler/src/lsq.rs.
use postgresem.Prelude.{
  ℕ, ◌+◌, ◌≤◌, ◌≡◌, ◌↔◌, refl, inl, inr, String, false, Option, none, some, List, [], ◌∷◌, arith,
  length, All, contains, IsDistinct, str_eq_iff,
}
use postgresem.Prelude.Results.{ok, Result-cases}
use postgresem.Prelude.Text.{is_blank}
use postgresem.Lsq.{
  Filter, LogicalSemanticQuery, LsqError, max_limit, max_filter_depth, max_filter_nodes,
}
use postgresem.Lsq.Validate.{
  validate_reference, validate_distinct, validate_filter, validate_filter_option, validate_query,
  projected_names, order_names,
}
use postgresem.Lsq.Validate.Trees.{IsFilter, depth, size, validate_filter_iff}

abbrev IsNamed : String → Type 0
IsNamed name = is_blank name ≡ false

-- names that are not blank, each at one place
abbrev pub AreReferences : List String → Type 0
AreReferences names = All IsNamed names × IsDistinct names

-- no name is among those seen
abbrev AreNew : List String → List String → Type 0
AreNew seen = All (λ name. contains seen name ≡ false)

AreNew-cons_iff :
    (name : String) (seen names : List String)
    → AreNew (name ∷ seen) names ↔ ((contains names name ≡ false) × AreNew seen names)
AreNew-cons_iff name seen [] = ground arith
AreNew-cons_iff name seen (x ∷ xs) =
    ground (arith, AreNew-cons_iff name seen xs, str_eq_iff name x, str_eq_iff x name)

validate_distinct_iff :
    (duplicate : String → LsqError) (seen names : List String)
    → (validate_distinct duplicate seen names ≡ ok tt) ↔ (AreReferences names × AreNew seen names)
unfolding validate_distinct validate_reference
validate_distinct_iff duplicate seen [] = ground arith
validate_distinct_iff duplicate seen (x ∷ xs) =
    ground (arith, validate_distinct_iff duplicate (x ∷ seen) xs, AreNew-cons_iff x seen xs)

AreNew-nil : (names : List String) → AreNew [] names
AreNew-nil [] = tt
AreNew-nil (x ∷ xs) = (refl, AreNew-nil xs)

abbrev IsLimit : Option ℕ → Type 0
IsLimit none = Unit
IsLimit (some limit) = (1 ≤ limit) × (limit ≤ max_limit)

abbrev IsFilterOption : Option Filter → Type 0
IsFilterOption none = Unit
IsFilterOption (some f) = IsFilter f × (depth f ≤ max_filter_depth) × (size f ≤ max_filter_nodes)

-- A query that the checks of lsq.rs describe. They set no upper bound on the length of a name, where
-- schemas/lsq/v1.schema.json allows 255 characters.
pub record IsQuery (q : LogicalSemanticQuery) : Type 0 where
  pub version : q.schema_version ≡ "1"
  pub model : is_blank q.model ≡ false
  pub projects : 1 ≤ length q.dimensions + length q.metrics
  pub limit : IsLimit q.limit
  pub references : AreReferences (projected_names q)
  pub order : AreReferences (order_names q)
  pub filter : IsFilterOption q.filters

validate_filter_option_iff :
    (f : Option Filter) → (validate_filter_option f ≡ ok tt) ↔ IsFilterOption f
unfolding validate_filter_option
validate_filter_option_iff none = ground arith
validate_filter_option_iff (some f) = elim (Result-cases (validate_filter f 1 0)) [
  | inl (n, e) ↦ ground (arith, validate_filter_iff f n)
  | inr (x, e) ↦ ground (arith, validate_filter_iff f (size f))
]

-- A query passes exactly when it has the one schema version, a model, something to project, a
-- limit of 1 to 10 000 if any, projected and order references that are neither blank nor
-- repeated, and a filter, if any, within the bounds. Names of any length pass.
pub validate_query_iff : (q : LogicalSemanticQuery) → (validate_query q ≡ ok tt) ↔ IsQuery q
unfolding validate_query
validate_query_iff q =
    let projected = validate_distinct_iff LsqError.duplicate_reference [] (projected_names q) in
    let ordered = validate_distinct_iff LsqError.duplicate_order_reference [] (order_names q) in
    ground (
      arith,
      str_eq_iff q.schema_version "1",
      projected,
      ordered,
      AreNew-nil (projected_names q),
      AreNew-nil (order_names q),
      validate_filter_option_iff q.filters,
    )
