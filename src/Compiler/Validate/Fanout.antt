-- ===== src/Compiler/Validate/Fanout.antt =====
-- What `validate` of crates/postgresem-compiler/src/compiler.rs lets through where a join can
-- multiply the rows of the model.
use mathlib.Core.Path.{subst}
use postgresem.Prelude.{
  String, Bool, true, false, ◌≡◌, refl, ap, sym, ◌∙◌, Option, none, some, List, [], ◌∷◌, All, find,
  is_empty, str_eq_iff, arith,
}
use postgresem.Prelude.Results.{ok, reject_if, ok_or, >>=-ok}
use postgresem.Semantic.{Field, Relationship}
use postgresem.Compiler.{CompileError, ResolvedMetric}
use postgresem.Compiler.Validate.{
  check_anchor, check_anchors, choose_anchor, is_fanout, is_semi_additive, has_joined_filter,
  is_other_anchor, values,
}

-- A metric that a fan-out does not distort: it is anchored at the named field, is not
-- semi-additive, and does not filter on a joined column.
pub record IsAnchored (anchor : String) (m : ResolvedMetric) : Type 0 where
  pub field : Field
  pub anchored : m.aggregation_anchor ≡ some field
  pub named : field.semantic_name ≡ anchor
  pub additive : is_semi_additive m ≡ false
  pub own_filter : has_joined_filter m ≡ false

reject_if-eq-ok : (b : Bool) (e : CompileError) {u : Unit {0}} → reject_if b e ≡ ok u → b ≡ false
reject_if-eq-ok true e h = cc
reject_if-eq-ok false e h = refl

ok_or-eq-ok : (o : Option Field) (e : CompileError) {f : Field} → ok_or o e ≡ ok f → o ≡ some f
ok_or-eq-ok none e h = cc
ok_or-eq-ok (some g) e h = ground arith

check_anchor_lem :
    (name : Option String) (m : ResolvedMetric) {f : Field}
    → check_anchor name m ≡ ok f
    → IsAnchored f.semantic_name m × (is_other_anchor name f ≡ false)
unfolding check_anchor
check_anchor_lem name m {f} h =
    let (anchor, found, h₁) = >>=-ok _ _ h in
    let (_, own, h₂) = >>=-ok _ _ h₁ in
    let (_, additive, h₃) = >>=-ok _ _ h₂ in
    let (_, same, h₄) = >>=-ok _ _ h₃ in
    let here : anchor ≡ f = ground arith in
    (
      record {
        field = anchor;
        anchored = ok_or-eq-ok m.aggregation_anchor _ found;
        named = ap (λ (a : Field). a.semantic_name) here;
        additive = reject_if-eq-ok _ _ additive;
        own_filter = reject_if-eq-ok _ _ own;
      },
      rw (sym here) (reject_if-eq-ok _ _ same),
    )

-- Anchors of one name are interchangeable.
renamed :
    {a b : String} (m : ResolvedMetric) (ms : List ResolvedMetric)
    → a ≡ b
    → IsAnchored a m
    → All (IsAnchored a) ms
    → All (IsAnchored b) (m ∷ ms)
renamed m ms e here rest = subst (λ (n : String). All (IsAnchored n) (m ∷ ms)) e (here, rest)

-- The anchor that comes back has the name of the anchor so far.
check_anchors_lem :
    (f : Field) (ms : List ResolvedMetric) {r : Option Field}
    → check_anchors (some f.semantic_name) (some f) ms ≡ ok r
    → (g : Field) × (r ≡ some g)
      × (g.semantic_name ≡ f.semantic_name)
      × All (IsAnchored f.semantic_name) ms
unfolding check_anchors
check_anchors_lem f [] h = (f, ground arith, refl, tt)
check_anchors_lem f (m ∷ ms) h =
    let (anchor, found, h₁) = >>=-ok _ _ h in
    let (here, same) = check_anchor_lem (some f.semantic_name) m found in
    let alike : f.semantic_name ≡ anchor.semantic_name =
      ground (arith, str_eq_iff f.semantic_name anchor.semantic_name) in
    let (g, back, named, rest) = check_anchors_lem anchor ms h₁ in
    (g, back, named ∙ sym alike, renamed m ms (sym alike) here rest)

-- When `choose_anchor` accepts a query one of whose relationships is one-to-many, the query has
-- metrics, an anchor comes back, and every metric is anchored at a field of that name, is not
-- semi-additive and has no filter on a joined column.
pub choose_anchor-IsAnchored :
    (relationships : List (String × Relationship)) (metrics : List ResolvedMetric)
    (relationship : Relationship) (chosen : Option Field)
    → find is_fanout (values relationships) ≡ some relationship
    → choose_anchor relationships metrics ≡ ok chosen
    → (anchor : Field) × (chosen ≡ some anchor)
      × (is_empty metrics ≡ false)
      × All (IsAnchored anchor.semantic_name) metrics
unfolding choose_anchor check_anchors
choose_anchor-IsAnchored relationships [] relationship chosen fanout h = ground arith
choose_anchor-IsAnchored relationships (m ∷ ms) relationship chosen fanout h =
    let run : check_anchors none none (m ∷ ms) ≡ ok chosen = rw (fanout, choose_anchor) at h in
    let (f, found, h₁) = >>=-ok _ _ run in
    let (here, _) = check_anchor_lem none m found in
    let (g, back, named, rest) = check_anchors_lem f ms h₁ in
    (g, back, refl, renamed m ms (sym named) here rest)
