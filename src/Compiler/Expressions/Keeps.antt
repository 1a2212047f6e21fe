-- ===== src/Compiler/Expressions/Keeps.antt =====
-- What the rendering functions of crates/postgresem-compiler/src/compiler.rs keep of the query's
-- parameters.
use mathlib.Core.Path.{subst}
use postgresem.Prelude.{String, ◌≡◌, ap, sym, ◌∙◌, List, [], ◌++◌, inl, inr}
use mathlib.Core.List.{append-nil, append_assoc}
use postgresem.Prelude.Results.{Result, ok, err, Result-cases, ok-injective, err-ok}
use postgresem.Prelude.Stateful.{pure, lift, ◌>>=◌}
use postgresem.Lsq.{Literal}
use postgresem.Semantic.{DataType}
use postgresem.Compiler.{CompiledParameter, CompileError}
use postgresem.Compiler.Parameters.{push_parameter, push_literal, literal_type}
use postgresem.Compiler.Parameters.Laws.{AreParameters, Extends, push_parameter-IsPushed}
use postgresem.Compiler.Expressions.{Render, RenderState, add_column, add_parameter, add_literal}

-- One state of the rendering leads to the next: the parameters stay numbered and without
-- repetition, and those before keep their places.
pub record Leads (s t : RenderState) : Type 0 where
  pub ordered : AreParameters t.parameters
  pub extends : Extends s.parameters t.parameters

-- From parameters that are numbered and without repetition, the action leads to its final state.
abbrev pub Keeps : {A : Type 0} → Render A → Type 0
Keeps {A} m =
    (s : RenderState) (a : A) (t : RenderState)
    → AreParameters s.parameters
    → m s ≡ ok (a, t)
    → Leads s t

Extends-trans : (a b c : List CompiledParameter) → Extends a b → Extends b c → Extends a c
Extends-trans a b c (x, e₁) (y, e₂) =
    (x ++ y, e₂ ∙ (ap (λ (z : List CompiledParameter). z ++ y) e₁ ∙ append_assoc a x y))

moved :
    (s t : RenderState) (ps : List CompiledParameter)
    → t.parameters ≡ ps
    → AreParameters ps
    → Extends s.parameters ps
    → Leads s t
moved s t ps e h x = record {
  ordered = subst AreParameters (sym e) h;
  extends = subst (Extends s.parameters) (sym e) x;
}

pub pure-Keeps : {A : Type 0} (a : A) → Keeps (pure a)
pure-Keeps a s b t h e =
    let same : s ≡ t = ap (λ p. p.1) (ok-injective e) in
    rw (sym same) (record { ordered = h; extends = ([], sym (append-nil s.parameters)) })

pub lift-Keeps : {A : Type 0} (r : Result CompileError A) → Keeps (lift r)
lift-Keeps (ok a) = pure-Keeps a
lift-Keeps (err x) = λ s b t h e. cc

pub >>=-Keeps :
    {A B : Type 0} (m : Render A) (f : A → Render B)
    → Keeps m
    → ((a : A) → Keeps (f a))
    → Keeps (m >>= f)
>>=-Keeps m f first next s b u h e = elim (Result-cases (m s)) [
  | inr (x, failed) ↦ absurd (err-ok (rw failed at e))
  | inl ((a, t), done) ↦
      let one = first s a t h done in
      let two = next a t b u one.ordered (rw done at e) in
      record {
        ordered = two.ordered;
        extends = Extends-trans s.parameters t.parameters u.parameters one.extends two.extends;
      }
]

pub add_column-Keeps : (column : String) → Keeps (add_column column)
unfolding add_column
add_column-Keeps column s a t h e =
    moved s t s.parameters (ap (λ p. p.1.parameters) (sym (ok-injective e))) h
      ([], sym (append-nil s.parameters))

pub add_parameter-Keeps :
    (data_type : DataType) (value : Literal) → Keeps (add_parameter data_type value)
unfolding add_parameter
add_parameter-Keeps data_type value s a t h e =
    let pushed = push_parameter-IsPushed s.parameters data_type value h in
    moved s t (push_parameter s.parameters data_type value).1
      (ap (λ p. p.1.parameters) (sym (ok-injective e))) pushed.after_ok pushed.extends

pub add_literal-Keeps : (value : Literal) → Keeps (add_literal value)
unfolding add_literal push_literal
add_literal-Keeps value s a t h e =
    let pushed = push_parameter-IsPushed s.parameters (literal_type value) value h in
    moved s t (push_parameter s.parameters (literal_type value) value).1
      (ap (λ p. p.1.parameters) (sym (ok-injective e))) pushed.after_ok pushed.extends
