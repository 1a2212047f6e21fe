-- ===== src/Diff/Snapshots/Laws.antt =====
-- What `diff_snapshots` of crates/postgresem-compiler/src/diff.rs reports.
use postgresem.Prelude.{
  ◌≡◌, ◌↔◌, refl, sym, ◌∙◌, String, true, not, Option, none, some, List, [], ◌∷◌, All, is_some,
  holds_iff, arith, Bool-cases, inl, inr, IsDistinct, map, contains,
}
use postgresem.Prelude.Results.{ok, >>=-ok, reject_if}
use postgresem.Semantic.{Model, SemanticSnapshot}
use postgresem.Semantic.Equality.{Relation-discrete, OptionString-discrete, Writable-discrete}
use postgresem.Diff.{compatible, breaking_changes}
use postgresem.Diff.Objects.{
  named_objects, fields_collection, metrics_collection, relationships_collection,
}
use postgresem.Diff.Objects.Laws.{named_objects_iff}
use postgresem.Diff.Objects.Kept.{AreKept}
use postgresem.Diff.Snapshots.{
  DiffCodec, model_name, field_name, metric_name, relationship_name, named_models,
  supported_snapshot_versions, validate_models, validate_version, model_compatibility,
  model_metadata, diff_metadata,
}

-- The names of a model's objects are distinct in each collection.
pub record HasDistinctNames (m : Model) : Type 0 where
  pub fields : IsDistinct (map field_name m.fields)
  pub metrics : IsDistinct (map metric_name m.metrics)
  pub relationships : IsDistinct (map relationship_name m.relationships)

validate_models_iff :
    (models : List Model) → (validate_models models ≡ ok tt) ↔ All HasDistinctNames models
unfolding validate_models
validate_models_iff [] = ground arith
validate_models_iff (m ∷ models) = (
  λ h.
      let (_, one, h₁) = >>=-ok (named_objects "field" field_name m.fields) _ h in
      let (_, two, h₂) = >>=-ok (named_objects "metric" metric_name m.metrics) _ h₁ in
      let (_, three, h₃) =
        >>=-ok (named_objects "relationship" relationship_name m.relationships) _ h₂ in
      (
        record {
          fields = (named_objects_iff field_name "field" m.fields).0 (_, one);
          metrics = (named_objects_iff metric_name "metric" m.metrics).0 (_, two);
          relationships =
              (named_objects_iff relationship_name "relationship" m.relationships).0 (_, three);
        },
        (validate_models_iff models).0 h₃,
      ),
  λ (distinct, more).
      let (_, one) = (named_objects_iff field_name "field" m.fields).1 distinct.fields in
      let (_, two) = (named_objects_iff metric_name "metric" m.metrics).1 distinct.metrics in
      let (_, three) =
        (named_objects_iff relationship_name "relationship" m.relationships).1
          distinct.relationships in
      rw (one, two, three) ((validate_models_iff models).1 more),
)

-- A snapshot of a version that is supported, in which no two models have a name in common, and no two
-- fields, metrics or relationships of a model.
pub record IsSupported (s : SemanticSnapshot) : Type 0 where
  pub version : contains supported_snapshot_versions s.schema_version ≡ true
  pub models : IsDistinct (map model_name s.models)
  pub objects : All HasDistinctNames s.models

-- `validate_version` takes a snapshot if and only if its version is supported and no name stands twice
-- among its models, or among the fields, the metrics or the relationships of one of them.
pub validate_version_iff : (s : SemanticSnapshot) → (validate_version s ≡ ok tt) ↔ IsSupported s
unfolding validate_version named_models
validate_version_iff s = (
  λ h.
      let (_, version, h₁) =
        >>=-ok (reject_if (not (contains supported_snapshot_versions s.schema_version)) _) _ h in
      let (_, one, h₂) = >>=-ok (named_objects "model" model_name s.models) _ h₁ in
      record {
        version = ground arith;
        models = (named_objects_iff model_name "model" s.models).0 (_, one);
        objects = (validate_models_iff s.models).0 h₂;
      },
  λ supported.
      let (_, one) = (named_objects_iff model_name "model" s.models).1 supported.models in
      rw (supported.version, one) ((validate_models_iff s.models).1 supported.objects),
)

-- What a client of a model relies on stays: its source, its timezone, that it can be queried, and what
-- it can write.
pub record KeepsMetadata (before after : Model) : Type 0 where
  pub source : before.source ≡ after.source
  pub timezone : before.timezone ≡ after.timezone
  pub queryable : before.queryable ≡ true → after.queryable ≡ true
  pub writable : is_some before.writable ≡ true → before.writable ≡ after.writable

pub model_compatibility_iff :
    (before after : Model)
    → (model_compatibility before after ≡ compatible) ↔ KeepsMetadata before after
unfolding model_compatibility
model_compatibility_iff before after = (
  λ h. record {
    source = ground (arith, holds_iff (Relation-discrete before.source after.source));
    timezone = ground (arith, holds_iff (OptionString-discrete before.timezone after.timezone));
    queryable = ground arith;
    writable = ground (arith, holds_iff (Writable-discrete before.writable after.writable));
  },
  λ keeps. ground (
    arith,
    keeps.source,
    keeps.timezone,
    keeps.queryable,
    keeps.writable,
    holds_iff (Relation-discrete before.source after.source),
    holds_iff (OptionString-discrete before.timezone after.timezone),
    holds_iff (Writable-discrete before.writable after.writable),
  ),
)

module _ {Value : Type 0} (codec : DiffCodec Value) where
  pub record IsKeptModel (before after : Model) : Type 0 where
    pub metadata : KeepsMetadata before after
    pub fields : AreKept (fields_collection codec.field_value) field_name before.fields after.fields
    pub metrics :
        AreKept (metrics_collection codec.metric_value) metric_name before.metrics after.metrics
    pub relationships :
        AreKept
          (relationships_collection codec.relationship_value)
          relationship_name
          before.relationships
          after.relationships

  -- What becomes of a model: it is there, and is kept.
  abbrev pub IsKeptBy : Model → Option Model → Type 0
  IsKeptBy before none = ⊥
  IsKeptBy before (some after) = IsKeptModel before after

  -- Models whose metadata are the same value have the same metadata.
  abbrev pub IsFaithful : Type 0
  IsFaithful =
      (a b : Model)
      → codec.same_value (model_metadata codec a) (model_metadata codec b) ≡ true
      → (a.source ≡ b.source)
        × (a.timezone ≡ b.timezone)
        × (a.queryable ≡ b.queryable)
        × (a.writable ≡ b.writable)

  pub diff_metadata-breaking :
      IsFaithful
      → (name : String) (before after : Model)
      → (breaking_changes (diff_metadata codec name before after) ≡ 0) ↔ KeepsMetadata before after
  unfolding diff_metadata breaking_changes
  diff_metadata-breaking faithful name before after =
      elim (Bool-cases
        (codec.same_value (model_metadata codec before) (model_metadata codec after))) [
          | inl same ↦
              let (source, timezone, queryable, writable) = faithful before after same in
              rw same (
                λ _. record {
                  source = source;
                  timezone = timezone;
                  queryable = λ h. sym queryable ∙ h;
                  writable = λ _. writable;
                },
                λ _. refl,
              )
          | inr other ↦ rw other (ground (arith, model_compatibility_iff before after))
        ]
