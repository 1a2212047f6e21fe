-- ===== src/Diff/Snapshots/Kept.antt =====
-- Snapshots and normalized snapshots of crates/postgresem-compiler/src/diff.rs keep the same models.
use mathlib.Core.Path.{subst}
use postgresem.Prelude.{
  ◌↔◌, String, List, [], ◌∷◌, All, All-map, find, str_eq, arith, Bool-cases, inl, inr, map,
}
use postgresem.Semantic.{
  Model, SemanticSnapshot, sort_by, normalized_model, normalized, compare_models,
}
use postgresem.Semantic.Sorted.{All-sort_by, find-sort_by}
use postgresem.Diff.Objects.{fields_collection, metrics_collection, relationships_collection}
use postgresem.Diff.Objects.Laws.{has_name}
use postgresem.Diff.Snapshots.{DiffCodec, model_name, field_name, metric_name, relationship_name}
use postgresem.Diff.Snapshots.Laws.{HasDistinctNames, IsSupported, IsKeptModel, IsKeptBy}
use postgresem.Diff.Snapshots.Promise.{
  KeepsField, KeepsMetric, KeepsRelationship, KeepsModel, KeepsBy, KeepModels,
}
use postgresem.Diff.Snapshots.Normal.{
  same_writable, collection_iff, field_iff, metric_iff, relationship_iff,
}

All-map_iff :
    {A B : Type 0} (P : B → Type 0) (f : A → B) (xs : List A)
    → All P (map f xs) ↔ All (λ x. P (f x)) xs
All-map_iff P f [] = (λ h. h, λ h. h)
All-map_iff P f (x ∷ xs) = ground (arith, All-map_iff P f xs)

module _ {Value : Type 0} (codec : DiffCodec Value) where
  -- Normalized models keep what the comparison reads exactly when the models keep what is promised.
  normalized_model-KeepsModel :
      (old new : Model)
      → HasDistinctNames new
      → IsKeptModel codec (normalized_model old) (normalized_model new) ↔ KeepsModel old new
  unfolding normalized_model
  normalized_model-KeepsModel old new names =
      let fields =
        collection_iff (fields_collection codec.field_value) KeepsField field_name _ old.fields
          new.fields names.fields (field_iff codec) in
      let metrics =
        collection_iff (metrics_collection codec.metric_value) KeepsMetric metric_name _ old.metrics
          new.metrics names.metrics (metric_iff codec) in
      let relationships =
        collection_iff (relationships_collection codec.relationship_value) KeepsRelationship
          relationship_name _ old.relationships new.relationships names.relationships
          (relationship_iff codec) in
      let writable = same_writable old.writable new.writable in
      (
        λ h. record {
          source = h.metadata.source;
          timezone = h.metadata.timezone;
          queryable = h.metadata.queryable;
          writable = writable.0 h.metadata.writable;
          fields = fields.0 h.fields;
          metrics = metrics.0 h.metrics;
          relationships = relationships.0 h.relationships;
        },
        λ k. record {
          metadata = record {
            source = k.source;
            timezone = k.timezone;
            queryable = k.queryable;
            writable = writable.1 k.writable;
          };
          fields = fields.1 k.fields;
          metrics = metrics.1 k.metrics;
          relationships = relationships.1 k.relationships;
        },
      )

  found_iff :
      (old : Model) (n : String) (models : List Model)
      → All HasDistinctNames models
      → IsKeptBy codec
          (normalized_model old)
          (find (has_name model_name n) (map normalized_model models))
        ↔ KeepsBy old (find (has_name model_name n) models)
  unfolding normalized_model
  found_iff old n [] names = (λ h. h, λ h. h)
  found_iff old n (m ∷ models) (here, names) = elim (Bool-cases (str_eq m.semantic_name n)) [
    | inl same ↦ rw same (normalized_model-KeepsModel old m here)
    | inr other ↦ rw other (found_iff old n models names)
  ]

  -- The models of a normalized snapshot are kept exactly when those of the snapshot are.
  pub normalized-KeepModels :
      (before after : SemanticSnapshot)
      → IsSupported after
      → All
          (λ old.
            IsKeptBy codec old
              (find (has_name model_name (model_name old)) (normalized after).models))
          (normalized before).models
        ↔ KeepModels before.models after.models
  unfolding normalized normalized_model
  normalized-KeepModels before after supported =
      let sorted = sort_by compare_models after.models in
      let names = (All-sort_by compare_models HasDistinctNames after.models).1 supported.objects in
      let each : (old : Model)
          → IsKeptBy codec (normalized_model old) (
              find (has_name model_name (model_name (normalized_model old)))
                (map normalized_model sorted))
            ↔ KeepsBy old (find (has_name model_name (model_name old)) after.models) =
        λ old.
          subst
            (λ found.
              IsKeptBy codec (normalized_model old)
                (find (has_name model_name (model_name old)) (map normalized_model sorted))
              ↔ KeepsBy old found)
            (find-sort_by compare_models model_name (model_name old) after.models supported.models)
            (found_iff old (model_name old) sorted names) in
      let mapped =
        All-map_iff
          (λ old.
            IsKeptBy codec old
              (find (has_name model_name (model_name old)) (map normalized_model sorted)))
          normalized_model (sort_by compare_models before.models) in
      let all =
        All-sort_by compare_models
          (λ old. KeepsBy old (find (has_name model_name (model_name old)) after.models))
          before.models in
      (
        λ h. all.0 (All-map (λ old. (each old).0) _ (mapped.0 h)),
        λ k. mapped.1 (All-map (λ old. (each old).1) _ (all.1 k)),
      )
