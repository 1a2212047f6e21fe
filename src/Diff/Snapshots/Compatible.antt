-- ===== src/Diff/Snapshots/Compatible.antt =====
-- When `diff_snapshots` of crates/postgresem-compiler/src/diff.rs reports compatible snapshots.
use mathlib.Core.Path.{subst}
use postgresem.Prelude.{
  ◌+◌, ◌≡◌, ◌↔◌, refl, sym, ap, ◌∙◌, String, none, some, List, ◌++◌, All, All-map, All-each, find,
  is_some, arith, Bool-cases, Option-cases, inl, inr,
}
use postgresem.Prelude.Results.{ok, >>=-ok, ok-injective}
use postgresem.Prelude.Ordered.{lookup}
use postgresem.Semantic.{Model, SemanticSnapshot, normalized, sort_by}
use postgresem.Diff.{
  compatible, breaking, added, removed, model, SemanticChange, SemanticDiff, breaking_changes,
  change, compare_changes,
}
use postgresem.Diff.Breaking.{
  breaking_changes-nil, breaking_changes-append, breaking_changes-sort_by, change-compatibility,
  pushed-breaking,
}
use postgresem.Diff.Objects.{
  Named, named_objects, pushed, diff_objects, fields_collection, metrics_collection,
  relationships_collection,
}
use postgresem.Diff.Objects.Laws.{has_name, named_objects-find, named_objects-All}
use postgresem.Diff.Objects.Kept.{diff_objects-breaking, one_change-breaking}
use postgresem.Diff.Snapshots.{
  DiffCodec, model_name, field_name, metric_name, relationship_name, named_models, validate_version,
  model_path, diff_metadata, diff_model, diff_before, diff_after, diff_models, summarized,
  diff_snapshots,
}
use postgresem.Diff.Snapshots.Laws.{
  IsKeptModel, IsKeptBy, IsFaithful, diff_metadata-breaking, validate_version_iff,
}
use postgresem.Diff.Snapshots.Promise.{KeepModels}
use postgresem.Diff.Snapshots.Kept.{normalized-KeepModels}

module _ {Value : Type 0} (codec : DiffCodec Value) (faithful : IsFaithful codec) where
  four :
      (ms fs qs rs : List (SemanticChange Value))
      → breaking_changes (ms ++ fs ++ qs ++ rs)
        ≡ breaking_changes ms + (breaking_changes fs + (breaking_changes qs + breaking_changes rs))
  four ms fs qs rs = omega (
    arith,
    breaking_changes-append (ms ++ fs ++ qs) rs,
    breaking_changes-append (ms ++ fs) qs,
    breaking_changes-append ms fs,
  )

  diff_model-breaking :
      (name : String) (before after : Model) (changes : List (SemanticChange Value))
      → diff_model codec name before after ≡ ok changes
      → (breaking_changes changes ≡ 0) ↔ IsKeptModel codec before after
  unfolding diff_model
  diff_model-breaking name before after changes h =
      let fields = fields_collection codec.field_value in
      let metrics = metrics_collection codec.metric_value in
      let relationships = relationships_collection codec.relationship_value in
      let path = model_path codec name in
      let (fs, one, h₁) =
        >>=-ok (diff_objects fields "field" field_name path before.fields after.fields) _ h in
      let (ms, two, h₂) =
        >>=-ok (diff_objects metrics "metric" metric_name path before.metrics after.metrics) _ h₁ in
      let (rs, three, h₃) =
        >>=-ok
          (diff_objects relationships "relationship" relationship_name path before.relationships
            after.relationships)
          _ h₂ in
      let m = diff_metadata codec name before after in
      let total : breaking_changes changes
          ≡ breaking_changes m
            + (breaking_changes fs + (breaking_changes ms + breaking_changes rs)) =
        sym (ap breaking_changes (ok-injective h₃)) ∙ four m fs ms rs in
      let of_metadata = diff_metadata-breaking codec faithful name before after in
      let of_fields =
        diff_objects-breaking fields "field" field_name path before.fields after.fields fs one in
      let of_metrics =
        diff_objects-breaking metrics "metric" metric_name path before.metrics after.metrics ms
          two in
      let of_relationships =
        diff_objects-breaking relationships "relationship" relationship_name path
          before.relationships after.relationships rs three in
      (
        λ quiet. record {
          metadata = of_metadata.0 (omega (arith, quiet, total));
          fields = of_fields.0 (omega (arith, quiet, total));
          metrics = of_metrics.0 (omega (arith, quiet, total));
          relationships = of_relationships.0 (omega (arith, quiet, total));
        },
        λ kept. omega (
          arith,
          total,
          of_metadata.1 kept.metadata,
          of_fields.1 kept.fields,
          of_metrics.1 kept.metrics,
          of_relationships.1 kept.relationships,
        ),
      )

  diff_before-breaking :
      (after : Named Model) (name : String) (old : Model) (changes : List (SemanticChange Value))
      → diff_before codec after (name, old) ≡ ok changes
      → (breaking_changes changes ≡ 0) ↔ IsKeptBy codec old (lookup name after)
  unfolding diff_before
  diff_before-breaking after name old changes h = elim (Option-cases (lookup name after)) [
    | inl gone ↦
        let both =
          one_change-breaking (fields_collection codec.field_value)
            (change codec.model_value (model_path codec name) model removed breaking (some old)
              none)
            breaking (change-compatibility codec.model_value _ _ _ _ _ _) changes
            (rw (gone, diff_before) at h) in
        rw gone (ground (arith, both))
    | inr (new, found) ↦
        rw found (diff_model-breaking name old new changes (rw (found, diff_before) at h))
  ]

  diff_after-breaking :
      (before : Named Model) (name : String) (new : Model) (changes : List (SemanticChange Value))
      → diff_after codec before (name, new) ≡ ok changes
      → breaking_changes changes ≡ 0
  unfolding diff_after
  diff_after-breaking before name new changes h = elim (Bool-cases (is_some (lookup name before))) [
    | inl old ↦ breaking_changes-nil changes (sym (ok-injective (rw old at h)))
    | inr absent ↦
        (one_change-breaking (fields_collection codec.field_value)
            (change codec.model_value (model_path codec name) model added compatible none
              (some new))
            compatible (change-compatibility codec.model_value _ _ _ _ _ _) changes
            (rw absent at h)).1
          refl
  ]

  diff_models-breaking :
      (before after : Named Model) (changes : List (SemanticChange Value))
      → diff_models codec before after ≡ ok changes
      → (breaking_changes changes ≡ 0)
        ↔ All (λ (name, old). IsKeptBy codec old (lookup name after)) before
  unfolding diff_models
  diff_models-breaking before after changes h =
      let (cs, one, h₁) = >>=-ok (pushed (diff_before codec after) before) _ h in
      let (additions, two, h₂) = >>=-ok (pushed (diff_after codec before) after) _ h₁ in
      let both =
        pushed-breaking (diff_before codec after)
          (λ (name, old). IsKeptBy codec old (lookup name after))
          (λ (name, old) some_changes e. diff_before-breaking after name old some_changes e) before
          cs one in
      let none_of_added =
        (pushed-breaking (diff_after codec before) (λ _. Unit)
            (λ (name, new) some_changes e.
              (λ _. tt, λ _. diff_after-breaking before name new some_changes e))
            after additions two).1
          (All-each (λ _. tt) after) in
      let total : breaking_changes changes ≡ breaking_changes cs + breaking_changes additions =
        sym (ap breaking_changes (ok-injective h₂)) ∙ breaking_changes-append cs additions in
      ground (arith, both, total, none_of_added)

  summarized-compatible :
      (from to : String) (changes : List (SemanticChange Value))
      → ((summarized from to changes).compatibility ≡ compatible) ↔ (breaking_changes changes ≡ 0)
  unfolding summarized
  summarized-compatible from to changes = ground arith

  verdict_iff :
      (before after : SemanticSnapshot) (diff : SemanticDiff Value)
      → diff_snapshots codec before after ≡ ok diff
      → (diff.compatibility ≡ compatible)
        ↔ All
            (λ old.
              IsKeptBy codec old
                (find (has_name model_name (model_name old)) (normalized after).models))
            (normalized before).models
  unfolding diff_snapshots named_models
  verdict_iff before after diff h =
      let (_, _, h₁) = >>=-ok (validate_version before) _ h in
      let (_, _, h₂) = >>=-ok (validate_version after) _ h₁ in
      let (old, one, h₃) =
        >>=-ok (named_objects "model" model_name (normalized before).models) _ h₂ in
      let (new, two, h₄) =
        >>=-ok (named_objects "model" model_name (normalized after).models) _ h₃ in
      let (changes, three, h₅) = >>=-ok (diff_models codec old new) _ h₄ in
      let both = diff_models-breaking old new changes three in
      let entries =
        named_objects-All model_name (λ (n, m). IsKeptBy codec m (lookup n new)) "model"
          (normalized before).models old one in
      let found = named_objects-find model_name "model" (normalized after).models new two in
      let verdict =
        summarized-compatible (normalized before).revision_hash (normalized after).revision_hash
          (sort_by compare_changes changes) in
      let sorted = breaking_changes-sort_by compare_changes changes in
      subst
        (λ d.
          (d.compatibility ≡ compatible)
          ↔ All
              (λ m.
                IsKeptBy codec m
                  (find (has_name model_name (model_name m)) (normalized after).models))
              (normalized before).models)
        (ok-injective h₅)
        (
          λ says.
              All-map (λ m. subst (IsKeptBy codec m) (found (model_name m)))
                (normalized before).models (entries.0 (both.0 (sym sorted ∙ verdict.0 says))),
          λ kept. verdict.1 (
              sorted
              ∙ both.1 (
                  entries.1 (
                    All-map (λ m. subst (IsKeptBy codec m) (sym (found (model_name m))))
                      (normalized before).models kept))),
        )

  -- Where the JSON values of models' metadata tell the metadata apart, a diff reports that the snapshots
  -- are compatible if and only if each model of the first is in the second under its name, with its
  -- source and its timezone, can be queried if it could, has its write policy if it had one (the same
  -- but for the order of the policy's fields and of those of a conflict), and keeps each field,
  -- metric and relationship. A field or a metric is kept that is the same, that was hidden and is
  -- gone, or that was hidden and became visible with the same data type and column, relationship,
  -- time dimension and entity key, or the same data type, aggregation, field, filter, additivity and
  -- anchor; a relationship only if it is the same.
  pub diff_snapshots-compatible :
      (before after : SemanticSnapshot) (diff : SemanticDiff Value)
      → diff_snapshots codec before after ≡ ok diff
      → (diff.compatibility ≡ compatible) ↔ KeepModels before.models after.models
  unfolding diff_snapshots
  diff_snapshots-compatible before after diff h =
      let (_, _, h₁) = >>=-ok (validate_version before) _ h in
      let (_, supported, _) = >>=-ok (validate_version after) _ h₁ in
      let verdict = verdict_iff before after diff h in
      let kept =
        normalized-KeepModels codec before after ((validate_version_iff after).0 supported) in
      (λ says. kept.0 (verdict.0 says), λ keeps. verdict.1 (kept.1 keeps))
