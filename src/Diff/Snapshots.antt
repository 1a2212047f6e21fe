-- ===== src/Diff/Snapshots.antt =====
-- crates/postgresem-compiler/src/diff.rs: `validate_version` and `diff_snapshots`.
pub mod Laws
pub mod Promise
mod Normal
mod Kept
pub mod Compatible
pub mod Summary
use postgresem.Prelude.{
  String, Bool, true, false, not, ◌&&◌, ◌||◌, Option, none, some, List, [], ◌∷◌, ◌++◌, ℕ, ◌-◌, ◌==◌,
  is_some, holds, length, contains, if◌then◌else◌,
}
use postgresem.Prelude.Results.{Result, ok, err, ◌>>=◌, ◌>>◌, reject_if}
use postgresem.Prelude.Ordered.{lookup}
use postgresem.Prelude.Text.{◌⊕◌}
use postgresem.Semantic.{
  Relation, WritableModel, Field, Metric, Relationship, Model, SemanticSnapshot, sort_by,
  normalized,
}
use postgresem.Semantic.Equality.{Relation-discrete, OptionString-discrete, Writable-discrete}
use postgresem.Diff.{
  Compatibility, compatible, breaking, ChangeKind, added, removed, modified, SemanticObjectKind,
  model, SemanticChange, SemanticDiff, DiffError, unsupported_snapshot_version, breaking_changes,
  compare_changes, change,
}
use postgresem.Diff.Objects.{
  Named, named_objects, pushed, diff_objects, fields_collection, metrics_collection,
  relationships_collection,
}

-- What `diff_snapshots` takes of `serde_json`: the values of the types that derive `Serialize`, the
-- object that `json!` writes of a model's metadata, and whether two values are equal.
pub record DiffCodec (Value : Type 0) : Type 0 where
  pub same_value : Value → Value → Bool
  pub metadata : Relation → Option String → Bool → Option WritableModel → Value
  pub model_value : Model → Result String Value
  pub field_value : Field → Result String Value
  pub metric_value : Metric → Result String Value
  pub relationship_value : Relationship → Result String Value

abbrev pub model_name : Model → String
model_name m = m.semantic_name

abbrev pub field_name : Field → String
field_name f = f.semantic_name

abbrev pub metric_name : Metric → String
metric_name m = m.semantic_name

abbrev pub relationship_name : Relationship → String
relationship_name r = r.semantic_name

unfoldable pub named_models : List Model → Result DiffError (Named Model)
named_models = named_objects "model" model_name

-- `SUPPORTED_SNAPSHOT_VERSIONS`
abbrev pub supported_snapshot_versions : List String
supported_snapshot_versions = "1" ∷ "2" ∷ []

-- the loop over the models in `validate_version`
unfoldable pub validate_models : List Model → Result DiffError (Unit {0})
validate_models [] = ok tt
validate_models (m ∷ models) = do
  _ ← named_objects "field" field_name m.fields
  _ ← named_objects "metric" metric_name m.metrics
  _ ← named_objects "relationship" relationship_name m.relationships
  validate_models models

unfoldable pub validate_version : SemanticSnapshot → Result DiffError (Unit {0})
validate_version snapshot = do
  reject_if (not (contains supported_snapshot_versions snapshot.schema_version))
      (unsupported_snapshot_version snapshot.schema_version)
  _ ← named_models snapshot.models
  validate_models snapshot.models

unfoldable pub model_compatibility : Model → Model → Compatibility
model_compatibility before after =
    if not (holds (Relation-discrete before.source after.source))
      || not (holds (OptionString-discrete before.timezone after.timezone))
      || (before.queryable && not after.queryable)
      || (is_some before.writable && not (holds (Writable-discrete before.writable after.writable)))
    then breaking
    else compatible

module _ {Value : Type 0} (codec : DiffCodec Value) where
  unfoldable pub model_metadata : Model → Value
  model_metadata m = codec.metadata m.source m.timezone m.queryable m.writable

  abbrev pub model_path : String → String
  model_path name = "models." ⊕ name

  -- the change of a model's metadata
  unfoldable pub diff_metadata : String → Model → Model → List (SemanticChange Value)
  diff_metadata name before after =
      if codec.same_value (model_metadata before) (model_metadata after)
      then []
      else (record {
        path = model_path name;
        object_kind = model;
        change = modified;
        compatibility = model_compatibility before after;
        before = some (model_metadata before);
        after = some (model_metadata after);
      })
        ∷ []

  -- the rest of a round of the loop over `before_models`, where the model is in both
  unfoldable pub diff_model :
      String → Model → Model → Result DiffError (List (SemanticChange Value))
  diff_model name before after = do
    fields ←
        diff_objects (fields_collection codec.field_value) "field" field_name (model_path name)
          before.fields after.fields
    metrics ←
        diff_objects (metrics_collection codec.metric_value) "metric" metric_name (model_path name)
          before.metrics after.metrics
    relationships ←
        diff_objects (relationships_collection codec.relationship_value) "relationship"
          relationship_name (model_path name) before.relationships after.relationships
    ok (diff_metadata name before after ++ fields ++ metrics ++ relationships)

  -- a round of the loop over `before_models`
  unfoldable pub diff_before :
      Named Model → String × Model → Result DiffError (List (SemanticChange Value))
  diff_before after_models (name, before) = elim (lookup name after_models) [
    | none ↦ do
      removal ← change codec.model_value (model_path name) model removed breaking (some before) none
      ok (removal ∷ [])
    | some after ↦ diff_model name before after
  ]

  -- a round of the loop over `after_models`
  unfoldable pub diff_after :
      Named Model → String × Model → Result DiffError (List (SemanticChange Value))
  diff_after before_models (name, after) = if is_some (lookup name before_models) then ok [] else do
    addition ← change codec.model_value (model_path name) model added compatible none (some after)
    ok (addition ∷ [])

  -- the two loops
  unfoldable pub diff_models :
      Named Model → Named Model → Result DiffError (List (SemanticChange Value))
  diff_models before_models after_models = do
    changes ← pushed (diff_before after_models) before_models
    additions ← pushed (diff_after before_models) after_models
    ok (changes ++ additions)

-- the diff of sorted changes
unfoldable pub summarized :
    {Value : Type 0} → String → String → List (SemanticChange Value) → SemanticDiff Value
summarized from_revision to_revision changes =
    let total = length changes in
    let breaking_count = breaking_changes changes in
    record {
      schema_version = "1";
      from_revision = from_revision;
      to_revision = to_revision;
      compatibility = if breaking_count == 0 then compatible else breaking;
      summary = record {
        total = total;
        compatible = total - breaking_count;
        breaking = breaking_count;
      };
      changes = changes;
    }

unfoldable pub diff_snapshots :
    {Value : Type 0}
    → DiffCodec Value
    → SemanticSnapshot
    → SemanticSnapshot
    → Result DiffError (SemanticDiff Value)
diff_snapshots codec before after = do
  validate_version before
  validate_version after
  before_models ← named_models (normalized before).models
  after_models ← named_models (normalized after).models
  changes ← diff_models codec before_models after_models
  ok (
      summarized (normalized before).revision_hash (normalized after).revision_hash
        (sort_by compare_changes changes))
