-- ===== src/Diff/Tests.antt =====
-- crates/postgresem-compiler/src/diff.rs on two small snapshots.
use postgresem.Prelude.{
  ◌≡◌, ◌↔◌, refl, String, String-discrete, Bool, true, false, Option, none, some, [], ◌∷◌, arith,
  ◌&&◌, holds, holds_iff,
}
use postgresem.Prelude.Results.{ok, err}
use postgresem.Prelude.Ordered.{map_insert, lookup}
use postgresem.Semantic.{
  DataType, Relation, Field, Model, WritableModel, SemanticSnapshot, sort_by, normalized,
  normalized_model, compare_models,
}
use postgresem.Semantic.Equality.{
  Relation-discrete, OptionString-discrete, Writable-discrete, Field-discrete, Bool-discrete,
  DataType-discrete,
}
use postgresem.Diff.{
  Compatibility, compatible, SemanticDiff, breaking_changes, has_breaking_changes, change,
  compare_changes, change_rank,
}
use postgresem.Diff.Objects.{
  named_from, named_objects, diff_object, added_object, pushed, diff_named, diff_objects,
  field_compatibility,
}
use postgresem.Diff.Snapshots.{
  DiffCodec, named_models, validate_models, validate_version, model_metadata, diff_metadata,
  diff_model, diff_before, diff_after, diff_models, summarized, diff_snapshots,
}
use postgresem.Diff.Snapshots.Laws.{IsFaithful, validate_version_iff}
use postgresem.Diff.Snapshots.Promise.{KeepModels}
use postgresem.Diff.Snapshots.Compatible.{diff_snapshots-compatible}
use postgresem.Diff.Snapshots.Summary.{IsSummarized, diff_snapshots-summary}

-- the parts of the metadata, for a JSON object of them
abbrev Metadata : Type 0
Metadata = Relation × Option String × Bool × Option WritableModel

abbrev parts : DiffCodec Metadata
parts = record {
  same_value = λ (r, t, q, w) (r', t', q', w').
      holds (Relation-discrete r r')
      && holds (OptionString-discrete t t')
      && holds (Bool-discrete q q')
      && holds (Writable-discrete w w');
  metadata = λ r t q w. (r, t, q, w);
  model_value = λ m. ok (m.source, m.timezone, m.queryable, m.writable);
  field_value = λ f. ok (record { schema = ""; relation = f.column }, none, f.visible, none);
  metric_value = λ m. err "no metric";
  relationship_value = λ r. err "no relationship";
}

parts-IsFaithful : IsFaithful parts
unfolding model_metadata
parts-IsFaithful a b h = ground (
  arith,
  holds_iff (Relation-discrete a.source b.source),
  holds_iff (OptionString-discrete a.timezone b.timezone),
  holds_iff (Bool-discrete a.queryable b.queryable),
  holds_iff (Writable-discrete a.writable b.writable),
)

abbrev status : Bool → Field
status visible = record {
  semantic_name = "status";
  data_type = DataType.text;
  column = "status";
  relationship = none;
  time_dimension = false;
  entity_key = false;
  visible = visible;
  nullable = false;
}

abbrev orders : Bool → Model
orders visible = record {
  semantic_name = "orders";
  source = record { schema = "public"; relation = "orders" };
  timezone = none;
  queryable = true;
  writable = none;
  fields = status visible ∷ [];
  metrics = [];
  relationships = [];
}

abbrev snapshot : Bool → SemanticSnapshot
snapshot visible = record {
  schema_version = "1";
  revision_hash = "a";
  models = orders visible ∷ [];
}

abbrev shown : SemanticDiff Metadata
shown = record {
  schema_version = "1";
  from_revision = "a";
  to_revision = "a";
  compatibility = compatible;
  summary = record { total = 1; compatible = 1; breaking = 0 };
  changes =
      record {
        path = "models.orders.fields.status";
        object_kind = postgresem.Diff.field;
        change = postgresem.Diff.modified;
        compatibility = compatible;
        before = some (record { schema = ""; relation = "status" }, none, false, none);
        after = some (record { schema = ""; relation = "status" }, none, true, none);
      }
      ∷ [];
}

diff_shown : diff_snapshots parts (snapshot false) (snapshot true) ≡ ok shown
unfolding diff_snapshots validate_version named_models named_objects named_from lookup map_insert
    validate_models normalized normalized_model compare_models sort_by diff_models pushed
    diff_before diff_model diff_objects diff_named diff_object added_object diff_after diff_metadata
    model_metadata change summarized breaking_changes compare_changes change_rank
    field_compatibility Field-discrete Relation-discrete OptionString-discrete Writable-discrete
    Bool-discrete String-discrete DataType-discrete
diff_shown = refl

diff_snapshots-compatible_example :
    (compatible ≡ compatible) ↔ KeepModels (orders false ∷ []) (orders true ∷ [])
diff_snapshots-compatible_example =
    diff_snapshots-compatible parts parts-IsFaithful (snapshot false) (snapshot true) shown
      diff_shown

diff_snapshots-summary_example : IsSummarized shown
diff_snapshots-summary_example =
    diff_snapshots-summary parts (snapshot false) (snapshot true) shown diff_shown

validate_version_iff_example : validate_version (snapshot true) ≡ ok tt
validate_version_iff_example = (validate_version_iff (snapshot true)).1 (record {
  version = refl;
  models = (refl, tt);
  objects = (record { fields = (refl, tt); metrics = tt; relationships = tt }, tt);
})
