-- ===== src/Diff/Snapshots/Promise.antt =====
-- What a consumer of a snapshot may rely on when another one takes its place, for
-- crates/postgresem-compiler/src/diff.rs: a description of its own, of the models as they are given.
use Prim.Native.String.{compare}
use postgresem.Prelude.{◌≡◌, true, false, Option, none, some, List, All, find, ◌⊎◌}
use postgresem.Semantic.{Field, Metric, Relationship, UpsertPolicy, WritableModel, Model, sort_by}
use postgresem.Diff.Objects.Laws.{has_name}
use postgresem.Diff.Snapshots.{model_name, field_name, metric_name, relationship_name}

-- A hidden field that becomes visible, and that may only become nullable or stop being so.
pub record ShowsField (before after : Field) : Type 0 where
  pub hidden : before.visible ≡ false
  pub shown : after.visible ≡ true
  pub data_type : before.data_type ≡ after.data_type
  pub column : before.column ≡ after.column
  pub relationship : before.relationship ≡ after.relationship
  pub time_dimension : before.time_dimension ≡ after.time_dimension
  pub entity_key : before.entity_key ≡ after.entity_key

-- a hidden metric that becomes visible
pub record ShowsMetric (before after : Metric) : Type 0 where
  pub hidden : before.visible ≡ false
  pub shown : after.visible ≡ true
  pub data_type : before.data_type ≡ after.data_type
  pub aggregation : before.aggregation ≡ after.aggregation
  pub field : before.field ≡ after.field
  pub filter : before.filter ≡ after.filter
  pub additivity : before.additivity ≡ after.additivity
  pub aggregation_anchor : before.aggregation_anchor ≡ after.aggregation_anchor

-- Only a hidden field may go.
abbrev pub KeepsField : Field → Option Field → Type 0
KeepsField old none = old.visible ≡ false
KeepsField old (some new) = (old ≡ new) ⊎ ShowsField old new

abbrev pub KeepsMetric : Metric → Option Metric → Type 0
KeepsMetric old none = old.visible ≡ false
KeepsMetric old (some new) = (old ≡ new) ⊎ ShowsMetric old new

abbrev pub KeepsRelationship : Relationship → Option Relationship → Type 0
KeepsRelationship old none = ⊥
KeepsRelationship old (some new) = old ≡ new

-- the same fields of a conflict, in any order
abbrev pub KeepsUpsert : Option UpsertPolicy → Option UpsertPolicy → Type 0
KeepsUpsert none none = Unit
KeepsUpsert (some u) (some v) =
    sort_by compare u.conflict_fields ≡ sort_by compare v.conflict_fields
KeepsUpsert _ _ = ⊥

-- The same policy, where the order of its fields and of those of a conflict does not matter.
pub record KeepsPolicy (before after : WritableModel) : Type 0 where
  pub insert : before.insert ≡ after.insert
  pub upsert : KeepsUpsert before.upsert after.upsert
  pub max_rows : before.max_rows ≡ after.max_rows
  pub max_request_bytes : before.max_request_bytes ≡ after.max_request_bytes
  pub fields :
      sort_by (λ l r. compare l.field r.field) before.fields
      ≡ sort_by (λ l r. compare l.field r.field) after.fields
  pub returning : before.returning ≡ after.returning

abbrev pub KeepsWritable : Option WritableModel → Option WritableModel → Type 0
KeepsWritable none after = Unit
KeepsWritable (some w) none = ⊥
KeepsWritable (some w) (some v) = KeepsPolicy w v

-- A model keeps its source, its timezone, that it can be queried, how it can be written if it can, and
-- each of its fields, metrics and relationships, by their names.
pub record KeepsModel (before after : Model) : Type 0 where
  pub source : before.source ≡ after.source
  pub timezone : before.timezone ≡ after.timezone
  pub queryable : before.queryable ≡ true → after.queryable ≡ true
  pub writable : KeepsWritable before.writable after.writable
  pub fields :
      All (λ f. KeepsField f (find (has_name field_name (field_name f)) after.fields)) before.fields
  pub metrics :
      All
        (λ m. KeepsMetric m (find (has_name metric_name (metric_name m)) after.metrics))
        before.metrics
  pub relationships :
      All
        (λ r.
          KeepsRelationship r
            (find (has_name relationship_name (relationship_name r)) after.relationships))
        before.relationships

-- No model may go.
abbrev pub KeepsBy : Model → Option Model → Type 0
KeepsBy old none = ⊥
KeepsBy old (some new) = KeepsModel old new

-- Each model of the one list is kept in the other, under its name.
abbrev pub KeepModels : List Model → List Model → Type 0
KeepModels before after =
    All (λ old. KeepsBy old (find (has_name model_name (model_name old)) after)) before
