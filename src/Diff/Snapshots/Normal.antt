-- ===== src/Diff/Snapshots/Normal.antt =====
-- Models and normalized models of crates/postgresem-compiler/src/diff.rs keep the same.
use Prim.Native.Nat.{Ordering}
use postgresem.Prelude.{
  ◌≡◌, ◌↔◌, refl, sym, ap, String, true, false, Option, none, some, List, All, All-map, find,
  is_some, holds_iff, arith, map, IsDistinct,
}
use mathlib.Core.Path.{subst}
use mathlib.Core.Option.{some_inj}
use postgresem.Semantic.{
  Field, Metric, Relationship, UpsertPolicy, WritableModel, sort_by, normalized_upsert,
  normalized_writable,
}
use postgresem.Semantic.Sorted.{All-sort_by, find-sort_by}
use postgresem.Semantic.Equality.{
  OptionString-discrete, DataType-discrete, Aggregation-discrete, Additivity-discrete,
  Filter-discrete, Bool-discrete,
}
use postgresem.Prelude.{String-discrete}
use postgresem.Diff.{compatible}
use postgresem.Diff.Objects.{
  Collection, fields_collection, metrics_collection, relationships_collection, field_compatibility,
  metric_compatibility,
}
use postgresem.Diff.Objects.Kept.{IsKept, AreKept}
use postgresem.Diff.Objects.Laws.{has_name}
use postgresem.Diff.Snapshots.{DiffCodec}
use postgresem.Diff.Snapshots.Promise.{
  ShowsField, ShowsMetric, KeepsField, KeepsMetric, KeepsRelationship, KeepsUpsert, KeepsPolicy,
  KeepsWritable,
}

field_compatibility_iff :
    (old new : Field) → (field_compatibility old new ≡ compatible) ↔ ShowsField old new
unfolding field_compatibility
field_compatibility_iff old new =
    let both : (field_compatibility old new ≡ compatible) ↔ (
        (old.visible ≡ false)
        × (new.visible ≡ true)
        × (old.data_type ≡ new.data_type)
        × (old.column ≡ new.column)
        × (old.relationship ≡ new.relationship)
        × (old.time_dimension ≡ new.time_dimension)
        × (old.entity_key ≡ new.entity_key)) =
      ground (
        arith,
        holds_iff (DataType-discrete old.data_type new.data_type),
        holds_iff (String-discrete old.column new.column),
        holds_iff (OptionString-discrete old.relationship new.relationship),
        holds_iff (Bool-discrete old.time_dimension new.time_dimension),
        holds_iff (Bool-discrete old.entity_key new.entity_key),
      ) in
    (
      λ h.
          let (hidden, shown, data_type, column, relationship, time_dimension, entity_key) =
            both.0 h in
          record {
            hidden = hidden;
            shown = shown;
            data_type = data_type;
            column = column;
            relationship = relationship;
            time_dimension = time_dimension;
            entity_key = entity_key;
          },
      λ s. both.1 (
        s.hidden, s.shown, s.data_type, s.column, s.relationship, s.time_dimension, s.entity_key,
      ),
    )

metric_compatibility_iff :
    (old new : Metric) → (metric_compatibility old new ≡ compatible) ↔ ShowsMetric old new
unfolding metric_compatibility
metric_compatibility_iff old new =
    let both : (metric_compatibility old new ≡ compatible) ↔ (
        (old.visible ≡ false)
        × (new.visible ≡ true)
        × (old.data_type ≡ new.data_type)
        × (old.aggregation ≡ new.aggregation)
        × (old.field ≡ new.field)
        × (old.filter ≡ new.filter)
        × (old.additivity ≡ new.additivity)
        × (old.aggregation_anchor ≡ new.aggregation_anchor)) =
      ground (
        arith,
        holds_iff (DataType-discrete old.data_type new.data_type),
        holds_iff (Aggregation-discrete old.aggregation new.aggregation),
        holds_iff (String-discrete old.field new.field),
        holds_iff (Filter-discrete old.filter new.filter),
        holds_iff (Additivity-discrete old.additivity new.additivity),
        holds_iff (OptionString-discrete old.aggregation_anchor new.aggregation_anchor),
      ) in
    (
      λ h.
          let (hidden, shown, data_type, aggregation, field, filter, additivity, anchor) =
            both.0 h in
          record {
            hidden = hidden;
            shown = shown;
            data_type = data_type;
            aggregation = aggregation;
            field = field;
            filter = filter;
            additivity = additivity;
            aggregation_anchor = anchor;
          },
      λ s. both.1 (
        s.hidden, s.shown, s.data_type, s.aggregation, s.field, s.filter, s.additivity,
        s.aggregation_anchor,
      ),
    )

same_upsert :
    (u v : Option UpsertPolicy)
    → ((elim u [ none ↦ none | some p ↦ some (normalized_upsert p) ])
        ≡ (elim v [ none ↦ none | some p ↦ some (normalized_upsert p) ]))
      ↔ KeepsUpsert u v
unfolding normalized_upsert
same_upsert none none = (λ _. tt, λ _. refl)
same_upsert none (some v) = (λ h. cc, λ h. absurd h)
same_upsert (some u) none = (λ h. cc, λ h. absurd h)
same_upsert (some u) (some v) = (
  λ h.
      let same : normalized_upsert u ≡ normalized_upsert v = cc in ap (λ p. p.conflict_fields) same,
  λ h. ap (λ fs. some (record { conflict_fields = fs })) h,
)

same_policy :
    (w v : WritableModel) → (normalized_writable w ≡ normalized_writable v) ↔ KeepsPolicy w v
unfolding normalized_writable
same_policy w v = (
  λ h. record {
    insert = ap (λ p. p.insert) h;
    upsert = (same_upsert w.upsert v.upsert).0 (ap (λ p. p.upsert) h);
    max_rows = ap (λ p. p.max_rows) h;
    max_request_bytes = ap (λ p. p.max_request_bytes) h;
    fields = ap (λ p. p.fields) h;
    returning = ap (λ p. p.returning) h;
  },
  λ k.
      rw
        (
          k.insert,
          (same_upsert w.upsert v.upsert).1 k.upsert,
          k.max_rows,
          k.max_request_bytes,
          k.fields,
          k.returning,
        )
        refl,
)

pub same_writable :
    (w v : Option WritableModel)
    → (is_some (elim w [ none ↦ none | some p ↦ some (normalized_writable p) ]) ≡ true
        → (elim w [ none ↦ none | some p ↦ some (normalized_writable p) ])
          ≡ (elim v [ none ↦ none | some p ↦ some (normalized_writable p) ]))
      ↔ KeepsWritable w v
same_writable none v = (λ _. tt, λ _ h. cc)
same_writable (some w) none = (λ h. absurd (let no = h refl in cc), λ h. absurd h)
same_writable (some w) (some v) =
    (λ h. (same_policy w v).0 (some_inj.0 (h refl)), λ k _. ap some ((same_policy w v).1 k))

module _ {T Value : Type 0} (c : Collection T Value) (Q : T → Option T → Type 0) where
  -- A collection is kept sorted exactly when it is kept as given.
  pub collection_iff :
      (name : T → String) (cmp : T → T → Ordering) (xs ys : List T)
      → IsDistinct (map name ys)
      → ((x : T) (y : Option T) → IsKept c x y ↔ Q x y)
      → AreKept c name (sort_by cmp xs) (sort_by cmp ys)
        ↔ All (λ x. Q x (find (has_name name (name x)) ys)) xs
  collection_iff name cmp xs ys distinct each =
      let found : (x : T)
          → find (has_name name (name x)) (sort_by cmp ys) ≡ find (has_name name (name x)) ys =
        λ x. find-sort_by cmp name (name x) ys distinct in
      let sorted =
        All-sort_by cmp (λ x. IsKept c x (find (has_name name (name x)) (sort_by cmp ys))) xs in
      (
        λ h. All-map (λ x k. (each x _).0 (subst (IsKept c x) (found x) k)) xs (sorted.0 h),
        λ h. sorted.1 (All-map (λ x k. subst (IsKept c x) (sym (found x)) ((each x _).1 k)) xs h),
      )

module _ {Value : Type 0} (codec : DiffCodec Value) where
  pub field_iff :
      (old : Field) (new : Option Field)
      → IsKept (fields_collection codec.field_value) old new ↔ KeepsField old new
  field_iff old none = (λ h. h, λ h. h)
  field_iff old (some new) = ground (arith, field_compatibility_iff old new)

  pub metric_iff :
      (old : Metric) (new : Option Metric)
      → IsKept (metrics_collection codec.metric_value) old new ↔ KeepsMetric old new
  metric_iff old none = (λ h. h, λ h. h)
  metric_iff old (some new) = ground (arith, metric_compatibility_iff old new)

  pub relationship_iff :
      (old : Relationship) (new : Option Relationship)
      → IsKept (relationships_collection codec.relationship_value) old new
        ↔ KeepsRelationship old new
  relationship_iff old none = (λ h. cc, λ h. absurd h)
  relationship_iff old (some new) = ground arith
