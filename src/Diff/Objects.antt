-- ===== src/Diff/Objects.antt =====
-- crates/postgresem-compiler/src/diff.rs: the objects of a model, by their names.
pub mod Laws
pub mod Kept
use postgresem.Prelude.{
  String, String-discrete, Bool, true, false, not, ◌&&◌, Option, none, some, List, [], ◌∷◌, ◌++◌,
  is_some, holds, if◌then◌else◌,
}
use postgresem.Prelude.Results.{Result, ok, err, ◌>>=◌}
use postgresem.Prelude.Ordered.{map_insert, lookup}
use postgresem.Prelude.Text.{◌⊕◌}
use postgresem.Semantic.{Field, Metric, Relationship}
use postgresem.Semantic.Equality.{
  OptionString-discrete, Field-discrete, Metric-discrete, Relationship-discrete, DataType-discrete,
  Aggregation-discrete, Additivity-discrete, Filter-discrete, Bool-discrete,
}
use postgresem.Diff.{
  Compatibility, compatible, breaking, ChangeKind, added, removed, modified, SemanticObjectKind,
  field, metric, relationship, SemanticChange, DiffError, duplicate_object, change,
}

abbrev pub Named : Type 0 → Type 0
Named T = List (String × T)

module _ {T : Type 0} where
  -- the loop of `named_objects`
  unfoldable pub named_from : String → (T → String) → List T → Named T → Result DiffError (Named T)
  named_from kind name [] named = ok named
  named_from kind name (object ∷ objects) named =
      if is_some (lookup (name object) named)
      then err (duplicate_object kind (name object))
      else named_from kind name objects (map_insert (name object) object named)

  unfoldable pub named_objects : String → (T → String) → List T → Result DiffError (Named T)
  named_objects kind name objects = named_from kind name objects []

-- What `diff_named` is told of the objects of a collection.
pub record Collection (T Value : Type 0) : Type 0 where
  pub name : String
  pub kind : SemanticObjectKind
  pub visible : T → Bool
  pub modified_compatibility : T → T → Compatibility
  pub same : Discrete T
  pub to_value : T → Result String Value

module _ {T Value : Type 0} (c : Collection T Value) where
  abbrev pub path_of : String → String → String
  path_of model_path name = model_path ⊕ "." ⊕ c.name ⊕ "." ⊕ name

  abbrev pub removed_compatibility : T → Compatibility
  removed_compatibility object = if c.visible object then breaking else compatible

  -- a round of the loop over `before`
  unfoldable pub diff_object :
      String → Named T → String × T → Result DiffError (List (SemanticChange Value))
  diff_object model_path after (name, old) = elim (lookup name after) [
    | none ↦ do
      removal ←
          change c.to_value (path_of model_path name) c.kind removed (removed_compatibility old)
            (some old) none
      ok (removal ∷ [])
    | some new ↦ if holds (c.same old new) then ok [] else do
      modification ←
          change c.to_value (path_of model_path name) c.kind modified
            (c.modified_compatibility old new) (some old) (some new)
      ok (modification ∷ [])
  ]

  -- a round of the loop over `after`
  unfoldable pub added_object :
      String → Named T → String × T → Result DiffError (List (SemanticChange Value))
  added_object model_path before (name, new) = if is_some (lookup name before) then ok [] else do
    addition ← change c.to_value (path_of model_path name) c.kind added compatible none (some new)
    ok (addition ∷ [])

-- A loop that pushes the changes of each element.
unfoldable pub pushed :
    {A Value : Type 0}
    → (A → Result DiffError (List (SemanticChange Value)))
    → List A
    → Result DiffError (List (SemanticChange Value))
pushed f [] = ok []
pushed f (x ∷ xs) = do first ← f x; rest ← pushed f xs; ok (first ++ rest)

unfoldable pub diff_named :
    {T Value : Type 0}
    → Collection T Value
    → String
    → Named T
    → Named T
    → Result DiffError (List (SemanticChange Value))
diff_named c model_path before after = do
  changes ← pushed (diff_object c model_path after) before
  additions ← pushed (added_object c model_path before) after
  ok (changes ++ additions)

-- `objects` under their names on both sides, and their changes
unfoldable pub diff_objects :
    {T Value : Type 0}
    → Collection T Value
    → String
    → (T → String)
    → String
    → List T
    → List T
    → Result DiffError (List (SemanticChange Value))
diff_objects c kind name model_path before after = do
  old ← named_objects kind name before
  new ← named_objects kind name after
  diff_named c model_path old new

unfoldable pub field_compatibility : Field → Field → Compatibility
field_compatibility before after =
    let only_became_visible =
      not before.visible
      && after.visible
      && holds (DataType-discrete before.data_type after.data_type)
      && holds (String-discrete before.column after.column)
      && holds (OptionString-discrete before.relationship after.relationship)
      && holds (Bool-discrete before.time_dimension after.time_dimension)
      && holds (Bool-discrete before.entity_key after.entity_key) in
    if only_became_visible then compatible else breaking

unfoldable pub metric_compatibility : Metric → Metric → Compatibility
metric_compatibility before after =
    let only_became_visible =
      not before.visible
      && after.visible
      && holds (DataType-discrete before.data_type after.data_type)
      && holds (Aggregation-discrete before.aggregation after.aggregation)
      && holds (String-discrete before.field after.field)
      && holds (Filter-discrete before.filter after.filter)
      && holds (Additivity-discrete before.additivity after.additivity)
      && holds (OptionString-discrete before.aggregation_anchor after.aggregation_anchor) in
    if only_became_visible then compatible else breaking

module _ {Value : Type 0} where
  -- the arguments of `diff_fields`
  abbrev pub fields_collection : (Field → Result String Value) → Collection Field Value
  fields_collection to_value = record {
    name = "fields";
    kind = field;
    visible = λ f. f.visible;
    modified_compatibility = field_compatibility;
    same = Field-discrete;
    to_value = to_value;
  }

  -- the arguments of `diff_metrics`
  abbrev pub metrics_collection : (Metric → Result String Value) → Collection Metric Value
  metrics_collection to_value = record {
    name = "metrics";
    kind = metric;
    visible = λ m. m.visible;
    modified_compatibility = metric_compatibility;
    same = Metric-discrete;
    to_value = to_value;
  }

  -- the arguments of `diff_relationships`
  abbrev pub relationships_collection :
      (Relationship → Result String Value) → Collection Relationship Value
  relationships_collection to_value = record {
    name = "relationships";
    kind = relationship;
    visible = λ r. true;
    modified_compatibility = λ before after. breaking;
    same = Relationship-discrete;
    to_value = to_value;
  }
