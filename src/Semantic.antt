-- ===== src/Semantic.antt =====
-- crates/postgresem-compiler/src/semantic.rs: the published semantic model and its revision hash.
pub mod Equality
pub mod Sorted
pub mod Ordered
use Prim.Native.Nat.{Ordering}
use Prim.Native.String.{compare}
use postgresem.Prelude.{
  ℕ, String, Bool, true, ◌&&◌, Option, none, some, List, [], ◌∷◌, map, str_eq, ◌==◌, ◌≡◌, ◌↔◌,
  arith,
}
use postgresem.Prelude.Results.{Result, ok, ◌>>=◌}
use postgresem.Hash.{sha256}
use postgresem.Lsq.{Literal}

pub data DataType : Type 0 where
  boolean integer numeric text date timestamp timestamp_tz : DataType

pub data Aggregation : Type 0 where
  count count_distinct sum min max avg : Aggregation

pub data Additivity : Type 0 where
  additive semi_additive non_additive : Additivity

pub data Cardinality : Type 0 where
  one_to_one many_to_one one_to_many many_to_many : Cardinality

pub data JoinType : Type 0 where
  inner left : JoinType

pub record Relation : Type 0 where
  pub schema : String
  pub relation : String

pub record Field : Type 0 where
  pub semantic_name : String
  pub data_type : DataType
  pub column : String
  pub relationship : Option String
  pub time_dimension : Bool
  pub entity_key : Bool
  pub visible : Bool
  pub nullable : Bool

pub record WritableField : Type 0 where
  pub field : String
  pub nullable : Bool
  pub required_on_insert : Bool
  pub updatable_on_conflict : Bool

pub record UpsertPolicy : Type 0 where
  pub conflict_fields : List String

pub record WritableModel : Type 0 where
  pub insert : Bool
  pub upsert : Option UpsertPolicy
  pub max_rows : ℕ
  pub max_request_bytes : ℕ
  pub fields : List WritableField
  pub returning : List String

pub record MetricFilter : Type 0 where
  pub field : String
  pub value : Literal

pub record Metric : Type 0 where
  pub semantic_name : String
  pub data_type : DataType
  pub aggregation : Aggregation
  pub field : String
  pub filter : Option MetricFilter
  pub additivity : Option Additivity
  pub aggregation_anchor : Option String
  pub visible : Bool

pub record Relationship : Type 0 where
  pub semantic_name : String
  pub target_model : String
  pub target : Relation
  pub cardinality : Cardinality
  pub join_type : JoinType
  pub from_column : String
  pub to_column : String

pub record Model : Type 0 where
  pub semantic_name : String
  pub source : Relation
  pub timezone : Option String
  pub queryable : Bool
  pub writable : Option WritableModel
  pub fields : List Field
  pub metrics : List Metric
  pub relationships : List Relationship

pub record SemanticSnapshot : Type 0 where
  pub schema_version : String
  pub revision_hash : String
  pub models : List Model

-- `Ordering::then_with`
abbrev pub then_with : Ordering → Ordering → Ordering
then_with Ordering.eq o = o
then_with o _ = o

abbrev pub insert_by {ℓ} : {A : Type ℓ} → (A → A → Ordering) → A → List A → List A
insert_by cmp x [] = x ∷ []
insert_by cmp x (y ∷ ys) = elim (cmp x y) [ Ordering.gt ↦ y ∷ insert_by cmp x ys | _ ↦ x ∷ y ∷ ys ]

-- `[T]::sort_by`: equal elements keep their order.
unfoldable pub sort_by {ℓ} : {A : Type ℓ} → (A → A → Ordering) → List A → List A
sort_by cmp [] = []
sort_by cmp (x ∷ xs) = insert_by cmp x (sort_by cmp xs)

unfoldable pub normalized_upsert : UpsertPolicy → UpsertPolicy
normalized_upsert u = record { conflict_fields = sort_by compare u.conflict_fields }

unfoldable pub normalized_writable : WritableModel → WritableModel
normalized_writable w = record w {
  fields = sort_by (λ l r. compare l.field r.field) w.fields;
  upsert = elim w.upsert [ none ↦ none | some u ↦ some (normalized_upsert u) ];
}

unfoldable pub normalized_model : Model → Model
normalized_model m = record m {
  fields = sort_by (λ l r. compare l.semantic_name r.semantic_name) m.fields;
  metrics = sort_by (λ l r. compare l.semantic_name r.semantic_name) m.metrics;
  writable = elim m.writable [ none ↦ none | some w ↦ some (normalized_writable w) ];
  relationships =
      sort_by
        (λ l r.
          then_with (compare l.semantic_name r.semantic_name)
            (compare l.target_model r.target_model))
        m.relationships;
}

unfoldable pub compare_models : Model → Model → Ordering
compare_models l r = then_with (compare l.semantic_name r.semantic_name) (
    then_with (compare l.source.schema r.source.schema)
      (compare l.source.relation r.source.relation))

unfoldable pub normalized : SemanticSnapshot → SemanticSnapshot
normalized s = record s { models = map normalized_model (sort_by compare_models s.models) }

-- What the revision hash takes of `serde_json` and of `sha2`.
pub record SnapshotCodec : Type 0 where
  pub to_vec : SemanticSnapshot → Result String (List ℕ)
  pub digest : List ℕ → List ℕ

unfoldable pub calculate_revision_hash : SnapshotCodec → SemanticSnapshot → Result String String
calculate_revision_hash codec s = do
  bytes ← codec.to_vec (record (normalized s) { revision_hash = "" })
  ok (sha256 codec.digest bytes)

abbrev rank : DataType → ℕ
rank boolean = 0
rank integer = 1
rank numeric = 2
rank text = 3
rank date = 4
rank timestamp = 5
rank timestamp_tz = 6

-- `DataType::eq`
abbrev pub same_type : DataType → DataType → Bool
same_type a b = rank a == rank b

pub same_type_iff : (a b : DataType) → (same_type a b ≡ true) ↔ (a ≡ b)
same_type_iff a b = ground arith

-- `Relation::eq`
abbrev pub same_relation : Relation → Relation → Bool
same_relation a b = str_eq a.schema b.schema && str_eq a.relation b.relation
