-- ===== src/Diff.antt =====
-- crates/postgresem-compiler/src/diff.rs: the changes between two snapshots, and how they compare.
pub mod Breaking
pub mod Objects
pub mod Snapshots
mod Tests
use Prim.Native.Nat.{Ordering}
use Prim.Native.String.{compare}
use Prim.Native.Nat.{compare as compare_ℕ}
use postgresem.Prelude.{
  ℕ, suc, String, Bool, true, false, Option, none, some, List, [], ◌∷◌, if◌then◌else◌,
}
use postgresem.Prelude.Results.{Result, ok, err, ◌>>=◌}
use postgresem.Semantic.{then_with}

pub data Compatibility : Type 0 where
  compatible breaking : Compatibility

pub data ChangeKind : Type 0 where
  added removed modified : ChangeKind

pub data SemanticObjectKind : Type 0 where
  model field metric relationship : SemanticObjectKind

-- `Value` is the JSON value of the library.
pub record SemanticChange (Value : Type 0) : Type 0 where
  pub path : String
  pub object_kind : SemanticObjectKind
  pub change : ChangeKind
  pub compatibility : Compatibility
  pub before : Option Value
  pub after : Option Value

pub record DiffSummary : Type 0 where
  pub total : ℕ
  pub compatible : ℕ
  pub breaking : ℕ

pub record SemanticDiff (Value : Type 0) : Type 0 where
  pub schema_version : String
  pub from_revision : String
  pub to_revision : String
  pub compatibility : Compatibility
  pub summary : DiffSummary
  pub changes : List (SemanticChange Value)

pub data DiffError : Type 0 where
  unsupported_snapshot_version : String → DiffError
  duplicate_object : String → String → DiffError
  serialization : String → DiffError

-- `compatibility == Compatibility::Breaking`
abbrev pub is_breaking : Compatibility → Bool
is_breaking compatible = false
is_breaking breaking = true

-- `SemanticDiff::has_breaking_changes`
abbrev pub has_breaking_changes : {Value : Type 0} → SemanticDiff Value → Bool
has_breaking_changes diff = is_breaking diff.compatibility

unfoldable pub change_rank : ChangeKind → ℕ
change_rank removed = 0
change_rank modified = 1
change_rank added = 2

-- the order of the changes
unfoldable pub compare_changes :
    {Value : Type 0} → SemanticChange Value → SemanticChange Value → Ordering
compare_changes left right =
    then_with (compare left.path right.path)
      (compare_ℕ (change_rank left.change) (change_rank right.change))

-- `before.map(serde_json::to_value).transpose()?`
abbrev pub transposed :
    {T Value : Type 0} → (T → Result String Value) → Option T → Result DiffError (Option Value)
transposed to_value none = ok none
transposed to_value (some object) = elim (to_value object) [
  | ok value ↦ ok (some value)
  | err failure ↦ err (serialization failure)
]

unfoldable pub change :
    {T Value : Type 0}
    → (T → Result String Value)
    → String
    → SemanticObjectKind
    → ChangeKind
    → Compatibility
    → Option T
    → Option T
    → Result DiffError (SemanticChange Value)
change to_value path object_kind kind compatibility before after = do
  old ← transposed to_value before
  new ← transposed to_value after
  ok (record {
    path = path;
    object_kind = object_kind;
    change = kind;
    compatibility = compatibility;
    before = old;
    after = new;
  })

-- how many changes break
unfoldable pub breaking_changes : {Value : Type 0} → List (SemanticChange Value) → ℕ
breaking_changes [] = 0
breaking_changes (c ∷ changes) =
    let rest = breaking_changes changes in if is_breaking c.compatibility then suc rest else rest
