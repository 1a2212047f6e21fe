-- ===== src/Lsm/Json.antt =====
-- `UniqueValue` of crates/postgresem-compiler/src/lsm.rs: JSON without duplicate object keys.
pub mod Laws
use Prim.Native.Nat.{Ordering}
use Prim.Native.String.{compare}
use Prim.Native.String
use postgresem.Prelude.{
  ℕ, String, Bool, true, false, ◌||◌, Option, none, some, str_eq, if◌then◌else◌,
}
use postgresem.Prelude.Results.{Result, ok, err, ◌>>=◌}
use postgresem.Lsq.{ℤ}

-- A number as the JSON library hands it over: an `f64` is its 64 bits, which the code does not
-- compute with.
pub data Number : Type 0 where
  i64 : ℤ → Number
  u64 f64 : ℕ → Number

-- A JSON document, with the members of its objects in the order in which they are written, and
-- `serde_json::Value`, with those of each object in the order of their keys.
mutual
  pub data Value : Type 0 where
    null : Value
    boolean : Bool → Value
    number : Number → Value
    string : String → Value
    array : Values → Value
    object : Members → Value

  pub data Values : Type 0 where
    nil : Values
    cons : Value → Values → Values

  pub data Members : Type 0 where
    end : Members
    member : String → Value → Members → Members

-- `Map::contains_key`
unfoldable pub contains_key : String → Members → Bool
contains_key key end = false
contains_key key (member k v more) = str_eq k key || contains_key key more

-- `Map::insert`
unfoldable pub insert : String → Value → Members → Members
insert key value end = member key value end
insert key value (member k v more) = elim (compare key k) [
  | Ordering.lt ↦ member key value (member k v more)
  | Ordering.eq ↦ member k value more
  | Ordering.gt ↦ member k v (insert key value more)
]

-- the visits of a number: `Number::from_f64` may refuse a float
unfoldable pub visit_number : (ℕ → Option ℕ) → Number → Result String Number
visit_number from_f64 (Number.i64 n) = ok (Number.i64 n)
visit_number from_f64 (Number.u64 n) = ok (Number.u64 n)
visit_number from_f64 (Number.f64 bits) = elim (from_f64 bits) [
  | none ↦ err "JSON number is not finite"
  | some finite ↦ ok (Number.f64 finite)
]

-- `UniqueValueVisitor` over a document
unfoldable mutual
  pub visit : (ℕ → Option ℕ) → Value → Result String Value
  visit from_f64 null = ok null
  visit from_f64 (boolean value) = ok (boolean value)
  visit from_f64 (number n) = visit_number from_f64 n >>= λ m. ok (number m)
  visit from_f64 (string value) = ok (string value)
  visit from_f64 (array values) = visit_seq from_f64 values >>= λ result. ok (array result)
  visit from_f64 (object members) = visit_map from_f64 members end >>= λ result. ok (object result)

  pub visit_seq : (ℕ → Option ℕ) → Values → Result String Values
  visit_seq from_f64 nil = ok nil
  visit_seq from_f64 (cons value values) =
      visit from_f64 value >>= λ first. visit_seq from_f64 values >>= λ rest. ok (cons first rest)

  -- `result` holds the members so far.
  pub visit_map : (ℕ → Option ℕ) → Members → Members → Result String Members
  visit_map from_f64 end result = ok result
  visit_map from_f64 (member key value more) result =
      if contains_key key result
      then err (String.◌++◌ "duplicate object key: " key)
      else visit from_f64 value >>= λ v. visit_map from_f64 more (insert key v result)
