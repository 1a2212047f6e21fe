-- ===== src/Lsm/Json/Laws.antt =====
-- `UniqueValue` of crates/postgresem-compiler/src/lsm.rs against the documents without duplicate
-- keys.
use text.Mathlib.TextEquality.{path_by_compare}
use postgresem.Prelude.{
  ℕ, ◌≡◌, ◌↔◌, refl, String, Bool, false, ◌||◌, Option, some, str_eq, str_eq_iff, arith, Bool-cases,
  inl, inr, Option-cases,
}
use postgresem.Prelude.Results.{ok, >>=-ok, err-ok}
use postgresem.Lsm.Json.{
  Number, Value, null, boolean, number, string, array, object, Values, nil, cons, Members, end,
  member, contains_key, insert, visit_number, visit, visit_seq, visit_map,
}

pub contains_key-insert :
    (k j : String) (v : Value) (ms : Members)
    → contains_key j (insert k v ms) ≡ (str_eq k j || contains_key j ms)
unfolding contains_key insert
contains_key-insert k j v end = refl
contains_key-insert k j v (member i w ms) =
    ground
      (arith, contains_key-insert k j v ms, str_eq_iff k j, str_eq_iff i j, path_by_compare k i)

module _ (from_f64 : ℕ → Option ℕ) where
  -- The library takes the number for a JSON number: it is not a float that is not finite.
  abbrev pub IsFinite : Number → Type 0
  IsFinite (Number.i64 n) = Unit
  IsFinite (Number.u64 n) = Unit
  IsFinite (Number.f64 bits) = (finite : ℕ) × (from_f64 bits ≡ some finite)

  -- No object of the document has a key twice, and its numbers are finite.
  mutual
    pub data IsUnique : Value → Type 0 where
      null_ok : IsUnique null
      boolean_ok : (b : Bool) → IsUnique (boolean b)
      number_ok : (n : Number) → IsFinite n → IsUnique (number n)
      string_ok : (s : String) → IsUnique (string s)
      array_ok : (vs : Values) → AreUnique vs → IsUnique (array vs)
      object_ok : (ms : Members) → HaveUnique ms → IsUnique (object ms)

    pub data AreUnique : Values → Type 0 where
      no_value : AreUnique nil
      one_value : (v : Value) (vs : Values) → IsUnique v → AreUnique vs → AreUnique (cons v vs)

    pub data HaveUnique : Members → Type 0 where
      no_member : HaveUnique end
      one_member :
          (k : String) (v : Value) (ms : Members)
          → contains_key k ms ≡ false
          → IsUnique v
          → HaveUnique ms
          → HaveUnique (member k v ms)

-- no key of the first members is among the second
abbrev AreNew : Members → Members → Type 0
AreNew end seen = Unit
AreNew (member k v ms) seen = (contains_key k seen ≡ false) × AreNew ms seen

AreNew-insert_iff :
    (k : String) (v : Value) (ms seen : Members)
    → AreNew ms (insert k v seen) ↔ (AreNew ms seen × (contains_key k ms ≡ false))
unfolding contains_key
AreNew-insert_iff k v end seen = ground arith
AreNew-insert_iff k v (member j w ms) seen = ground (
  arith,
  AreNew-insert_iff k v ms seen,
  contains_key-insert k j v seen,
  str_eq_iff k j,
  str_eq_iff j k,
)

AreNew-end : (ms : Members) → AreNew ms end
unfolding contains_key
AreNew-end end = tt
AreNew-end (member k v ms) = (refl, AreNew-end ms)

module _ (from_f64 : ℕ → Option ℕ) where
  visit_number_sound : (n m : Number) → visit_number from_f64 n ≡ ok m → IsFinite from_f64 n
  unfolding visit_number
  visit_number_sound (Number.i64 n) m h = tt
  visit_number_sound (Number.u64 n) m h = tt
  visit_number_sound (Number.f64 bits) m h = elim (Option-cases (from_f64 bits)) [
    | inl refused ↦ ground arith
    | inr (finite, taken) ↦ (finite, taken)
  ]

  visit_number_complete :
      (n : Number) → IsFinite from_f64 n → (m : Number) × (visit_number from_f64 n ≡ ok m)
  unfolding visit_number
  visit_number_complete (Number.i64 n) h = (Number.i64 n, refl)
  visit_number_complete (Number.u64 n) h = (Number.u64 n, refl)
  visit_number_complete (Number.f64 bits) (finite, taken) =
      (Number.f64 finite, rw (taken, visit_number))

  mutual
    unfolding visit visit_seq visit_map contains_key

    visit_sound : (d v : Value) → visit from_f64 d ≡ ok v → IsUnique from_f64 d
    visit_sound null v h = null_ok
    visit_sound (boolean b) v h = boolean_ok b
    visit_sound (number n) v h =
        let (m, taken, _) = >>=-ok (visit_number from_f64 n) _ h in
        number_ok n (visit_number_sound n m taken)
    visit_sound (string s) v h = string_ok s
    visit_sound (array vs) v h =
        let (ws, taken, _) = >>=-ok (visit_seq from_f64 vs) _ h in
        array_ok vs (visit_seq_sound vs ws taken)
    visit_sound (object ms) v h =
        let (ns, taken, _) = >>=-ok (visit_map from_f64 ms end) _ h in
        object_ok ms (visit_map_sound ms end ns taken).0

    visit_seq_sound : (vs ws : Values) → visit_seq from_f64 vs ≡ ok ws → AreUnique from_f64 vs
    visit_seq_sound nil ws h = no_value
    visit_seq_sound (cons v vs) ws h =
        let (w, first, h₁) = >>=-ok (visit from_f64 v) _ h in
        let (rest, more, _) = >>=-ok (visit_seq from_f64 vs) _ h₁ in
        one_value v vs (visit_sound v w first) (visit_seq_sound vs rest more)

    visit_map_sound :
        (ms seen result : Members)
        → visit_map from_f64 ms seen ≡ ok result
        → HaveUnique from_f64 ms × AreNew ms seen
    visit_map_sound end seen result h = (no_member, tt)
    visit_map_sound (member k v ms) seen result h = elim (Bool-cases (contains_key k seen)) [
      | inl twice ↦ absurd (err-ok (rw twice at h))
      | inr new ↦
          let (w, first, h₁) = >>=-ok (visit from_f64 v) _ (rw new at h) in
          let (have, are) = visit_map_sound ms (insert k w seen) result h₁ in
          let (fresh, once) = (AreNew-insert_iff k w ms seen).0 are in
          (one_member k v ms once (visit_sound v w first) have, (new, fresh))
    ]

  mutual
    unfolding visit visit_seq visit_map contains_key

    visit_complete : {d : Value} → IsUnique from_f64 d → (v : Value) × (visit from_f64 d ≡ ok v)
    visit_complete null_ok = (null, refl)
    visit_complete (boolean_ok b) = (boolean b, refl)
    visit_complete (number_ok n h) =
        let (m, taken) = visit_number_complete n h in (number m, rw taken)
    visit_complete (string_ok s) = (string s, refl)
    visit_complete (array_ok vs h) = let (ws, taken) = visit_seq_complete h in (array ws, rw taken)
    visit_complete (object_ok ms h) =
        let (ns, taken) = visit_map_complete h end (AreNew-end ms) in (object ns, rw taken)

    visit_seq_complete :
        {vs : Values} → AreUnique from_f64 vs → (ws : Values) × (visit_seq from_f64 vs ≡ ok ws)
    visit_seq_complete no_value = (nil, refl)
    visit_seq_complete (one_value v vs h k) =
        let (w, first) = visit_complete h in
        let (ws, more) = visit_seq_complete k in (cons w ws, rw (first, more))

    visit_map_complete :
        {ms : Members}
        → HaveUnique from_f64 ms
        → (seen : Members) → AreNew ms seen
        → (result : Members) × (visit_map from_f64 ms seen ≡ ok result)
    visit_map_complete no_member seen new = (seen, refl)
    visit_map_complete (one_member k v ms once h more) seen (new, fresh) =
        let (w, first) = visit_complete h in
        let (result, rest) =
          visit_map_complete more (insert k w seen)
            ((AreNew-insert_iff k w ms seen).1 (fresh, once)) in
        (result, rw (new, first) rest)

  -- A document is read exactly when no object in it, at any depth, has a key twice and the library
  -- takes each of its numbers.
  pub visit_iff : (d : Value) → ((v : Value) × (visit from_f64 d ≡ ok v)) ↔ IsUnique from_f64 d
  visit_iff d = (λ (v, h). visit_sound d v h, λ h. visit_complete h)
