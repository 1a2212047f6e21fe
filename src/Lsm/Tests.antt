-- ===== src/Lsm/Tests.antt =====
-- crates/postgresem-compiler/src/lsm.rs on one mutation.
use postgresem.Prelude.{ℕ, ◌≡◌, refl, Option, none, [], ◌∷◌, arith}
use postgresem.Prelude.Results.{ok}
use postgresem.Prelude.Text.{as_bytes, is_blank}
use postgresem.Hash.{sha256}
use postgresem.Lsm.{
  MutationOperation, MutationValue, LogicalSemanticMutation, NormalizedLsm, is_well_formed,
}
use postgresem.Lsm.Json.{
  Number, Value, Members, visit, visit_map, visit_number, contains_key, insert,
}
use postgresem.Lsm.Json.Laws.{IsUnique, HaveUnique, visit_iff}
use postgresem.Lsm.Validate.{
  MutationCodec, valid_bounded_text, validate_entries, validate_rows, validate_mutation,
  normalize_lsm,
}
use postgresem.Lsm.Validate.Laws.{IsMutation, validate_mutation_iff}

-- `{"b": 1, "a": null}`
abbrev document : Value
document =
    Value.object
      (Members.member "b" (Value.number (Number.u64 1)) (Members.member "a" Value.null Members.end))

no_float : ℕ → Option ℕ
no_float bits = none

visit_example : (v : Value) × (visit no_float document ≡ ok v)
unfolding contains_key
visit_example = (visit_iff no_float document).1 (
    IsUnique.object_ok _ (
      HaveUnique.one_member "b" (Value.number (Number.u64 1)) _ refl
        (IsUnique.number_ok (Number.u64 1) tt)
        (HaveUnique.one_member "a" Value.null _ refl IsUnique.null_ok HaveUnique.no_member)))

abbrev new_orders : LogicalSemanticMutation
new_orders = record {
  schema_version = "1";
  operation = MutationOperation.insert;
  model = "orders";
  idempotency_key = "k";
  rows = (("status", MutationValue.text "new") ∷ []) ∷ (("status", MutationValue.null) ∷ []) ∷ [];
}

new_orders-IsMutation : IsMutation new_orders
unfolding is_blank is_well_formed as_bytes postgresem.Lsq.Literals.is_well_formed
new_orders-IsMutation = record {
  version = refl;
  model = (refl, omega arith);
  idempotency_key = (refl, omega arith);
  some_row = omega arith;
  few_rows = omega arith;
  rows = (
    record {
      some_field = omega arith;
      few_fields = omega arith;
      same_fields = refl;
      entries = (((refl, omega arith), refl), tt);
    },
    (
      record {
        some_field = omega arith;
        few_fields = omega arith;
        same_fields = refl;
        entries = (((refl, omega arith), refl), tt);
      },
      tt,
    ),
  );
}

validate_mutation_example : validate_mutation new_orders ≡ ok tt
validate_mutation_example = (validate_mutation_iff new_orders).1 new_orders-IsMutation

-- a library that reads and writes the one mutation
abbrev one_mutation : MutationCodec
one_mutation = record {
  parse = λ input. ok document;
  from_f64 = λ bits. none;
  from_value = λ value. ok new_orders;
  to_string = λ mutation. ok "new orders";
  digest = λ bytes. bytes;
}

abbrev normalized_orders : NormalizedLsm
normalized_orders = record {
  mutation = new_orders;
  canonical_json = "new orders";
  hash = sha256 (λ bytes. bytes) (as_bytes "new orders");
  idempotency_key_hash = sha256 (λ bytes. bytes) (as_bytes "k");
  input_bytes = 2;
}

normalize_orders : normalize_lsm one_mutation (123 ∷ 125 ∷ []) ≡ ok normalized_orders
unfolding normalize_lsm visit visit_map visit_number contains_key insert validate_mutation
    validate_rows validate_entries valid_bounded_text is_blank is_well_formed as_bytes
    postgresem.Lsq.Literals.is_well_formed
normalize_orders = refl
