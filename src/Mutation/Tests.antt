-- ===== src/Mutation/Tests.antt =====
-- crates/postgresem-compiler/src/mutation.rs on two rows of one model.
use postgresem.Prelude.{ℕ}
use postgresem.Prelude.{◌≡◌, ◌≢◌, refl, true, false, none, some, List, [], ◌∷◌, arith}
use postgresem.Prelude.Results.{ok, err}
use postgresem.Prelude.Ordered.{lookup, map_insert}
use postgresem.Prelude.Stateful.{traverse}
use postgresem.Prelude.Text.{is_blank, as_bytes, join, decimal}
use postgresem.Semantic.{DataType, Field, SemanticSnapshot}
use postgresem.Lsm.{MutationOperation, MutationValue, Row, NormalizedLsm, is_well_formed}
use postgresem.Lsm.Validate.Laws.{IsMutation}
use postgresem.Mutation.{default_options, MutationParameter, panic, collect}
use postgresem.Mutation.Validate.{fields_by_name}
use postgresem.Mutation.Rows.{push_value, render_value, render_row, parameter_sql}
use postgresem.Mutation.Rows.Laws.{cells_of, Adds, render_rows-Adds}
use postgresem.Mutation.Render.{MutationCompilerCodec}
use postgresem.Semantic.{calculate_revision_hash}
use postgresem.Hash.{sha256, encode_hex, is_sha256, is_sha256_bytes}
use postgresem.Prelude.Results.{map_results}
use postgresem.Mutation.{allows, CompiledMutation}
use postgresem.Mutation.Validate.{
  validate_snapshot, validate_writable_model, check_fields, check_returning, check_upsert,
  validate_value,
}
use postgresem.Mutation.Render.{
  render, render_statement, quoted_column, returning_item, returning_column, column_of,
  conflict_clause,
}
use postgresem.Mutation.Compile.{
  compile_lsm, compile_rows, find_writable, check_limits, check_operation, check_values, check_name,
  check_names, check_required, resolve_update_names, policies_by_name,
}
use postgresem.Mutation.Compile.Permitted.{IsPermitted, compile_lsm-IsPermitted}
use postgresem.Mutation.Compile.Total.{compile_lsm-NoPanic}

abbrev status : Field
status = record {
  semantic_name = "status";
  data_type = DataType.text;
  column = "status";
  relationship = none;
  time_dimension = false;
  entity_key = false;
  visible = true;
  nullable = true;
}

abbrev new_rows : List Row
new_rows = (("status", MutationValue.text "new") ∷ []) ∷ (("status", MutationValue.null) ∷ []) ∷ []

abbrev parameters : List MutationParameter
parameters =
    record { position = 1; data_type = DataType.text; value = MutationValue.text "new" }
    ∷ record { position = 2; data_type = DataType.text; value = MutationValue.null }
    ∷ []

render_new_rows :
    traverse (render_row (fields_by_name (status ∷ [])) ("status" ∷ [])) new_rows []
    ≡ ok ("  ($1::text)" ∷ "  ($2::text)" ∷ [], parameters)
unfolding traverse render_row render_value push_value fields_by_name collect map_insert lookup
    parameter_sql join decimal
render_new_rows = refl

render_rows-Adds_example :
    Adds (cells_of (fields_by_name (status ∷ [])) ("status" ∷ []) new_rows) [] parameters
render_rows-Adds_example =
    render_rows-Adds (fields_by_name (status ∷ [])) ("status" ∷ []) new_rows parameters
      ("  ($1::text)" ∷ "  ($2::text)" ∷ []) render_new_rows

abbrev normalized_orders : NormalizedLsm
normalized_orders = record {
  mutation = record {
    schema_version = "1";
    operation = MutationOperation.insert;
    model = "orders";
    idempotency_key = "k";
    rows = new_rows;
  };
  canonical_json = "{}";
  hash = "h";
  idempotency_key_hash = "k";
  input_bytes = 2;
}

new_orders-IsMutation : IsMutation normalized_orders.mutation
unfolding is_blank is_well_formed as_bytes postgresem.Lsq.Literals.is_well_formed
new_orders-IsMutation = record {
  version = refl;
  model = (refl, omega arith);
  idempotency_key = (refl, omega arith);
  some_row = omega arith;
  few_rows = omega arith;
  rows = (
    record {
      some_field = omega arith;
      few_fields = omega arith;
      same_fields = refl;
      entries = (((refl, omega arith), refl), tt);
    },
    (
      record {
        some_field = omega arith;
        few_fields = omega arith;
        same_fields = refl;
        entries = (((refl, omega arith), refl), tt);
      },
      tt,
    ),
  );
}

abbrev constant_digest : List ℕ → List ℕ
constant_digest _ =
    0 ∷ 1 ∷ 2 ∷ 3 ∷ 4 ∷ 5 ∷ 6 ∷ 7 ∷ 8 ∷ 9 ∷ 10 ∷ 11 ∷ 12 ∷ 13 ∷ 14 ∷ 255 ∷ 0 ∷ 1 ∷ 2 ∷ 3 ∷ 4 ∷ 5 ∷ 6
    ∷ 7 ∷ 8 ∷ 9 ∷ 10 ∷ 11 ∷ 12 ∷ 13 ∷ 14 ∷ 255 ∷ []

abbrev codec : MutationCompilerCodec
codec = record {
  snapshot = record { to_vec = λ s. ok []; digest = constant_digest };
  parameters_to_string = λ ps. ok "[]";
}

abbrev snapshot : SemanticSnapshot
snapshot = record {
  schema_version = "2";
  revision_hash = "sha256:000102030405060708090a0b0c0d0eff000102030405060708090a0b0c0d0eff";
  models =
      record {
        semantic_name = "orders";
        source = record { schema = "public"; relation = "orders" };
        timezone = none;
        queryable = true;
        writable = some (record {
          insert = true;
          upsert = none;
          max_rows = 10;
          max_request_bytes = 1000;
          fields =
              record {
                field = "status";
                nullable = true;
                required_on_insert = true;
                updatable_on_conflict = false;
              }
              ∷ [];
          returning = "status" ∷ [];
        });
        fields = status ∷ [];
        metrics = [];
        relationships = [];
      }
      ∷ [];
}

compile_lsm-NoPanic_example :
    compile_lsm codec normalized_orders snapshot
      (record { profile = "writer"; writable_models = "orders" ∷ [] })
      default_options
    ≢ err panic
compile_lsm-NoPanic_example =
    compile_lsm-NoPanic codec normalized_orders snapshot
      (record { profile = "writer"; writable_models = "orders" ∷ [] }) default_options
      new_orders-IsMutation

compiles :
    (compiled : CompiledMutation) × (compile_lsm codec normalized_orders snapshot
        (record { profile = "writer"; writable_models = "orders" ∷ [] })
        default_options
      ≡ ok compiled)
unfolding compile_lsm compile_rows find_writable check_limits check_operation check_values
    check_name check_names check_required resolve_update_names validate_snapshot
    validate_writable_model check_fields check_returning check_upsert validate_value
    calculate_revision_hash sha256 encode_hex is_sha256 is_sha256_bytes as_bytes is_blank allows
    fields_by_name policies_by_name collect map_insert lookup render render_statement traverse
    render_row render_value push_value map_results quoted_column returning_item returning_column
    column_of conflict_clause
compiles = (_, refl)

compile_lsm-IsPermitted_example :
    IsPermitted normalized_orders snapshot
      (record { profile = "writer"; writable_models = "orders" ∷ [] })
      default_options
compile_lsm-IsPermitted_example =
    compile_lsm-IsPermitted codec normalized_orders snapshot
      (record { profile = "writer"; writable_models = "orders" ∷ [] }) default_options compiles.0
      compiles.1
