-- ===== src/Compiler/Tests.antt =====
-- Runs of crates/postgresem-compiler/src/compiler.rs over a model of orders with their lines.
use Prim.Native.String.{◌++◌}
use postgresem.Prelude.{
  ℕ, String, ◌≡◌, refl, true, false, List, [], ◌∷◌, none, some, All, is_empty, arith,
}
use postgresem.Prelude.Results.{ok}
use postgresem.Lsq.{Literal, ℤ, NormalizedLsq}
use postgresem.Semantic.{
  DataType, Aggregation, Additivity, Cardinality, JoinType, Field, Metric, Relationship, Model,
  SemanticSnapshot, SnapshotCodec, calculate_revision_hash,
}
use postgresem.Compiler.{default_options, CompiledParameter, CompiledQuery, ValidatedQuery}
use postgresem.Compiler.Resolve.{
  resolve_field, record_relationship, with_relationship, visible_field, validate_literal,
  resolve_dimension, resolve_metric, resolve_metric_filter, resolve_anchor, check_metadata,
  check_metric, expected_metric_type,
}
use postgresem.Hash.{encode_hex, sha256, is_sha256, is_sha256_bytes}
use postgresem.Prelude.Stateful.{traverse}
use postgresem.Prelude.Text.{as_bytes, decimal, join}
use postgresem.Prelude.Ordered.{set_insert, map_insert, lookup}
use postgresem.Compiler.Expressions.{
  add_column, locate_field, render_field, render_dimension, render_anchor_metric_input,
  aggregate_text, add_parameter,
}
use postgresem.Compiler.Render.{
  aliases_from, render_each, positions, positional_group_by, render_join, render_joins,
  render_where, render_from_joins_and_filter,
}
use postgresem.Compiler.Parameters.{push_parameter}
use postgresem.Compiler.Identifiers.{quote_identifier, double_quotes, source_column}
use postgresem.Compiler.Compile.{
  inner_dimension, inner_metric, outer_dimensions, outer_metrics, indented, render_anchored_sql,
  append_order_and_limit, render_statement, render_sql, output_schema, dedup, dedup_from,
  lineage_of, finish, render, compile_lsq,
}
use postgresem.Semantic.{sort_by}
use postgresem.Compiler.Parameters.Laws.{IsPushed, push_parameter-IsPushed}
use postgresem.Compiler.Identifiers.Laws.{read_identifier, read_identifier-quote_identifier}
use postgresem.Compiler.Validate.{
  validate, check_revision, check_options, find_model, check_limit, resolve_filter_option,
  check_order, check_keys, resolve_relationship, resolve_relationships, check_anchor, check_anchors,
  choose_anchor,
}
use postgresem.Compiler.Validate.Fanout.{IsAnchored}
use postgresem.Compiler.Validate.Accepted.{IsAccepted, validate-IsAccepted, validate-IsAnchored}
use postgresem.Compiler.Compile.{CompilerCodec}
use postgresem.Compiler.Compile.Limited.{IsLimited, compile_lsq-IsLimited}

-- A digest of 32 bytes.
abbrev constant_digest : List ℕ → List ℕ
constant_digest _ =
    0 ∷ 1 ∷ 2 ∷ 3 ∷ 4 ∷ 5 ∷ 6 ∷ 7 ∷ 8 ∷ 9 ∷ 10 ∷ 11 ∷ 12 ∷ 13 ∷ 14 ∷ 255 ∷ 0 ∷ 1 ∷ 2 ∷ 3 ∷ 4 ∷ 5 ∷ 6
    ∷ 7 ∷ 8 ∷ 9 ∷ 10 ∷ 11 ∷ 12 ∷ 13 ∷ 14 ∷ 255 ∷ []

abbrev snapshot_codec : SnapshotCodec
snapshot_codec = record { to_vec = λ s. ok []; digest = constant_digest }

abbrev codec : CompilerCodec
codec = record { snapshot = snapshot_codec; parameters_to_string = λ ps. ok "[]" }

abbrev own_field : String → DataType → Field
own_field name data_type = record {
  semantic_name = name;
  data_type = data_type;
  column = name;
  relationship = none;
  time_dimension = false;
  entity_key = false;
  visible = true;
  nullable = false;
}

abbrev id : Field
id = record (own_field "id" DataType.integer) { entity_key = true }

abbrev line_sku : Field
line_sku = record (own_field "sku" DataType.text) {
  semantic_name = "line_sku";
  relationship = some "lines";
}

abbrev order_id : Field
order_id = own_field "order_id" DataType.integer

abbrev order_count : Metric
order_count = record {
  semantic_name = "order_count";
  data_type = DataType.integer;
  aggregation = Aggregation.count;
  field = "id";
  filter = none;
  additivity = some Additivity.additive;
  aggregation_anchor = some "id";
  visible = true;
}

abbrev lines_of_order : Relationship
lines_of_order = record {
  semantic_name = "lines";
  target_model = "lines";
  target = record { schema = "shop"; relation = "lines" };
  cardinality = Cardinality.one_to_many;
  join_type = JoinType.left;
  from_column = "id";
  to_column = "order_id";
}

abbrev orders : Model
orders = record {
  semantic_name = "orders";
  source = record { schema = "shop"; relation = "orders" };
  timezone = none;
  queryable = true;
  writable = none;
  fields = id ∷ line_sku ∷ [];
  metrics = order_count ∷ [];
  relationships = lines_of_order ∷ [];
}

abbrev lines : Model
lines = record orders {
  semantic_name = "lines";
  source = record { schema = "shop"; relation = "lines" };
  fields = order_id ∷ [];
  metrics = [];
  relationships = [];
}

abbrev shop : SemanticSnapshot
shop = record {
  schema_version = "2";
  revision_hash = "sha256:000102030405060708090a0b0c0d0eff000102030405060708090a0b0c0d0eff";
  models = orders ∷ lines ∷ [];
}

abbrev orders_by_sku : NormalizedLsq
orders_by_sku = record {
  query = record {
    schema_version = "1";
    model = "orders";
    dimensions = record { field = "line_sku"; time_grain = none } ∷ [];
    metrics = record { metric = "order_count" } ∷ [];
    filters = none;
    order_by = [];
    limit = none;
  };
  canonical_json = "{}";
  hash = "sha256:query";
}

abbrev validated : ValidatedQuery
validated = record {
  model = orders;
  dimensions = record { field = line_sku; time_grain = none } ∷ [];
  metrics =
      record { metric = order_count; field = id; filter = none; aggregation_anchor = some id } ∷ [];
  filter = none;
  order_by = [];
  relationships = ("lines", lines_of_order) ∷ [];
  aggregation_anchor = some id;
  limit = 100;
}

validate_orders : validate snapshot_codec orders_by_sku shop default_options ≡ ok validated
unfolding validate check_revision check_options find_model check_limit resolve_filter_option
    check_order check_keys resolve_relationship resolve_relationships check_anchor check_anchors
    choose_anchor resolve_field record_relationship with_relationship visible_field validate_literal
    resolve_dimension resolve_metric resolve_metric_filter resolve_anchor check_metadata
    check_metric expected_metric_type encode_hex sha256 is_sha256 is_sha256_bytes
    calculate_revision_hash traverse as_bytes set_insert map_insert
validate_orders = refl

validate-IsAccepted_example :
    IsAccepted snapshot_codec orders_by_sku.query shop default_options validated
validate-IsAccepted_example =
    validate-IsAccepted snapshot_codec orders_by_sku shop default_options validated validate_orders

validate-IsAnchored_example :
    (anchor : Field) × (some id ≡ some anchor)
    × (is_empty validated.metrics ≡ false)
    × All (IsAnchored anchor.semantic_name) validated.metrics
validate-IsAnchored_example =
    validate-IsAnchored snapshot_codec orders_by_sku shop default_options validated lines_of_order
      validate_orders refl

abbrev text_of_orders : String
text_of_orders =
    "WITH \"__postgresem_anchor_groups\" AS (\n"
    ++ ("  SELECT t1.\"sku\" AS \"__d0\", t0.\"id\" AS \"__anchor\", max(t0.\"id\") AS \"__m0\"\n"
        ++ ("  FROM \"shop\".\"orders\" AS t0\n"
            ++ ("  LEFT JOIN \"shop\".\"lines\" AS t1 ON t0.\"id\" = t1.\"order_id\"\n"
                ++ ("  GROUP BY 1, 2\n)\n"
                    ++ ("SELECT a.\"__d0\" AS \"line_sku\", count(a.\"__m0\") AS \"order_count\"\n"
                        ++ ("FROM \"__postgresem_anchor_groups\" AS a\nGROUP BY 1\n"
                            ++ "LIMIT $1::text::bigint"))))))

abbrev limit_parameter : CompiledParameter
limit_parameter = record {
  position = 1;
  data_type = DataType.integer;
  value = Literal.integer (ℤ.pos 100);
}

abbrev hash_of_orders : String
hash_of_orders = sha256 constant_digest []

abbrev compiled : CompiledQuery
compiled = record {
  sql = text_of_orders;
  parameters = limit_parameter ∷ [];
  output_schema =
      record { name = "line_sku"; data_type = DataType.text }
      ∷ record { name = "order_count"; data_type = DataType.integer }
      ∷ [];
  lineage = record {
    models = "lines" ∷ "orders" ∷ [];
    metrics = "order_count" ∷ [];
    aggregation_anchors = record { metric = "order_count"; field = "id" } ∷ [];
    relationships = "lines" ∷ [];
    source_columns = "shop.lines.order_id" ∷ "shop.lines.sku" ∷ "shop.orders.id" ∷ [];
  };
  query_hash = hash_of_orders;
  sql_hash = hash_of_orders;
}

compile_orders : compile_lsq codec orders_by_sku shop default_options ≡ ok compiled
unfolding validate check_revision check_options find_model check_limit resolve_filter_option
    check_order check_keys resolve_relationship resolve_relationships check_anchor check_anchors
    choose_anchor resolve_field record_relationship with_relationship visible_field validate_literal
    resolve_dimension resolve_metric resolve_metric_filter resolve_anchor check_metadata
    check_metric expected_metric_type encode_hex sha256 is_sha256 is_sha256_bytes
    calculate_revision_hash traverse as_bytes set_insert map_insert add_column locate_field
    render_field render_dimension render_anchor_metric_input aggregate_text add_parameter
    aliases_from render_each positions positional_group_by render_join render_joins render_where
    render_from_joins_and_filter push_parameter quote_identifier double_quotes source_column
    inner_dimension inner_metric outer_dimensions outer_metrics indented render_anchored_sql
    append_order_and_limit render_statement render_sql output_schema dedup dedup_from lineage_of
    finish render compile_lsq sort_by decimal lookup join
compile_orders = refl

compile_lsq-IsLimited_example : IsLimited 10_000 text_of_orders (limit_parameter ∷ [])
compile_lsq-IsLimited_example =
    compile_lsq-IsLimited codec orders_by_sku shop default_options compiled compile_orders

push_parameter-IsPushed_example :
    IsPushed (limit_parameter ∷ []) DataType.text (Literal.text "UTC") 2 (
      limit_parameter
      ∷ record { position = 2; data_type = DataType.text; value = Literal.text "UTC" }
      ∷ [])
unfolding push_parameter
push_parameter-IsPushed_example =
    push_parameter-IsPushed (limit_parameter ∷ []) DataType.text (Literal.text "UTC")
      (record { numbered = (refl, tt); unique = (tt, tt) })

read_identifier-quote_identifier_example :
    read_identifier (quote_identifier "a\"b" ++ " AS t0") ≡ some ("a\"b", " AS t0")
read_identifier-quote_identifier_example =
    read_identifier-quote_identifier "a\"b" " AS t0" (ground arith)
