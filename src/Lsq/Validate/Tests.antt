-- ===== src/Lsq/Validate/Tests.antt =====
-- Runs of the query's checks of crates/postgresem-compiler/src/lsq.rs.
use postgresem.Prelude.{
  ℕ, String, ◌&&◌, ◌≡◌, refl, List, [], ◌∷◌, Option, none, arith, str_eq, is_none, if◌then◌else◌,
}
use postgresem.Prelude.Results.{Result, ok, err}
use postgresem.Prelude.Text.{as_bytes, is_blank}
use postgresem.Lsq.Literals.{is_well_formed}
use postgresem.Hash.{sha256}
use postgresem.Lsq.{
  Literal, Dimension, MetricReference, OrderBy, Filter, nil, cons, LogicalSemanticQuery,
  NormalizedLsq,
}
use postgresem.Lsq.Validate.{
  validate_distinct, validate_reference, validate_filter_option, validate_filter, validate_query,
  QueryCodec, normalize_lsq,
}
use postgresem.Lsq.Validate.Trees.{
  or_ok, null_ok, eq_ok, one_more, none_left, depth, size, validate_filter_iff,
}
use postgresem.Lsq.Validate.Queries.{validate_query_iff}

abbrev open_or_unknown : Filter
open_or_unknown =
    Filter.or (cons (Filter.eq "status" (Literal.text "open")) (cons (Filter.is_null "status") nil))

validate_filter_example : validate_filter open_or_unknown 1 0 ≡ ok 3
unfolding depth size is_blank is_well_formed
validate_filter_example = (validate_filter_iff open_or_unknown 3).1 (
  or_ok _ (omega arith)
      (one_more _ _ (eq_ok _ _ (refl, refl)) (one_more _ _ (null_ok _ refl) none_left)),
  omega arith,
  omega arith,
  refl,
)

abbrev orders_by_status : LogicalSemanticQuery
orders_by_status = record {
  schema_version = "1";
  model = "orders";
  dimensions = record { field = "status"; time_grain = none } ∷ [];
  metrics = [];
  filters = none;
  order_by = [];
  limit = none;
}

validate_query_example : validate_query orders_by_status ≡ ok tt
unfolding is_blank
validate_query_example = (validate_query_iff orders_by_status).1 (record {
  version = refl;
  model = refl;
  projects = omega arith;
  limit = tt;
  references = ((refl, tt), ground arith);
  order = (tt, ground arith);
  filter = tt;
})

-- A JSON library that writes one query.
abbrev written_parts :
    String
    → String
    → List Dimension
    → List MetricReference
    → Option Filter
    → List OrderBy
    → Option ℕ
    → Result String String
written_parts version model (d ∷ []) [] none [] none =
    if str_eq version "1"
      && (str_eq model "orders" && (str_eq d.field "status" && is_none d.time_grain))
    then ok "orders by status"
    else err "unknown query"
written_parts _ _ _ _ _ _ _ = err "unknown query"

abbrev one_query : QueryCodec
one_query = record {
  from_slice = λ bytes. ok orders_by_status;
  to_string = λ q.
      written_parts q.schema_version q.model q.dimensions q.metrics q.filters q.order_by q.limit;
  digest = λ bytes. bytes;
}

abbrev normalized_orders : NormalizedLsq
normalized_orders = record {
  query = orders_by_status;
  canonical_json = "orders by status";
  hash = sha256 (λ bytes. bytes) (as_bytes "orders by status");
}

normalize_orders : normalize_lsq one_query [] ≡ ok normalized_orders
unfolding normalize_lsq validate_query validate_distinct validate_reference validate_filter_option
    is_blank
normalize_orders = refl
