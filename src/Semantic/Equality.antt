-- ===== src/Semantic/Equality.antt =====
-- The derived `PartialEq` of the types of crates/postgresem-compiler/src/semantic.rs.
use postgresem.Prelude.{ℕ_discrete, Bool, String, String-discrete, Option}
use postgresem.Semantic.{
  DataType, Aggregation, Additivity, Relation, Field, WritableModel, MetricFilter, Metric,
  Relationship,
}

unfoldable pub Relation-discrete : Discrete Relation
Relation-discrete = hlevel (String-discrete)

unfoldable pub OptionString-discrete : Discrete (Option String)
OptionString-discrete = hlevel (String-discrete)

unfoldable pub Field-discrete : Discrete Field
Field-discrete = hlevel (String-discrete)

unfoldable pub Writable-discrete : Discrete (Option WritableModel)
Writable-discrete = hlevel (String-discrete, ℕ_discrete)

unfoldable pub Metric-discrete : Discrete Metric
Metric-discrete = hlevel (String-discrete, ℕ_discrete)

unfoldable pub Relationship-discrete : Discrete Relationship
Relationship-discrete = hlevel (String-discrete)

unfoldable pub DataType-discrete : Discrete DataType
DataType-discrete = hlevel

unfoldable pub Aggregation-discrete : Discrete Aggregation
Aggregation-discrete = hlevel

unfoldable pub Additivity-discrete : Discrete (Option Additivity)
Additivity-discrete = hlevel

unfoldable pub Filter-discrete : Discrete (Option MetricFilter)
Filter-discrete = hlevel (String-discrete, ℕ_discrete)

unfoldable pub Bool-discrete : Discrete Bool
Bool-discrete = hlevel
