-- ===== src/Compiler/Identifiers.antt =====
-- `quote_identifier` and `source_column` of crates/postgresem-compiler/src/compiler.rs; mutation.rs
-- has the same `quote_identifier`.
pub mod Laws
use Prim.Native.Char.{Char, code}
use Prim.Native.String
use Prim.Native.String.{[], ◌∷◌, ◌++◌}
use postgresem.Prelude.{String, Bool, if◌then◌else◌, ◌==◌}
use postgresem.Semantic.{Relation}

-- `identifier.replace('"', "\"\"")`
unfoldable pub double_quotes : String → String
double_quotes [] = ""
double_quotes (c ∷ s) =
    let rest = double_quotes s in if code c == b'"' then c ∷ c ∷ rest else c ∷ rest

unfoldable pub quote_identifier : String → String
quote_identifier identifier = "\"" ++ (double_quotes identifier ++ "\"")

unfoldable pub source_column : Relation → String → String
source_column relation column = relation.schema ++ ("." ++ (relation.relation ++ ("." ++ column)))
