-- ===== src/Auth/Document/Entries.antt =====
-- The loops of crates/postgresem/src/mcp_http_auth.rs over the entries of a list, which are checked and
-- must differ, and `validate_scope_list`.
use Prim.Native.Nat.{suc}
use postgresem.Prelude.{
  ℕ, String, Bool, not, ◌||◌, List, [], ◌∷◌, ltb, length, contains, str_eq, if◌then◌else◌,
}
use postgresem.Prelude.Results.{Result, ok, ◌>>=◌, ◌>>◌, reject_if}
use postgresem.Prelude.Ordered.{set_insert}
use postgresem.Auth.{ConfigError, config_error, error_at, schema}
use postgresem.Auth.Words.{is_scope_token}

-- the check of one entry by a test
abbrev pub check_that : (String → Bool) → String → ℕ → String → Result ConfigError (Unit {0})
check_that test reason index value =
    reject_if (not (test value)) (error_at (config_error schema reason) index)

-- the loop over the entries, which gives those it has seen
unfoldable pub unique_entries :
    (ℕ → String → Result ConfigError (Unit {0}))
    → (ℕ → ConfigError)
    → ℕ
    → List String
    → List String
    → Result ConfigError (List String)
unique_entries check duplicate index [] seen = ok seen
unique_entries check duplicate index (entry ∷ entries) seen = do
  check index entry
  reject_if (contains seen entry) (duplicate index)
  unique_entries check duplicate (suc index) entries (set_insert entry seen)

unfoldable pub distinct_entries :
    (ℕ → String → Result ConfigError (Unit {0}))
    → String
    → List String
    → Result ConfigError (Unit {0})
distinct_entries check reason entries = do
  seen ← unique_entries check (λ index. error_at (config_error schema reason) index) 0 entries []
  ok tt

abbrev for_scopes : String → String → String → String
for_scopes what supported allowed = if str_eq what "scopes_supported" then supported else allowed

unfoldable pub validate_scope_list : List String → ℕ → ℕ → String → Result ConfigError (Unit {0})
validate_scope_list scopes min max what = do
  reject_if (ltb (length scopes) min || ltb max (length scopes)) (
      config_error schema (
        for_scopes what "scopes_supported must hold 1 to 32 entries"
          "allowed_scopes must hold 1 to 32 entries"))
  seen ←
      unique_entries
        (λ index scope. reject_if (not (is_scope_token scope)) (
          config_error schema (
            for_scopes what "scopes_supported contains an invalid scope"
              "allowed_scopes contains an invalid scope")))
        (λ index.
          config_error schema
            (for_scopes what "scopes_supported must be unique" "allowed_scopes must be unique"))
        0 scopes []
  ok tt
