-- ===== src/Auth/Scopes.antt =====
-- The scopes that `collect_scopes` of crates/postgresem/src/mcp_http_auth.rs reads from a token.
use postgresem.Prelude.{
  ◌≡◌, ap, ◌∙◌, String, Bool, false, not, ◌&&◌, ◌||◌, Option, none, some, List, [], ◌∷◌, ltb,
  length, any, is_empty, contains, arith, str_eq, str_eq_iff,
}
use postgresem.Prelude.Results.{ok, >>=-ok, reject_if-ok}
use postgresem.Prelude.Text.{as_bytes}
use postgresem.Prelude.Ordered.{set_insert, contains-set_insert}
use postgresem.Lsm.Json.{Value, Values, Members, nil, cons}
use postgresem.Auth.{invalid_claims}
use postgresem.Auth.Words.{is_scope_token}
use postgresem.Auth.Claims.{
  get, array_length, split_words, insert_words, insert_values, insert_claim, collect_scopes,
  max_token_scopes,
}

-- a text is one of the entries of an array
abbrev pub has_entry : Values → String → Bool
has_entry nil s = false
has_entry (cons (Value.string text) more) s = str_eq text s || has_entry more s
has_entry (cons _ more) s = has_entry more s

-- A claim carries a scope: as one of the words of a text, which is not empty, or as an entry of an array.
abbrev pub carries : Option Value → String → Bool
carries (some (Value.string text)) s = contains (split_words text) s && not (is_empty (as_bytes s))
carries (some (Value.array values)) s = has_entry values s
carries _ s = false

insert_words-contains :
    (tokens seen scopes : List String) (s : String)
    → insert_words tokens seen ≡ ok scopes
    → contains scopes s ≡ (contains seen s || (contains tokens s && not (is_empty (as_bytes s))))
unfolding insert_words
insert_words-contains [] seen scopes s h = ground arith
insert_words-contains (token ∷ tokens) seen scopes s h = ground (
  arith,
  insert_words-contains tokens seen scopes s,
  insert_words-contains tokens (set_insert token seen) scopes s,
  contains-set_insert token s seen,
  str_eq_iff token s,
)

insert_values-contains :
    (values : Values) (seen scopes : List String) (s : String)
    → insert_values values seen ≡ ok scopes
    → contains scopes s ≡ (contains seen s || has_entry values s)
unfolding insert_values
insert_values-contains nil seen scopes s h = ground arith
insert_values-contains (cons (Value.string text) values) seen scopes s h =
    let (_, rest) = reject_if-ok (not (is_scope_token text)) invalid_claims _ h in
    insert_values-contains values (set_insert text seen) scopes s rest
    ∙ ap (λ b. b || has_entry values s) (contains-set_insert text s seen)
    ∙ ground arith
insert_values-contains (cons Value.null values) seen scopes s h = cc
insert_values-contains (cons (Value.boolean b) values) seen scopes s h = cc
insert_values-contains (cons (Value.number n) values) seen scopes s h = cc
insert_values-contains (cons (Value.array vs) values) seen scopes s h = cc
insert_values-contains (cons (Value.object ms) values) seen scopes s h = cc

insert_claim-contains :
    (claim : Option Value) (seen scopes : List String) (s : String)
    → insert_claim claim seen ≡ ok scopes
    → contains scopes s ≡ (contains seen s || carries claim s)
insert_claim-contains none seen scopes s h = ground arith
insert_claim-contains (some Value.null) seen scopes s h = ground arith
insert_claim-contains (some (Value.string text)) seen scopes s h =
    insert_words-contains (split_words text) seen scopes s h
insert_claim-contains (some (Value.array values)) seen scopes s h =
    let (_, rest) = reject_if-ok (ltb max_token_scopes (array_length values)) invalid_claims _ h in
    insert_values-contains values seen scopes s rest
insert_claim-contains (some (Value.boolean b)) seen scopes s h = cc
insert_claim-contains (some (Value.number n)) seen scopes s h = cc
insert_claim-contains (some (Value.object ms)) seen scopes s h = cc

collect_scopes-from :
    (claims : Members) (names seen scopes : List String) (s : String)
    → collect_scopes claims names seen ≡ ok scopes
    → contains scopes s ≡ (contains seen s || any (λ name. carries (get name claims) s) names)
unfolding collect_scopes
collect_scopes-from claims [] seen scopes s h = ground arith
collect_scopes-from claims (name ∷ names) seen scopes s h =
    let (more, first, h₁) = >>=-ok (insert_claim (get name claims) seen) _ h in
    let (_, rest) = reject_if-ok (ltb max_token_scopes (length more)) invalid_claims _ h₁ in
    collect_scopes-from claims names more scopes s rest
    ∙ ap (λ b. b || any (λ n. carries (get n claims) s) names)
        (insert_claim-contains (get name claims) seen more s first)
    ∙ ground arith

-- The scopes of a token are the scopes that one of the configured claims carries, and no others,
-- when the claims are accepted.
pub collect_scopes-carries :
    (claims : Members) (names scopes : List String) (s : String)
    → collect_scopes claims names [] ≡ ok scopes
    → contains scopes s ≡ any (λ name. carries (get name claims) s) names
collect_scopes-carries claims names scopes s h = collect_scopes-from claims names [] scopes s h
