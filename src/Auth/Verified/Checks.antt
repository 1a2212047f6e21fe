-- ===== src/Auth/Verified/Checks.antt =====
-- What the checks of crates/postgresem/src/mcp_http_auth.rs on the claims of a token have found.
use postgresem.Prelude.{
  ℕ, ◌≡◌, refl, ap, ◌∙◌, String, Bool, true, false, ◌&&◌, ◌||◌, Option, none, some, List, [], ◌∷◌,
  ltb, ◌==◌, any, is_empty, contains, arith, str_eq, str_eq_iff,
}
use postgresem.Prelude.Results.{
  Result, ok, err, ok_or, or_error, >>=-ok, reject_if-ok, ok-injective,
}
use postgresem.Prelude.Text.{as_bytes}
use postgresem.Lsm.Json.{Value, Values, Members, nil, cons}
use postgresem.Auth.{AuthError, AuthorityDocument, invalid_claims, invalid_issuer, invalid_audience}
use postgresem.Auth.Words.{chars, byte_length, is_control}
use postgresem.Auth.Claims.{
  get, bounded_string, check_issuer, check_audience, match_entries, array_length, audience_of,
  max_issuer_bytes, max_audience_entries,
}
use postgresem.Auth.Token.{intersection}
use postgresem.Auth.Scopes.{has_entry}

-- an audience that is the resource, or a list with it
abbrev pub has_audience : Option Value → String → Bool
has_audience (some (Value.string text)) resource = str_eq text resource
has_audience (some (Value.array values)) resource = has_entry values resource
has_audience _ resource = false

pub ok_or-some {ℓ} :
    {A : Type ℓ} (o : Option A) (e : AuthError) (a : A) → ok_or o e ≡ ok a → o ≡ some a
ok_or-some none e a h = cc
ok_or-some (some b) e a h = ap some (ok-injective h)

pub bounded_string-text :
    (v : Option Value) (max : ℕ) (s : String)
    → bounded_string v max ≡ ok s
    → v ≡ some (Value.string s)
unfolding bounded_string
bounded_string-text none max s h = cc
bounded_string-text (some (Value.string t)) max s h =
    let (_, rest) =
      reject_if-ok (is_empty (as_bytes t) || ltb max (byte_length t) || any is_control (chars t))
        invalid_claims _ h in
    ap (λ u. some (Value.string u)) (ok-injective rest)
bounded_string-text (some Value.null) max s h = cc
bounded_string-text (some (Value.boolean b)) max s h = cc
bounded_string-text (some (Value.number n)) max s h = cc
bounded_string-text (some (Value.array vs)) max s h = cc
bounded_string-text (some (Value.object ms)) max s h = cc

or_error-ok :
    (r : Result AuthError String) (e : AuthError) {s : String} → or_error r e ≡ ok s → r ≡ ok s
or_error-ok (ok a) e h = h
or_error-ok (err d) e h = cc

pub check_issuer-text :
    (d : AuthorityDocument) (claims : Members)
    → check_issuer d claims ≡ ok tt
    → get "iss" claims ≡ some (Value.string d.issuer)
unfolding check_issuer
check_issuer-text d claims h =
    let (issuer, read, rest) =
      >>=-ok (or_error (bounded_string (get "iss" claims) max_issuer_bytes) invalid_issuer) _ h in
    let text =
      bounded_string-text (get "iss" claims) max_issuer_bytes issuer (or_error-ok _ _ read) in
    let same : issuer ≡ d.issuer = ground (arith, str_eq_iff issuer d.issuer) in
    text ∙ ap (λ u. some (Value.string u)) same

match_entries-found :
    (resource : String) (matched : Bool) (values : Values)
    → match_entries resource matched values ≡ ok true
    → (matched || has_entry values resource) ≡ true
unfolding match_entries
match_entries-found resource matched nil h = ground arith
match_entries-found resource matched (cons (Value.string t) values) h =
    ground (arith, match_entries-found resource (str_eq t resource || matched) values h)
match_entries-found resource matched (cons Value.null values) h = cc
match_entries-found resource matched (cons (Value.boolean b) values) h = cc
match_entries-found resource matched (cons (Value.number n) values) h = cc
match_entries-found resource matched (cons (Value.array vs) values) h = cc
match_entries-found resource matched (cons (Value.object ms) values) h = cc

audience_of-found :
    (resource : String) (v : Option Value)
    → audience_of resource v ≡ ok tt
    → has_audience v resource ≡ true
audience_of-found resource none h = cc
audience_of-found resource (some (Value.string t)) h = ground arith
audience_of-found resource (some (Value.array values)) h =
    let (_, h₁) =
      reject_if-ok (array_length values == 0 || ltb max_audience_entries (array_length values))
        invalid_audience _ h in
    let (matched, found, rest) = >>=-ok (match_entries resource false values) _ h₁ in
    let yes' : matched ≡ true = ground arith in
    match_entries-found resource false values (found ∙ ap ok yes')
audience_of-found resource (some Value.null) h = cc
audience_of-found resource (some (Value.boolean b)) h = cc
audience_of-found resource (some (Value.number n)) h = cc
audience_of-found resource (some (Value.object ms)) h = cc

pub check_audience-found :
    (d : AuthorityDocument) (claims : Members)
    → check_audience d claims ≡ ok tt
    → has_audience (get "aud" claims) d.audience ≡ true
unfolding check_audience
check_audience-found d claims h = audience_of-found d.audience (get "aud" claims) h

pub contains-intersection :
    (s t : List String) (x : String)
    → contains (intersection s t) x ≡ (contains s x && contains t x)
unfolding intersection
contains-intersection [] t x = refl
contains-intersection (y ∷ s) t x = ground (arith, contains-intersection s t x, str_eq_iff y x)
