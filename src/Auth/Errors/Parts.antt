-- ===== src/Auth/Errors/Parts.antt =====
-- The errors of the parts of `authenticate_at` in crates/postgresem/src/mcp_http_auth.rs.
use postgresem.Prelude.{
  ℕ, ◌≤◌, ◌≡◌, refl, sym, ap, ◌∙◌, String, Bool, true, false, not, ◌||◌, Option, none, some, List,
  [], ◌∷◌, ◌==◌, arith, length, str_eq, Option-cases, inl, inr,
}
use postgresem.Prelude.Results.{Result, ok, err, ◌>>=◌, ◌>>◌, reject_if, ok_or}
use postgresem.Prelude.Ordered.{set_insert}
use postgresem.Lsq.{ℤ}
use postgresem.Lsm.Json.{Value, Values, Members, nil, cons}
use postgresem.Auth.{
  AuthError, AuthorityDocument, invalid_claims, internal, token_too_old, token_expired,
  token_not_yet_valid, invalid_audience,
}
use postgresem.Auth.Words.{split_once}
use postgresem.Auth.Integers.{max_i64, ltb_ℤ, saturating_add, saturating_sub}
use postgresem.Auth.Bearer.{
  is_blank_byte, trim_start, trim_end, check_token, extract_bearer, max_u64,
}
use postgresem.Auth.Token.{field_bytes, pseudonym_message}
use postgresem.Prelude.Text.{as_bytes}
use postgresem.Auth.Claims.{
  get, bounded_string, numeric_value, numeric_claim, check_issuer, match_entries, audience_of,
  try_i64, check_window, check_time, insert_words, insert_values, insert_claim, collect_scopes,
  split_words, as_str, starts_after,
}

abbrev pub not_internal : AuthError → Bool
not_internal internal = false
not_internal _ = true

-- a result that is not the internal error
unfoldable pub answers : {A : Type 0} → Result AuthError A → Bool
answers (ok a) = true
answers (err e) = not_internal e

pub >>=-answers :
    {A B : Type 0} (r : Result AuthError A) (f : A → Result AuthError B)
    → answers r ≡ true
    → ((a : A) → r ≡ ok a → answers (f a) ≡ true)
    → answers (r >>= f) ≡ true
unfolding answers
>>=-answers (ok a) f h k = k a refl
>>=-answers (err e) f h k = h

pub reject_if-answers :
    {B : Type 0} (bad : Bool) (e : AuthError) (rest : Result AuthError B)
    → not_internal e ≡ true
    → answers rest ≡ true
    → answers (reject_if bad e >> rest) ≡ true
unfolding answers
reject_if-answers true e rest h k = h
reject_if-answers false e rest h k = k

pub ok_or-answers :
    {A : Type 0} (o : Option A) (e : AuthError) → not_internal e ≡ true → answers (ok_or o e) ≡ true
unfolding answers
ok_or-answers none e h = h
ok_or-answers (some a) e h = refl

pub done-answers : {A : Type 0} (a : A) → answers (ok a) ≡ true
unfolding answers
done-answers a = refl

pub answers-internal :
    {A : Type 0} (r : Result AuthError A) → answers r ≡ true → r ≡ err internal → ⊥
unfolding answers
answers-internal r h e = let p : true ≡ false = sym h ∙ ap answers e in cc

pub check_token-answers :
    (max : ℕ) (token : List ℕ) → max ≤ max_u64 → answers (check_token max token) ≡ true
unfolding check_token answers
check_token-answers max token h = ground arith

pub extract_bearer-answers :
    (max : ℕ) (header : List ℕ) → max ≤ max_u64 → answers (extract_bearer max header) ≡ true
unfolding extract_bearer answers
extract_bearer-answers max header h =
    elim (Option-cases
      (split_once b' ' (trim_end is_blank_byte (trim_start is_blank_byte header)))) [
        | inl alone ↦ ground arith
        | inr ((scheme, rest), parts) ↦
            ground (arith, check_token-answers max (trim_start (λ c. c == b' ') rest) h)
      ]

pub bounded_string-answers : (v : Option Value) (max : ℕ) → answers (bounded_string v max) ≡ true
unfolding bounded_string answers
bounded_string-answers none max = refl
bounded_string-answers (some v) max = ground arith

pub numeric_value-answers : (v : Option Value) → answers (numeric_value v) ≡ true
unfolding answers
numeric_value-answers v = ground arith

pub check_issuer-answers :
    (d : AuthorityDocument) (claims : Members) → answers (check_issuer d claims) ≡ true
unfolding check_issuer answers
check_issuer-answers d claims = ground arith

pub match_entries-answers :
    (resource : String) (matched : Bool) (values : Values)
    → answers (match_entries resource matched values) ≡ true
unfolding match_entries answers
match_entries-answers resource matched nil = refl
match_entries-answers resource matched (cons (Value.string t) values) =
    match_entries-answers resource (str_eq t resource || matched) values
match_entries-answers resource matched (cons v values) = ground arith

pub audience_of-answers :
    (resource : String) (v : Option Value) → answers (audience_of resource v) ≡ true
unfolding answers
audience_of-answers resource (some (Value.array values)) =
    reject_if-answers _ invalid_audience _ refl (
      >>=-answers (match_entries resource false values) _
        (match_entries-answers resource false values) (λ matched _. ground arith))
audience_of-answers resource none = refl
audience_of-answers resource (some (Value.string t)) = ground arith
audience_of-answers resource (some Value.null) = refl
audience_of-answers resource (some (Value.boolean b)) = refl
audience_of-answers resource (some (Value.number n)) = refl
audience_of-answers resource (some (Value.object ms)) = refl

pub kept-answers : (b : Bool) → answers (reject_if b token_too_old) ≡ true
unfolding answers
kept-answers true = refl
kept-answers false = refl

pub check_window-answers :
    (skew max_age exp iat : ℤ) (nbf : Option ℤ) (now : ℤ)
    → answers (check_window skew max_age exp iat nbf now) ≡ true
unfolding check_window
check_window-answers skew max_age exp iat nbf now =
    reject_if-answers (ltb_ℤ exp iat) invalid_claims _ refl (
      reject_if-answers (not (ltb_ℤ (saturating_sub now skew) exp)) token_expired _ refl (
        reject_if-answers (starts_after (saturating_add now skew) nbf) token_not_yet_valid _ refl (
          reject_if-answers (ltb_ℤ (saturating_add now skew) iat) invalid_claims _ refl
            (kept-answers (ltb_ℤ (saturating_add max_age skew) (saturating_sub now iat))))))

pub try_i64-answers : (n : ℕ) → n ≤ max_i64 → answers (try_i64 n) ≡ true
unfolding answers
try_i64-answers n h = ground arith

pub required-answers :
    (v : Option Value) → answers (numeric_value v >>= λ claim. ok_or claim invalid_claims) ≡ true
required-answers v =
    >>=-answers (numeric_value v) _ (numeric_value-answers v)
      (λ o _. ok_or-answers o invalid_claims refl)

pub check_time-answers :
    (d : AuthorityDocument) (claims : Members) (now : ℤ)
    → d.clock_skew_seconds ≤ max_i64
    → d.max_token_age_seconds ≤ max_i64
    → answers (check_time d claims now) ≡ true
unfolding check_time numeric_claim
check_time-answers d claims now h k =
    >>=-answers (try_i64 d.clock_skew_seconds) _ (try_i64-answers d.clock_skew_seconds h) λ skew _.
      >>=-answers (try_i64 d.max_token_age_seconds) _ (try_i64-answers d.max_token_age_seconds k)
        λ age _. >>=-answers _ _ (required-answers (get "exp" claims)) λ exp _.
          >>=-answers _ _ (required-answers (get "iat" claims)) λ iat _.
            >>=-answers (numeric_value (get "nbf" claims)) _
              (numeric_value-answers (get "nbf" claims))
              λ nbf _. check_window-answers skew age exp iat nbf now

pub insert_words-answers :
    (tokens scopes : List String) → answers (insert_words tokens scopes) ≡ true
unfolding insert_words answers
insert_words-answers [] scopes = refl
insert_words-answers (t ∷ ts) scopes =
    ground (arith, insert_words-answers ts scopes, insert_words-answers ts (set_insert t scopes))

pub insert_values-answers :
    (values : Values) (scopes : List String) → answers (insert_values values scopes) ≡ true
unfolding insert_values answers
insert_values-answers nil scopes = refl
insert_values-answers (cons v values) scopes =
    >>=-answers _ _ (ok_or-answers (as_str v) invalid_claims refl)
      λ t _. reject_if-answers _ _ _ refl (insert_values-answers values (set_insert t scopes))

pub insert_claim-answers :
    (claim : Option Value) (scopes : List String) → answers (insert_claim claim scopes) ≡ true
unfolding answers
insert_claim-answers none scopes = refl
insert_claim-answers (some (Value.string t)) scopes = insert_words-answers (split_words t) scopes
insert_claim-answers (some (Value.array values)) scopes =
    reject_if-answers _ _ _ refl (insert_values-answers values scopes)
insert_claim-answers (some Value.null) scopes = refl
insert_claim-answers (some (Value.boolean b)) scopes = refl
insert_claim-answers (some (Value.number n)) scopes = refl
insert_claim-answers (some (Value.object ms)) scopes = refl

pub collect_scopes-answers :
    (claims : Members) (names scopes : List String)
    → answers (collect_scopes claims names scopes) ≡ true
unfolding collect_scopes answers
collect_scopes-answers claims [] scopes = refl
collect_scopes-answers claims (name ∷ names) scopes =
    >>=-answers _ _ (insert_claim-answers (get name claims) scopes)
      λ more _. reject_if-answers _ _ _ refl (collect_scopes-answers claims names more)

pub bounded_string-short :
    (v : Option Value) (max : ℕ) {t : String}
    → bounded_string v max ≡ ok t
    → length (as_bytes t) ≤ max
unfolding bounded_string
bounded_string-short none max h = cc
bounded_string-short (some v) max h = ground arith

pub pseudonym_message-answers :
    (issuer subject : String)
    → length (as_bytes issuer) ≤ max_u64
    → length (as_bytes subject) ≤ max_u64
    → answers (pseudonym_message issuer subject) ≡ true
unfolding pseudonym_message field_bytes answers
pseudonym_message-answers issuer subject h k = ground arith
