-- ===== src/Auth/Errors.antt =====
-- The errors of a verifier that `Authority::load` of crates/postgresem/src/mcp_http_auth.rs gives.
mod Parts
use postgresem.Prelude.{
  ℕ, ◌+◌, ◌≤◌, ◌<◌, ◌≡◌, ◌≢◌, ◌⊎◌, ◌↔◌, Bool-cases, refl, sym, ap, ◌∙◌, String, Bool, true, false,
  not, ◌&&◌, ◌||◌, Option, none, some, List, [], ◌∷◌, ltb, ◌==◌, length, any, is_empty, contains,
  arith, str_eq, Option-cases, inl, inr, if◌then◌else◌,
}
use postgresem.Prelude.Results.{Result, ok, err, ◌>>=◌, ◌>>◌, reject_if, ok_or, or_error}
use postgresem.Prelude.Text.{as_bytes}
use postgresem.Prelude.Ordered.{lookup, set_insert}
use postgresem.Lsq.{ℤ, pos}
use postgresem.Lsm.Json.{Value, Values, Members, nil, cons}
use postgresem.Auth.{
  AuthError, AuthorityDocument, AuthenticatedPrincipal, PrincipalRecord, unsupported_token_type,
  unsupported_algorithm, unknown_key, invalid_signature, malformed_token, invalid_claims,
  unknown_principal, insufficient_scope, internal, token_too_old, token_expired,
  token_not_yet_valid, invalid_issuer, invalid_audience,
}
use postgresem.Auth.Library.{Library, Header, Authority}
use postgresem.Auth.Words.{byte_length, split_once, to_ascii_lowercase}
use postgresem.Auth.Integers.{max_i64, ltb_ℤ, saturating_add, saturating_sub}
use postgresem.Auth.Bearer.{is_blank_byte, trim_start, trim_end, check_token, extract_bearer}
use postgresem.Auth.Claims.{
  get, count, bounded_string, numeric_value, numeric_claim, check_issuer, check_audience,
  match_entries, audience_of, try_i64, check_window, check_time, insert_words, insert_values,
  insert_claim, collect_scopes, array_length, split_words, as_str, starts_after,
}
use postgresem.Auth.Token.{
  as_object, has_foreign_key, contains_algorithm, intersection, max_subject_bytes, max_token_claims,
  pseudonym, select_key, read_claims, identify, authenticate_at, authenticate,
}
use postgresem.Auth.Load.{FileSystem, load}
use postgresem.Auth.Document.Whole.{validate_document-IsDocument, validate_document-issuer}
use postgresem.Auth.Document.Uri.{max_uri_bytes}
use postgresem.Auth.Configured.{load-IsAssembled}
use postgresem.Auth.Errors.Parts.{
  not_internal, answers, >>=-answers, reject_if-answers, ok_or-answers, done-answers,
  bounded_string-short, pseudonym_message-answers, answers-internal, check_token-answers,
  extract_bearer-answers, bounded_string-answers, numeric_value-answers, check_issuer-answers,
  match_entries-answers, audience_of-answers, kept-answers, check_window-answers, try_i64-answers,
  required-answers, check_time-answers, insert_words-answers, insert_values-answers,
  insert_claim-answers, collect_scopes-answers,
}

module _ (l : Library) (self : Authority l) where
  select_key-answers : (header : Header) → answers (select_key l self header) ≡ true
  unfolding select_key
  select_key-answers header = reject_if-answers (has_foreign_key header) unknown_key _ refl (
      >>=-answers _ _ (ok_or-answers header.typ unsupported_token_type refl) λ typ _.
        reject_if-answers (not (contains self.token_types (to_ascii_lowercase typ)))
          unsupported_token_type _ refl
          (reject_if-answers (not (contains_algorithm header.alg self.algorithms))
            unsupported_algorithm _ refl
            (>>=-answers _ _ (ok_or-answers header.kid unknown_key refl) λ kid _.
              reject_if-answers (is_empty (as_bytes kid)) unknown_key _ refl (
                >>=-answers _ _ (ok_or-answers (lookup kid self.keys) unknown_key refl) λ key _.
                  reject_if-answers (not (contains_algorithm header.alg key.algorithms))
                    unsupported_algorithm _ refl (done-answers key)))))

  module _ (h : self.document.clock_skew_seconds ≤ max_i64)
      (k : self.document.max_token_age_seconds ≤ max_i64) where
    read_claims-answers : (token : List ℕ) (now : ℤ) → answers (read_claims l self token now) ≡ true
    unfolding read_claims check_audience
    read_claims-answers token now =
        >>=-answers _ _ (ok_or-answers (l.decode_header token) malformed_token refl) λ header _.
          >>=-answers _ _ (select_key-answers header) λ key _.
            >>=-answers _ _
              (ok_or-answers (l.decode token key.key header.alg) invalid_signature refl)
              λ value _.
                >>=-answers _ _ (ok_or-answers (as_object value) invalid_claims refl) λ claims _.
                  reject_if-answers (count claims == 0 || ltb max_token_claims (count claims))
                    invalid_claims _ refl
                    (>>=-answers _ _ (check_issuer-answers self.document claims) λ done _.
                      >>=-answers _ _
                        (audience_of-answers self.document.audience (get "aud" claims))
                        λ done₁ _.
                          >>=-answers _ _ (check_time-answers self.document claims now h k)
                            λ done₂ _. done-answers claims)

  identify-answers :
      (mac : l.Mac) (claims : Members)
      → l.new_from_slice self.pseudonym_key ≡ some mac
      → byte_length self.document.issuer ≤ max_uri_bytes
      → answers (identify l self claims) ≡ true
  unfolding identify pseudonym
  identify-answers mac claims usable issuer =
      >>=-answers _ _ (bounded_string-answers (get "sub" claims) max_subject_bytes) λ subject named.
        >>=-answers _ _ (collect_scopes-answers claims self.scope_claims []) λ scopes _.
          >>=-answers _ _ (ok_or-answers (lookup subject self.principals) unknown_principal refl)
            λ found _.
              reject_if-answers (is_empty (intersection found.allowed_scopes scopes))
                insufficient_scope _ refl
                (let short = bounded_string-short (get "sub" claims) max_subject_bytes named in
                  rw usable (
                    >>=-answers _ _
                      (>>=-answers _ _
                        (pseudonym_message-answers self.document.issuer subject (omega arith)
                          (omega arith))
                        (λ message _. done-answers _))
                      (λ pseudonym _. done-answers _)))

-- a clock before the Unix epoch, or whose seconds are no `i64`
abbrev pub IsOutOfRange : Option ℕ → Type 0
IsOutOfRange clock = (clock ≡ none) ⊎ ((now : ℕ) × (clock ≡ some now) × (max_i64 < now))

module _ (l : Library) where
  authenticate-IsOutOfRange :
      (self : Authority l) (clock : Option ℕ) (header : List ℕ)
      → ((now : ℤ) → authenticate_at l self header now ≢ err internal)
      → (authenticate l self clock header ≡ err internal) ↔ IsOutOfRange clock
  unfolding authenticate
  authenticate-IsOutOfRange self none header h = (λ _. inl refl, λ _. refl)
  authenticate-IsOutOfRange self (some now) header h = elim (Bool-cases (ltb max_i64 now)) [
    | inl late ↦ (λ _. inr (now, refl, ground arith), λ _. rw late refl)
    | inr fits ↦ ground (arith, h (pos now))
  ]

  -- A loaded verifier never answers a header at a given time with the internal error: it gives a
  -- principal or one of the errors of a request. At the time of the clock it answers with the
  -- internal error exactly when the clock is before the Unix epoch or its seconds are no `i64`.
  pub load-not_internal :
      (fs : FileSystem) (path : String) (self : Authority l) (header : List ℕ)
      → load l fs path ≡ ok self
      → ((now : ℤ) → authenticate_at l self header now ≢ err internal)
        × ((clock : Option ℕ)
            → (authenticate l self clock header ≡ err internal) ↔ IsOutOfRange clock)
  unfolding authenticate_at
  load-not_internal fs path self header loaded =
      let (valid, (_, _, _, (mac, usable))) = load-IsAssembled l fs path self loaded in
      let (_, skew, age, limits, _, _, _) = validate_document-IsDocument l self.document valid in
      let issuer = validate_document-issuer l self.document valid in
      let done : (now : ℤ) → answers (authenticate_at l self header now) ≡ true = λ now.
        >>=-answers _ _
          (extract_bearer-answers self.document.server_limits.max_token_bytes header (ground arith))
          λ token _.
            >>=-answers _ _ (read_claims-answers l self (omega arith) (omega arith) token now)
              λ claims _. identify-answers l self mac claims usable issuer in
      let never : (now : ℤ) → authenticate_at l self header now ≢ err internal =
        λ now failed. answers-internal _ (done now) failed in
      (never, λ clock. authenticate-IsOutOfRange self clock header never)
