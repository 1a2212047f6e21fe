-- ===== src/Auth/Configured.antt =====
-- What `Authority::load` of crates/postgresem/src/mcp_http_auth.rs makes of a configuration.
use mathlib.Core.Path.{subst}
use postgresem.Prelude.{
  ℕ, ◌≡◌, refl, sym, ap, ◌∙◌, String, false, not, ◌||◌, Option, none, some, List, [], ◌∷◌, map, ltb,
  ◌==◌, length, all, contains, arith, str_eq, str_eq_iff, if◌then◌else◌, All, IsDistinct,
  Bool-cases, inl, inr,
}
use postgresem.Prelude.Results.{ok, ok_or, >>=-ok, reject_if-ok, ok-injective}
use postgresem.Prelude.Ordered.{contains-set_insert, map_insert, lookup, lookup-map_insert}
use postgresem.Auth.{
  ConfigError, config_error, schema, parse, key as key_error, AuthorityDocument, PrincipalConfig,
  PrincipalRecord,
}
use postgresem.Auth.Library.{Library, Authority}
use postgresem.Auth.Words.{to_ascii_lowercase}
use postgresem.Auth.Document.{validate_document}
use postgresem.Auth.Load.{
  FileSystem, read_bounded, resolve_path, base_of, max_authority_file_bytes, max_jwks_file_bytes,
  insert_principals, collect_set, record_of, assemble, load, parse_algorithms,
}
use postgresem.Auth.Load.Keys.{
  load_keys, min_hmac_key_bytes, max_hmac_key_bytes, load_pseudonym_key,
}

-- the principal that is found for a subject
pub contains-collect_set :
    (xs : List String) (x : String) → contains (collect_set xs) x ≡ contains xs x
unfolding collect_set
contains-collect_set [] x = refl
contains-collect_set (y ∷ xs) x =
    contains-set_insert y x (collect_set xs) ∙ ap (λ b. str_eq y x || b) (contains-collect_set xs x)

-- a principal of the document with the subject
abbrev pub configured : String → List PrincipalConfig → Option PrincipalConfig
configured subject [] = none
configured subject (p ∷ ps) = if str_eq p.subject subject then some p else configured subject ps

insert_principals-absent :
    (ps : List PrincipalConfig) (m : List (String × PrincipalRecord)) (s : String)
    → contains (map (λ p. p.subject) ps) s ≡ false
    → lookup s (insert_principals ps m) ≡ lookup s m
unfolding insert_principals
insert_principals-absent [] m s h = refl
insert_principals-absent (p ∷ ps) m s h =
    insert_principals-absent ps _ s (ground arith)
    ∙ lookup-map_insert p.subject s (record_of p) m
    ∙ ground arith

-- what is found for a subject, when it was looked for before the principals were inserted
abbrev pub found_after : Option PrincipalConfig → Option PrincipalRecord → Option PrincipalRecord
found_after none before = before
found_after (some p) before = some (record_of p)

pub lookup-insert_principals :
    (ps : List PrincipalConfig) (m : List (String × PrincipalRecord)) (s : String)
    → IsDistinct (map (λ p. p.subject) ps)
    → lookup s (insert_principals ps m) ≡ found_after (configured s ps) (lookup s m)
unfolding insert_principals
lookup-insert_principals [] m s h = refl
lookup-insert_principals (p ∷ ps) m s (new, h) = elim (Bool-cases (str_eq p.subject s)) [
  | inl here ↦
      let same = (str_eq_iff p.subject s).0 here in
      insert_principals-absent ps (map_insert p.subject (record_of p) m) s
        (subst (λ x. contains (map (λ q. q.subject) ps) x ≡ false) same new)
      ∙ lookup-map_insert p.subject s (record_of p) m
      ∙ rw here refl
  | inr there ↦
      lookup-insert_principals ps (map_insert p.subject (record_of p) m) s h
      ∙ ap (found_after (configured s ps)) (lookup-map_insert p.subject s (record_of p) m)
      ∙ rw there refl
]

some-injective : {p q : PrincipalConfig} → some p ≡ some q → p ≡ q
some-injective h = cc

pub configured-All :
    (P : PrincipalConfig → Type 0) (ps : List PrincipalConfig) (s : String) (p : PrincipalConfig)
    → All P ps
    → configured s ps ≡ some p
    → P p
configured-All P [] s p h e = cc
configured-All P (q ∷ ps) s p (h, hs) e = elim (Bool-cases (str_eq q.subject s)) [
  | inl here ↦ subst P (some-injective (rw here at e)) h
  | inr there ↦ configured-All P ps s p hs (rw there at e)
]

ok_or-some {ℓ} :
    {A : Type ℓ} (o : Option A) (e : ConfigError) (a : A) → ok_or o e ≡ ok a → o ≡ some a
ok_or-some none e a h = cc
ok_or-some (some b) e a h = ap some (ok-injective h)

module _ (l : Library) where
  load_pseudonym_key-usable :
      (bytes key : List ℕ)
      → load_pseudonym_key l bytes ≡ ok key
      → (mac : l.Mac) × (l.new_from_slice key ≡ some mac)
  unfolding load_pseudonym_key
  load_pseudonym_key-usable bytes key h =
      let (_, h₁) =
        reject_if-ok (ltb (length bytes) min_hmac_key_bytes)
          (config_error key_error "principal hmac key is shorter than 32 bytes") _ h in
      let (_, h₂) =
        reject_if-ok (ltb max_hmac_key_bytes (length bytes))
          (config_error key_error "principal hmac key exceeds 4096 bytes") _ h₁ in
      let (_, h₃) =
        reject_if-ok (all (λ byte. byte == 0) bytes)
          (config_error key_error "principal hmac key is all zero bytes") _ h₂ in
      let (mac, usable, h₄) =
        >>=-ok
          (ok_or (l.new_from_slice bytes) (config_error key_error "principal hmac key is unusable"))
          _ h₃ in
      (
        mac,
        sym (ap l.new_from_slice (ok-injective h₄))
            ∙ ok_or-some (l.new_from_slice bytes) _ mac usable,
      )

  -- what `assemble` takes over, and the pseudonym key that it has tried
  abbrev pub IsAssembled : AuthorityDocument → Authority l → Type 0
  IsAssembled document self =
      (self.document ≡ document)
      × (self.principals ≡ insert_principals document.principals [])
      × (self.algorithms ≡ parse_algorithms document.allowed_algorithms)
      × ((mac : l.Mac) × (l.new_from_slice self.pseudonym_key ≡ some mac))

  assemble-IsAssembled :
      (document : AuthorityDocument) (jwks hmac : List ℕ) (self : Authority l)
      → assemble l document jwks hmac ≡ ok self
      → IsAssembled document self
  unfolding assemble
  assemble-IsAssembled document jwks hmac self h =
      let algorithms = parse_algorithms document.allowed_algorithms in
      let (_, h₁) =
        reject_if-ok (not (length algorithms == length document.allowed_algorithms))
          (config_error schema "allowed_algorithms contains an unsupported value") _ h in
      let (keys, _, h₂) = >>=-ok (load_keys l jwks algorithms) _ h₁ in
      let (key, k, h₃) = >>=-ok (load_pseudonym_key l hmac) _ h₂ in
      let types = collect_set (map to_ascii_lowercase document.allowed_token_types) in
      let (_, h₄) =
        reject_if-ok (not (length types == length document.allowed_token_types))
          (config_error schema "allowed_token_types contains a case-insensitive duplicate") _ h₃ in
      subst (IsAssembled document) (ok-injective h₄)
        (refl, refl, refl, load_pseudonym_key-usable hmac key k)

  pub load-IsAssembled :
      (fs : FileSystem) (path : String) (self : Authority l)
      → load l fs path ≡ ok self
      → (validate_document l self.document ≡ ok tt) × IsAssembled self.document self
  unfolding load
  load-IsAssembled fs path self h =
      let (raw, _, h₁) =
        >>=-ok (read_bounded l fs path max_authority_file_bytes "authority document") _ h in
      let (document, _, h₂) =
        >>=-ok
          (ok_or (l.parse_document raw)
            (config_error parse "authority document is not schema valid JSON"))
          _ h₁ in
      let (done, valid, h₃) = >>=-ok (validate_document l document) _ h₂ in
      let base = base_of l fs (fs.parent path) in
      let (jwks, _, h₄) =
        >>=-ok
          (read_bounded l fs (resolve_path l fs base document.jwks_path) max_jwks_file_bytes
            "jwks document")
          _ h₃ in
      let (hmac, _, h₅) =
        >>=-ok
          (read_bounded l fs (resolve_path l fs base document.principal_hmac_key_path)
            max_hmac_key_bytes "principal hmac key")
          _ h₄ in
      let assembled = assemble-IsAssembled document jwks hmac self h₅ in
      subst (λ d. (validate_document l d ≡ ok tt) × IsAssembled d self) (sym assembled.0)
        (valid, assembled)
