-- ===== src/Auth/Load/Keys/Laws.antt =====
-- The keys that `load_keys` of crates/postgresem/src/mcp_http_auth.rs loads.
use mathlib.Core.Path.{subst}
use postgresem.Prelude.{
  ◌+◌, ℕ, suc, ◌≡◌, refl, sym, ap, ◌∙◌, String, Bool, true, false, not, ◌&&◌, ◌||◌, Option, none,
  some, List, [], ◌∷◌, get_elem?, ltb, ◌==◌, length, all, is_empty, is_some, arith, All, Bool-cases,
  inl, inr,
}
use postgresem.Prelude.Results.{ok, ok_or, >>=-ok, reject_if-ok, ok-injective}
use postgresem.Prelude.Text.{as_bytes}
use postgresem.Prelude.Ordered.{map_insert, lookup, All-map_insert}
use postgresem.Auth.{ConfigError, config_error, parse, key as key_error}
use postgresem.Auth.Library.{Algorithm, same_algorithm, KeyType, Jwk, Library, VerificationKey}
use postgresem.Auth.Words.{byte_length, parse_algorithm}
use postgresem.Auth.Token.{contains_algorithm}
use postgresem.Auth.Load.Keys.{
  filter_algorithms, algorithms_of_type, declared_only, key_at, denies, check_jwk, key_algorithms,
  keys_from, load_keys, max_jwks_keys,
}

-- the algorithms of a type of keys
abbrev pub fits : KeyType → Algorithm → Bool
fits KeyType.rsa Algorithm.rs256 = true
fits KeyType.rsa Algorithm.rs384 = true
fits KeyType.rsa Algorithm.rs512 = true
fits KeyType.p256 Algorithm.es256 = true
fits KeyType.p384 Algorithm.es384 = true
fits KeyType.octet_key_pair Algorithm.eddsa = true
fits _ _ = false

-- at least one algorithm, and each of them of the type and allowed
abbrev pub AreUsable : List Algorithm → KeyType → List Algorithm → Type 0
AreUsable allowed type' algorithms =
    (is_empty algorithms ≡ false)
    × (all (λ a. fits type' a && contains_algorithm a allowed) algorithms ≡ true)

filtered :
    (keep test : Algorithm → Bool) (as' : List Algorithm)
    → all test as' ≡ true
    → all (λ a. test a && keep a) (filter_algorithms keep as') ≡ true
unfolding filter_algorithms
filtered keep test [] h = refl
filtered keep test (a ∷ as') h = ground (arith, filtered keep test as')

of_type :
    (index : ℕ) (t : KeyType) (as' : List Algorithm)
    → algorithms_of_type index t ≡ ok as'
    → all (fits t) as' ≡ true
unfolding algorithms_of_type
of_type index KeyType.rsa as' h =
    subst (λ xs. all (fits KeyType.rsa) xs ≡ true) (ok-injective h) refl
of_type index KeyType.p256 as' h =
    subst (λ xs. all (fits KeyType.p256) xs ≡ true) (ok-injective h) refl
of_type index KeyType.p384 as' h =
    subst (λ xs. all (fits KeyType.p384) xs ≡ true) (ok-injective h) refl
of_type index KeyType.octet_key_pair as' h =
    subst (λ xs. all (fits KeyType.octet_key_pair) xs ≡ true) (ok-injective h) refl
of_type index KeyType.other_curve as' h = cc
of_type index KeyType.octet_key as' h = cc

same-algorithm : (a b : Algorithm) → same_algorithm a b ≡ true → a ≡ b
same-algorithm a b h = ground arith

contained :
    (test : Algorithm → Bool) (d : Algorithm) (as' : List Algorithm)
    → all test as' ≡ true
    → contains_algorithm d as' ≡ true
    → test d ≡ true
contained test d [] h k = cc
contained test d (a ∷ as') h k = elim (Bool-cases (same_algorithm d a)) [
  | inl same ↦ subst (λ x. test x ≡ true) (sym (same-algorithm d a same)) (ground arith)
  | inr other ↦ contained test d as' (ground arith) (ground arith)
]

declared :
    (index : ℕ) (test : Algorithm → Bool) (as' : List Algorithm) (name : Option String)
    (bs : List Algorithm)
    → is_empty as' ≡ false
    → all test as' ≡ true
    → declared_only index as' name ≡ ok bs
    → (is_empty bs ≡ false) × (all test bs ≡ true)
declared index test as' none bs e h p =
    subst (λ xs. (is_empty xs ≡ false) × (all test xs ≡ true)) (ok-injective p) (e, h)
declared index test as' (some name) bs e h p =
    let (d, known, p₁) =
      >>=-ok (ok_or (parse_algorithm name) (key_at "jwks entry declares an unsupported alg" index))
        _ p in
    let (held, p₂) =
      reject_if-ok (not (contains_algorithm d as'))
        (key_at "jwks entry alg conflicts with its key type" index) _ p₁ in
    subst (λ xs. (is_empty xs ≡ false) × (all test xs ≡ true)) (ok-injective p₂)
      (refl, ground (arith, contained test d as' h))

not_empty : (as' : List Algorithm) → (length as' == 0) ≡ false → is_empty as' ≡ false
not_empty as' h = ground arith

key_algorithms-AreUsable :
    (allowed : List Algorithm) (index : ℕ) (jwk : Jwk) (as' : List Algorithm)
    → key_algorithms allowed index jwk ≡ ok as'
    → AreUsable allowed jwk.key_type as'
unfolding key_algorithms
key_algorithms-AreUsable allowed index jwk as' h =
    let (typed, t, h₁) = >>=-ok (algorithms_of_type index jwk.key_type) _ h in
    let retained = filter_algorithms (λ a. contains_algorithm a allowed) typed in
    let (some_left, h₂) =
      reject_if-ok (length retained == 0) (key_at "jwks entry matches no allowed algorithm" index) _
        h₁ in
    declared index (λ a. fits jwk.key_type a && contains_algorithm a allowed) retained
      jwk.key_algorithm as' (not_empty retained some_left)
      (filtered (λ a. contains_algorithm a allowed) (fits jwk.key_type) typed
        (of_type index jwk.key_type typed t))
      h₂

module _ (l : Library) (allowed : List Algorithm) where
  -- a key of the set under its own name, with algorithms that are of its type and allowed
  abbrev pub IsLoaded : List Jwk → String × VerificationKey l → Type 0
  IsLoaded jwks (kid, key) =
      (i : ℕ) × (jwk : Jwk) × (get_elem? jwks i ≡ some jwk)
      × (jwk.key_id ≡ some kid)
      × (l.from_jwk jwk ≡ some key.key)
      × AreUsable allowed jwk.key_type key.algorithms

  ok_or-some {ℓ} :
      {A : Type ℓ} (o : Option A) (e : ConfigError) (a : A) → ok_or o e ≡ ok a → o ≡ some a
  ok_or-some none e a h = cc
  ok_or-some (some b) e a h = ap some (ok-injective h)

  check_jwk-key_id :
      (index : ℕ) (jwk : Jwk) (kid : String) → check_jwk index jwk ≡ ok kid → jwk.key_id ≡ some kid
  unfolding check_jwk
  check_jwk-key_id index jwk kid h =
      let (name, n, h₁) = >>=-ok (ok_or jwk.key_id (key_at "jwks entry has no kid" index)) _ h in
      let (_, h₂) =
        reject_if-ok
          (is_empty (as_bytes name)
            || ltb 256 (byte_length name)
            || not (all (λ c. ltb c 128) (as_bytes name)))
          (key_at "jwks entry has an unusable kid" index) _ h₁ in
      let (_, h₃) =
        reject_if-ok (denies jwk.is_signature) (key_at "jwks entry is not a signature key" index) _
          h₂ in
      let (_, h₄) =
        reject_if-ok (denies jwk.can_verify) (key_at "jwks entry cannot be used to verify" index) _
          h₃ in
      ok_or-some jwk.key_id _ name n ∙ ap some (ok-injective h₄)

  keys_from-IsLoaded :
      (jwks : List Jwk) (index i : ℕ) (rest : List Jwk)
      (keys loaded : List (String × VerificationKey l))
      → ((j : ℕ) → get_elem? rest j ≡ get_elem? jwks (i + j))
      → All (IsLoaded jwks) keys
      → keys_from l allowed index rest keys ≡ ok loaded
      → All (IsLoaded jwks) loaded
  unfolding keys_from
  keys_from-IsLoaded jwks index i [] keys loaded at all' h =
      subst (All (IsLoaded jwks)) (ok-injective h) all'
  keys_from-IsLoaded jwks index i (jwk ∷ more) keys loaded at all' h =
      let (kid, k, h₁) = >>=-ok (check_jwk index jwk) _ h in
      let (algorithms, a, h₂) = >>=-ok (key_algorithms allowed index jwk) _ h₁ in
      let (key, d, h₃) =
        >>=-ok (ok_or (l.from_jwk jwk) (key_at "jwks entry is not a usable decoding key" index)) _
          h₂ in
      let (_, h₄) =
        reject_if-ok (is_some (lookup kid keys))
          (key_at "jwks document contains a duplicate kid" index) _ h₃ in
      let verification : VerificationKey l = record { key = key; algorithms = algorithms } in
      keys_from-IsLoaded jwks (suc index) (suc i) more (map_insert kid verification keys) loaded
        (λ j. at (suc j) ∙ ap (get_elem? jwks) (omega arith))
        (All-map_insert (IsLoaded jwks) kid verification keys
          (
            i + 0,
            jwk,
            sym (at 0),
            check_jwk-key_id index jwk kid k,
            ok_or-some (l.from_jwk jwk) _ key d,
            key_algorithms-AreUsable allowed index jwk algorithms a,
          )
          all')
        h₄

  -- Each key that is loaded is one of the document's under its own name, and has at least one algorithm;
  -- each of its algorithms is of the key's type and one of those allowed.
  pub load_keys-IsLoaded :
      (bytes : List ℕ) (keys : List (String × VerificationKey l))
      → load_keys l bytes allowed ≡ ok keys
      → (jwks : List Jwk) × (l.parse_jwks bytes ≡ some jwks) × All (IsLoaded jwks) keys
  unfolding load_keys
  load_keys-IsLoaded bytes keys h =
      let (jwks, p, h₁) =
        >>=-ok
          (ok_or (l.parse_jwks bytes) (config_error parse "jwks document is not a valid JWK set")) _
          h in
      let (_, h₂) =
        reject_if-ok (is_empty jwks) (config_error key_error "jwks document contains no keys") _
          h₁ in
      let (_, h₃) =
        reject_if-ok (ltb max_jwks_keys (length jwks))
          (config_error key_error "jwks document contains too many keys") _ h₂ in
      (
        jwks,
        ok_or-some (l.parse_jwks bytes) _ jwks p,
        keys_from-IsLoaded jwks 0 0 jwks [] keys (λ j. ap (get_elem? jwks) (omega arith)) tt h₃,
      )
