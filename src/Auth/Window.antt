-- ===== src/Auth/Window.antt =====
-- What `check_time` of crates/postgresem/src/mcp_http_auth.rs accepts.
use postgresem.Prelude.{
  String, ℕ, ◌+◌, ◌≤◌, ◌<◌, ◌≡◌, ◌↔◌, refl, sym, ◌∙◌, Bool, true, false, not, Option, none, some,
  arith,
}
use postgresem.Prelude.Results.{
  Result, ok, ◌>>=◌, reject_if, ok_or, >>=-ok, reject_if-ok, ok-reject_if,
}
use postgresem.Lsq.{ℤ, pos}
use postgresem.Lsm.Json.{Members, Number, Value}
use postgresem.Auth.{AuthError, invalid_claims, AuthorityDocument}
use postgresem.Auth.Integers.{
  max_i64, ltb_ℤ, ◌≤ℤ◌, ◌<ℤ◌, ◌+ℤ◌, saturating_add, saturating_sub, pos_part,
}
use postgresem.Auth.Claims.{
  get, try_i64, numeric_claim, check_window, check_time, as_i64, starts_after, numeric_value,
}

abbrev pub IsStarted : Option ℤ → ℕ → Type 0
IsStarted none limit = Unit
IsStarted (some nbf) limit = nbf ≤ℤ pos limit

-- The times of a token in exact integers: it is issued before it expires, `now` is before it expires
-- and after it starts and is issued, each with a skew, and it is not older than `max_age`.
abbrev pub InWindow : ℕ → ℕ → ℤ → ℤ → Option ℤ → ℕ → Type 0
InWindow skew max_age exp iat nbf now =
    (iat ≤ℤ exp)
    × (pos now <ℤ exp +ℤ pos skew)
    × IsStarted nbf (now + skew)
    × (iat ≤ℤ pos (now + skew))
    × (pos now ≤ℤ iat +ℤ pos (max_age + skew))

-- a claim that an `i64` holds
abbrev pub IsI64 : ℤ → Type 0
IsI64 z = pos_part z ≤ max_i64

abbrev AllI64 : Option ℤ → Type 0
AllI64 none = Unit
AllI64 (some z) = IsI64 z

-- before a limit that an `i64` may not reach
before_saturated :
    (skew : ℕ) (exp : ℤ) (now : ℕ)
    → skew ≤ max_i64
    → now ≤ max_i64
    → (ltb_ℤ (saturating_sub (pos now) (pos skew)) exp ≡ true) ↔ (pos now <ℤ exp +ℤ pos skew)
unfolding saturating_sub
before_saturated skew exp now h k = ground arith

reached_saturated :
    (skew : ℕ) (z : ℤ) (now : ℕ)
    → IsI64 z
    → (ltb_ℤ (saturating_add (pos now) (pos skew)) z ≡ false) ↔ (z ≤ℤ pos (now + skew))
unfolding saturating_add
reached_saturated skew z now h = ground arith

age_saturated :
    (skew max_age : ℕ) (iat : ℤ) (now : ℕ)
    → max_age + skew < max_i64
    → now ≤ max_i64
    → (ltb_ℤ (saturating_add (pos max_age) (pos skew)) (saturating_sub (pos now) iat) ≡ false)
      ↔ (pos now ≤ℤ iat +ℤ pos (max_age + skew))
unfolding saturating_add saturating_sub
age_saturated skew max_age iat now h k = ground arith

flipped : (b : Bool) → (not b ≡ false) ↔ (b ≡ true)
flipped b = ground arith

kept : (b : Bool) (e : AuthError) → (reject_if b e ≡ ok tt) ↔ (b ≡ false)
kept b e = ground arith

in_order : (exp iat : ℤ) → (ltb_ℤ exp iat ≡ false) ↔ (iat ≤ℤ exp)
in_order exp iat = ground arith

IsStarted-saturated :
    (skew : ℕ) (nbf : Option ℤ) (now : ℕ)
    → AllI64 nbf
    → (starts_after (saturating_add (pos now) (pos skew)) nbf ≡ false) ↔ IsStarted nbf (now + skew)
IsStarted-saturated skew none now h = (λ p. tt, λ p. refl)
IsStarted-saturated skew (some z) now h = reached_saturated skew z now h

module _ (skew max_age : ℕ) (exp iat : ℤ) (nbf : Option ℤ) (now : ℕ) where
  accepted :
      check_window (pos skew) (pos max_age) exp iat nbf (pos now) ≡ ok tt
      → now ≤ max_i64
      → max_age + skew < max_i64
      → IsI64 iat
      → AllI64 nbf
      → InWindow skew max_age exp iat nbf now
  unfolding check_window
  accepted p h k i n =
      let (a, p₁) = reject_if-ok _ _ _ p in
      let (b, p₂) = reject_if-ok _ _ _ p₁ in
      let (c, p₃) = reject_if-ok _ _ _ p₂ in
      let (d, p₄) = reject_if-ok _ _ _ p₃ in
      (
        (in_order exp iat).0 a,
        (before_saturated skew exp now (omega arith) h).0 ((flipped _).0 b),
        (IsStarted-saturated skew nbf now n).0 c,
        (reached_saturated skew iat now i).0 d,
        (age_saturated skew max_age iat now k h).0 ((kept _ _).0 p₄),
      )

  accepts :
      InWindow skew max_age exp iat nbf now
      → now ≤ max_i64
      → max_age + skew < max_i64
      → IsI64 iat
      → AllI64 nbf
      → check_window (pos skew) (pos max_age) exp iat nbf (pos now) ≡ ok tt
  unfolding check_window
  accepts (a, b, c, d, e) h k i n = ok-reject_if _ _ _ ((in_order exp iat).1 a) (
      ok-reject_if _ _ _ ((flipped _).1 ((before_saturated skew exp now (omega arith) h).1 b)) (
        ok-reject_if _ _ _ ((IsStarted-saturated skew nbf now n).1 c) (
          ok-reject_if _ _ _ ((reached_saturated skew iat now i).1 d)
            ((kept _ _).1 ((age_saturated skew max_age iat now k h).1 e)))))

as_i64-IsI64 : (n : Number) (z : ℤ) → as_i64 n ≡ some z → IsI64 z
as_i64-IsI64 n z h = ground arith

value-AllI64 : (v : Option Value) (z : Option ℤ) → numeric_value v ≡ ok z → AllI64 z
value-AllI64 none z h = ground arith
value-AllI64 (some (Value.number n)) none h = tt
value-AllI64 (some (Value.number n)) (some z) h = as_i64-IsI64 n z (ground arith)
value-AllI64 (some Value.null) z h = ground arith
value-AllI64 (some (Value.boolean b)) z h = cc
value-AllI64 (some (Value.string s)) z h = cc
value-AllI64 (some (Value.array vs)) z h = cc
value-AllI64 (some (Value.object m)) z h = cc

numeric_claim-AllI64 :
    (claims : Members) (name : String) (z : Option ℤ) → numeric_claim claims name ≡ ok z → AllI64 z
unfolding numeric_claim
numeric_claim-AllI64 claims name z h = value-AllI64 (get name claims) z h

-- the times that a token claims
abbrev pub HasTimes : Members → ℤ → ℤ → Option ℤ → Type 0
HasTimes claims exp iat nbf =
    (numeric_claim claims "exp" ≡ ok (some exp))
    × (numeric_claim claims "iat" ≡ ok (some iat))
    × (numeric_claim claims "nbf" ≡ ok nbf)

required :
    (r : Result AuthError (Option ℤ)) (z : ℤ)
    → (r >>= λ claim. ok_or claim invalid_claims) ≡ ok z
    → r ≡ ok (some z)
required r z h = ground arith

-- `check_time` once the skew and the age are read
abbrev checked : Members → ℤ → ℤ → ℤ → Result AuthError (Unit {0})
checked claims skew max_age now = do
  exp ← numeric_claim claims "exp" >>= λ claim. ok_or claim invalid_claims
  iat ← numeric_claim claims "iat" >>= λ claim. ok_or claim invalid_claims
  nbf ← numeric_claim claims "nbf"
  check_window skew max_age exp iat nbf now

fits : (n : ℕ) → n ≤ max_i64 → try_i64 n ≡ ok (pos n)
fits n h = ground arith

check_time-checked :
    (document : AuthorityDocument) (claims : Members) (now : ℤ)
    → document.max_token_age_seconds + document.clock_skew_seconds < max_i64
    → check_time document claims now
      ≡ checked claims (pos document.clock_skew_seconds) (pos document.max_token_age_seconds) now
unfolding check_time
check_time-checked document claims now h =
    rw
      (
        fits document.clock_skew_seconds (omega arith),
        fits document.max_token_age_seconds (omega arith),
      )
      refl

module _ (document : AuthorityDocument) (claims : Members) (now : ℕ) where
  abbrev pub InTime : Type 0
  InTime =
      (exp iat : ℤ) × (nbf : Option ℤ) × HasTimes claims exp iat nbf
      × InWindow document.clock_skew_seconds document.max_token_age_seconds exp iat nbf now

  module _ (h : now ≤ max_i64)
      (k : document.max_token_age_seconds + document.clock_skew_seconds < max_i64) where
    in_time : check_time document claims (pos now) ≡ ok tt → InTime
    in_time p =
        let (exp, e, p₁) = >>=-ok _ _ (sym (check_time-checked document claims (pos now) k) ∙ p) in
        let (iat, i, p₂) = >>=-ok _ _ p₁ in
        let (nbf, n, p₃) = >>=-ok _ _ p₂ in
        let i' = required _ iat i in
        (
          exp,
          iat,
          nbf,
          (required _ exp e, i', n),
          accepted document.clock_skew_seconds document.max_token_age_seconds exp iat nbf now p₃ h k
              (numeric_claim-AllI64 claims "iat" (some iat) i')
              (numeric_claim-AllI64 claims "nbf" nbf n),
        )

    is_checked : InTime → check_time document claims (pos now) ≡ ok tt
    is_checked (exp, iat, nbf, (e, i, n), w) =
        check_time-checked document claims (pos now) k
        ∙ rw (e, i, n)
            (accepts document.clock_skew_seconds document.max_token_age_seconds exp iat nbf now w h
              k (numeric_claim-AllI64 claims "iat" (some iat) i)
              (numeric_claim-AllI64 claims "nbf" nbf n))

  -- A token passes `check_time` if and only if its claims `exp` and `iat`, and `nbf` when it is there,
  -- are numbers of an `i64`, which as integers of any size put `now` in the token's window: the
  -- saturating operations give what the exact ones give. The clock is at a time from the epoch on
  -- that an `i64` holds, and the configured skew and age together are below the largest `i64`.
  pub check_time_iff :
      now ≤ max_i64
      → document.max_token_age_seconds + document.clock_skew_seconds < max_i64
      → (check_time document claims (pos now) ≡ ok tt) ↔ (
          (exp iat : ℤ) × (nbf : Option ℤ) × HasTimes claims exp iat nbf
          × InWindow document.clock_skew_seconds document.max_token_age_seconds exp iat nbf now)
  check_time_iff h k = (in_time h k, is_checked h k)
