-- ===== src/Limiter/Tests.antt =====
-- crates/postgresem/src/mcp_http_rate.rs with two requests of one authority.
use postgresem.Prelude.{
  ℕ, ◌+◌, ◌-◌, ◌*◌, ◌/◌, ◌≤◌, ◌≡◌, ◌⊎◌, refl, true, false, [], ◌∷◌, ltb, if◌then◌else◌, arith,
}
use postgresem.Prelude.Ordered.{lookup}
use postgresem.Limiter.{Machine, PrincipalLimiter, bucket_of, refilled, with_bucket, admit, acquire}
use postgresem.Limiter.Active.{permits_of, active_of}
use postgresem.Limiter.Steps.{admitted, Reach, start, next, Reach-active_of}

-- whole numbers and seconds, in place of floats and instants
abbrev whole : Machine
whole = record {
  Float = ℕ;
  Instant = ℕ;
  from_u32 = λ n. n;
  plus = λ a b. a + b;
  minus = λ a b. a - b;
  times = λ a b. a * b;
  divided = λ a b. a / b;
  minimum = λ a b. if ltb a b then a else b;
  less_than = ltb;
  seconds_since = λ now past. now - past;
}

abbrev empty : PrincipalLimiter whole
empty = record { buckets = []; poisoned = false }

abbrev one : PrincipalLimiter whole
one = (acquire whole empty 0 "tenant" 60 2 1).0

-- One request is admitted, and the next is refused while it is active.
one_request : Reach whole (λ a. 1) (one, record { authority_id = "tenant" } ∷ [])
unfolding acquire admit with_bucket bucket_of refilled lookup
one_request =
    next start
      (admitted empty [] 0 "tenant" 60 2 1 (record { authority_id = "tenant" }) (omega arith) refl)

Reach-active_of_example :
    (permits_of "tenant" (record { authority_id = "tenant" } ∷ []) ≤ 1)
    × ((one.poisoned ≡ true)
        ⊎ (active_of whole one "tenant"
            ≡ permits_of "tenant" (record { authority_id = "tenant" } ∷ [])))
Reach-active_of_example =
    Reach-active_of whole (λ a. 1) one (record { authority_id = "tenant" } ∷ []) "tenant"
      one_request
