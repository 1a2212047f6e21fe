-- ===== src/Auth/Admitted.antt =====
-- The first request of a principal that crates/postgresem/src/mcp_http_auth.rs authenticates, at the
-- limiter of crates/postgresem/src/mcp_http_rate.rs, which crates/postgresem/src/mcp_http.rs asks with
-- the principal's authority id and rate limit.
use postgresem.Prelude.{ℕ, ◌≤◌, ◌≡◌, refl, String, ap, ◌∙◌, false, none, List, arith}
use postgresem.Prelude.Results.{ok}
use postgresem.Prelude.Ordered.{lookup}
use postgresem.Lsq.{ℤ}
use postgresem.Limiter.{Machine, PrincipalLimiter, PrincipalPermit, bucket_of, refilled, acquire}
use postgresem.Limiter.Active.{active_of, acquire_iff}
use postgresem.Auth.{AuthenticatedPrincipal}
use postgresem.Auth.Library.{Library, Authority}
use postgresem.Auth.Token.{authenticate_at}
use postgresem.Auth.Load.{FileSystem, load}
use postgresem.Auth.Answers.{load-authorized}

-- `f64` and `Instant` on whole numbers: their order, and a duration of no time
pub record IsExact (m : Machine) : Type 0 where
  pub not_less : (a b : ℕ) → b ≤ a → m.less_than (m.from_u32 a) (m.from_u32 b) ≡ false
  pub no_time :
      (now : m.Instant) (tokens rate : ℕ)
      → m.plus
          (m.from_u32 tokens)
          (m.times (m.seconds_since now now) (m.divided (m.from_u32 rate) (m.from_u32 60)))
        ≡ m.from_u32 tokens
  pub same_minimum : (a : ℕ) → m.minimum (m.from_u32 a) (m.from_u32 a) ≡ m.from_u32 a

module _ (m : Machine) (exact : IsExact m) (limiter : PrincipalLimiter m) (now : m.Instant) where
  new-active_of :
      (authority : String)
      → lookup authority limiter.buckets ≡ none
      → active_of m limiter authority ≡ 0
  unfolding active_of
  new-active_of authority new = rw new refl

  -- a new bucket is full
  new-refilled :
      (authority : String) (rpm burst : ℕ)
      → lookup authority limiter.buckets ≡ none
      → (refilled m now rpm burst (bucket_of m limiter now authority burst)).tokens
        ≡ m.from_u32 burst
  unfolding refilled bucket_of
  new-refilled authority rpm burst new =
      rw (new, bucket_of)
        (ap (λ t. m.minimum t (m.from_u32 burst)) (exact.no_time now burst rpm)
          ∙ exact.same_minimum burst)

-- The first request of a principal that a loaded verifier authenticates is admitted, when the lock is not
-- poisoned and whole floats and durations of no time behave as they are documented: the limits that a
-- document may configure shut nobody out.
pub load-admitted :
    (l : Library) (fs : FileSystem) (path : String) (self : Authority l) (header : List ℕ)
    (time : ℤ) (p : AuthenticatedPrincipal) (m : Machine) (limiter : PrincipalLimiter m)
    (now : m.Instant)
    → load l fs path ≡ ok self
    → authenticate_at l self header time ≡ ok p
    → IsExact m
    → limiter.poisoned ≡ false
    → lookup p.authority_id limiter.buckets ≡ none
    → (permit : PrincipalPermit) × ((acquire m limiter now p.authority_id
          p.rate_limit.requests_per_minute p.rate_limit.burst p.rate_limit.max_concurrent).1
        ≡ ok permit)
load-admitted l fs path self header time p m limiter now loaded accepted exact unpoisoned new =
    let (_, _, _, _, _, _, _, limit) =
      load-authorized l fs path self header time p loaded accepted in
    let (some_at_once, _, at_most, _, _, _) = limit in
    let rate = p.rate_limit in
    (acquire_iff m limiter now p.authority_id rate.requests_per_minute rate.burst
        rate.max_concurrent).1
      (
        unpoisoned,
        omega (arith, new-active_of m exact limiter now p.authority_id new),
        ap (λ t. m.less_than t (m.from_u32 1))
              (new-refilled m exact limiter now p.authority_id rate.requests_per_minute rate.burst
                new)
            ∙ exact.not_less rate.burst 1 (omega arith),
      )
