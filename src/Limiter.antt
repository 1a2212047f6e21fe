-- ===== src/Limiter.antt =====
-- crates/postgresem/src/mcp_http_rate.rs: the limiter of requests, by the authority they come from.
pub mod Active
pub mod Steps
mod Tests
use postgresem.Prelude.{
  ℕ, ◌+◌, ◌-◌, String, Bool, true, false, Option, none, some, List, leb, if◌then◌else◌,
}
use postgresem.Prelude.Results.{Result, ok, err}
use postgresem.Prelude.Ordered.{map_insert, lookup}

-- What the limiter takes of `f64` and of `std::time::Instant`.
pub record Machine : Type 1 where
  pub Float : Type 0
  pub Instant : Type 0
  pub from_u32 : ℕ → Float
  pub plus : Float → Float → Float
  pub minus : Float → Float → Float
  pub times : Float → Float → Float
  pub divided : Float → Float → Float
  pub minimum : Float → Float → Float
  pub less_than : Float → Float → Bool
  -- `now.saturating_duration_since(then).as_secs_f64()`
  pub seconds_since : Instant → Instant → Float

pub data LimitError : Type 0 where
  rate concurrency unavailable : LimitError

-- `PrincipalPermit`, which also holds the limiter's state
pub record PrincipalPermit : Type 0 where
  pub authority_id : String

pub record Bucket (m : Machine) : Type 0 where
  pub tokens : m.Float
  pub last_refill : m.Instant
  pub active : ℕ

-- The mutex's contents, and whether a thread has panicked with the lock.
pub record PrincipalLimiter (m : Machine) : Type 0 where
  pub buckets : List (String × Bucket m)
  pub poisoned : Bool

module _ (m : Machine) where
  -- `entry(authority_id).or_insert_with(..)`
  unfoldable pub bucket_of : PrincipalLimiter m → m.Instant → String → ℕ → Bucket m
  bucket_of limiter now authority_id burst = elim (lookup authority_id limiter.buckets) [
    | some bucket ↦ bucket
    | none ↦ record { tokens = m.from_u32 burst; last_refill = now; active = 0 }
  ]

  unfoldable pub refilled : m.Instant → ℕ → ℕ → Bucket m → Bucket m
  refilled now requests_per_minute burst bucket =
      let refill_per_second = m.divided (m.from_u32 requests_per_minute) (m.from_u32 60) in
      let elapsed = m.seconds_since now bucket.last_refill in
      record bucket {
        tokens =
            m.minimum (m.plus bucket.tokens (m.times elapsed refill_per_second)) (m.from_u32 burst);
        last_refill = now;
      }

  unfoldable pub with_bucket : PrincipalLimiter m → String → Bucket m → PrincipalLimiter m
  with_bucket limiter authority_id bucket = record limiter {
    buckets = map_insert authority_id bucket limiter.buckets;
  }

  -- the rest of `acquire`, from the check of `active`
  unfoldable pub admit :
      PrincipalLimiter m
      → String
      → ℕ
      → Bucket m
      → PrincipalLimiter m × Result LimitError PrincipalPermit
  admit limiter authority_id max_concurrent bucket =
      if leb max_concurrent bucket.active
      then (with_bucket limiter authority_id bucket, err concurrency)
      else if m.less_than bucket.tokens (m.from_u32 1)
      then (with_bucket limiter authority_id bucket, err rate)
      else (
        with_bucket limiter authority_id (record bucket {
          tokens = m.minus bucket.tokens (m.from_u32 1);
          active = bucket.active + 1;
        }),
        ok (record { authority_id = authority_id }),
      )

  -- `PrincipalLimiter::acquire` at the instant `now`
  unfoldable pub acquire :
      PrincipalLimiter m
      → m.Instant
      → String
      → ℕ
      → ℕ
      → ℕ
      → PrincipalLimiter m × Result LimitError PrincipalPermit
  acquire limiter now authority_id requests_per_minute burst max_concurrent =
      if limiter.poisoned
      then (limiter, err unavailable)
      else admit limiter authority_id max_concurrent
          (refilled now requests_per_minute burst (bucket_of limiter now authority_id burst))

  -- the end of a request whose bucket was looked for
  abbrev pub release : PrincipalLimiter m → String → Option (Bucket m) → PrincipalLimiter m
  release limiter authority_id none = limiter
  release limiter authority_id (some bucket) =
      with_bucket limiter authority_id (record bucket { active = bucket.active - 1 })

  -- `PrincipalPermit::drop`
  unfoldable pub drop : PrincipalLimiter m → PrincipalPermit → PrincipalLimiter m
  drop limiter permit =
      if limiter.poisoned
      then limiter
      else release limiter permit.authority_id (lookup permit.authority_id limiter.buckets)
