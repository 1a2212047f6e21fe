-- ===== src/Auth/Document/Bounds.antt =====
-- The limits that `validate_limits` and `validate_rate_limit` of
-- crates/postgresem/src/mcp_http_auth.rs accept.
use postgresem.Prelude.{ℕ, ◌≤◌, ◌≡◌, ◌↔◌, arith}
use postgresem.Prelude.Results.{ok}
use postgresem.Auth.{ServerLimits, RateLimitConfig}
use postgresem.Auth.Document.Limits.{validate_limits, validate_rate_limit}

abbrev pub IsBetween : ℕ → ℕ → ℕ → Type 0
IsBetween low high n = (low ≤ n) × (n ≤ high)

abbrev pub IsWithinLimits : ServerLimits → Type 0
IsWithinLimits limits =
    IsBetween 1024 1_048_576 limits.max_request_body_bytes
    × IsBetween 256 65_536 limits.max_token_bytes
    × IsBetween 1024 1_048_576 limits.max_header_bytes
    × IsBetween 1 3600 limits.max_execution_seconds
    × IsBetween 1024 1_073_741_824 limits.max_result_bytes
    × IsBetween 1 10_000 limits.max_concurrent_requests
    × IsBetween 1 limits.max_concurrent_requests limits.max_pre_auth_concurrent_requests
    × IsBetween 2 10_000 limits.max_database_connections
    × IsBetween 1 60 limits.sse_keepalive_seconds
    × IsBetween limits.sse_keepalive_seconds 3600 limits.max_sse_seconds
    × (limits.max_token_bytes ≤ limits.max_header_bytes)

abbrev pub IsRateLimit : RateLimitConfig → Type 0
IsRateLimit limit =
    (1 ≤ limit.max_concurrent)
    × (limit.max_concurrent ≤ 10_000)
    × (limit.max_concurrent ≤ limit.burst)
    × (limit.burst ≤ 100_000)
    × (limit.burst ≤ limit.requests_per_minute)
    × (limit.requests_per_minute ≤ 1_000_000)

-- A rate limit is accepted if and only if its concurrency is at least one and at most its burst, which
-- is at most its requests per minute, and each is within its own bound.
pub validate_rate_limit_iff :
    (limit : RateLimitConfig) → (validate_rate_limit limit ≡ ok tt) ↔ IsRateLimit limit
unfolding validate_rate_limit
validate_rate_limit_iff limit = ground arith

-- The limits of a server are accepted if and only if each is within its range, and none of those that
-- must not be above another one is.
pub validate_limits_iff :
    (limits : ServerLimits) → (validate_limits limits ≡ ok tt) ↔ IsWithinLimits limits
unfolding validate_limits
validate_limits_iff limits = ground arith
