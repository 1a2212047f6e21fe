-- ===== src/Auth/Document/Limits.antt =====
-- `validate_limits` and `validate_rate_limit` of crates/postgresem/src/mcp_http_auth.rs.
use postgresem.Prelude.{ℕ, String, Bool, not, ◌&&◌, leb, ltb}
use postgresem.Prelude.Results.{Result, ◌>>◌, reject_if}
use postgresem.Auth.{ConfigError, config_error, schema, semantic, ServerLimits, RateLimitConfig}

-- `(low..=high).contains(&n)`
abbrev pub in_range : ℕ → ℕ → ℕ → Bool
in_range low high n = leb low n && leb n high

abbrev check_range : ℕ → ℕ → ℕ → String → Result ConfigError (Unit {0})
check_range low high n reason = reject_if (not (in_range low high n)) (config_error schema reason)

unfoldable pub validate_limits : ServerLimits → Result ConfigError (Unit {0})
validate_limits limits = do
  check_range 1024 1_048_576 limits.max_request_body_bytes "max_request_body_bytes is out of range"
  check_range 256 65_536 limits.max_token_bytes "max_token_bytes is out of range"
  check_range 1024 1_048_576 limits.max_header_bytes "max_header_bytes is out of range"
  check_range 1 3600 limits.max_execution_seconds "max_execution_seconds is out of range"
  check_range 1024 1_073_741_824 limits.max_result_bytes "max_result_bytes is out of range"
  check_range 1 10_000 limits.max_concurrent_requests "max_concurrent_requests is out of range"
  check_range 1 10_000 limits.max_pre_auth_concurrent_requests
      "max_pre_auth_concurrent_requests is out of range"
  check_range 2 10_000 limits.max_database_connections "max_database_connections is out of range"
  check_range 1 60 limits.sse_keepalive_seconds "sse_keepalive_seconds is out of range"
  check_range 1 3600 limits.max_sse_seconds "max_sse_seconds is out of range"
  reject_if (ltb limits.max_concurrent_requests limits.max_pre_auth_concurrent_requests) (
      config_error semantic
        "max_pre_auth_concurrent_requests must not exceed max_concurrent_requests")
  reject_if (ltb limits.max_header_bytes limits.max_token_bytes)
      (config_error semantic "max_token_bytes must not exceed max_header_bytes")
  reject_if (ltb limits.max_sse_seconds limits.sse_keepalive_seconds)
      (config_error semantic "sse_keepalive_seconds must not exceed max_sse_seconds")

unfoldable pub validate_rate_limit : RateLimitConfig → Result ConfigError (Unit {0})
validate_rate_limit limit = do
  check_range 1 1_000_000 limit.requests_per_minute "requests_per_minute is out of range"
  check_range 1 100_000 limit.burst "burst is out of range"
  check_range 1 10_000 limit.max_concurrent "max_concurrent is out of range"
  reject_if (ltb limit.requests_per_minute limit.burst)
      (config_error semantic "burst must not exceed requests_per_minute")
  reject_if (ltb limit.burst limit.max_concurrent)
      (config_error semantic "max_concurrent must not exceed burst")
