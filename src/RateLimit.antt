-- ===== src/RateLimit.antt =====
-- The token bucket of an address: the Lua script (internal/infra/redis/rate_limiter) and the
-- middleware that asks it (internal/transport/http/middleware/rate_limiter.go).
pub mod Bucket
pub mod Bounds
pub mod Middleware
pub mod Retry
