-- ===== src/Auth.antt =====
-- Accounts and sessions: the tables (internal/infra/postgres/auth_repo.go), the service
-- (internal/app/auth) and the middleware that admits a request (internal/transport/http/middleware).
pub mod Users
pub mod Verifiers
pub mod Reseters
pub mod Service
pub mod Signup
pub mod Verify
pub mod Login
pub mod Journey
pub mod Reset
pub mod Stale
