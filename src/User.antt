-- ===== src/User.antt =====
-- Profiles and quotas (internal/infra/postgres/user_repo.go, quota_repo.go) and the service of
-- internal/app/user.
pub mod Profiles
pub mod Quotas
pub mod Service
pub mod Erasure
pub mod Changes
pub mod Limits
