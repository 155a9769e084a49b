-- ===== src/Share.antt =====
-- Shares of GIFs with users and by links: the tables (internal/infra/postgres/share_repo.go) and
-- the service (internal/app/share).
pub mod Repo
pub mod Service
pub mod Grant
pub mod Link
