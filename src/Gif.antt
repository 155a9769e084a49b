-- ===== src/Gif.antt =====
-- GIFs: the table (internal/infra/postgres/gif_repo.go), and the methods of the media service that
-- work on stored GIFs (internal/app/media).
pub mod Repo
pub mod Service
pub mod Ownership
pub mod Download
pub mod Etag
