-- ===== src/Seed.antt =====
-- cmd/bootstrap/cmd/seed.go: the demo data that `bootstrap seed` writes.
pub mod Names
pub mod Batches
pub mod Random
pub mod Users
pub mod Gifs
pub mod Friends
pub mod Paired
pub mod Befriended
pub mod Same
pub mod Whole
pub mod Shares
pub mod Run
