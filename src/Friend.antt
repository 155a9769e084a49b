-- ===== src/Friend.antt =====
-- Friend requests: the queries on the table `friendships` (internal/infra/postgres/friend_repo.go)
-- and the service on top of them (internal/app/friend/service.go).
pub mod Repo
pub mod Service
pub mod Pairs
pub mod Effects
pub mod Invariant
pub mod Spec
pub mod Refinement
pub mod Listing
pub mod Race
