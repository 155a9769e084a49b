-- ===== src/Bootstrap.antt =====
-- cmd/bootstrap: the set-up of the database, the storage and the queues.
pub mod Script
pub mod Storage
pub mod Database
pub mod Queues
pub mod Commands
pub mod Stops
pub mod All
pub mod Literal
