-- ===== src/Workers.antt =====
-- The workers of internal/worker and the queues that they consume (internal/infra/rabbitmq).
pub mod Delivery
pub mod Handle
pub mod Topology
pub mod Emails
pub mod Saves
pub mod Journey
pub mod Converted
pub mod Pool
