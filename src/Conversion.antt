-- ===== src/Conversion.antt =====
-- Conversions of videos: the methods `Convert`, `Process` and `ConversionStatus` of
-- internal/app/media over internal/infra/postgres/job_repo.go.
pub mod Jobs
pub mod Service
pub mod Queued
pub mod Status
pub mod Run
pub mod Recorded
pub mod Failed
