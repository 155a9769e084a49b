-- ===== src/Http.antt =====
-- internal/transport/http: what stands between a request and its handler.
pub mod Response
pub mod Auth
pub mod Session
pub mod Manager
pub mod Chain
pub mod Routes
pub mod Guarded
pub mod Limits
