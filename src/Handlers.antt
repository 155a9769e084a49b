-- ===== src/Handlers.antt =====
-- internal/transport/http/handlers: from a decoded request to a response, over the services.
pub mod Request
pub mod Auth
pub mod Users
pub mod Friends
pub mod Shares
pub mod Gifs
pub mod Uploads
pub mod Tags
pub mod Foreign
