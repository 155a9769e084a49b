-- ===== src/Uploads.antt =====
-- Uploads: the methods of internal/app/media before a conversion, and the row of the last upload.
pub mod LastVideos
pub mod Service
pub mod Keys
