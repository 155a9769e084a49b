-- ===== src/Tests.antt =====
-- The theorems of the library applied to concrete worlds.
mod Sample
mod Friend
mod RateLimit
mod Storage
mod Auth
mod Http
mod Gif
mod Share
mod User
mod Conversion
mod Handlers
mod Uploads
mod Workers
mod Pool
mod Seed
mod Bootstrap
