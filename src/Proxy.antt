-- ===== src/Proxy.antt =====
-- The package pkg/proxy.
pub mod Filter
pub mod Message
pub mod Cache
pub mod Limiter
pub mod Pool
pub mod Server
pub mod Valid
pub mod Handler
