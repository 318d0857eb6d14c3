-- ===== src/Http.antt =====
-- The package http and its parts.
pub mod Attributes
pub mod Client
pub mod Server
