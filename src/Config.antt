-- ===== src/Config.antt =====
-- The package config.
pub mod Buckets
pub mod Options
pub mod Exporters
pub mod Data
pub mod Lura
pub mod PathPattern
