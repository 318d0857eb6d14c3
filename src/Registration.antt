-- ===== src/Registration.antt =====
-- exporter, state and otel.go: from a configuration to the global exporters, state and configuration.
pub mod Exporters
pub mod Providers
pub mod Globals
pub mod State
pub mod Register
