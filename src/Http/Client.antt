-- ===== src/Http/Client.antt =====
-- The package client: an instrumented round tripper.
pub mod Tracking
pub mod Metrics
pub mod Report
pub mod Traces
pub mod Transport
