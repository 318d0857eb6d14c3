-- ===== src/Http/Server.antt =====
-- http/server: the handler that measures and traces the requests of the gateway.
pub mod Tracking
pub mod Metrics
pub mod Traces
pub mod Writer
pub mod Program
pub mod Handler
pub mod New
