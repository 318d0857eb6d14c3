-- ===== src/Lura.antt =====
-- The package lura: the instrumentation of the proxy and backend stages.
pub mod Meter
pub mod Tracer
pub mod Proxy
pub mod Factories
pub mod Backend
pub mod RunServer
