-- ===== src/Exporter.antt =====
-- exporter/otelcollector and exporter/prometheus: the exporters that the configuration names.
pub mod Otlp
pub mod Prometheus
