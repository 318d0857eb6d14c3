-- ===== src/Registration/Exporters.antt =====
-- exporter/exporter.go: the exporters of a configuration by their names.
pub mod Filled
pub mod Merged
pub mod Failed
use krakend_otel.Prelude.{
  ℕ, ◌+◌, ℤ, String, Bool, Option, none, some, List, [], ◌∷◌, Map, insert, insert_all, lookup,
  Result, done, failed, ◌>>=◌,
}
use krakend_otel.Telemetry.{Err, message}
use krakend_otel.Config.Exporters.{OtlpExporter, PrometheusExporter, Exporters}
use krakend_otel.Exporter.Otlp.{OtlpSdk, OtelCollector, Client, reader_interval}
use krakend_otel.Exporter.Otlp as Otlp
use krakend_otel.Exporter.Prometheus.{PrometheusSdk, PrometheusCollector, Registry, Server}
use krakend_otel.Exporter.Prometheus as Prometheus

-- `MetricReader`, by its implementations.
pub data MetricReader : Type 0 where
  otlp_reader : OtelCollector → MetricReader
  prometheus_reader : PrometheusCollector → MetricReader

-- `SpanExporter`
abbrev pub SpanExporter : Type 0
SpanExporter = OtelCollector

unfoldable pub metric_default_reporting : MetricReader → Bool
metric_default_reporting (otlp_reader c) = Otlp.metric_default_reporting c
metric_default_reporting (prometheus_reader c) = Prometheus.metric_default_reporting c

-- `sdkmetric.Reader`: one that pushes through a client at an interval, in nanoseconds, or the
-- exporter of a registry, which is asked for its metrics.
pub data Reader : Type 0 where
  periodic : Client → ℤ → Reader
  on_demand : Registry → Reader

-- `MetricReader(reportingPeriod)`
unfoldable pub metric_reader : ℤ → MetricReader → Reader
metric_reader reporting_period (otlp_reader c) =
    periodic c.metric_exporter (reader_interval c reporting_period)
metric_reader reporting_period (prometheus_reader c) = on_demand c.registry

-- The errors of `CreateOTLPExporters` and `CreatePrometheusExporters`, with the name and the index.
pub data CreationError : Type 0 where
  otlp_failed : String → ℕ → Err → CreationError
  prometheus_failed : String → ℕ → Err → CreationError

pub record Libraries : Type 0 where
  pub otlp : OtlpSdk
  pub prometheus : PrometheusSdk

-- Exporters by their names, or an error, with the servers that were started on the way.
abbrev pub Started : Type 0 → Type 0
Started A = List Server × Result CreationError A

module _ (libs : Libraries) where
  pub create_otlp_from :
      ℕ
      → List OtlpExporter
      → Map MetricReader
      → Map SpanExporter
      → Result CreationError (Map MetricReader × Map SpanExporter)
  create_otlp_from idx [] m s = done (m, s)
  create_otlp_from idx (e ∷ es) m s = elim (Otlp.new_exporter libs.otlp e) [
    | done c ↦ create_otlp_from (idx + 1) es (insert e.name (otlp_reader c) m) (insert e.name c s)
    | failed err ↦ failed (otlp_failed e.name idx err)
  ]

  -- `CreateOTLPExporters`
  unfoldable pub create_otlp_exporters :
      List OtlpExporter → Result CreationError (Map MetricReader × Map SpanExporter)
  unfolding create_otlp_from
  create_otlp_exporters confs = create_otlp_from 0 confs [] []

  abbrev after_server : Server → Started (Map MetricReader) → Started (Map MetricReader)
  after_server server (servers, r) = (server ∷ servers, r)

  pub create_prometheus_from :
      ℕ → List PrometheusExporter → Map MetricReader → Started (Map MetricReader)
  create_prometheus_from idx [] m = ([], done m)
  create_prometheus_from idx (p ∷ ps) m = elim (Prometheus.new_exporter libs.prometheus p) [
    | done (c, server) ↦
        after_server server
          (create_prometheus_from (idx + 1) ps (insert p.name (prometheus_reader c) m))
    | failed err ↦ ([], failed (prometheus_failed p.name idx err))
  ]

  -- `CreatePrometheusExporters`
  unfoldable pub create_prometheus_exporters : List PrometheusExporter → Started (Map MetricReader)
  unfolding create_prometheus_from
  create_prometheus_exporters confs = create_prometheus_from 0 confs []

  -- `for k, v := range pm { m[k] = v }`
  abbrev pub merged :
      Map MetricReader
      → Map SpanExporter
      → Started (Map MetricReader)
      → Started (Map MetricReader × Map SpanExporter)
  merged m s (servers, r) = (servers, r >>= (λ pm. done (insert_all pm m, s)))

  abbrev pub with_otlp :
      Started (Map MetricReader)
      → Result CreationError (Map MetricReader × Map SpanExporter)
      → Started (Map MetricReader × Map SpanExporter)
  with_otlp prometheus (failed e) = ([], failed e)
  with_otlp prometheus (done (m, s)) = merged m s prometheus

  -- `Instances`
  unfoldable pub instances : Exporters → Started (Map MetricReader × Map SpanExporter)
  instances e = with_otlp (create_prometheus_exporters e.prometheus) (create_otlp_exporters e.otlp)
