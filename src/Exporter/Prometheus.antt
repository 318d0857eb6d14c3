-- ===== src/Exporter/Prometheus.antt =====
-- exporter/prometheus/prometheus.go: the exporter that Prometheus scrapes. Whether a collector can be
-- registered, and an exporter made, is an argument.
pub mod Serves
use krakend_otel.Prelude.{
  ℕ, String, concat, Bool, not, Option, none, some, List, [], ◌∷◌, ◌++◌, if◌then◌else◌, Result,
  done, failed, ◌>>=◌,
}
use krakend_otel.Telemetry.{Err, text}
use krakend_otel.Config.Exporters.{PrometheusExporter}
use krakend_otel.Exporter.Otlp.{host_port, port_or}

-- What can be registered: the collectors of the process and of Go, and the exporter's own, with the
-- metrics of the service.
pub data Collector : Type 0 where
  process_collector go_collector exporter_collector : Collector

-- `prom.Registry`, by the collectors that are registered.
abbrev pub Registry : Type 0
Registry = List Collector

-- The errors of `Register`, and of `prometheus.New` with this registry as its registerer, if there
-- are any.
pub record PrometheusSdk : Type 0 where
  pub register_error : Registry → Collector → Option Err
  pub new_error : Registry → Option Err

-- `PrometheusCollector`; the exporter is known by its registry
pub record PrometheusCollector : Type 0 where
  pub registry : Registry
  pub disabled_by_default : Bool

-- `http.Server`, with the one path that its router handles; the time limit in nanoseconds
pub record Server : Type 0 where
  pub path : String
  pub registry : Registry
  pub addr : String
  pub read_header_timeout : ℕ

-- `MetricDefaultReporting`
abbrev pub metric_default_reporting : PrometheusCollector → Bool
metric_default_reporting c = not c.disabled_by_default

-- What `server.ListenAndServe` returns.
pub data ServeError : Type 0 where
  server_closed : ServeError
  serve_failed : Err → ServeError

-- The line that the first goroutine logs when the server has ended.
unfoldable pub serve_log : ServeError → Option String
serve_log server_closed = none
serve_log (serve_failed e) =
    some (concat "[SERVICE: kotel] The Prometheus exporter failed to listen and serve: " (text e))

-- What the second goroutine does once the context of the registration is done: it gives the server
-- this time, in nanoseconds, to shut down, and lets go of the time limit.
pub data ServerCall : Type 0 where
  with_timeout : ℕ → ServerCall
  shut_down : Server → ServerCall
  cancel : ServerCall

abbrev pub when_done : Server → List ServerCall
when_done server = with_timeout 5000000000 ∷ shut_down server ∷ cancel ∷ []

abbrev new_server : PrometheusExporter → Registry → Server
new_server cfg registry = record {
  path = "/metrics";
  registry = registry;
  addr = host_port cfg.host (port_or 9090 cfg.port);
  read_header_timeout = 3000000000;
}

abbrev unless_error : {A : Type 0} → Option Err → A → Result Err A
unless_error none a = done a
unless_error (some e) a = failed e

module _ (sdk : PrometheusSdk) where
  -- `if wanted { err := registry.Register(c); if err != nil { return nil, err } }`
  abbrev pub register_if : Bool → Collector → Registry → Result Err Registry
  register_if wanted c registry =
      if wanted
      then unless_error (sdk.register_error registry c) (registry ++ (c ∷ []))
      else done registry

  -- `prometheus.New(prometheus.WithRegisterer(registry))`, which registers the exporter's collector
  abbrev pub new_registered : Registry → Result Err Registry
  new_registered registry =
      unless_error (sdk.new_error registry) (registry ++ (exporter_collector ∷ []))

  -- `Exporter`, with the server that it starts
  unfoldable pub new_exporter : PrometheusExporter → Result Err (PrometheusCollector × Server)
  new_exporter cfg = do
    processes ← register_if cfg.process_metrics process_collector []
    runtimes ← register_if cfg.go_metrics go_collector processes
    registry ← new_registered runtimes
    done (
      record { registry = registry; disabled_by_default = cfg.disable_metrics },
      new_server cfg registry,
    )
