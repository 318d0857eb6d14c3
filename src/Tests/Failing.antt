-- ===== src/Tests/Failing.antt =====
-- exporter: a server of Prometheus that is started, and a configuration whose second exporter fails.
use krakend_otel.Prelude.{◌≡◌, refl, pos, none, some, true, false, [], ◌∷◌, done, failed, itoa}
use krakend_otel.Telemetry.{eof}
use krakend_otel.Config.Exporters.{PrometheusExporter, Exporters}
use krakend_otel.Exporter.Otlp.{host_port}
use krakend_otel.Exporter.Prometheus.{
  process_collector, go_collector, exporter_collector, PrometheusSdk, PrometheusCollector, Server,
  new_exporter,
}
use krakend_otel.Exporter.Prometheus.Serves.{new_exporter-Server}
use krakend_otel.Registration.Exporters.{
  Libraries, prometheus_failed, instances, create_otlp_exporters, create_prometheus_exporters,
}
use krakend_otel.Registration.Exporters.Failed.{Blames, instances-Blames}

-- The collector of Go cannot be registered.
abbrev refusing : PrometheusSdk
refusing = record {
  register_error = λ registry c. elim c [
    | process_collector ↦ none
    | go_collector ↦ some eof
    | exporter_collector ↦ none
  ];
  new_error = λ registry. none;
}

abbrev processes : PrometheusExporter
processes = record {
  name = "processes";
  port = pos 0;
  host = "";
  process_metrics = true;
  go_metrics = false;
  disable_metrics = false;
}

abbrev runtime : PrometheusExporter
runtime = record processes { name = "runtime"; go_metrics = true }

abbrev served : Server
served = record {
  path = "/metrics";
  registry = process_collector ∷ exporter_collector ∷ [];
  addr = ":9090";
  read_header_timeout = 3000000000;
}

abbrev made : PrometheusCollector
made = record {
  registry = process_collector ∷ exporter_collector ∷ [];
  disabled_by_default = false;
}

new_exporter-made : new_exporter refusing processes ≡ done (made, served)
unfolding new_exporter itoa
new_exporter-made = refl

new_exporter-Server_example :
    (made.registry ≡ process_collector ∷ exporter_collector ∷ [])
    × (served.registry ≡ made.registry)
    × (served.path ≡ "/metrics")
    × (served.addr ≡ host_port "" (pos 9090))
new_exporter-Server_example = new_exporter-Server refusing processes made served new_exporter-made

abbrev libraries : Libraries
libraries = record {
  otlp = record { new_error = λ lib options. none; parse = λ s. failed eof };
  prometheus = refusing;
}

abbrev two : Exporters
two = record { otlp = []; prometheus = processes ∷ (runtime ∷ []) }

second_fails : instances libraries two ≡ (served ∷ [], failed (prometheus_failed "runtime" 1 eof))
unfolding instances create_otlp_exporters create_prometheus_exporters new_exporter itoa
second_fails = refl

instances-Blames_example : Blames libraries two (served ∷ []) (prometheus_failed "runtime" 1 eof)
instances-Blames_example =
    instances-Blames libraries two (served ∷ []) (prometheus_failed "runtime" 1 eof) second_fails
