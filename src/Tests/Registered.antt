-- ===== src/Tests/Registered.antt =====
-- exporter, state and otel.go: a service with one exporter of each kind.
use krakend_otel.Prelude.{
  ℕ, ◌≡◌, refl, pos, none, some, List, [], ◌∷◌, lookup, insert, insert_all, Result, done, failed,
  returned, false, true, itoa, has_prefix, seconds64, to_int64,
}
use krakend_otel.Telemetry.{Err, eof, attr, str, Attribute}
use krakend_otel.Config.Exporters.{OtlpExporter, PrometheusExporter, validate}
use krakend_otel.Config.Data.{ConfigData, validate_config, unset_fields_to_defaults}
use krakend_otel.Config.Lura.{namespace, ServiceConfig, from_lura, lura_extra_cfg}
use krakend_otel.State.Config.{new_config}
use krakend_otel.Exporter.Otlp.{
  Library, trace_grpc, metric_grpc, with_insecure, with_endpoint, Client, OtelCollector,
  span_exporter,
}
use krakend_otel.Exporter.Otlp as Otlp
use krakend_otel.Exporter.Prometheus.{
  PrometheusCollector, Server, process_collector, go_collector, exporter_collector,
}
use krakend_otel.Exporter.Prometheus as Prometheus
use krakend_otel.Registration.Exporters.{
  Libraries, otlp_reader, prometheus_reader, on_demand, instances, create_otlp_exporters,
  create_prometheus_exporters, metric_default_reporting, metric_reader,
}
use krakend_otel.Registration.Providers.{
  OtelState, parent_based_ratio, new_with_version_and_env, find_all,
}
use krakend_otel.Registration.Globals.{Globals}
use krakend_otel.Registration.Register.{
  register, register_with_config, register_global_instance, reporting_names,
}
use krakend_otel.Registration.Register.Settles.{Settles, register-Settles}
use krakend_otel.Registration.Register.Settles.Finds.{FindsAll, register-FindsAll}

abbrev pub collector : OtlpExporter
collector = record {
  name = "local";
  host = "localhost";
  port = pos 4317;
  use_http = false;
  disable_metrics = true;
  disable_traces = false;
  custom_metric_reporting_period = 0;
}

abbrev pub scraped : PrometheusExporter
scraped = record {
  name = "scraped";
  port = pos 9090;
  host = "";
  process_metrics = true;
  go_metrics = true;
  disable_metrics = false;
}

abbrev pub config : ConfigData
config = record {
  service_name = "";
  service_version = "";
  deploy_env = "test";
  layers = none;
  exporters = record { otlp = collector ∷ []; prometheus = scraped ∷ [] };
  skip_paths = [];
  metric_reporting_period = none;
  trace_sample_rate = some (pos 500000);
}

abbrev pub decode : ℕ → Result Err ConfigData
decode _ = done config

abbrev pub service : ServiceConfig ℕ
service = record { name = "shop"; extra_config = (namespace, 0) ∷ [] }

abbrev pub libraries : Libraries
libraries = record {
  otlp = record { new_error = λ lib options. none; parse = λ s. failed eof };
  prometheus = record { register_error = λ registry c. none; new_error = λ registry. none };
}

abbrev pub unset : Globals
unset = record {
  metrics_instances = [];
  traces_instances = [];
  otel_state = none;
  global_config = none;
  servers = [];
}

register-Settles_example :
    Settles libraries unset
      (from_lura decode service)
      (register libraries "2.9" decode service unset)
register-Settles_example = register-Settles libraries unset "2.9" decode service

abbrev pub local_client : Library → Client
local_client lib = record {
  library = lib;
  options = with_insecure ∷ with_insecure ∷ with_endpoint "localhost:4317" ∷ [];
}

abbrev pub local_collector : OtelCollector
local_collector = record {
  exporter = local_client trace_grpc;
  metric_exporter = local_client metric_grpc;
  metrics_disabled_by_default = true;
  traces_disabled_by_default = false;
  custom_metric_reporting_period = pos 0;
}

abbrev pub scraped_collector : PrometheusCollector
scraped_collector = record {
  registry = process_collector ∷ go_collector ∷ exporter_collector ∷ [];
  disabled_by_default = false;
}

abbrev pub scraped_server : Server
scraped_server = record {
  path = "/metrics";
  registry = process_collector ∷ go_collector ∷ exporter_collector ∷ [];
  addr = ":9090";
  read_header_timeout = 3000000000;
}

abbrev pub resource : List Attribute
resource =
    attr "service.name" (str "shop")
    ∷ attr "service.version" (str "2.9")
    ∷ attr "deployment.environment" (str "test")
    ∷ []

-- The metrics of the service are scraped, and half of its traces go to the collector.
abbrev pub state : OtelState
state = record {
  meter_provider = some (record {
    readers = on_demand (process_collector ∷ go_collector ∷ exporter_collector ∷ []) ∷ [];
    resource = resource;
  });
  tracer_provider = some (record {
    batchers = local_client trace_grpc ∷ [];
    sampler = parent_based_ratio (pos 500000);
    resource = resource;
  });
}

abbrev pub registered_globals : Globals
registered_globals = record {
  metrics_instances =
      ("local", otlp_reader local_collector)
      ∷ ("scraped", prometheus_reader scraped_collector)
      ∷ [];
  traces_instances = ("local", local_collector) ∷ [];
  otel_state = some state;
  global_config = some (new_config (record config { service_name = "shop" }));
  servers = scraped_server ∷ [];
}

pub registered_service :
    register libraries "2.9" decode service unset ≡ returned (registered_globals, some state, none)
unfolding register register_with_config register_global_instance reporting_names
    new_with_version_and_env find_all instances create_otlp_exporters create_prometheus_exporters
    metric_default_reporting metric_reader Otlp.new_exporter Otlp.exporter_with_options
    Otlp.http_exporter_with_options Otlp.grpc_exporter_with_options Otlp.destination
    Otlp.options_for Prometheus.new_exporter from_lura lura_extra_cfg new_config
    unset_fields_to_defaults validate_config validate insert insert_all lookup itoa has_prefix
    seconds64 to_int64
registered_service = refl

register-FindsAll_example :
    (cfg : ConfigData) × (from_lura decode service ≡ done cfg)
    × FindsAll libraries registered_globals cfg.exporters
register-FindsAll_example =
    register-FindsAll libraries "2.9" decode service unset registered_globals state
      registered_service
