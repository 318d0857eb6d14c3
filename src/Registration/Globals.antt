-- ===== src/Registration/Globals.antt =====
-- The global variables of exporter/exporter.go and state/global.go, with what sets and reads them.
-- Each of them is read and written under a lock, as a whole.
pub mod Copies
use krakend_otel.Prelude.{
  String, Option, none, some, List, [], Map, insert_all, lookup, Result, failed, done,
}
use krakend_otel.Telemetry.{Err, message}
use krakend_otel.State.Config.{StateConfig}
use krakend_otel.Exporter.Prometheus.{Server}
use krakend_otel.Registration.Exporters.{MetricReader, SpanExporter}
use krakend_otel.Registration.Providers.{OtelState}

-- The variables, and the servers that the exporters have started.
pub record Globals : Type 0 where
  pub metrics_instances : Map MetricReader
  pub traces_instances : Map SpanExporter
  pub otel_state : Option OtelState
  pub global_config : Option StateConfig
  pub servers : List Server

-- `SetGlobalExporterInstances`
abbrev pub set_global_exporter_instances : Map MetricReader → Map SpanExporter → Globals → Globals
set_global_exporter_instances m t g = record g {
  metrics_instances = insert_all m [];
  traces_instances = insert_all t [];
}

-- `GetGlobalExporterInstances`
abbrev pub get_global_exporter_instances : Globals → Map MetricReader × Map SpanExporter
get_global_exporter_instances g =
    (insert_all g.metrics_instances [], insert_all g.traces_instances [])

abbrev pub found_as : {A : Type 0} → Option A → Result Err A
found_as none = failed (message "not found")
found_as (some a) = done a

-- `GlobalTraceInstance`
unfoldable pub global_trace_instance : Globals → String → Result Err SpanExporter
global_trace_instance g name = found_as (lookup name g.traces_instances)

-- `GlobalMetricInstance`
unfoldable pub global_metric_instance : Globals → String → Result Err MetricReader
global_metric_instance g name = found_as (lookup name g.metrics_instances)

-- The interface `OTEL`: nil, or a pointer to a state, which could itself be nil.
pub data Interface : Type 0 where
  nil_interface : Interface
  holding : Option OtelState → Interface

-- `GlobalState`
unfoldable pub global_state : Globals → Interface
global_state g = elim g.otel_state [ none ↦ nil_interface | some s ↦ holding (some s) ]

-- `SetGlobalState`
abbrev pub set_global_state : Option OtelState → Globals → Globals
set_global_state s g = record g { otel_state = s }

-- `SetGlobalConfig`
abbrev pub set_global_config : Option StateConfig → Globals → Globals
set_global_config cfg g = record g { global_config = cfg }

-- `GlobalConfig`
abbrev pub global_config : Globals → Option StateConfig
global_config g = g.global_config
