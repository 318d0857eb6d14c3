-- ===== src/Config/Options.antt =====
-- config/config.go: the levels of detail of the layers, and the attributes set in the configuration.
-- A pointer is an `Option`, and a nil slice is an empty list.
pub mod Maps
use krakend_otel.Prelude.{
  String, Bool, true, false, not, ◌&&◌, ◌||◌, Option, none, some, List, [], ◌∷◌, ◌++◌, is_some,
  if◌then◌else◌, Map, lookup, insert, str_eq,
}
use krakend_otel.Telemetry.{Attribute, attr, str}

pub record KeyValue : Type 0 where
  pub key : String
  pub value : String

abbrev pub Attributes : Type 0
Attributes = List KeyValue

pub record GlobalOpts : Type 0 where
  pub disable_metrics : Bool
  pub disable_traces : Bool
  pub disable_propagation : Bool
  pub report_headers : Bool
  pub skip_headers : List String
  pub metrics_static_attributes : Attributes
  pub traces_static_attributes : Attributes
  pub sem_conv : String

pub record PipeOpts : Type 0 where
  pub disable_metrics : Bool
  pub disable_traces : Bool
  pub report_headers : Bool
  pub skip_headers : List String
  pub metrics_static_attributes : Attributes
  pub traces_static_attributes : Attributes

pub record BackendMetricOpts : Type 0 where
  pub disable_stage : Bool
  pub round_trip : Bool
  pub read_payload : Bool
  pub detailed_connection : Bool
  pub static_attributes : Attributes

pub record BackendTraceOpts : Type 0 where
  pub disable_stage : Bool
  pub round_trip : Bool
  pub read_payload : Bool
  pub detailed_connection : Bool
  pub static_attributes : Attributes
  pub report_headers : Bool
  pub skip_headers : List String

pub record BackendOpts : Type 0 where
  pub metrics : Option BackendMetricOpts
  pub traces : Option BackendTraceOpts

pub record LayersOpts : Type 0 where
  pub global : Option GlobalOpts
  pub pipe : Option PipeOpts
  pub backend : Option BackendOpts

-- The zero values, `new(PipeOpts)` and so on.
abbrev pub zero_global_opts : GlobalOpts
zero_global_opts = record {
  disable_metrics = false;
  disable_traces = false;
  disable_propagation = false;
  report_headers = false;
  skip_headers = [];
  metrics_static_attributes = [];
  traces_static_attributes = [];
  sem_conv = "";
}

abbrev pub zero_pipe_opts : PipeOpts
zero_pipe_opts = record {
  disable_metrics = false;
  disable_traces = false;
  report_headers = false;
  skip_headers = [];
  metrics_static_attributes = [];
  traces_static_attributes = [];
}

abbrev pub zero_backend_opts : BackendOpts
zero_backend_opts = record { metrics = none; traces = none }

-- `(*PipeOpts).Enabled`
unfoldable pub pipe_enabled : Option PipeOpts → Bool
pipe_enabled none = false
pipe_enabled (some o) = not o.disable_metrics || not o.disable_traces

-- `(*BackendMetricOpts).Enabled`
unfoldable pub backend_metric_enabled : Option BackendMetricOpts → Bool
backend_metric_enabled none = false
backend_metric_enabled (some o) =
    not o.disable_stage || (o.round_trip || (o.read_payload || o.detailed_connection))

-- `(*BackendTraceOpts).Enabled`
unfoldable pub backend_trace_enabled : Option BackendTraceOpts → Bool
backend_trace_enabled none = false
backend_trace_enabled (some o) =
    not o.disable_stage || (o.round_trip || (o.read_payload || o.detailed_connection))

-- `(*BackendOpts).Enabled`
unfoldable pub backend_enabled : Option BackendOpts → Bool
unfolding backend_metric_enabled backend_trace_enabled
backend_enabled none = false
backend_enabled (some o) = backend_metric_enabled o.metrics || backend_trace_enabled o.traces

-- The loop of `Attributes.ToMap`: the map, and whether there was an error.
to_map_from : Attributes → Map String → Bool → Map String × Bool
to_map_from [] m err = (m, err)
to_map_from (kv ∷ a) m err =
    to_map_from a (insert kv.key kv.value m) (if is_some (lookup kv.key m) then true else err)

-- `Attributes.ToMap`
unfoldable pub to_map : Attributes → Map String × Bool
unfolding to_map_from
to_map a = to_map_from a [] false

-- The loop over static attributes that stands in lura/proxy.go, lura/backend.go, http/server and
-- router/gin: `if kv.Key != "" && kv.Value != "" { attrs = append(attrs, …) }`.
unfoldable pub append_static : List Attribute → Attributes → List Attribute
append_static attrs [] = attrs
append_static attrs (kv ∷ kvs) =
    append_static
      (if not (str_eq kv.key "") && not (str_eq kv.value "")
        then attrs ++ attr kv.key (str kv.value) ∷ []
        else attrs)
      kvs
