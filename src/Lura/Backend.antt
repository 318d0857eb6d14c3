-- ===== src/Lura/Backend.antt =====
-- lura/backend.go and http/client/client.go: the client of a backend's requests.
pub mod RoundTrips
use krakend_otel.Prelude.{
  String, Bool, true, false, not, Option, none, some, List, [], ◌∷◌, ◌++◌, Map, Result, or_else,
  if◌then◌else◌,
}
use krakend_otel.Telemetry.{Err, Otel, Attribute, attr, str}
use krakend_otel.Config.Options.{
  LayersOpts, GlobalOpts, BackendOpts, BackendMetricOpts, BackendTraceOpts, backend_enabled,
  append_static,
}
use krakend_otel.Config.PathPattern.{normalize_url_pattern}
use krakend_otel.State.Config.{StateConfig, skip_endpoint, merged_backend_opts, global_opts}
use krakend_otel.Lura.Factories.{Backend, backend_attrs}
use krakend_otel.Http.Client.Metrics.{TransportMetricsOptions}
use krakend_otel.Http.Client.Traces.{TransportTracesOptions}
use krakend_otel.Http.Client.Transport.{Transport, new_round_tripper}

-- `defaultOpts`
abbrev default_metrics : BackendMetricOpts
default_metrics = record {
  disable_stage = false;
  round_trip = true;
  read_payload = true;
  detailed_connection = true;
  static_attributes = [];
}

abbrev default_traces : BackendTraceOpts
default_traces = record {
  disable_stage = false;
  round_trip = true;
  read_payload = true;
  detailed_connection = true;
  static_attributes = [];
  report_headers = false;
  skip_headers = [];
}

-- `TransportOptions`
pub record TransportOptions : Type 0 where
  pub metrics_opts : TransportMetricsOptions
  pub traces_opts : TransportTracesOptions
  pub otel_instance : Option Otel

-- `InstrumentedHTTPClient`: nothing where the client itself is the answer, or else the transport of
-- the new client
unfoldable pub instrumented_http_client : Option TransportOptions → String → Option Transport
instrumented_http_client none client_name = none
instrumented_http_client (some t) client_name =
    new_round_tripper t.metrics_opts t.traces_opts client_name t.otel_instance

abbrev pub sem_conv_of : Option GlobalOpts → String
sem_conv_of none = ""
sem_conv_of (some g) = g.sem_conv

module _ {J : Type 0} where
  abbrev pub metrics_options : Backend J → String → BackendMetricOpts → TransportMetricsOptions
  metrics_options cfg sem_conv m = record {
    round_trip = m.round_trip;
    read_payload = m.read_payload;
    detailed_connection = m.detailed_connection;
    fixed_attributes = append_static (backend_attrs cfg) m.static_attributes;
    sem_conv = sem_conv;
  }

  abbrev pub traces_options : Backend J → BackendTraceOpts → TransportTracesOptions
  traces_options cfg t = record {
    round_trip = t.round_trip;
    read_payload = t.read_payload;
    detailed_connection = t.detailed_connection;
    fixed_attributes =
        append_static (backend_attrs cfg ++ attr "krakend.stage" (str "backend-request") ∷ [])
          t.static_attributes;
    report_headers = t.report_headers;
    skip_headers = t.skip_headers;
  }

  -- The options for a backend whose instrumentation is enabled: what is left out has the defaults.
  abbrev pub options_for : Backend J → String → Option Otel → BackendOpts → TransportOptions
  options_for cfg sem_conv otel opts = record {
    metrics_opts = metrics_options cfg sem_conv (or_else opts.metrics default_metrics);
    traces_opts = traces_options cfg (or_else opts.traces default_traces);
    otel_instance = otel;
  }

  -- `InstrumentedHTTPClientFactory`, called for a client: the transport of the client that is
  -- answered, or nothing where that is the given factory's
  unfoldable pub client_transport :
      (J → Result Err LayersOpts) → Option StateConfig → Option Otel → Backend J → Option Transport
  unfolding instrumented_http_client
  client_transport decode none otel cfg = none
  client_transport decode (some c) otel cfg =
      let opts = merged_backend_opts decode (some c) cfg.extra_config in
      if skip_endpoint c cfg.parent_endpoint
      then none
      else (if not (backend_enabled (some opts))
          then none
          else instrumented_http_client
              (some (options_for cfg (sem_conv_of (global_opts c)) otel opts))
              (normalize_url_pattern cfg.url_pattern))

  -- `HTTPRequestExecutorFromConfig`, for what Lura's `DefaultHTTPRequestExecutor` makes of the
  -- factory of the client that is answered
  unfoldable pub http_request_executor_from_config :
      {E : Type 0}
      → (Option Transport → E)
      → (J → Result Err LayersOpts)
      → Option StateConfig
      → Option Otel
      → Backend J
      → E
  http_request_executor_from_config default_http_request_executor decode c otel cfg =
      default_http_request_executor (client_transport decode c otel cfg)
