-- ===== src/Http/Server/New.antt =====
-- http/server/server.go: the making of the tracking handler from the global configuration, and
-- router/gin/endpoint.go: the handler of an endpoint, which tells the tracking its pattern.
pub mod Route
pub mod Hides
use krakend_otel.Prelude.{
  String, Bool, true, false, not, ◌&&◌, Option, none, some, List, [], ◌∷◌, Map, Result, done,
  failed, if◌then◌else◌, Outcome, returned, panicked,
}
use krakend_otel.Telemetry.{Err, Attribute, attr, str, Otel, Meter, Panic, nil_dereference}
use krakend_otel.Config.Options.{GlobalOpts, LayersOpts, append_static}
use krakend_otel.Config.Lura.{ConfigError, lura_layer_extra_cfg}
use krakend_otel.Config.PathPattern.{normalize_url_pattern}
use krakend_otel.State.Config.{StateConfig, global_opts, skip_endpoint}
use krakend_otel.Lura.Tracer.{skip_set}
use krakend_otel.Lura.Factories.{EndpointConfig}
use krakend_otel.Http.Attributes.{HttpRequest}
use krakend_otel.Http.Server.Metrics.{MetricsHttp, new_metrics_http}
use krakend_otel.Http.Server.Traces.{TracesHttp, new_traces_http}
use krakend_otel.Http.Server.Program.{Program, set_endpoint_pattern, set_static_attributes}
use krakend_otel.Http.Server.Handler.{TrackingHandler, Propagator}

-- The metrics, unless they are disabled: a nil meter cannot be called.
abbrev pub metrics_for : GlobalOpts → Option Meter → Outcome Panic (Option MetricsHttp)
metrics_for g meter = if g.disable_metrics then returned none else elim meter [
  | none ↦ panicked nil_dereference
  | some m ↦
      returned (some (new_metrics_http (append_static [] g.metrics_static_attributes) g.sem_conv))
]

abbrev pub traces_for : GlobalOpts → Otel → List String → Option TracesHttp
traces_for g otel trusted =
    if g.disable_traces
    then none
    else some (
        new_traces_http otel.tracer
          (append_static (attr "krakend.stage" (str "global") ∷ []) g.traces_static_attributes)
          g.report_headers (skip_set g.skip_headers) trusted)

abbrev pub handler_with :
    StateConfig
    → GlobalOpts
    → Otel
    → Propagator
    → List String
    → Outcome Panic (Option MetricsHttp)
    → Outcome Panic (Option TrackingHandler)
handler_with c g otel prop trusted (panicked p) = panicked p
handler_with c g otel prop trusted (returned m) = returned (
    some (record {
      prop = if g.disable_propagation then none else some prop;
      metrics = m;
      traces = traces_for g otel trusted;
      report_headers = g.report_headers;
      skip_headers = skip_set g.skip_headers;
      config = c;
    }))

-- A nil global state is called for whatever is not disabled.
abbrev pub handler_for :
    StateConfig
    → Option (Otel × Propagator)
    → List String
    → GlobalOpts
    → Outcome Panic (Option TrackingHandler)
handler_for c s trusted g =
    if g.disable_propagation && (g.disable_metrics && g.disable_traces)
    then returned none
    else elim s [
      | none ↦ panicked nil_dereference
      | some (otel, prop) ↦ handler_with c g otel prop trusted (metrics_for g otel.meter)
    ]

-- `NewTrackingHandlerWithTrustedProxies`, and `NewTrackingHandler` for no proxies: nothing where the
-- wrapped handler itself is the answer
unfoldable pub new_tracking_handler :
    Option StateConfig
    → Option (Otel × Propagator)
    → List String
    → Outcome Panic (Option TrackingHandler)
new_tracking_handler none s trusted = returned none
new_tracking_handler (some c) s trusted = elim (global_opts c) [
  | none ↦ panicked nil_dereference
  | some g ↦ handler_for c s trusted g
]

-- The static attributes of an endpoint: those of the global layer of its own configuration.
abbrev pub static_of :
    (GlobalOpts → List Attribute) → Result ConfigError LayersOpts → List Attribute
static_of f (failed e) = []
static_of f (done l) = elim l.global [ none ↦ [] | some g ↦ f g ]

module _ {J : Type 0} (decode : J → Result Err LayersOpts) where
  abbrev pub instrumented : EndpointConfig J → (HttpRequest → Program) → HttpRequest → Program
  instrumented cfg next r =
      let extra = lura_layer_extra_cfg decode cfg.extra_config in
      set_endpoint_pattern (normalize_url_pattern cfg.endpoint) (
        set_static_attributes (static_of (λ g. append_static [] g.metrics_static_attributes) extra)
          (static_of (λ g. append_static [] g.traces_static_attributes) extra) (next r))

  -- `New` of router/gin, for the handler that the wrapped factory makes
  unfoldable pub gin_handler :
      Option StateConfig → EndpointConfig J → (HttpRequest → Program) → HttpRequest → Program
  gin_handler none cfg next = next
  gin_handler (some c) cfg next =
      if skip_endpoint c cfg.endpoint then next else instrumented cfg next
