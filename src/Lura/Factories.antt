-- ===== src/Lura/Factories.antt =====
-- lura/proxy.go: the factories that put the middleware round Lura's proxies.
pub mod Panics
pub mod Counted
use krakend_otel.Prelude.{
  ℕ, String, Bool, true, false, not, ◌&&◌, Option, none, some, List, [], ◌∷◌, Map, if◌then◌else◌,
  Result, Outcome, returned, panicked,
}
use krakend_otel.Telemetry.{Panic, nil_dereference, Err, World, Otel, Attribute, attr, str}
use krakend_otel.Config.Options.{
  LayersOpts, PipeOpts, BackendOpts, BackendMetricOpts, BackendTraceOpts, append_static, Attributes,
}
use krakend_otel.Config.PathPattern.{normalize_url_pattern}
use krakend_otel.State.Config.{StateConfig, skip_endpoint, endpoint_pipe_opts, merged_backend_opts}
use krakend_otel.Lura.Proxy.{Proxy, middleware}

-- Lura's `EndpointConfig` and `Backend`, as far as they are read.
pub record EndpointConfig (J : Type 0) : Type 0 where
  pub endpoint : String
  pub method : String
  pub extra_config : Map J

pub record Backend (J : Type 0) : Type 0 where
  pub url_pattern : String
  pub method : String
  pub parent_endpoint : String
  pub parent_endpoint_method : String
  pub extra_config : Map J

-- `middleware(…)(next)`
abbrev pub applied :
    {S : Type 0}
    → Outcome Panic (List (Proxy S) → Outcome Panic (Proxy S))
    → Proxy S
    → Outcome Panic (Proxy S)
applied (returned m) next = m (next ∷ [])
applied (panicked p) next = panicked p

abbrev with_no_error : {S : Type 0} → Outcome Panic (Proxy S) → Outcome Panic (Proxy S × Option Err)
with_no_error (returned p) = returned (p, none)
with_no_error (panicked p) = panicked p

abbrev endpoint_attrs : String → String → List Attribute
endpoint_attrs method url_pattern =
    attr "http.request.method" (str method) ∷ attr "http.route" (str url_pattern) ∷ []

-- The attributes of a backend's metrics and traces, before the static ones.
abbrev pub backend_attrs : {J : Type 0} → Backend J → List Attribute
backend_attrs cfg =
    attr "http.request.method" (str cfg.method)
    ∷ attr "http.route" (str (normalize_url_pattern cfg.url_pattern))
    ∷ attr "krakend.endpoint.route" (str (normalize_url_pattern cfg.parent_endpoint))
    ∷ attr "krakend.endpoint.method" (str cfg.parent_endpoint_method)
    ∷ []

abbrev pub metric_static : Option BackendMetricOpts → Attributes
metric_static none = []
metric_static (some m) = m.static_attributes

abbrev pub metrics_stage_disabled : Option BackendMetricOpts → Bool
metrics_stage_disabled none = false
metrics_stage_disabled (some m) = m.disable_stage

abbrev pub traces_stage_disabled : Option BackendTraceOpts → Bool
traces_stage_disabled none = false
traces_stage_disabled (some t) = t.disable_stage

-- Every slice of attributes that is appended to was made with no spare room, so no two share memory.
module _ {S J : Type 0} (w : World S) (refused : Err) (decode : J → Result Err LayersOpts)
    (gs : Option Otel) where
  -- The instrumented proxy of an endpoint that is not skipped, with these options.
  abbrev endpoint_proxy : Proxy S → EndpointConfig J → PipeOpts → Outcome Panic (Proxy S)
  endpoint_proxy next cfg opts =
      let url_pattern = normalize_url_pattern cfg.endpoint in
      let attrs = endpoint_attrs cfg.method url_pattern in
      applied
        (middleware w refused gs (not opts.disable_metrics) (not opts.disable_traces) "proxy"
          url_pattern (append_static attrs opts.metrics_static_attributes)
          (append_static attrs opts.traces_static_attributes) opts.report_headers opts.skip_headers)
        next

  abbrev endpoint_result :
      StateConfig → EndpointConfig J → Proxy S × Option Err → Outcome Panic (Proxy S × Option Err)
  endpoint_result otel_cfg cfg (next, some err) = returned (next, some err)
  endpoint_result otel_cfg cfg (next, none) =
      let opts = endpoint_pipe_opts decode (some otel_cfg) cfg.extra_config in
      if skip_endpoint otel_cfg cfg.endpoint
      then returned (next, none)
      else (if opts.disable_metrics && opts.disable_traces
          then returned (next, none)
          else with_no_error (endpoint_proxy next cfg opts))

  -- `ProxyFactory`, called with the endpoint's configuration
  unfoldable pub proxy_factory :
      Option StateConfig
      → (EndpointConfig J → Proxy S × Option Err)
      → EndpointConfig J
      → Outcome Panic (Proxy S × Option Err)
  proxy_factory none pf cfg = returned (pf cfg)
  proxy_factory (some otel_cfg) pf cfg = endpoint_result otel_cfg cfg (pf cfg)

  -- The call of `middleware` for a backend: the arguments read `Traces.SkipHeaders`, which panics if
  -- there are no trace options.
  abbrev pub backend_middleware :
      Proxy S
      → Backend J
      → Option BackendMetricOpts
      → Option BackendTraceOpts
      → Outcome Panic (Proxy S)
  backend_middleware next cfg metrics none = panicked nil_dereference
  backend_middleware next cfg metrics (some t) =
      applied
        (middleware w refused gs (not (metrics_stage_disabled metrics)) (not t.disable_stage)
          "backend" (normalize_url_pattern cfg.url_pattern)
          (append_static (backend_attrs cfg) (metric_static metrics))
          (append_static (backend_attrs cfg) t.static_attributes) t.report_headers t.skip_headers)
        next

  -- `BackendFactory`, called with the backend's configuration
  unfoldable pub backend_factory :
      Option StateConfig → (Backend J → Proxy S) → Backend J → Outcome Panic (Proxy S)
  backend_factory none bf cfg = returned (bf cfg)
  backend_factory (some otel_cfg) bf cfg =
      let opts = merged_backend_opts decode (some otel_cfg) cfg.extra_config in
      if skip_endpoint otel_cfg cfg.parent_endpoint
      then returned (bf cfg)
      else (if metrics_stage_disabled opts.metrics && traces_stage_disabled opts.traces
          then returned (bf cfg)
          else backend_middleware (bf cfg) cfg opts.metrics opts.traces)
