-- ===== src/Lura/Backend/RoundTrips.antt =====
-- When the requests to a backend are measured.
use krakend_otel.Prelude.{
  String, ◌≡◌, refl, ◌∙◌, ap, Bool, true, false, not, ◌&&◌, some, Result, arith, or_else, is_some,
  Option, none, ◌||◌, if◌then◌else◌, Bool-cases, inl, inr,
}
use krakend_otel.Telemetry.{Err, Otel, Meter}
use krakend_otel.Config.Options.{
  LayersOpts, BackendOpts, BackendMetricOpts, BackendTraceOpts, backend_enabled,
  backend_metric_enabled,
}
use krakend_otel.Config.Data.{ConfigData, default_metric_opts, default_trace_opts}
use krakend_otel.Config.Data.Defaults.{from_backend}
use krakend_otel.Config.PathPattern.{normalize_url_pattern}
use krakend_otel.State.Config.{global_opts, new_config, skip_endpoint}
use krakend_otel.State.Config.Overrides.{layers_in, field_of, merged_backend_opts-new_config}
use krakend_otel.Lura.Factories.{Backend}
use krakend_otel.Lura.Backend.{client_transport, metrics_options, traces_options, sem_conv_of}
use krakend_otel.Http.Client.Transport.{Transport, new_transport, transport_of, if_some}
use krakend_otel.Http.Client.Metrics.{
  TransportMetricsOptions, metrics_enabled, new_transport_metrics,
}
use krakend_otel.Http.Client.Traces.{TransportTracesOptions, traces_enabled, new_transport_traces}

enabled_by_metrics :
    (b : BackendOpts) (m : BackendMetricOpts)
    → b.metrics ≡ some m
    → m.round_trip ≡ true
    → backend_enabled (some b) ≡ true
unfolding backend_enabled backend_metric_enabled
enabled_by_metrics b m e on = ground arith

one_enabled : (a b : Bool) → b ≡ true → (not a && not b) ≡ false
one_enabled a b on = ground arith

measures_enabled : (mo : TransportMetricsOptions) → mo.round_trip ≡ true → metrics_enabled mo ≡ true
unfolding metrics_enabled
measures_enabled mo on = ground arith

transport_measures :
    (mo : TransportMetricsOptions) (to : TransportTracesOptions) (name : String) (otel : Otel)
    (meter : Meter)
    → mo.round_trip ≡ true
    → otel.meter ≡ some meter
    → (t : Transport) × (new_transport mo to name (some otel) ≡ some t) × (is_some t.metrics ≡ true)
unfolding new_transport new_transport_metrics
transport_measures mo to name otel meter on has =
    let t =
      transport_of mo to name (if_some (metrics_enabled mo) otel.meter)
        (if_some (traces_enabled to) otel.tracer) in
    (
      t,
      rw (one_enabled (traces_enabled to) (metrics_enabled mo) (measures_enabled mo on)),
      rw (measures_enabled mo on) (rw has refl),
    )

-- Whether the requests are measured and traced.
abbrev pub is_measured : Option Transport → Bool
is_measured none = false
is_measured (some t) = is_some t.metrics

abbrev pub is_traced : Option Transport → Bool
is_traced none = false
is_traced (some t) = is_some t.traces

new_transport-is_measured :
    (mo : TransportMetricsOptions) (to : TransportTracesOptions) (name : String) (otel : Otel)
    → is_measured (new_transport mo to name (some otel)) ≡ metrics_enabled mo && is_some otel.meter
unfolding new_transport new_transport_metrics
new_transport-is_measured mo to name otel = ground arith

new_transport-is_traced :
    (mo : TransportMetricsOptions) (to : TransportTracesOptions) (name : String) (otel : Otel)
    → is_traced (new_transport mo to name (some otel)) ≡ traces_enabled to && is_some otel.tracer
unfolding new_transport new_transport_traces
new_transport-is_traced mo to name otel = ground arith

if_and :
    (f : Option Transport → Bool) (b : Bool) (o : Option Transport)
    → f none ≡ false
    → f (if b then o else none) ≡ b && f o
if_and f true o e = refl
if_and f false o e = e

module _ {J : Type 0} (decode : J → Result Err LayersOpts) (c : ConfigData) (otel : Otel)
    (cfg : Backend J) where
  client_transport-round_trip :
      (b : BackendOpts) (m : BackendMetricOpts) (meter : Meter)
      → skip_endpoint (new_config c) cfg.parent_endpoint ≡ false
      → field_of (λ l. l.backend) (layers_in decode cfg.extra_config) ≡ some b
      → b.metrics ≡ some m
      → m.round_trip ≡ true
      → otel.meter ≡ some meter
      → (t : Transport) × (client_transport decode (some (new_config c)) (some otel) cfg ≡ some t)
        × (is_some t.metrics ≡ true)
  unfolding client_transport new_transport metrics_enabled new_transport_metrics
  client_transport-round_trip b m meter followed own metered on has =
      let same =
        merged_backend_opts-new_config decode c cfg.extra_config
        ∙ ap
            (λ o. or_else o (record {
              metrics = some (or_else (from_backend (λ l. l.metrics) c) default_metric_opts);
              traces = some (or_else (from_backend (λ l. l.traces) c) default_trace_opts);
            }))
            own in
      let measured : (or_else b.metrics default_metric_opts).round_trip ≡ true = rw metered on in
      rw (followed, same, enabled_by_metrics b m metered on)
        (transport_measures
          (metrics_options cfg (sem_conv_of (global_opts (new_config c)))
            (or_else b.metrics default_metric_opts))
          (traces_options cfg (or_else b.traces default_trace_opts))
          (normalize_url_pattern cfg.url_pattern) otel meter measured has)

  -- The options of the backend: its own, or the service's.
  abbrev pub backend_options : BackendOpts
  backend_options =
      or_else (field_of (λ l. l.backend) (layers_in decode cfg.extra_config)) (record {
        metrics = some (or_else (from_backend (λ l. l.metrics) c) default_metric_opts);
        traces = some (or_else (from_backend (λ l. l.traces) c) default_trace_opts);
      })

  abbrev pub metric_opts : BackendMetricOpts
  metric_opts = or_else backend_options.metrics default_metric_opts

  abbrev pub trace_opts : BackendTraceOpts
  trace_opts = or_else backend_options.traces default_trace_opts

  abbrev pub is_followed : Bool
  is_followed =
      not (skip_endpoint (new_config c) cfg.parent_endpoint)
      && backend_enabled (some backend_options)

  client_transport-new_transport : client_transport decode (some (new_config c)) (some otel) cfg ≡ (
      if is_followed
      then new_transport
          (metrics_options cfg (sem_conv_of (global_opts (new_config c))) metric_opts)
          (traces_options cfg trace_opts)
          (normalize_url_pattern cfg.url_pattern)
          (some otel)
      else none)
  unfolding client_transport
  client_transport-new_transport =
      let same = merged_backend_opts-new_config decode c cfg.extra_config in
      elim (Bool-cases (skip_endpoint (new_config c) cfg.parent_endpoint)) [
        | inl skip ↦ rw skip
        | inr follow ↦ elim (Bool-cases (backend_enabled (some backend_options))) [
          | inl on ↦ rw (follow, same, on)
          | inr off ↦ rw (follow, same, off)
        ]
      ]

  -- The requests to a backend are measured exactly if the backend's endpoint is not skipped, its
  -- options enable anything, its metrics, by default with everything enabled, ask for the round
  -- trips or the payload, and the global state has a meter. They are traced exactly if the same holds
  -- of the traces and the tracer.
  pub client_transport_lem :
      (is_measured (client_transport decode (some (new_config c)) (some otel) cfg)
        ≡ is_followed
          && ((metric_opts.round_trip || metric_opts.read_payload) && is_some otel.meter))
      × (is_traced (client_transport decode (some (new_config c)) (some otel) cfg)
          ≡ is_followed
            && ((trace_opts.round_trip || trace_opts.read_payload) && is_some otel.tracer))
  unfolding metrics_enabled traces_enabled
  client_transport_lem =
      let mo = metrics_options cfg (sem_conv_of (global_opts (new_config c))) metric_opts in
      let to = traces_options cfg trace_opts in
      let name = normalize_url_pattern cfg.url_pattern in
      (
        ap is_measured client_transport-new_transport
            ∙ if_and is_measured is_followed (new_transport mo to name (some otel)) refl
            ∙ ap (λ b. is_followed && b) (new_transport-is_measured mo to name otel),
        ap is_traced client_transport-new_transport
            ∙ if_and is_traced is_followed (new_transport mo to name (some otel)) refl
            ∙ ap (λ b. is_followed && b) (new_transport-is_traced mo to name otel),
      )
