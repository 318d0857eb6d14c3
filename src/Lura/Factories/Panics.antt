-- ===== src/Lura/Factories/Panics.antt =====
-- When the backend factory panics: the options of a backend replace the service's as a whole, and
-- the factory reads the trace options without looking whether there are any.
use krakend_otel.Prelude.{
  ◌≡◌, refl, sym, ◌∙◌, ap, true, false, not, Option, none, some, Result, Outcome, returned,
  panicked, or_else, is_some, inl, inr, Bool-cases, ◌&&◌,
}
use krakend_otel.Telemetry.{Panic, nil_dereference, Err, World, Otel}
use krakend_otel.Config.Options.{
  LayersOpts, BackendOpts, BackendMetricOpts, BackendTraceOpts, append_static,
}
use krakend_otel.Config.Data.{ConfigData, default_metric_opts, default_trace_opts}
use krakend_otel.Config.Data.Defaults.{from_backend}
use krakend_otel.State.Config.{new_config, skip_endpoint, merged_backend_opts}
use krakend_otel.State.Config.Overrides.{layers_in, field_of, merged_backend_opts-new_config}
use krakend_otel.Lura.Proxy.{Proxy}
use krakend_otel.Config.PathPattern.{normalize_url_pattern}
use krakend_otel.Lura.Factories.Counted.{
  Makes, Makes-flags, measured, middleware-Counted, itself-Counted, both_true, none_and,
}
use krakend_otel.Lura.Factories.{
  metrics_stage_disabled, metric_static, backend_attrs, Backend, backend_factory,
}

module _ {S J : Type 0} (w : World S) (refused : Err) (decode : J → Result Err LayersOpts)
    (o : Otel) (c : ConfigData) (bf : Backend J → Proxy S) (cfg : Backend J)
    (followed : skip_endpoint (new_config c) cfg.parent_endpoint ≡ false) where
  -- With these options: a panic without the trace options, and else a proxy.
  abbrev pub Follows :
      Option BackendMetricOpts → Option BackendTraceOpts → Outcome Panic (Proxy S) → Type 0
  Follows ms none r = r ≡ panicked nil_dereference
  Follows ms (some t) r =
      Makes w (bf cfg) (not (metrics_stage_disabled ms) && measured o "backend")
        (is_some o.tracer && not t.disable_stage) r

  -- Where both stages are disabled the proxy is the backend's own one.
  itself-Makes :
      (ms : Option BackendMetricOpts) (t : BackendTraceOpts)
      → metrics_stage_disabled ms && t.disable_stage ≡ true
      → Follows ms (some t) (returned (bf cfg))
  itself-Makes ms t off =
      let (m, d) = both_true (metrics_stage_disabled ms) t.disable_stage off in
      Makes-flags w (bf cfg) (ap (λ b. not b && measured o "backend") (sym m))
        (none_and (is_some o.tracer) ∙ ap (λ b. is_some o.tracer && not b) (sym d))
        (bf cfg, refl, itself-Counted w (bf cfg))

  made_by_traces :
      (ms : Option BackendMetricOpts) (ts : Option BackendTraceOpts)
      → merged_backend_opts decode (some (new_config c)) cfg.extra_config
        ≡ record { metrics = ms; traces = ts }
      → Follows ms ts (backend_factory w refused decode (some o) (some (new_config c)) bf cfg)
  unfolding backend_factory
  made_by_traces ms none e =
      rw (e, followed)
        (elim (Bool-cases (metrics_stage_disabled ms)) [ inl off ↦ rw off | inr on ↦ rw on ])
  made_by_traces ms (some t) e =
      rw (e, followed)
        (elim (Bool-cases (metrics_stage_disabled ms && t.disable_stage)) [
          | inl off ↦ rw off (itself-Makes ms t off)
          | inr on ↦ rw on (
              middleware-Counted w (bf cfg) refused o (not (metrics_stage_disabled ms))
                (not t.disable_stage) "backend" (normalize_url_pattern cfg.url_pattern)
                (append_static (backend_attrs cfg) (metric_static ms))
                (append_static (backend_attrs cfg) t.static_attributes) t.report_headers
                t.skip_headers)
        ])

  -- The service's options, which apply where the backend has none of its own.
  abbrev pub service_backend : BackendOpts
  service_backend = record {
    metrics = some (or_else (from_backend (λ b. b.metrics) c) default_metric_opts);
    traces = some (or_else (from_backend (λ b. b.traces) c) default_trace_opts);
  }

  -- The options of the backend.
  abbrev pub backend_options : BackendOpts
  backend_options =
      or_else (field_of (λ l. l.backend) (layers_in decode cfg.extra_config)) service_backend

  -- Under a configuration of the service and a global state, for a backend whose endpoint is not
  -- skipped, by the backend's own options, or the service's if it has none: with trace options the
  -- factory makes a proxy, and each call of it calls the backend's once, with the same request, and
  -- answers as it does; it records one sample more unless the options disable the stage of the
  -- metrics or no meter makes the histogram, and ends one span more unless they disable that of the
  -- traces or there is no tracer. If the backend's own options leave the trace options out, it
  -- panics on a nil pointer.
  pub backend_factory_cases :
      Follows backend_options.metrics backend_options.traces
        (backend_factory w refused decode (some o) (some (new_config c)) bf cfg)
  backend_factory_cases =
      made_by_traces backend_options.metrics backend_options.traces
        (merged_backend_opts-new_config decode c cfg.extra_config)
