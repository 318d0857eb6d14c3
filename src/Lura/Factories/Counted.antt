-- ===== src/Lura/Factories/Counted.antt =====
-- What the proxy of an endpoint reports, by the endpoint's options.
use krakend_otel.Prelude.{
  ℕ, ◌≡◌, refl, ◌∙◌, subst, ap, ◌+◌, String, Bool, true, false, not, ◌&&◌, Option, none, some,
  is_some, List, [], ◌∷◌, Result, Outcome, returned, arith, inl, inr, Bool-cases, if◌then◌else◌,
}
use krakend_otel.Telemetry.{
  Err, Panic, Ctx, World, Otel, Attribute, ends, samples, Meter as ApiMeter, Tracer as ApiTracer,
}
use krakend_otel.Config.Options.{LayersOpts, append_static}
use krakend_otel.Config.PathPattern.{normalize_url_pattern}
use krakend_otel.State.Config.{StateConfig, skip_endpoint, endpoint_pipe_opts}
use krakend_otel.Lura.Meter.{MiddlewareMeter, new_middleware_meter, duration_instrument}
use krakend_otel.Lura.Tracer.{MiddlewareTracer, new_middleware_tracer}
use krakend_otel.Lura.Proxy.{Proxy, Request, middleware, apply_middleware, meter_of}
use krakend_otel.Lura.Proxy.Transparent.{Instruments, inner_ctx, apply_middleware-Instruments}
use krakend_otel.Lura.Factories.{
  EndpointConfig, proxy_factory, applied, endpoint_attrs, endpoint_result, with_no_error,
}

pub none_and : (b : Bool) → false ≡ b && false
none_and true = refl
none_and false = refl

all_and : (b : Bool) → b ≡ b && true
all_and true = refl
all_and false = refl

-- Whether a state has a meter that makes the histogram of a stage.
abbrev pub measured : Otel → String → Bool
measured o stage = elim o.meter [ none ↦ false | some m ↦ m (duration_instrument stage) ]

abbrev one_if : Bool → ℕ
one_if on = if on then 1 else 0

module _ {S : Type 0} (w : World S) (n : Proxy S) where
  -- The proxy `p` calls `n` once, with the same request, and answers as it does; it records one sample
  -- more if the metrics are on, and ends one span more if the traces are.
  abbrev pub Counted : Bool → Bool → Proxy S → Type 0
  Counted metrics traces p =
      (ctx : Ctx) (req : Request) (s : S)
      → (inner : Ctx) × (let (s', a', calls') = p ctx req s in
          let (s'', a'', calls'') = n inner req s in
          (s' ≡ s'')
          × (a' ≡ a'')
          × (ends calls' ≡ ends calls'' + one_if traces)
          × (samples calls' ≡ samples calls'' + one_if metrics))

  Instruments-Counted :
      (mm : Option MiddlewareMeter) (mt : Option MiddlewareTracer) (p : Proxy S)
      → Instruments w n mm mt p
      → Counted (is_some mm) (is_some mt) p
  Instruments-Counted mm mt p h ctx req s = (inner_ctx w mt ctx, h ctx req s)

  pub itself-Counted : Counted false false n
  itself-Counted ctx req s = (ctx, (refl, refl, omega arith, omega arith))

  abbrev pub Makes : Bool → Bool → Outcome Panic (Proxy S) → Type 0
  Makes metrics traces r = (p : Proxy S) × (r ≡ returned p) × Counted metrics traces p

  apply_middleware-Counted :
      (mm : Option MiddlewareMeter) (mt : Option MiddlewareTracer)
      → Makes (is_some mm) (is_some mt) (apply_middleware w mm mt (n ∷ []))
  apply_middleware-Counted mm mt =
      let ((p, made, counted), _, _) = apply_middleware-Instruments w n mm mt n [] in
      (p, made, Instruments-Counted mm mt p counted)

  -- The meter that the middleware is made with, and its tracer.
  meter_of-measured :
      (refused : Err) (o : Otel) (metrics : Bool) (stage : String) (ma : List Attribute)
      → is_some (meter_of metrics (new_middleware_meter refused (some o.meter) stage ma))
        ≡ metrics && measured o stage
  unfolding new_middleware_meter
  meter_of-measured refused o metrics stage ma = ground arith

  new_middleware_tracer-some :
      (t : Option ApiTracer) (url stage : String) (report : Bool) (skip : List String)
      (ta : List Attribute)
      → is_some (new_middleware_tracer t url stage report skip ta) ≡ is_some t
  unfolding new_middleware_tracer
  new_middleware_tracer-some none url stage report skip ta = refl
  new_middleware_tracer-some (some t) url stage report skip ta = refl

  pub Makes-flags :
      {metrics metrics' traces traces' : Bool} {r : Outcome Panic (Proxy S)}
      → metrics ≡ metrics'
      → traces ≡ traces'
      → Makes metrics traces r
      → Makes metrics' traces' r
  Makes-flags {metrics'} {traces} {r} em et made =
      subst (λ t. Makes metrics' t r) et (subst (λ m. Makes m traces r) em made)

  -- With a state whose meter may be nil or refuse the instrument, and whose tracer may be nil.
  pub middleware-Counted :
      (refused : Err) (o : Otel) (metrics traces : Bool) (stage url : String)
      (ma ta : List Attribute) (report : Bool) (skip : List String)
      → Makes
          (metrics && measured o stage)
          (is_some o.tracer && traces)
          (applied (middleware w refused (some o) metrics traces stage url ma ta report skip) n)
  unfolding middleware
  middleware-Counted refused o metrics false stage url ma ta report skip =
      Makes-flags (meter_of-measured refused o metrics stage ma) (none_and (is_some o.tracer))
        (apply_middleware-Counted _ none)
  middleware-Counted refused o metrics true stage url ma ta report skip =
      Makes-flags (meter_of-measured refused o metrics stage ma)
        (new_middleware_tracer-some o.tracer url stage report skip ta ∙ all_and (is_some o.tracer))
        (apply_middleware-Counted _ (new_middleware_tracer o.tracer url stage report skip ta))

pub both_true : (a b : Bool) → a && b ≡ true → (a ≡ true) × (b ≡ true)
both_true true true h = (refl, refl)
both_true true false h = absurd (cc h)
both_true false b h = absurd (cc h)

module _ {S J : Type 0} (w : World S) (refused : Err) (decode : J → Result Err LayersOpts)
    (meter : ApiMeter) (tracer : ApiTracer) (c : StateConfig) (cfg : EndpointConfig J)
    (n : Proxy S) where
  abbrev pub otel : Otel
  otel = record { meter = some meter; tracer = some tracer }

  -- What is reported of the endpoint: nothing if it is skipped, and else what its options leave
  -- enabled, the metrics only if the meter makes the instrument.
  abbrev pub metrics_on : Bool
  metrics_on =
      not (skip_endpoint c cfg.endpoint)
      && (not (endpoint_pipe_opts decode (some c) cfg.extra_config).disable_metrics
          && meter (duration_instrument "proxy"))

  abbrev pub traces_on : Bool
  traces_on =
      not (skip_endpoint c cfg.endpoint)
      && not (endpoint_pipe_opts decode (some c) cfg.extra_config).disable_traces

  abbrev Answers : Bool → Bool → Outcome Panic (Proxy S × Option Err) → Type 0
  Answers metrics traces r = (p : Proxy S) × (r ≡ returned (p, none)) × Counted w n metrics traces p

  with_no_error-Answers :
      (metrics traces : Bool) (r : Outcome Panic (Proxy S))
      → Makes w n metrics traces r
      → Answers metrics traces (with_no_error r)
  with_no_error-Answers metrics traces r (p, made, counted) = (p, ap with_no_error made, counted)

  endpoint_result-Answers :
      Answers metrics_on traces_on (endpoint_result w refused decode (some otel) c cfg (n, none))
  endpoint_result-Answers =
      let opts = endpoint_pipe_opts decode (some c) cfg.extra_config in
      elim (Bool-cases (skip_endpoint c cfg.endpoint)) [
        | inl skip ↦ rw skip (n, refl, itself-Counted w n)
        | inr follow ↦ elim (Bool-cases (opts.disable_metrics && opts.disable_traces)) [
          | inl off ↦
              let (m, t) = both_true opts.disable_metrics opts.disable_traces off in
              rw (follow, m, t) (n, refl, itself-Counted w n)
          | inr on ↦
              let url_pattern = normalize_url_pattern cfg.endpoint in
              let attrs = endpoint_attrs cfg.method url_pattern in
              rw (follow, on)
                (with_no_error-Answers _ _ _ (
                  middleware-Counted w n refused otel (not opts.disable_metrics)
                    (not opts.disable_traces) "proxy" url_pattern
                    (append_static attrs opts.metrics_static_attributes)
                    (append_static attrs opts.traces_static_attributes) opts.report_headers
                    opts.skip_headers))
        ]
      ]

  -- With a configuration, a meter and a tracer: the factory gives a proxy for each endpoint for which
  -- the wrapped factory gives one, and each call of it calls that one once, with the same request,
  -- and answers as it does. It ends one span more unless the endpoint is skipped or its options
  -- disable the traces, and records one sample more unless it is skipped, its options disable the
  -- metrics, or the meter makes no histogram.
  pub proxy_factory-Counted :
      (pf : EndpointConfig J → Proxy S × Option Err)
      → pf cfg ≡ (n, none)
      → (p : Proxy S) × (proxy_factory w refused decode (some otel) (some c) pf cfg
          ≡ returned (p, none))
        × Counted w n metrics_on traces_on p
  unfolding proxy_factory
  proxy_factory-Counted pf e = rw e endpoint_result-Answers
