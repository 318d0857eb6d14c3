-- ===== src/Lura/Proxy.antt =====
-- lura/proxy.go: the middleware that instruments a stage of the pipe. A proxy is a machine on the state of the surroundings; its answer comes
-- with the calls of the API made meanwhile.
pub mod Transparent
use krakend_otel.Prelude.{
  String, Bool, true, false, not, ◌&&◌, Option, none, some, List, [], ◌∷◌, ◌++◌, ℤ, ℕ, Map,
  if◌then◌else◌, Result, done, failed, Outcome, returned, panicked, sub_time, to_lower,
}
use krakend_otel.Telemetry.{
  Headers, Panic, too_many_proxies, not_enough_proxies, nil_dereference, Err, Ctx, Span, Call,
  World, Otel, Attribute, attr, str, Tracer as ApiTracer, Meter as ApiMeter,
}
use krakend_otel.Config.Options.{
  LayersOpts, PipeOpts, BackendOpts, BackendMetricOpts, BackendTraceOpts, append_static,
}
use krakend_otel.Config.PathPattern.{normalize_url_pattern}
use krakend_otel.State.Config.{StateConfig, skip_endpoint, endpoint_pipe_opts, merged_backend_opts}
use krakend_otel.Lura.Meter.{Response, MiddlewareMeter, new_middleware_meter}
use krakend_otel.Lura.Meter as Meter
use krakend_otel.Lura.Tracer.{MiddlewareTracer, new_middleware_tracer}
use krakend_otel.Lura.Tracer as Tracer

-- A request; `rest` is all that the instrumentation does not read.
pub record Request : Type 0 where
  pub headers : Headers
  pub rest : String

abbrev pub Answer : Type 0
Answer = Option Response × Option Err

abbrev pub Proxy : Type 0 → Type 0
Proxy S = Ctx → Request → S → S × Answer × List Call

module _ {S : Type 0} (w : World S) where
  -- `tracesMiddleware`
  unfoldable pub traces_middleware : Proxy S → MiddlewareTracer → Proxy S
  traces_middleware next mt ctx req s =
      let (ctx', span, opened) = Tracer.start w.starts mt ctx req.headers in
      let (s', (resp, err), calls) = next ctx' req s in
      (s', (resp, err), opened ++ (calls ++ Tracer.finish mt span resp err))

  -- `metricsMiddleware`
  unfoldable pub metrics_middleware : Proxy S → MiddlewareMeter → Proxy S
  metrics_middleware next mm ctx req s =
      let (s', (resp, err), calls) = next ctx req s in
      let duration = sub_time (w.now s') (w.now s) in
      (s', (resp, err), calls ++ Meter.report mm ctx (w.ctx_err ctx s') duration resp err)

  -- `metricsAndTracesMiddleware`
  unfoldable pub metrics_and_traces_middleware :
      Proxy S → MiddlewareMeter → MiddlewareTracer → Proxy S
  metrics_and_traces_middleware next mm mt ctx req s =
      let (ctx', span, opened) = Tracer.start w.starts mt ctx req.headers in
      let (s', (resp, err), calls) = next ctx' req s in
      let duration = sub_time (w.now s') (w.now s) in
      (
        s',
        (resp, err),
        opened
            ++ (calls
                ++ (Meter.report mm ctx' (w.ctx_err ctx' s') duration resp err
                    ++ Tracer.finish mt span resp err)),
      )

  abbrev wrapped : Option MiddlewareMeter → Option MiddlewareTracer → Proxy S → Proxy S
  wrapped none none n = n
  wrapped (some mm) none n = metrics_middleware n mm
  wrapped none (some mt) n = traces_middleware n mt
  wrapped (some mm) (some mt) n = metrics_and_traces_middleware n mm mt

  -- The function that `middleware` returns.
  unfoldable pub apply_middleware :
      Option MiddlewareMeter → Option MiddlewareTracer → List (Proxy S) → Outcome Panic (Proxy S)
  apply_middleware mm mt [] = panicked not_enough_proxies
  apply_middleware mm mt (n ∷ []) = returned (wrapped mm mt n)
  apply_middleware mm mt (n ∷ (m ∷ next)) = panicked too_many_proxies

-- The meter of the stage, nil if it is disabled or cannot be made.
abbrev pub meter_of : Bool → Result Err MiddlewareMeter → Option MiddlewareMeter
meter_of false r = none
meter_of true (done mm) = some mm
meter_of true (failed e) = none

-- The tracer of the stage: `s.Tracer()` on a nil interface panics.
abbrev tracer_of :
    Bool
    → Option Otel
    → (Option ApiTracer → Option MiddlewareTracer)
    → Outcome Panic (Option MiddlewareTracer)
tracer_of false gs make = returned none
tracer_of true none make = panicked nil_dereference
tracer_of true (some s) make = returned (make s.tracer)

abbrev meter_in : Option Otel → Option (Option ApiMeter)
meter_in none = none
meter_in (some s) = some s.meter

abbrev with_tracer :
    {S : Type 0}
    → World S
    → Option MiddlewareMeter
    → Outcome Panic (Option MiddlewareTracer)
    → Outcome Panic (List (Proxy S) → Outcome Panic (Proxy S))
with_tracer w mm (returned mt) = returned (apply_middleware w mm mt)
with_tracer w mm (panicked p) = panicked p

-- `middleware`; `refused` is the error of a meter that cannot make the instrument.
unfoldable pub middleware :
    {S : Type 0}
    → World S
    → Err
    → Option Otel
    → Bool
    → Bool
    → String
    → String
    → List Attribute
    → List Attribute
    → Bool
    → List String
    → Outcome Panic (List (Proxy S) → Outcome Panic (Proxy S))
middleware w refused gs metrics_enabled traces_enabled stage_name url_pattern metrics_attrs
      traces_attrs report_headers skip_headers =
    with_tracer w
      (meter_of metrics_enabled
        (new_middleware_meter refused (meter_in gs) stage_name metrics_attrs))
      (tracer_of traces_enabled gs (λ tracer.
        new_middleware_tracer tracer url_pattern stage_name report_headers skip_headers
          traces_attrs))
