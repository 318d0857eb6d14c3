-- ===== src/Lura/Proxy/Transparent.antt =====
-- The middleware leaves the stage that it wraps as it is, and reports every call of it.
use krakend_otel.Prelude.{
  ◌≡◌, refl, Option, none, some, List, [], ◌∷◌, ◌++◌, returned, panicked, sub_time, arith, ◌+◌, ℕ,
  is_some, if◌then◌else◌,
}
use krakend_otel.Telemetry.{too_many_proxies, not_enough_proxies, Ctx, World, ends, samples}
use krakend_otel.Lura.Meter.{MiddlewareMeter}
use krakend_otel.Lura.Tracer.{MiddlewareTracer}
use krakend_otel.Lura.Tracer as Tracer
use krakend_otel.Lura.Tracer.Counts.{start-Silent, finish_once, counts_between}
use krakend_otel.Lura.Meter as Meter
use krakend_otel.Lura.Proxy.{
  Proxy, Request, apply_middleware, traces_middleware, metrics_middleware,
  metrics_and_traces_middleware,
}

-- The context that the wrapped stage is called with: the span's if there is a tracer.
abbrev pub inner_ctx : {S : Type 0} → World S → Option MiddlewareTracer → Ctx → Ctx
inner_ctx w none ctx = ctx
inner_ctx w (some mt) ctx = (w.starts mt.tracer ctx mt.name).0

abbrev one_if : {A : Type 0} → Option A → ℕ
one_if o = if is_some o then 1 else 0

module _ {S : Type 0} (w : World S) (n : Proxy S) where
  -- The proxy `p` calls `n` once, with the same request, and answers as it does; the calls of the
  -- API beside those of `n` end one span if there is a tracer, and record one sample if a meter.
  abbrev pub Instruments : Option MiddlewareMeter → Option MiddlewareTracer → Proxy S → Type 0
  Instruments mm mt p =
      (ctx : Ctx) (req : Request) (s : S)
      → let (s', a', calls') = p ctx req s in
        let (s'', a'', calls'') = n (inner_ctx w mt ctx) req s in
        (s' ≡ s'')
        × (a' ≡ a'')
        × (ends calls' ≡ ends calls'' + one_if mt)
        × (samples calls' ≡ samples calls'' + one_if mm)

  traces_middleware-Instruments :
      (mt : MiddlewareTracer) → Instruments none (some mt) (traces_middleware w n mt)
  unfolding traces_middleware Tracer.start
  traces_middleware-Instruments mt ctx req s =
      let (ctx', span, opened) = Tracer.start w.starts mt ctx req.headers in
      let (s', (resp, err), calls) = n ctx' req s in
      (
        refl,
        refl,
        omega (
          arith,
          counts_between opened calls (Tracer.finish mt span resp err)
              (start-Silent w.starts mt ctx req.headers),
          finish_once mt span resp err,
        ),
        omega (
          arith,
          counts_between opened calls (Tracer.finish mt span resp err)
              (start-Silent w.starts mt ctx req.headers),
          finish_once mt span resp err,
        ),
      )

  metrics_middleware-Instruments :
      (mm : MiddlewareMeter) → Instruments (some mm) none (metrics_middleware w n mm)
  unfolding metrics_middleware Meter.report
  metrics_middleware-Instruments mm ctx req s =
      let (s', (resp, err), calls) = n ctx req s in
      let reported =
        Meter.report mm ctx (w.ctx_err ctx s') (sub_time (w.now s') (w.now s)) resp err in
      (
        refl,
        refl,
        omega (arith, counts_between [] calls reported (refl, refl)),
        omega (arith, counts_between [] calls reported (refl, refl)),
      )

  metrics_and_traces_middleware-Instruments :
      (mm : MiddlewareMeter) (mt : MiddlewareTracer)
      → Instruments (some mm) (some mt) (metrics_and_traces_middleware w n mm mt)
  unfolding metrics_and_traces_middleware Tracer.start Meter.report
  metrics_and_traces_middleware-Instruments mm mt ctx req s =
      let (ctx', span, opened) = Tracer.start w.starts mt ctx req.headers in
      let (s', (resp, err), calls) = n ctx' req s in
      let reported =
        Meter.report mm ctx' (w.ctx_err ctx' s') (sub_time (w.now s') (w.now s)) resp err in
      let last = reported ++ Tracer.finish mt span resp err in
      (
        refl,
        refl,
        omega (
          arith,
          counts_between opened calls last (start-Silent w.starts mt ctx req.headers),
          finish_once mt span resp err,
        ),
        omega (
          arith,
          counts_between opened calls last (start-Silent w.starts mt ctx req.headers),
          finish_once mt span resp err,
        ),
      )

  -- Whichever of a meter and a tracer the middleware has, one proxy is instrumented: the result calls
  -- it once with the same request and gives its answer, ends one span more if there is a tracer, and
  -- records one sample more if there is a meter. Given no proxy, or more than one, the middleware
  -- panics.
  pub apply_middleware-Instruments :
      (mm : Option MiddlewareMeter) (mt : Option MiddlewareTracer) (m : Proxy S)
      (more : List (Proxy S))
      → ((p : Proxy S) × (apply_middleware w mm mt (n ∷ []) ≡ returned p) × Instruments mm mt p)
        × (apply_middleware w mm mt [] ≡ panicked not_enough_proxies)
        × (apply_middleware w mm mt (n ∷ (m ∷ more)) ≡ panicked too_many_proxies)
  unfolding apply_middleware
  apply_middleware-Instruments none none m more =
      ((n, refl, λ ctx req s. (refl, refl, omega arith, omega arith)), refl, refl)
  apply_middleware-Instruments (some mm) none m more =
      ((metrics_middleware w n mm, refl, metrics_middleware-Instruments mm), refl, refl)
  apply_middleware-Instruments none (some mt) m more =
      ((traces_middleware w n mt, refl, traces_middleware-Instruments mt), refl, refl)
  apply_middleware-Instruments (some mm) (some mt) m more = (
    (
      metrics_and_traces_middleware w n mm mt,
      refl,
      metrics_and_traces_middleware-Instruments mm mt,
    ),
    refl,
    refl,
  )
