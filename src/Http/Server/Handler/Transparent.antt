-- ===== src/Http/Server/Handler/Transparent.antt =====
-- The tracking handler answers as the handler that it wraps.
use krakend_otel.Prelude.{
  String, ◌≡◌, refl, ap, Bool, true, false, Option, none, some, List, [], ◌∷◌, ◌||◌, is_some, arith,
  ℕ, if◌then◌else◌, Bool-cases, inl, inr, Outcome, returned,
}
use krakend_otel.Telemetry.{Ctx, Call, Attribute, Tracer, Span, start_span, Panic}
use krakend_otel.Lura.Tracer.Counts.{Silent, header_calls-Silent}
use krakend_otel.Http.Attributes.{
  HttpRequest, Url, trace_incoming_request_attrs, trace_request_attrs, request_attrs, client_addr,
  with_client_addr,
}
use krakend_otel.Http.Server.Tracking.{Tracking, begin}
use krakend_otel.Http.Server.Traces.{
  TracesHttp, ServerTracing, start, start_with, opened, opening_calls,
}
use krakend_otel.Http.Server.Writer.{ResponseWriter}
use krakend_otel.Http.Server.Writer as Writer
use krakend_otel.Http.Server.Program.{Program, run_bare}
use krakend_otel.Http.Server.Handler.{
  TrackingHandler, options, close_tracking, run_tracked, served, watched, unwatched, serve_http,
  tracked_request, skipped,
}

opening_calls-Silent :
    (t : TracesHttp) (span : Span) (r : HttpRequest) (attrs : List Attribute)
    → Silent (opening_calls t span r attrs)
opening_calls-Silent t span r attrs =
    ground (arith, header_calls-Silent span "http.request.header." t.skip_headers r.header)

incoming_returns :
    (r : HttpRequest) (trusted : List String) {u : Url}
    → r.url ≡ some u
    → (attrs : List Attribute) × (trace_incoming_request_attrs r trusted ≡ returned attrs)
unfolding trace_incoming_request_attrs trace_request_attrs client_addr
incoming_returns r trusted {u} e = (
  with_client_addr (request_attrs u r) (client_addr r trusted),
  rw (e, trace_incoming_request_attrs, trace_request_attrs),
)

either_returns :
    {S : Type 0} {end : S} (b : Bool) (x y : S × List Call)
    → x.0 ≡ end
    → y.0 ≡ end
    → (calls : List Call) × (◌≡◌ {A = Outcome Panic (S × List Call)}
        (returned (if b then x else y))
        (returned (end, calls)))
either_returns true x y p q = (x.1, ap (λ s. returned (s, x.1)) p)
either_returns false x y p q = (y.1, ap (λ s. returned (s, y.1)) q)

module _ {S : Type 0} (writer : ResponseWriter S) (now : S → ℕ) (w : ServerTracing) where
  -- The wrapped writer ends in the state in which the program leaves it by itself.
  run_tracked-run_bare :
      (h : TrackingHandler) (r : HttpRequest) (p : Program) (s : S) (log : List Call) (t : Tracking)
      → (run_tracked writer now w h r p s log t).0 ≡ run_bare writer p s
  unfolding run_tracked run_bare Writer.write Writer.write_header Writer.flush Writer.hijack
  run_tracked-run_bare h r Program.finished s log t = refl
  run_tracked-run_bare h r (Program.change_header f p) s log t =
      run_tracked-run_bare h r p (writer.change_header f s) log t
  run_tracked-run_bare h r (Program.write b k) s log t =
      let (s', t', n, e) = Writer.write writer (options h) b s t in
      run_tracked-run_bare h r (k n e) s' log t'
  run_tracked-run_bare h r (Program.write_header status p) s log t =
      let (s', t') = Writer.write_header writer (options h) status s t in
      run_tracked-run_bare h r p s' log t'
  run_tracked-run_bare h r (Program.flush p) s log t =
      run_tracked-run_bare h r p (Writer.flush writer (options h) s) log t
  run_tracked-run_bare h r (Program.hijack k) s log t =
      let (s', t', conn, e) = Writer.hijack writer (options h) s t in
      let (log', t'') = close_tracking writer now w h r (now s') log t' in
      run_tracked-run_bare h r (k conn e) s' log' t''
  run_tracked-run_bare h r (Program.set_endpoint_pattern pattern p) s log t =
      run_tracked-run_bare h r p s log (record t { endpoint_pattern = pattern })
  run_tracked-run_bare h r (Program.set_static_attributes metrics traces p) s log t =
      run_tracked-run_bare h r p s log
        (record t { metrics_static_attrs = metrics; traces_static_attrs = traces })

  start_with_returns :
      (t : TracesHttp) (r : HttpRequest) (tr : Tracking) (tracer : Option Tracer) (url : Option Url)
      → r.url ≡ url
      → (c : Ctx) × (tr' : Tracking) × (calls : List Call) × (start_with w t r tr tracer url
          ≡ returned (record r { ctx = c }, tr', calls))
        × Silent calls
  start_with_returns t r tr none url e = (r.ctx, tr, [], refl, (refl, refl))
  start_with_returns t r tr (some tracer) none e = (r.ctx, tr, [], refl, (refl, refl))
  start_with_returns t r tr (some tracer) (some u) e =
      let (ctx, span) = w.starts tracer r.ctx u.path in
      let r' : HttpRequest = record r { ctx = ctx } in
      let tr' : Tracking = record tr { ctx = ctx; span = some span } in
      let (attrs, eq) = incoming_returns r' t.trusted_proxies e in
      (
        ctx,
        tr',
        _,
        ap (opened t r' tr' (start_span tracer r.ctx u.path ∷ []) span) eq,
        omega (arith, opening_calls-Silent t span r' attrs),
      )

  pub start_returns :
      (ts : Option TracesHttp) (r : HttpRequest) (tr : Tracking)
      → (c : Ctx) × (tr' : Tracking) × (calls : List Call) × (start w ts r tr
          ≡ returned (record r { ctx = c }, tr', calls))
        × Silent calls
  unfolding start
  start_returns none r tr = (r.ctx, tr, [], refl, (refl, refl))
  start_returns (some t) r tr = start_with_returns t r tr t.tracer r.url refl

  served_returns :
      (h : TrackingHandler) (next : HttpRequest → Program) (r : HttpRequest) (t : Tracking)
      (log : List Call) (s : S)
      → (calls : List Call) × (served writer now w h next s (returned (r, t, log))
          ≡ returned (run_bare writer (next r) s, calls))
  served_returns h next r t log s =
      either_returns (is_some h.metrics || is_some h.traces)
        (watched writer now w h r (next r) s log t) (unwatched writer now w h r (next r) s log t)
        (run_tracked-run_bare h r (next r) s log t) refl

  -- The tracking handler does not panic. The wrapped handler is called once, with the request in which
  -- at most the context is changed, and whatever it asks of the writer, the wrapped writer ends in the
  -- state in which that handler alone would have left it.
  pub serve_http_transparent :
      (h : TrackingHandler) (next : HttpRequest → Program) (r : HttpRequest) (s : S)
      → (c : Ctx) × (calls : List Call) × (serve_http writer now w h next r s
          ≡ returned (run_bare writer (next (record r { ctx = c })) s, calls))
  unfolding serve_http
  serve_http_transparent h next r s =
      let t = tracked_request writer now w h r in
      let (c, t', log, eq, silent) =
        start_returns h.traces (record r { ctx = t.ctx }) (begin (now s) t) in
      let (calls, same) = served_returns h next (record r { ctx = c }) t' log s in
      elim (Bool-cases (skipped h.config r.url)) [
        | inl skip ↦ (r.ctx, [], rw skip)
        | inr follow ↦ (c, calls, rw (follow, eq) same)
      ]
