-- ===== src/Http/Server/Handler.antt =====
-- http/server/server.go: the handler round the gateway's.
pub mod Transparent
pub mod Samples
pub mod Ends
pub mod Exactly
pub mod Hides
use krakend_otel.Prelude.{
  ℕ, String, Bool, true, false, not, ◌&&◌, ◌||◌, Option, none, some, List, [], ◌∷◌, ◌++◌, ℤ,
  is_some, sub_time, if◌then◌else◌, Outcome, returned, panicked,
}
use krakend_otel.Telemetry.{Err, Attribute, Ctx, with_tracking, Headers, Span, Call, Panic}
use krakend_otel.Http.Attributes.{HttpRequest, Url}
use krakend_otel.State.Config.{StateConfig, skip_endpoint}
use krakend_otel.Http.Server.Tracking.{
  Tracking, new_tracking, begin, stop, set_endpoint_pattern, set_static_attributes,
}
use krakend_otel.Http.Server.Metrics.{MetricsHttp, report}
use krakend_otel.Http.Server.Traces.{TracesHttp, ServerTracing, start, finish}
use krakend_otel.Http.Server.Writer.{ResponseWriter, HeaderOptions}
use krakend_otel.Http.Server.Writer as Writer
use krakend_otel.Http.Server.Program.{Program, run_bare}
use krakend_otel.Http.Server.Program as Program

-- `Extract` of the propagator: nothing if it answers the context as it was, or else the new context
-- and `SpanFromContext` of it.
abbrev pub Propagator : Type 0
Propagator = Headers → Ctx → Option (Ctx × Span)

-- `trackingHandler`, without the wrapped handler
pub record TrackingHandler : Type 0 where
  pub prop : Option Propagator
  pub metrics : Option MetricsHttp
  pub traces : Option TracesHttp
  pub report_headers : Bool
  pub skip_headers : Option (List String)
  pub config : StateConfig

abbrev pub skipped : StateConfig → Option Url → Bool
skipped c none = false
skipped c (some u) = skip_endpoint c u.path

abbrev pub extracted : Option (Ctx × Span) → Tracking → Tracking
extracted none t = t
extracted (some (ctx, span)) t = record t { ctx = ctx; span = some span }

abbrev pub with_propagation : Option Propagator → HttpRequest → Tracking → Tracking
with_propagation none r t = t
with_propagation (some extract) r t = extracted (extract r.header r.ctx) t

abbrev pub options : TrackingHandler → HeaderOptions
options h = record { record_headers = h.report_headers; skip_headers = h.skip_headers }

module _ {S : Type 0} (writer : ResponseWriter S) (now : S → ℕ) (w : ServerTracing) where
  -- `t.Finish(); h.traces.end(t); h.metrics.report(t, r)`, after the calls in `log`
  unfoldable pub close_tracking :
      TrackingHandler → HttpRequest → ℕ → List Call → Tracking → List Call × Tracking
  close_tracking h r time log t =
      let t' = stop time t in
      let ended = finish w h.traces t' log in (log ++ (ended ++ report h.metrics t' r), t')

  -- The wrapped handler, on the tracking writer: `Hijack` calls back before it returns.
  unfoldable pub run_tracked :
      TrackingHandler → HttpRequest → Program → S → List Call → Tracking → S × List Call × Tracking
  run_tracked h r Program.finished s log t = (s, log, t)
  run_tracked h r (Program.change_header f p) s log t =
      run_tracked h r p (writer.change_header f s) log t
  run_tracked h r (Program.write b k) s log t =
      let (s', t', n, e) = Writer.write writer (options h) b s t in
      run_tracked h r (k n e) s' log t'
  run_tracked h r (Program.write_header status p) s log t =
      let (s', t') = Writer.write_header writer (options h) status s t in
      run_tracked h r p s' log t'
  run_tracked h r (Program.flush p) s log t =
      run_tracked h r p (Writer.flush writer (options h) s) log t
  run_tracked h r (Program.hijack k) s log t =
      let (s', t', conn, e) = Writer.hijack writer (options h) s t in
      let (log', t'') = close_tracking h r (now s') log t' in run_tracked h r (k conn e) s' log' t''
  run_tracked h r (Program.set_endpoint_pattern pattern p) s log t =
      run_tracked h r p s log (set_endpoint_pattern pattern t)
  run_tracked h r (Program.set_static_attributes metrics traces p) s log t =
      run_tracked h r p s log (set_static_attributes metrics traces t)

  -- The wrapped handler and what comes after it.
  abbrev pub watched :
      TrackingHandler → HttpRequest → Program → S → List Call → Tracking → S × List Call
  watched h r p s log t =
      let (s', log', t') = run_tracked h r p s log t in
      (s', (close_tracking h r (now s') log' t').0)

  -- Without metrics and traces the wrapped handler is given the writer itself.
  abbrev pub unwatched :
      TrackingHandler → HttpRequest → Program → S → List Call → Tracking → S × List Call
  unwatched h r p s log t =
      let s' = run_bare writer p s in (s', (close_tracking h r (now s') log t).0)

  abbrev pub served :
      TrackingHandler
      → (HttpRequest → Program)
      → S
      → Outcome Panic (HttpRequest × Tracking × List Call)
      → Outcome Panic (S × List Call)
  served h next s (panicked p) = panicked p
  served h next s (returned (r, t, calls)) = returned (
      if is_some h.metrics || is_some h.traces
      then watched h r (next r) s calls t
      else unwatched h r (next r) s calls t)

  -- The tracking before `Start`: the context has it inside. It is the only one of the request, 0.
  abbrev pub tracked_request : TrackingHandler → HttpRequest → Tracking
  tracked_request h r =
      let t = with_propagation h.prop r (new_tracking r.ctx) in
      record t { ctx = with_tracking t.ctx 0 }

  -- `ServeHTTP`, for a wrapped handler that runs a program for each request
  unfoldable pub serve_http :
      TrackingHandler → (HttpRequest → Program) → HttpRequest → S → Outcome Panic (S × List Call)
  serve_http h next r s =
      let t = tracked_request h r in
      if skipped h.config r.url
      then returned (run_bare writer (next r) s, [])
      else served h next s (start w h.traces (record r { ctx = t.ctx }) (begin (now s) t))
