-- ===== src/Http/Client/Transport/Transparent.antt =====
-- The instrumented round tripper behaves as the one that it wraps.
use krakend_otel.Prelude.{
  ℕ, ◌≡◌, ◌≢◌, refl, sym, ap, ◌∙◌, Bool, true, false, ◌||◌, Option, none, some, List, [], ◌∷◌,
  if◌then◌else◌, Bool-cases, Option-cases, inl, inr, Outcome, returned, sub_time, ℤ, pos,
}
use krakend_otel.Telemetry.{Err, Ctx, Call, Attribute, start_span, Panic}
use krakend_otel.Http.Attributes.{
  HttpRequest, HttpResponse, Url, trace_request_attrs, request_attrs,
}
use krakend_otel.Http.Client.Tracking.{
  RoundTripTracking, new_tracking, with_client_trace, Hook, run_hooks, on_hook,
}
use krakend_otel.Http.Client.Metrics.{TransportMetrics}
use krakend_otel.Http.Client.Report.{
  report, attributes_option, report_for, attributes_for, status_of,
}
use krakend_otel.Http.Client.Traces.{prefixed, start_recording, TransportTraces, Tracing, start}
use krakend_otel.Http.Client.Transport.{
  Body, Transport, RoundTripper, ReaderWrapper, round_trip, wrap_body, hooks_run, sent, finished,
}

-- The request that the wrapped round tripper is given: with the span's context, and its headers with
-- that put in, if there is a span that records.
abbrev pub sent_request : Tracing → Option TransportTraces → HttpRequest → HttpRequest
sent_request w none req = req
sent_request w (some t) req =
    let (ctx, span) = w.starts t.tracer req.ctx t.span_name in
    if w.recording span then record req { ctx = ctx; header = w.injected ctx req.header } else req

-- A response apart from its body.
abbrev pub no_body : Option (HttpResponse Body) → Option (HttpResponse Body)
no_body none = none
no_body (some resp) = some (record resp { body = none })

trace_request_attrs_returns :
    (r : HttpRequest) {u : Url}
    → r.url ≡ some u
    → (attrs : List Attribute) × (trace_request_attrs r ≡ returned attrs)
unfolding trace_request_attrs
trace_request_attrs_returns r {u} e = (request_attrs u r, rw (e, trace_request_attrs))

start_returns :
    (w : Tracing) (ts : Option TransportTraces) (rtt : RoundTripTracking Body) {u : Url}
    → rtt.req.url ≡ some u
    → (rtt' : RoundTripTracking Body) × (calls : List Call) × (start w ts rtt
        ≡ returned (rtt', calls))
      × (rtt'.req ≡ sent_request w ts rtt.req)
unfolding start
start_returns w none rtt e = (rtt, [], refl, refl)
start_returns w (some t) rtt e =
    let (ctx, span) = w.starts t.tracer rtt.req.ctx t.span_name in
    elim (Bool-cases (w.recording span)) [
      | inl recording ↦
          let opened = start_span t.tracer rtt.req.ctx t.span_name ∷ [] in
          let (attrs, eq) = trace_request_attrs_returns rtt.req e in
          rw recording (
            record rtt {
              span = some span;
              req = record (rtt.req) { ctx = ctx; header = w.injected ctx rtt.req.header };
            },
            _,
            ap (λ o. prefixed w opened (start_recording w t rtt ctx span o)) eq,
            refl,
          )
      | inr dropped ↦ rw dropped (rtt, _, refl, refl)
    ]

on_hook_req :
    (h : Hook) (now : ℕ) (rtt : RoundTripTracking Body) → (on_hook h now rtt).req ≡ rtt.req
unfolding on_hook
on_hook_req Hook.get_conn now rtt = refl
on_hook_req _ now rtt = refl

run_hooks_req :
    (hs : List (Hook × ℕ)) (rtt : RoundTripTracking Body) → (run_hooks hs rtt).req ≡ rtt.req
unfolding run_hooks
run_hooks_req [] rtt = refl
run_hooks_req ((h, now) ∷ hs) rtt = run_hooks_req hs (on_hook h now rtt) ∙ on_hook_req h now rtt

if_req :
    (b : Bool) (x y : RoundTripTracking Body) → x.req ≡ y.req → (if b then x else y).req ≡ y.req
if_req true x y e = e
if_req false x y e = refl

status_of_returns :
    (err : Option Err) (resp : Option (HttpResponse Body))
    → (err ≡ none → resp ≢ none)
    → (status : ℤ) × (status_of err resp ≡ returned status)
status_of_returns (some e) resp h = (pos 0, refl)
status_of_returns none none h = absurd (h refl refl)
status_of_returns none (some resp) h = (resp.status_code, refl)

report_returns :
    (m : Option TransportMetrics) (rtt : RoundTripTracking Body) (attrs : List Attribute)
    (ctx_err : Option Err)
    → (rtt.err ≡ none → rtt.resp ≢ none)
    → (calls : List Call) × (report m rtt attrs ctx_err ≡ returned calls)
unfolding report attributes_option
report_returns none rtt attrs ctx_err h = ([], refl)
report_returns (some m) rtt attrs ctx_err h =
    let (status, eq) = status_of_returns rtt.err rtt.resp h in
    (_, ap (λ o. report_for m rtt ctx_err (attributes_for m rtt attrs o)) eq)

module _ {S : Type 0} (w : Tracing) (now : S → ℕ) (ctx_err : Ctx → S → Option Err)
    (base : RoundTripper S) (t : Transport) (req : HttpRequest) (s : S) where
  -- The wrapped round tripper's answer to the request that it is sent.
  abbrev pub answer : S × (Option (HttpResponse Body) × Option Err) × List (Hook × ℕ)
  answer = base (sent_request w t.traces req) s

  abbrev Agrees :
      Outcome Panic (S × (Option (HttpResponse Body) × Option Err) × List Call)
      → S × (Option (HttpResponse Body) × Option Err) × List (Hook × ℕ)
      → Type 0
  Agrees o (s', (got, err), hooks) =
      (resp : Option (HttpResponse Body)) × (calls : List Call) × (o
        ≡ returned (s', (resp, err), calls))
      × (no_body resp ≡ no_body got)

  no_body-wrap_body :
      (wrapper : ReaderWrapper) (ctx : Ctx) (resp : Option (HttpResponse Body))
      → no_body (wrap_body w now ctx_err base wrapper ctx resp) ≡ no_body resp
  no_body-wrap_body wrapper ctx none = refl
  no_body-wrap_body wrapper ctx (some resp) = elim (Option-cases resp.body) [
    | inl e ↦ rw e refl
    | inr (body, e) ↦ rw e refl
  ]

  sent_returns :
      (rtt : RoundTripTracking Body) (calls : List Call)
      → (((base rtt.req s).1).1 ≡ none → ((base rtt.req s).1).0 ≢ none)
      → Agrees (sent w now ctx_err base t s (returned (rtt, calls))) (base rtt.req s)
  sent_returns rtt calls contract =
      let (s', (resp, err), hooks) = base rtt.req s in
      let rtt' = record (hooks_run w now ctx_err base hooks rtt) {
        resp = resp;
        err = err;
        latency = sub_time (now s') (now s);
      } in
      let (more, eq) =
        report_returns t.metrics rtt' t.metrics_opts.fixed_attributes (ctx_err rtt'.req.ctx s')
          contract in
      (
        wrap_body w now ctx_err base t.reader_wrapper rtt'.req.ctx resp,
        _,
        ap (finished w now ctx_err base t calls rtt' s') eq,
        no_body-wrap_body t.reader_wrapper rtt'.req.ctx resp,
      )

  hooks_run_req :
      (hooks : List (Hook × ℕ)) (rtt : RoundTripTracking Body)
      → (hooks_run w now ctx_err base hooks rtt).req ≡ rtt.req
  hooks_run_req hooks rtt = if_req rtt.hooked (run_hooks hooks rtt) rtt (run_hooks_req hooks rtt)

  start-Agrees :
      (rtt : RoundTripTracking Body) {u : Url}
      → rtt.req.url ≡ some u
      → (((base (sent_request w t.traces rtt.req) s).1).1 ≡ none
          → ((base (sent_request w t.traces rtt.req) s).1).0 ≢ none)
      → Agrees
          (sent w now ctx_err base t s (start w t.traces rtt))
          (base (sent_request w t.traces rtt.req) s)
  start-Agrees rtt e contract =
      let (rtt', calls, eq, same) = start_returns w t.traces rtt e in
      rw (eq, sym same) (sent_returns rtt' calls (rw same contract))

  -- For a request with a URL, and a wrapped round tripper that keeps to its contract, a response
  -- wherever there is no error: the instrumented one calls it once, with the request in which at most
  -- the context and the headers are changed, does not panic, and returns its error and its response,
  -- in which at most the body differs.
  pub round_trip_transparent :
      {u : Url}
      → req.url ≡ some u
      → ((answer.1).1 ≡ none → (answer.1).0 ≢ none)
      → (resp : Option (HttpResponse Body)) × (calls : List Call) × (round_trip w now ctx_err base t
            req s
          ≡ returned (answer.0, (resp, (answer.1).1), calls))
        × (no_body resp ≡ no_body (answer.1).0)
  unfolding round_trip with_client_trace
  round_trip_transparent e contract =
      elim (Bool-cases (t.traces_opts.detailed_connection || t.metrics_opts.detailed_connection)) [
        | inl hooked ↦ rw hooked (start-Agrees (with_client_trace (new_tracking req)) e contract)
        | inr bare ↦ rw bare (start-Agrees (new_tracking req) e contract)
      ]
