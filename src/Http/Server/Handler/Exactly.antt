-- ===== src/Http/Server/Handler/Exactly.antt =====
-- http/server/server.go: the ends of the span of a traced request.
use krakend_otel.Prelude.{
  ℕ, ◌+◌, ◌≡◌, refl, Bool, true, false, Option, some, List, [], ◌∷◌, ◌++◌, arith, is_some, ap, ap₂,
  sym, ◌∙◌, inl, inr, Outcome, returned, panicked, ◌||◌, if◌then◌else◌,
}
use krakend_otel.Telemetry.{
  Call, Panic, Span, Tracer, Attribute, ends, ends-append, on_span, end_span, start_span,
}
use krakend_otel.Http.Attributes.{HttpRequest, Url, trace_incoming_request_attrs}
use krakend_otel.Http.Server.Tracking.{Tracking, begin, stop}
use krakend_otel.Http.Server.Metrics.{report}
use krakend_otel.Http.Server.Traces.{
  TracesHttp, ServerTracing, start, start_with, opened, finish, end_with, end_calls,
}
use krakend_otel.Http.Server.Writer.{ResponseWriter}
use krakend_otel.Http.Server.Writer as Writer
use krakend_otel.Http.Server.Program.{Program, run_bare}
use krakend_otel.Http.Server.Handler.{
  TrackingHandler, options, close_tracking, run_tracked, watched, unwatched, serve_http,
  tracked_request, skipped,
}
use krakend_otel.Http.Server.Handler.Transparent.{start_returns}
use krakend_otel.Http.Server.Handler.Samples.{end_calls_once}
use krakend_otel.Http.Server.Handler.Ends.{
  Stops, AtMostOnce, report-ends, gather_headers-span, run_tracked-AtMostOnce,
}

-- A span of which no end has been asked is recording, as one that is sampled does.
abbrev pub Records : ServerTracing → Type 0
Records w = (span : Span) (log : List Call) → ends log ≡ 0 → w.recording span log ≡ true

-- The span that `start` has opened is that of the tracking.
opened-span :
    (t : TracesHttp) (r : HttpRequest) (tr : Tracking) (calls : List Call) (span : Span)
    (o : Outcome Panic (List Attribute)) (r' : HttpRequest) (t' : Tracking) (log : List Call)
    → opened t r tr calls span o ≡ returned (r', t', log)
    → t'.span ≡ tr.span
opened-span t r tr calls span (returned attrs) r' t' log e = cc e
opened-span t r tr calls span (panicked p) r' t' log e = absurd (cc e)

start_with-span :
    (w : ServerTracing) (t : TracesHttp) (r : HttpRequest) (tr : Tracking) (tracer : Tracer)
    (u : Url) (r' : HttpRequest) (t' : Tracking) (log : List Call)
    → start_with w t r tr (some tracer) (some u) ≡ returned (r', t', log)
    → t'.span ≡ some (w.starts tracer r.ctx u.path).1
start_with-span w t r tr tracer u r' t' log e =
    let (ctx, span) = w.starts tracer r.ctx u.path in
    opened-span t (record r { ctx = ctx }) (record tr { ctx = ctx; span = some span })
      (start_span tracer r.ctx u.path ∷ []) span
      (trace_incoming_request_attrs (record r { ctx = ctx }) t.trusted_proxies) r' t' log e

start-span :
    (w : ServerTracing) (t : TracesHttp) (r : HttpRequest) (tr : Tracking) (tracer : Tracer)
    (u : Url) (r' : HttpRequest) (t' : Tracking) (log : List Call)
    → t.tracer ≡ some tracer
    → r.url ≡ some u
    → start w (some t) r tr ≡ returned (r', t', log)
    → t'.span ≡ some (w.starts tracer r.ctx u.path).1
unfolding start
start-span w t r tr tracer u r' t' log traced located e =
    start_with-span w t r tr tracer u r' t' log
      (sym (ap₂ (λ a b. start_with w t r tr a b) traced located) ∙ e)

either_once :
    {S : Type 0} (b : Bool) (x y : S × List Call)
    → ends x.1 ≡ 1
    → ends y.1 ≡ 1
    → (end : S) × (calls : List Call) × (◌≡◌ {A = Outcome Panic (S × List Call)}
        (returned (if b then x else y))
        (returned (end, calls)))
      × (ends calls ≡ 1)
either_once true x y p q = (x.0, x.1, refl, p)
either_once false x y p q = (y.0, y.1, refl, q)

module _ {S : Type 0} (writer : ResponseWriter S) (now : S → ℕ) (w : ServerTracing)
    (stops : Stops w) (records : Records w) where
  finish_with :
      (ts : Option TracesHttp) (t : TracesHttp) (tr : Tracking) (log : List Call) (span : Span)
      → ts ≡ some t
      → tr.span ≡ some span
      → finish w ts tr log ≡ (if w.recording span log then end_calls w t span tr else [])
  unfolding finish
  finish_with ts t tr log span traced spanned =
      ap (λ o. finish w o tr log) traced ∙ ap (λ o. end_with w t tr log o) spanned

  closed_ends :
      (h : TrackingHandler) (r : HttpRequest) (time : ℕ) (log : List Call) (tr : Tracking) (m n : ℕ)
      → ends log ≡ m
      → ends (finish w h.traces (stop time tr) log) ≡ n
      → ends (close_tracking writer now w h r time log tr).0 ≡ m + n
  unfolding close_tracking
  closed_ends h r time log tr m n before more =
      let ended = finish w h.traces (stop time tr) log in
      let reported = report h.metrics (stop time tr) r in
      omega (
        arith,
        ends-append log (ended ++ reported),
        ends-append ended reported,
        report-ends h.metrics (stop time tr) r,
      )

  -- Whether or not a takeover has ended the span before, after the last call it has been ended once.
  close_tracking-ends :
      (h : TrackingHandler) (t : TracesHttp) (r : HttpRequest) (time : ℕ) (log : List Call)
      (tr : Tracking) (span : Span)
      → h.traces ≡ some t
      → tr.span ≡ some span
      → AtMostOnce tr.span log
      → ends (close_tracking writer now w h r time log tr).0 ≡ 1
  unfolding close_tracking finish
  close_tracking-ends h t r time log tr span traced spanned (inl zero) =
      let (front, eq, (silent, _)) = end_calls_once w t span (stop time tr) in
      let ended = finish_with h.traces t (stop time tr) log span traced spanned in
      let once : ends (finish w h.traces (stop time tr) log) ≡ 1 = rw ended (
        rw (records span log zero)
          (rw eq (omega (arith, silent, ends-append front (on_span span end_span ∷ []))))) in
      closed_ends h r time log tr (ends log) 1 refl once ∙ omega arith
  close_tracking-ends h t r time log tr span traced spanned
        (inr (span', xs, ys, ended, same, one)) =
      let over : w.recording span log ≡ false = cc (same, spanned, ended, stops span' xs ys) in
      let none_more : ends (finish w h.traces (stop time tr) log) ≡ 0 =
        rw (finish_with h.traces t (stop time tr) log span traced spanned) (rw over refl) in
      closed_ends h r time log tr (ends log) 0 refl none_more ∙ omega arith

  run_tracked-span :
      (h : TrackingHandler) (r : HttpRequest) (p : Program) (s : S) (log : List Call) (t : Tracking)
      → (run_tracked writer now w h r p s log t).2.span ≡ t.span
  unfolding run_tracked Writer.write Writer.write_header Writer.flush Writer.hijack close_tracking
  run_tracked-span h r Program.finished s log t = refl
  run_tracked-span h r (Program.change_header f p) s log t =
      run_tracked-span h r p (writer.change_header f s) log t
  run_tracked-span h r (Program.write b k) s log t =
      let (s', t', n, e) = Writer.write writer (options h) b s t in
      run_tracked-span h r (k n e) s' log t'
      ∙ gather_headers-span writer now w stops (options h) (writer.header s) t
  run_tracked-span h r (Program.write_header status p) s log t =
      let (s', t') = Writer.write_header writer (options h) status s t in
      run_tracked-span h r p s' log t'
      ∙ gather_headers-span writer now w stops (options h) (writer.header s) t
  run_tracked-span h r (Program.flush p) s log t =
      run_tracked-span h r p (Writer.flush writer (options h) s) log t
  run_tracked-span h r (Program.hijack k) s log t =
      let (s', t', conn, e) = Writer.hijack writer (options h) s t in
      let (log', t'') = close_tracking writer now w h r (now s') log t' in
      run_tracked-span h r (k conn e) s' log' t''
  run_tracked-span h r (Program.set_endpoint_pattern pattern p) s log t =
      run_tracked-span h r p s log (record t { endpoint_pattern = pattern })
  run_tracked-span h r (Program.set_static_attributes metrics traces p) s log t =
      run_tracked-span h r p s log
        (record t { metrics_static_attrs = metrics; traces_static_attrs = traces })

  served-ends_once :
      (h : TrackingHandler) (t : TracesHttp) (r : HttpRequest) (p : Program) (s : S)
      (log : List Call) (tr : Tracking) (span : Span)
      → h.traces ≡ some t
      → tr.span ≡ some span
      → ends log ≡ 0
      → (ends (watched writer now w h r p s log tr).1 ≡ 1)
        × (ends (unwatched writer now w h r p s log tr).1 ≡ 1)
  served-ends_once h t r p s log tr span traced spanned zero =
      let (s', log', tr') = run_tracked writer now w h r p s log tr in
      (
        close_tracking-ends h t r (now s') log' tr' span traced
            (run_tracked-span h r p s log tr ∙ spanned)
            (run_tracked-AtMostOnce writer now w stops h r p s log tr (inl zero)),
        close_tracking-ends h t r (now (run_bare writer p s)) log tr span traced spanned (inl zero),
      )

  -- Under a tracer whose spans record until they are ended, and not after that, a handler with traces
  -- that have a tracer ends the span of each request with a URL that it does not skip, once, and
  -- after that returns: also where the wrapped handler takes the connection over, writes nothing or
  -- fails to write.
  pub serve_http-ends_once :
      (h : TrackingHandler) (t : TracesHttp) (tracer : Tracer) (u : Url)
      (next : HttpRequest → Program) (r : HttpRequest) (s : S)
      → h.traces ≡ some t
      → t.tracer ≡ some tracer
      → r.url ≡ some u
      → skipped h.config r.url ≡ false
      → (end : S) × (calls : List Call) × (serve_http writer now w h next r s
          ≡ returned (end, calls))
        × (ends calls ≡ 1)
  unfolding serve_http
  serve_http-ends_once h t tracer u next r s traced named located follow =
      let tr = tracked_request writer now w h r in
      let r0 : HttpRequest = record r { ctx = tr.ctx } in
      let (c, tr', log, eq, (zero, _)) =
        start_returns writer now w h.traces r0 (begin (now s) tr) in
      let r' : HttpRequest = record r { ctx = c } in
      let spanned =
        start-span w t r0 (begin (now s) tr) tracer u (record r0 { ctx = c }) tr' log named located
          (sym (ap (λ o. start w o r0 (begin (now s) tr)) traced) ∙ eq) in
      let (one, one') = served-ends_once h t r' (next r') s log tr' _ traced spanned zero in
      let (end, calls, same, once) =
        either_once (is_some h.metrics || is_some h.traces)
          (watched writer now w h r' (next r') s log tr')
          (unwatched writer now w h r' (next r') s log tr') one one' in
      (end, calls, rw (follow, eq) same, once)
