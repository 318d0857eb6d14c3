-- ===== src/Http/Server/Handler/Ends.antt =====
-- How often the span of a request that is served is ended.
use krakend_otel.Prelude.{
  String, ℕ, ◌≤◌, ◌≡◌, refl, Bool, true, false, Option, none, some, List, [], ◌∷◌, ◌++◌, arith,
  is_some, ap, ◌∙◌, sym, append_assoc, inl, inr, ◌⊎◌, Outcome, returned, ◌||◌, if◌then◌else◌,
  Bool-cases,
}
use krakend_otel.Telemetry.{Call, Panic, Span, ends, ends-append, on_span, end_span}
use krakend_otel.Http.Attributes.{HttpRequest}
use krakend_otel.Http.Server.Tracking.{Tracking, begin, stop}
use krakend_otel.Http.Server.Metrics.{MetricsHttp, report}
use krakend_otel.Http.Server.Traces.{ServerTracing}
use krakend_otel.Http.Server.Writer.{ResponseWriter, HeaderOptions, gather_headers}
use krakend_otel.Http.Server.Writer as Writer
use krakend_otel.Http.Server.Program.{Program, run_bare}
use krakend_otel.Http.Server.Handler.{
  TrackingHandler, options, close_tracking, run_tracked, watched, unwatched, serve_http,
  tracked_request, skipped,
}
use krakend_otel.Http.Server.Handler.Transparent.{start_returns}
use krakend_otel.Http.Server.Handler.Samples.{finish-EndsSpan}

-- A span that has been ended is not recording.
abbrev pub Stops : ServerTracing → Type 0
Stops w =
    (span : Span) (xs ys : List Call) → w.recording span (xs ++ on_span span end_span ∷ ys) ≡ false

-- No span has been ended, or the tracking's has, once.
abbrev pub AtMostOnce : Option Span → List Call → Type 0
AtMostOnce sp log =
    (ends log ≡ 0)
    ⊎ ((span : Span) × (xs : List Call) × (ys : List Call) × (log
          ≡ xs ++ on_span span end_span ∷ ys)
        × (sp ≡ some span)
        × (ends log ≡ 1))

pub report-ends :
    (m : Option MetricsHttp) (t : Tracking) (r : HttpRequest) → ends (report m t r) ≡ 0
unfolding report
report-ends none t r = refl
report-ends (some m) t r = omega arith

AtMostOnce-append :
    (sp : Option Span) (log more : List Call)
    → ends more ≡ 0
    → AtMostOnce sp log
    → AtMostOnce sp (log ++ more)
AtMostOnce-append sp log more none_more (inl zero) = inl (omega (arith, ends-append log more))
AtMostOnce-append sp log more none_more (inr (span, xs, ys, eq, same, one)) = inr (
  span,
  xs,
  ys ++ more,
  ap (λ l. l ++ more) eq ∙ append_assoc xs (on_span span end_span ∷ ys) more,
  same,
  omega (arith, ends-append log more),
)

-- A log in which no span has been ended, and the end of the tracking's.
AtMostOnce-end :
    (sp : Option Span) (log front more : List Call) (span : Span)
    → sp ≡ some span
    → ends log ≡ 0
    → ends front ≡ 0
    → ends more ≡ 0
    → AtMostOnce sp (log ++ ((front ++ on_span span end_span ∷ []) ++ more))
AtMostOnce-end sp log front more span same l f m =
    let last : List Call = on_span span end_span ∷ [] in
    inr (
      span,
      log ++ front,
      more,
      ap (λ l. log ++ l) (append_assoc front last more)
          ∙ sym (append_assoc log front (on_span span end_span ∷ more)),
      same,
      omega (
        arith,
        ends-append log ((front ++ last) ++ more),
        ends-append (front ++ last) more,
        ends-append front last,
      ),
    )

either_ends :
    {S : Type 0} (b : Bool) (x y : S × List Call)
    → ends x.1 ≤ 1
    → ends y.1 ≤ 1
    → (end : S) × (calls : List Call) × (◌≡◌ {A = Outcome Panic (S × List Call)}
        (returned (if b then x else y))
        (returned (end, calls)))
      × (ends calls ≤ 1)
either_ends true x y p q = (x.0, x.1, refl, p)
either_ends false x y p q = (y.0, y.1, refl, q)

module _ {S : Type 0} (writer : ResponseWriter S) (now : S → ℕ) (w : ServerTracing)
    (stops : Stops w) where
  close_tracking-AtMostOnce :
      (h : TrackingHandler) (r : HttpRequest) (time : ℕ) (log : List Call) (t : Tracking)
      → AtMostOnce t.span log
      → AtMostOnce t.span (close_tracking writer now w h r time log t).0
  unfolding close_tracking
  close_tracking-AtMostOnce h r time log t once =
      let t' = stop time t in
      let reported = report h.metrics t' r in
      let unmeasured = report-ends h.metrics t' r in
      elim (finish-EndsSpan w h.traces t' log) [
        | inl nothing ↦ rw nothing (AtMostOnce-append t.span log reported unmeasured once)
        | inr (span, front, eq, (silent, _), same, on) ↦ elim once [
          | inl zero ↦
              rw eq (AtMostOnce-end t.span log front reported span same zero silent unmeasured)
          | inr (span', xs, ys, ended, same', _) ↦
              absurd (cc (same, same', ended, on, stops span' xs ys))
        ]
      ]

  pub gather_headers-span :
      (o : HeaderOptions) (hs : List (String × List String)) (t : Tracking)
      → (gather_headers o hs t).span ≡ t.span
  unfolding gather_headers
  gather_headers-span o hs t = ground arith

  pub run_tracked-AtMostOnce :
      (h : TrackingHandler) (r : HttpRequest) (p : Program) (s : S) (log : List Call) (t : Tracking)
      → AtMostOnce t.span log
      → let (s', log', t') = run_tracked writer now w h r p s log t in AtMostOnce t'.span log'
  unfolding run_tracked Writer.write Writer.write_header Writer.flush Writer.hijack close_tracking
  run_tracked-AtMostOnce h r Program.finished s log t once = once
  run_tracked-AtMostOnce h r (Program.change_header f p) s log t once =
      run_tracked-AtMostOnce h r p (writer.change_header f s) log t once
  run_tracked-AtMostOnce h r (Program.write b k) s log t once =
      let (s', t', n, e) = Writer.write writer (options h) b s t in
      run_tracked-AtMostOnce h r (k n e) s' log t'
        (rw (gather_headers-span (options h) (writer.header s) t) once)
  run_tracked-AtMostOnce h r (Program.write_header status p) s log t once =
      let (s', t') = Writer.write_header writer (options h) status s t in
      run_tracked-AtMostOnce h r p s' log t'
        (rw (gather_headers-span (options h) (writer.header s) t) once)
  run_tracked-AtMostOnce h r (Program.flush p) s log t once =
      run_tracked-AtMostOnce h r p (Writer.flush writer (options h) s) log t once
  run_tracked-AtMostOnce h r (Program.hijack k) s log t once =
      let (s', t', conn, e) = Writer.hijack writer (options h) s t in
      let (log', t'') = close_tracking writer now w h r (now s') log t' in
      run_tracked-AtMostOnce h r (k conn e) s' log' t''
        (close_tracking-AtMostOnce h r (now s') log t' once)
  run_tracked-AtMostOnce h r (Program.set_endpoint_pattern pattern p) s log t once =
      run_tracked-AtMostOnce h r p s log (record t { endpoint_pattern = pattern }) once
  run_tracked-AtMostOnce h r (Program.set_static_attributes metrics traces p) s log t once =
      run_tracked-AtMostOnce h r p s log
        (record t { metrics_static_attrs = metrics; traces_static_attrs = traces }) once

  AtMostOnce-ends : (sp : Option Span) (log : List Call) → AtMostOnce sp log → ends log ≤ 1
  AtMostOnce-ends sp log (inl zero) = omega arith
  AtMostOnce-ends sp log (inr (span, xs, ys, eq, same, one)) = omega arith

  served-ends :
      (h : TrackingHandler) (r : HttpRequest) (p : Program) (s : S) (log : List Call) (t : Tracking)
      → ends log ≡ 0
      → (ends (watched writer now w h r p s log t).1 ≤ 1)
        × (ends (unwatched writer now w h r p s log t).1 ≤ 1)
  served-ends h r p s log t zero =
      let (s', log', t') = run_tracked writer now w h r p s log t in
      let time = now (run_bare writer p s) in
      (
        AtMostOnce-ends t'.span _ (
            close_tracking-AtMostOnce h r (now s') log' t'
              (run_tracked-AtMostOnce h r p s log t (inl zero))),
        AtMostOnce-ends t.span _ (close_tracking-AtMostOnce h r time log t (inl zero)),
      )

  -- If a span that has been ended is not recording, the tracking handler does not panic and ends at
  -- most one span for a request, however often the wrapped handler takes the connection over.
  pub serve_http-ends :
      (h : TrackingHandler) (next : HttpRequest → Program) (r : HttpRequest) (s : S)
      → (end : S) × (calls : List Call) × (serve_http writer now w h next r s
          ≡ returned (end, calls))
        × (ends calls ≤ 1)
  unfolding serve_http
  serve_http-ends h next r s =
      let t = tracked_request writer now w h r in
      let (c, t', log, eq, (zero, _)) =
        start_returns writer now w h.traces (record r { ctx = t.ctx }) (begin (now s) t) in
      let r' : HttpRequest = record r { ctx = c } in
      let (le, le') = served-ends h r' (next r') s log t' zero in
      elim (Bool-cases (skipped h.config r.url)) [
        | inl skip ↦ (run_bare writer (next r) s, [], rw skip, omega arith)
        | inr follow ↦
            let (end, calls, same, few) =
              either_ends (is_some h.metrics || is_some h.traces)
                (watched writer now w h r' (next r') s log t')
                (unwatched writer now w h r' (next r') s log t') le le' in
            (end, calls, rw (follow, eq) same, few)
      ]
