-- ===== src/Http/Server/Handler/Samples.antt =====
-- How often a request that is served is measured.
use krakend_otel.Prelude.{
  ℕ, ◌+◌, ◌≡◌, refl, true, false, Option, none, some, List, [], ◌∷◌, ◌++◌, arith, ap, ◌∙◌, zero,
  suc, zero-add, add_comm, append-nil, Bool-cases, inl, inr, ◌⊎◌, returned, sym, append_assoc,
  to_int64,
}
use native.Mathlib.Nat.{suc-add}
use krakend_otel.Telemetry.{
  Err, Ctx, Call, Span, Headers, samples, samples-append, ends-append, Sample, of_time, of_number,
  measured, measured-append, measured-none, on_span, end_span, set_attributes, attr, str, int,
}
use krakend_otel.Lura.Tracer.Counts.{Silent, header_calls-Silent}
use krakend_otel.Http.Attributes.{HttpRequest}
use krakend_otel.Http.Server.Tracking.{Tracking, begin, stop, endpoint_pattern_of}
use krakend_otel.Http.Server.Metrics.{MetricsHttp, report}
use krakend_otel.Http.Server.Traces.{
  TracesHttp, ServerTracing, finish, end_with, end_calls, hijack_calls, response_header_calls,
  status_calls,
}
use krakend_otel.Http.Server.Writer.{ResponseWriter}
use krakend_otel.Http.Server.Writer as Writer
use krakend_otel.Http.Server.Program.{Program, hijacks}
use krakend_otel.Http.Server.Handler.{
  TrackingHandler, options, close_tracking, run_tracked, watched, serve_http, tracked_request,
  skipped,
}
use krakend_otel.Http.Server.Handler.Transparent.{start_returns}

Silent-append : (xs ys : List Call) → Silent xs → Silent ys → Silent (xs ++ ys)
Silent-append xs ys h k = omega (arith, ends-append xs ys, samples-append xs ys)

hijack_calls-Silent :
    (w : ServerTracing) (span : Span) (tr : Tracking) → Silent (hijack_calls w span tr)
hijack_calls-Silent w span tr = ground arith

response_header_calls-Silent :
    (w : ServerTracing) (t : TracesHttp) (span : Span) (hs : Option Headers)
    → Silent (response_header_calls w t span hs)
response_header_calls-Silent w t span none = (refl, refl)
response_header_calls-Silent w t span (some hs) =
    header_calls-Silent span "http.response.header." t.skip_headers hs

status_calls-Silent :
    (w : ServerTracing) (span : Span) (es : List Err) → Silent (status_calls w span es)
status_calls-Silent w span [] = (refl, refl)
status_calls-Silent w span (e ∷ es) = (refl, refl)

-- What `end` does ends the span last, and measures nothing.
pub end_calls_once :
    (w : ServerTracing) (t : TracesHttp) (span : Span) (tr : Tracking)
    → (front : List Call) × (end_calls w t span tr ≡ front ++ on_span span end_span ∷ [])
      × Silent front
end_calls_once w t span tr =
    let taken = hijack_calls w span tr in
    let middle : List Call =
      on_span span (
        set_attributes (
          attr "http.route" (str (endpoint_pattern_of tr))
          ∷ attr "http.response.status_code" (int tr.response_status)
          ∷ attr "http.response.body.size" (int (to_int64 tr.response_size))
          ∷ []))
      ∷ on_span span (set_attributes tr.traces_static_attrs)
      ∷ [] in
    let headers = response_header_calls w t span tr.response_headers in
    let status = status_calls w span tr.write_errs in
    let last : List Call = on_span span end_span ∷ [] in
    (
      taken ++ (middle ++ (headers ++ status)),
      ap (λ z. taken ++ (middle ++ z)) (sym (append_assoc headers status last))
          ∙ sym (append_assoc taken (middle ++ (headers ++ status)) last),
      Silent-append taken (middle ++ (headers ++ status)) (hijack_calls-Silent w span tr) (
          Silent-append middle (headers ++ status) (omega arith, omega arith)
            (Silent-append headers status
              (response_header_calls-Silent w t span tr.response_headers)
              (status_calls-Silent w span tr.write_errs))),
    )

-- Either nothing is called, or the span, which was recording, is ended last.
abbrev pub EndsSpan : ServerTracing → Option Span → List Call → List Call → Type 0
EndsSpan w sp log calls =
    (calls ≡ [])
    ⊎ ((span : Span) × (front : List Call) × (calls ≡ front ++ on_span span end_span ∷ [])
        × Silent front
        × (sp ≡ some span)
        × (w.recording span log ≡ true))

end_with-EndsSpan :
    (w : ServerTracing) (t : TracesHttp) (tr : Tracking) (log : List Call) (sp : Option Span)
    → EndsSpan w sp log (end_with w t tr log sp)
end_with-EndsSpan w t tr log none = inl refl
end_with-EndsSpan w t tr log (some span) = elim (Bool-cases (w.recording span log)) [
  | inl on ↦
      let (front, eq, silent) = end_calls_once w t span tr in
      inr (span, front, rw on eq, silent, refl, on)
  | inr off ↦ inl (rw off)
]

pub finish-EndsSpan :
    (w : ServerTracing) (ts : Option TracesHttp) (tr : Tracking) (log : List Call)
    → EndsSpan w tr.span log (finish w ts tr log)
unfolding finish
finish-EndsSpan w none tr log = inl refl
finish-EndsSpan w (some t) tr log = end_with-EndsSpan w t tr log tr.span

finish-samples :
    (w : ServerTracing) (ts : Option TracesHttp) (tr : Tracking) (log : List Call)
    → samples (finish w ts tr log) ≡ 0
finish-samples w ts tr log = elim (finish-EndsSpan w ts tr log) [
  | inl nothing ↦ rw nothing
  | inr (span, front, eq, silent, _, _) ↦
      rw eq (omega (arith, silent, samples-append front (on_span span end_span ∷ [])))
]

-- The samples of so many reports: in each the time on the one instrument, and the size on the other.
abbrev pub reports : ℕ → MetricsHttp → List Sample
reports zero m = []
reports (suc n) m = of_time m.latency ∷ of_number m.size ∷ reports n m

reports-append : (m n : ℕ) (h : MetricsHttp) → reports m h ++ reports n h ≡ reports (m + n) h
reports-append zero n h = rw (zero-add n)
reports-append (suc m) n h =
    rw (suc-add m n) (ap (λ z. of_time h.latency ∷ of_number h.size ∷ z) (reports-append m n h))

module _ {S : Type 0} (writer : ResponseWriter S) (now : S → ℕ) (w : ServerTracing) where
  close_tracking-measured :
      (h : TrackingHandler) {m : MetricsHttp} (r : HttpRequest) (time : ℕ) (log : List Call)
      (t : Tracking)
      → h.metrics ≡ some m
      → measured (close_tracking writer now w h r time log t).0 ≡ measured log ++ reports 1 m
  unfolding close_tracking report
  close_tracking-measured h {m} r time log t metered =
      let t' = stop time t in
      let ended = finish w h.traces t' log in
      rw metered (
        measured-append log (ended ++ report (some m) t' r)
        ∙ ap (λ z. measured log ++ z)
            (measured-append ended (report (some m) t' r)
              ∙ ap (λ z. z ++ reports 1 m)
                  (measured-none ended (finish-samples w h.traces t' log))))

  run_tracked-measured :
      (h : TrackingHandler) {m : MetricsHttp} (r : HttpRequest) (p : Program) (s : S)
      (log : List Call) (t : Tracking)
      → h.metrics ≡ some m
      → measured (run_tracked writer now w h r p s log t).1
        ≡ measured log ++ reports (hijacks writer p s) m
  unfolding run_tracked hijacks Writer.write Writer.write_header Writer.flush Writer.hijack
  run_tracked-measured h r Program.finished s log t metered = sym (append-nil (measured log))
  run_tracked-measured h r (Program.change_header f p) s log t metered =
      run_tracked-measured h r p (writer.change_header f s) log t metered
  run_tracked-measured h r (Program.write b k) s log t metered =
      let (s', t', n, e) = Writer.write writer (options h) b s t in
      run_tracked-measured h r (k n e) s' log t' metered
  run_tracked-measured h r (Program.write_header status p) s log t metered =
      let (s', t') = Writer.write_header writer (options h) status s t in
      run_tracked-measured h r p s' log t' metered
  run_tracked-measured h r (Program.flush p) s log t metered =
      run_tracked-measured h r p (Writer.flush writer (options h) s) log t metered
  run_tracked-measured h {m} r (Program.hijack k) s log t metered =
      let (s', t', conn, e) = Writer.hijack writer (options h) s t in
      let (log', t'') = close_tracking writer now w h r (now s') log t' in
      let rest = hijacks writer (k conn e) s' in
      run_tracked-measured h r (k conn e) s' log' t'' metered
      ∙ (ap (λ z. z ++ reports rest m) (close_tracking-measured h r (now s') log t' metered)
          ∙ (append_assoc (measured log) (reports 1 m) (reports rest m)
              ∙ ap (λ z. measured log ++ z) (reports-append 1 rest m)))
  run_tracked-measured h r (Program.set_endpoint_pattern pattern p) s log t metered =
      run_tracked-measured h r p s log (record t { endpoint_pattern = pattern }) metered
  run_tracked-measured h r (Program.set_static_attributes metrics traces p) s log t metered =
      run_tracked-measured h r p s log
        (record t { metrics_static_attrs = metrics; traces_static_attrs = traces }) metered

  watched-measured :
      (h : TrackingHandler) {m : MetricsHttp} (r : HttpRequest) (p : Program) (s : S)
      (log : List Call) (t : Tracking)
      → h.metrics ≡ some m
      → measured (watched writer now w h r p s log t).1
        ≡ measured log ++ reports (1 + hijacks writer p s) m
  watched-measured h {m} r p s log t metered =
      let (s', log', t') = run_tracked writer now w h r p s log t in
      let taken = hijacks writer p s in
      close_tracking-measured h r (now s') log' t' metered
      ∙ (ap (λ z. z ++ reports 1 m) (run_tracked-measured h r p s log t metered)
          ∙ (append_assoc (measured log) (reports taken m) (reports 1 m)
              ∙ ap (λ z. measured log ++ z)
                  (reports-append taken 1 m ∙ ap (λ n. reports n m) (add_comm taken 1))))

  -- A handler with metrics, on a request that it does not skip, records one time on its instrument
  -- of the latency and one number on its instrument of the size, in this order, when it returns, and
  -- the same two once more for each time that the wrapped handler takes the connection over. It
  -- records nothing else.
  pub serve_http-samples :
      (h : TrackingHandler) (m : MetricsHttp) (next : HttpRequest → Program) (r : HttpRequest)
      (s : S)
      → h.metrics ≡ some m
      → skipped h.config r.url ≡ false
      → (c : Ctx) × (end : S) × (calls : List Call) × (serve_http writer now w h next r s
          ≡ returned (end, calls))
        × (measured calls ≡ reports (1 + hijacks writer (next (record r { ctx = c })) s) m)
  unfolding serve_http
  serve_http-samples h m next r s metered followed =
      let t = tracked_request writer now w h r in
      let (c, t', log, eq, (_, silent)) =
        start_returns writer now w h.traces (record r { ctx = t.ctx }) (begin (now s) t) in
      let r' : HttpRequest = record r { ctx = c } in
      let (end, calls) = watched writer now w h r' (next r') s log t' in
      let taken = hijacks writer (next r') s in
      (
        c,
        end,
        calls,
        rw (followed, eq) (rw metered),
        watched-measured h r' (next r') s log t' metered
            ∙ ap (λ z. z ++ reports (1 + taken) m) (measured-none log silent),
      )
