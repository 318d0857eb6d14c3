-- ===== src/Http/Server/Handler/Hides.antt =====
-- http/server/server.go: the headers that the span of a request leaves out.
use krakend_otel.Prelude.{
  ℕ, String, true, ◌≡◌, refl, Option, none, some, is_some, List, [], ◌∷◌, ◌||◌, contains, all_token,
  All, All-append, Bool-cases, Option-cases, inl, inr, returned, subst, sym,
}
use krakend_otel.Telemetry.{Err, Headers, Call}
use krakend_otel.Http.Attributes.{HttpRequest}
use krakend_otel.Lura.Tracer.{kept}
use krakend_otel.Lura.Tracer.Omits.{Canonical, Hidden, Unnamed}
use krakend_otel.Http.Server.Tracking.{Tracking, begin, stop}
use krakend_otel.Http.Server.Metrics.{MetricsHttp, report}
use krakend_otel.Http.Server.Traces.{ServerTracing, finish}
use krakend_otel.Http.Server.Traces.Hides.{
  Skips, gathered, Hides, Opened, start-Opened, finish-Hidden,
}
use krakend_otel.Http.Server.Writer.{ResponseWriter, HeaderOptions, gather_headers, kept_headers}
use krakend_otel.Http.Server.Writer as Writer
use krakend_otel.Http.Server.Program.{Program, run_bare}
use krakend_otel.Http.Server.Handler.Transparent.{start_returns}
use krakend_otel.Http.Server.Handler.{
  TrackingHandler, options, close_tracking, run_tracked, watched, unwatched, serve_http,
  tracked_request, skipped, Propagator,
}

-- A program that sets no static attribute of the keys.
abbrev pub SetsUnnamed : String → Program → Type 0
SetsUnnamed k Program.finished = Unit
SetsUnnamed k (Program.change_header f p) = SetsUnnamed k p
SetsUnnamed k (Program.write b next) = (n : ℕ) (e : Option Err) → SetsUnnamed k (next n e)
SetsUnnamed k (Program.write_header status p) = SetsUnnamed k p
SetsUnnamed k (Program.flush p) = SetsUnnamed k p
SetsUnnamed k (Program.hijack next) =
    (conn : Option ℕ) (e : Option Err) → SetsUnnamed k (next conn e)
SetsUnnamed k (Program.set_endpoint_pattern pattern p) = SetsUnnamed k p
SetsUnnamed k (Program.set_static_attributes metrics traces p) = Unnamed k traces × SetsUnnamed k p

kept_headers-Canonical :
    (skip : Option (List String)) (hs : Headers) → Canonical hs → Canonical (kept_headers skip hs)
kept_headers-Canonical skip [] c = tt
kept_headers-Canonical skip ((hk, hv) ∷ hs) (c, cs) = elim (Bool-cases (kept skip hk)) [
  | inl p ↦ rw p (c, kept_headers-Canonical skip hs cs)
  | inr p ↦ rw p (kept_headers-Canonical skip hs cs)
]

-- What is gathered of the response's headers, and the static attributes, which stay as they are.
gather_headers-Canonical :
    (o : HeaderOptions) (hs : Headers) (t : Tracking)
    → Canonical hs
    → Canonical (gathered t.response_headers)
    → Canonical (gathered (gather_headers o hs t).response_headers)
      × ((gather_headers o hs t).traces_static_attrs ≡ t.traces_static_attrs)
unfolding gather_headers
gather_headers-Canonical o hs t c g = elim (Bool-cases o.record_headers) [
  | inr off ↦ rw off (g, refl)
  | inl on ↦ elim (Bool-cases (is_some t.response_headers)) [
    | inl before ↦ rw (on, before) (g, refl)
    | inr first ↦ rw (on, first) (kept_headers-Canonical o.skip_headers hs c, refl)
  ]
]

report-Hidden :
    (k : String) (m : Option MetricsHttp) (t : Tracking) (r : HttpRequest)
    → All (Hidden k) (report m t r)
unfolding report
report-Hidden k none t r = tt
report-Hidden k (some m) t r = ((tt, tt), ((tt, tt), tt))

module _ {S : Type 0} (writer : ResponseWriter S) (now : S → ℕ) (w : ServerTracing) (k : String)
    (ks : List String) (named : contains k ks ≡ true) (token : all_token k ≡ true)
    (canonical : (s : S) → Canonical (writer.header s)) where
  close_tracking-Hides :
      (h : TrackingHandler) (r : HttpRequest) (time : ℕ) (log : List Call) (t : Tracking)
      → Skips k ks h.traces
      → Hides k t log
      → let (log', t') = close_tracking writer now w h r time log t in Hides k t' log'
  unfolding close_tracking
  close_tracking-Hides h r time log t skips (hidden, static, gathers) =
      let t' = stop time t in
      let ended = finish w h.traces t' log in
      (
        All-append (Hidden k) log _ hidden (
            All-append (Hidden k) ended _
              (finish-Hidden k ks named token w h.traces t' log skips static gathers)
              (report-Hidden k h.metrics t' r)),
        static,
        gathers,
      )

  run_tracked-Hides :
      (h : TrackingHandler) (r : HttpRequest) (p : Program) (s : S) (log : List Call) (t : Tracking)
      → Skips k ks h.traces
      → SetsUnnamed k p
      → Hides k t log
      → let (s', log', t') = run_tracked writer now w h r p s log t in Hides k t' log'
  unfolding run_tracked Writer.write Writer.write_header Writer.flush Writer.hijack
  run_tracked-Hides h r Program.finished s log t skips sets hides = hides
  run_tracked-Hides h r (Program.change_header f p) s log t skips sets hides =
      run_tracked-Hides h r p (writer.change_header f s) log t skips sets hides
  run_tracked-Hides h r (Program.write b next) s log t skips sets (hidden, static, gathers) =
      let (s', t', n, e) = Writer.write writer (options h) b s t in
      let (gathers', same) =
        gather_headers-Canonical (options h) (writer.header s) t (canonical s) gathers in
      run_tracked-Hides h r (next n e) s' log t' skips (sets n e)
        (hidden, subst (Unnamed k) (sym same) static, gathers')
  run_tracked-Hides h r (Program.write_header status p) s log t skips sets
        (hidden, static, gathers) =
      let (s', t') = Writer.write_header writer (options h) status s t in
      let (gathers', same) =
        gather_headers-Canonical (options h) (writer.header s) t (canonical s) gathers in
      run_tracked-Hides h r p s' log t' skips sets
        (hidden, subst (Unnamed k) (sym same) static, gathers')
  run_tracked-Hides h r (Program.flush p) s log t skips sets hides =
      run_tracked-Hides h r p (Writer.flush writer (options h) s) log t skips sets hides
  run_tracked-Hides h r (Program.hijack next) s log t skips sets hides =
      let (s', t', conn, e) = Writer.hijack writer (options h) s t in
      let (log', t'') = close_tracking writer now w h r (now s') log t' in
      run_tracked-Hides h r (next conn e) s' log' t'' skips (sets conn e)
        (close_tracking-Hides h r (now s') log t' skips hides)
  run_tracked-Hides h r (Program.set_endpoint_pattern pattern p) s log t skips sets hides =
      run_tracked-Hides h r p s log (record t { endpoint_pattern = pattern }) skips sets hides
  run_tracked-Hides h r (Program.set_static_attributes metrics traces p) s log t skips
        (unnamed, sets) (hidden, static, gathers) =
      run_tracked-Hides h r p s log
        (record t { metrics_static_attrs = metrics; traces_static_attrs = traces }) skips sets
        (hidden, unnamed, gathers)

  unwatched-Hidden :
      (h : TrackingHandler) (r : HttpRequest) (p : Program) (s : S) (log : List Call) (t : Tracking)
      → Skips k ks h.traces
      → Hides k t log
      → All (Hidden k) (unwatched writer now w h r p s log t).1
  unwatched-Hidden h r p s log t skips hides =
      (close_tracking-Hides h r (now (run_bare writer p s)) log t skips hides).0

  watched-Hidden :
      (h : TrackingHandler) (r : HttpRequest) (p : Program) (s : S) (log : List Call) (t : Tracking)
      → Skips k ks h.traces
      → SetsUnnamed k p
      → Hides k t log
      → All (Hidden k) (watched writer now w h r p s log t).1
  watched-Hidden h r p s log t skips sets hides =
      let (s', log', t') = run_tracked writer now w h r p s log t in
      (close_tracking-Hides h r (now s') log' t' skips
        (run_tracked-Hides h r p s log t skips sets hides)).0

  -- The tracking of a request that has not been started.
  tracked_request-Hides :
      (h : TrackingHandler) (r : HttpRequest) (time : ℕ) (prop : Option Propagator)
      → h.prop ≡ prop
      → Hides k (begin time (tracked_request writer now w h r)) []
  tracked_request-Hides h r time none e = rw e (tt, (tt, tt), tt)
  tracked_request-Hides h r time (some extract) e = elim (Option-cases (extract r.header r.ctx)) [
    | inl same ↦ rw (e, same) (tt, (tt, tt), tt)
    | inr ((ctx, span), found) ↦ rw (e, found) (tt, (tt, tt), tt)
  ]

  pub serve_http-Hidden :
      (h : TrackingHandler) (next : HttpRequest → Program) (r : HttpRequest) (s : S)
      → Skips k ks h.traces
      → ((r' : HttpRequest) → SetsUnnamed k (next r'))
      → Canonical r.header
      → (end : S) × (calls : List Call) × (serve_http writer now w h next r s
          ≡ returned (end, calls))
        × All (Hidden k) calls
  unfolding serve_http
  serve_http-Hidden h next r s skips sets headers_canonical =
      let t = tracked_request writer now w h r in
      let (c, t', log, eq, _) =
        start_returns writer now w h.traces (record r { ctx = t.ctx }) (begin (now s) t) in
      let r' : HttpRequest = record r { ctx = c } in
      let hides : Hides k t' log = subst (Opened k) eq (
        start-Opened k ks named token w h.traces (record r { ctx = t.ctx }) (begin (now s) t) skips
          headers_canonical (tracked_request-Hides h r (now s) h.prop refl)) in
      elim (Bool-cases (skipped h.config r.url)) [
        | inl skip ↦ (run_bare writer (next r) s, [], rw skip, tt)
        | inr follow ↦ elim (Bool-cases (is_some h.metrics || is_some h.traces)) [
          | inl on ↦
              let (end, calls) = watched writer now w h r' (next r') s log t' in
              (
                end,
                calls,
                rw (follow, eq, on),
                watched-Hidden h r' (next r') s log t' skips (sets r') hides,
              )
          | inr off ↦
              let (end, calls) = unwatched writer now w h r' (next r') s log t' in
              (
                end,
                calls,
                rw (follow, eq, off),
                unwatched-Hidden h r' (next r') s log t' skips hides,
              )
        ]
      ]
