-- ===== src/Http/Server/New/Route.antt =====
-- The route that the metrics and the span of an endpoint's request carry.
use krakend_otel.Prelude.{
  ℕ, ◌≡◌, ◌≢◌, refl, ◌∙◌, false, Option, some, List, [], Result, arith, eq_iff,
}
use krakend_otel.Telemetry.{Err, Call, Headers}
use krakend_otel.Config.Options.{LayersOpts, append_static}
use krakend_otel.Config.Lura.{lura_layer_extra_cfg}
use krakend_otel.Config.PathPattern.{normalize_url_pattern}
use krakend_otel.State.Config.{StateConfig, skip_endpoint}
use krakend_otel.Lura.Factories.{EndpointConfig}
use krakend_otel.Http.Attributes.{HttpRequest}
use krakend_otel.Http.Server.Tracking.{Tracking, endpoint_pattern_of}
use krakend_otel.Http.Server.Traces.{ServerTracing}
use krakend_otel.Http.Server.Writer.{ResponseWriter, HeaderOptions, gather_headers}
use krakend_otel.Http.Server.Writer as Writer
use krakend_otel.Http.Server.Program.{Program}
use krakend_otel.Http.Server.Handler.{TrackingHandler, options, close_tracking, run_tracked}
use krakend_otel.Http.Server.New.{gin_handler, static_of}

-- The program sets no pattern by itself, whatever it is answered.
abbrev pub KeepsPattern : Program → Type 0
KeepsPattern Program.finished = Unit
KeepsPattern (Program.change_header f p) = KeepsPattern p
KeepsPattern (Program.write b k) = (n : ℕ) (e : Option Err) → KeepsPattern (k n e)
KeepsPattern (Program.write_header status p) = KeepsPattern p
KeepsPattern (Program.flush p) = KeepsPattern p
KeepsPattern (Program.hijack k) = (conn : Option ℕ) (e : Option Err) → KeepsPattern (k conn e)
KeepsPattern (Program.set_endpoint_pattern pattern p) = ⊥
KeepsPattern (Program.set_static_attributes metrics traces p) = KeepsPattern p

gather_headers-pattern :
    (o : HeaderOptions) (hs : Headers) (t : Tracking)
    → (gather_headers o hs t).endpoint_pattern ≡ t.endpoint_pattern
unfolding gather_headers
gather_headers-pattern o hs t = ground arith

endpoint_pattern_of-set :
    (t : Tracking) → t.endpoint_pattern ≢ "" → endpoint_pattern_of t ≡ t.endpoint_pattern
unfolding endpoint_pattern_of
endpoint_pattern_of-set t h = ground (arith, eq_iff t.endpoint_pattern "")

module _ {S : Type 0} (writer : ResponseWriter S) (now : S → ℕ) (w : ServerTracing) where
  run_tracked-pattern :
      (h : TrackingHandler) (r : HttpRequest) (p : Program) (s : S) (log : List Call) (t : Tracking)
      → KeepsPattern p
      → (run_tracked writer now w h r p s log t).2.endpoint_pattern ≡ t.endpoint_pattern
  unfolding run_tracked Writer.write Writer.write_header Writer.flush Writer.hijack close_tracking
  run_tracked-pattern h r Program.finished s log t keeps = refl
  run_tracked-pattern h r (Program.change_header f p) s log t keeps =
      run_tracked-pattern h r p (writer.change_header f s) log t keeps
  run_tracked-pattern h r (Program.write b k) s log t keeps =
      let (s', t', n, e) = Writer.write writer (options h) b s t in
      run_tracked-pattern h r (k n e) s' log t' (keeps n e)
      ∙ gather_headers-pattern (options h) (writer.header s) t
  run_tracked-pattern h r (Program.write_header status p) s log t keeps =
      let (s', t') = Writer.write_header writer (options h) status s t in
      run_tracked-pattern h r p s' log t' keeps
      ∙ gather_headers-pattern (options h) (writer.header s) t
  run_tracked-pattern h r (Program.flush p) s log t keeps =
      run_tracked-pattern h r p (Writer.flush writer (options h) s) log t keeps
  run_tracked-pattern h r (Program.hijack k) s log t keeps =
      let (s', t', conn, e) = Writer.hijack writer (options h) s t in
      let (log', t'') = close_tracking writer now w h r (now s') log t' in
      run_tracked-pattern h r (k conn e) s' log' t'' (keeps conn e)
  run_tracked-pattern h r (Program.set_endpoint_pattern pattern p) s log t keeps = absurd keeps
  run_tracked-pattern h r (Program.set_static_attributes metrics traces p) s log t keeps =
      run_tracked-pattern h r p s log
        (record t { metrics_static_attrs = metrics; traces_static_attrs = traces }) keeps

  -- For an endpoint that is not skipped and whose pattern is not empty, under the tracking handler:
  -- when its handler, which sets no pattern by itself, has returned, the route to be reported is the
  -- endpoint's pattern, normalized, whatever was written and even if the connection was taken over.
  pub gin_handler-route :
      {J : Type 0} (decode : J → Result Err LayersOpts) (c : StateConfig) (cfg : EndpointConfig J)
      (next : HttpRequest → Program) (h : TrackingHandler) (r : HttpRequest) (s : S)
      (log : List Call) (t : Tracking)
      → skip_endpoint c cfg.endpoint ≡ false
      → normalize_url_pattern cfg.endpoint ≢ ""
      → KeepsPattern (next r)
      → endpoint_pattern_of
          (run_tracked writer now w h r (gin_handler decode (some c) cfg next r) s log t).2
        ≡ normalize_url_pattern cfg.endpoint
  unfolding gin_handler run_tracked
  gin_handler-route decode c cfg next h r s log t followed named keeps =
      let extra = lura_layer_extra_cfg decode cfg.extra_config in
      let t' : Tracking = record t {
        endpoint_pattern = normalize_url_pattern cfg.endpoint;
        metrics_static_attrs = static_of (λ g. append_static [] g.metrics_static_attributes) extra;
        traces_static_attrs = static_of (λ g. append_static [] g.traces_static_attributes) extra;
      } in
      let same = run_tracked-pattern h r (next r) s log t' keeps in
      rw followed (
        endpoint_pattern_of-set (run_tracked writer now w h r (next r) s log t').2 (rw same named)
        ∙ same)
