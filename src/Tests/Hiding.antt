-- ===== src/Tests/Hiding.antt =====
-- http/server: a request with a header that the span leaves out.
use krakend_otel.Prelude.{
  ℕ, true, ◌≡◌, refl, none, some, List, [], ◌∷◌, All, canonical_header_key, all_token, has_prefix,
  returned,
}
use krakend_otel.Telemetry.{Call, Headers, Otel, provided_tracer, attr, str}
use krakend_otel.Config.Options.{GlobalOpts, zero_global_opts, append_static}
use krakend_otel.State.Config.{StateConfig, global_opts}
use krakend_otel.Http.Attributes.{HttpRequest}
use krakend_otel.Lura.Tracer.{skip_set}
use krakend_otel.Lura.Tracer.Omits.{Canonical, Hidden, is_plain-Unnamed}
use krakend_otel.Http.Server.Metrics.{new_metrics_http}
use krakend_otel.Http.Server.Traces.{new_traces_http}
use krakend_otel.Http.Server.Handler.{TrackingHandler, Propagator, serve_http}
use krakend_otel.Http.Server.New.{new_tracking_handler}
use krakend_otel.Http.Server.New.Hides.{UnnamedBy, new_tracking_handler-Hidden}
use krakend_otel.Tests.Served.{connection, tracing, plain_config, request, upgrading}

abbrev options : GlobalOpts
options = record zero_global_opts {
  report_headers = true;
  skip_headers = "set-COOKIE" ∷ "cookie" ∷ [];
  traces_static_attributes = record { key = "team"; value = "shop" } ∷ [];
}

abbrev config : StateConfig
config = record {
  cfg_data = record plain_config {
    layers = some (record { global = some options; pipe = none; backend = none });
  };
}

abbrev otel : Otel
otel = record { meter = some (λ i. true); tracer = some provided_tracer }

abbrev propagator : Propagator
propagator hs ctx = none

abbrev skipping : TrackingHandler
skipping = record {
  prop = some propagator;
  metrics = some (new_metrics_http [] "");
  traces = some (
      new_traces_http (some provided_tracer)
        (attr "krakend.stage" (str "global") ∷ attr "team" (str "shop") ∷ []) true
        (skip_set ("set-COOKIE" ∷ "cookie" ∷ [])) []);
  report_headers = true;
  skip_headers = skip_set ("set-COOKIE" ∷ "cookie" ∷ []);
  config = config;
}

abbrev sent : Headers
sent = ("Accept", "*/*" ∷ []) ∷ ("Cookie", "session=1" ∷ []) ∷ []

abbrev with_cookie : HttpRequest
with_cookie = record request { header = sent }

sent-Canonical : Canonical sent
unfolding canonical_header_key
sent-Canonical = (refl, (refl, tt))

connection-Canonical : (s : ℕ) → Canonical (connection.header s)
unfolding canonical_header_key
connection-Canonical s = (refl, tt)

team : UnnamedBy "cookie" options.traces_static_attributes
unfolding has_prefix
team = is_plain-Unnamed "cookie" (attr "team" (str "shop") ∷ []) refl

new_tracking_handler-Hidden_example :
    (end : ℕ) × (calls : List Call) × (serve_http connection
        (λ s. s)
        tracing
        skipping
        upgrading
        with_cookie
        100
      ≡ returned (end, calls))
    × All (Hidden "cookie") calls
unfolding all_token global_opts new_tracking_handler append_static
new_tracking_handler-Hidden_example =
    new_tracking_handler-Hidden connection (λ s. s) tracing config options (some (otel, propagator))
      [] skipping "cookie" upgrading with_cookie 100 refl refl refl refl team (λ r conn e. tt)
      connection-Canonical sent-Canonical
