-- ===== src/Tests/Served.antt =====
-- http/server: a request that is answered in two writes, and one whose connection is taken over.
use krakend_otel.Prelude.{
  ℕ, ◌+◌, ◌≤◌, pos, Bool, true, false, not, ap, arith, ◌≡◌, ◌≢◌, refl, none, some, List, [], ◌∷◌,
  ◌++◌, Result, failed, returned, eq_iff,
}
use krakend_otel.Telemetry.{
  Err, message, Ctx, request_ctx, with_span, Call, Span, live, on_span, end_span, provided_tracer,
  ends, measured,
}
use krakend_otel.Config.Options.{LayersOpts}
use krakend_otel.Config.Data.{ConfigData}
use krakend_otel.Config.PathPattern.{normalize_url_pattern}
use krakend_otel.State.Config.{new_config, skip_endpoint}
use krakend_otel.Lura.Factories.{EndpointConfig}
use krakend_otel.Http.Attributes.{HttpRequest}
use krakend_otel.Http.Server.Tracking.{new_tracking, endpoint_pattern_of}
use krakend_otel.Http.Server.Metrics.{MetricsHttp, no_sem_conv_metrics}
use krakend_otel.Http.Server.Traces.{TracesHttp, ServerTracing}
use krakend_otel.Http.Server.Writer.{ResponseWriter}
use krakend_otel.Http.Server.Program.{Program, run_bare, hijacks}
use krakend_otel.Http.Server.Handler.{TrackingHandler, serve_http, run_tracked}
use krakend_otel.Http.Server.Handler.Transparent.{serve_http_transparent}
use krakend_otel.Http.Server.Handler.Samples.{reports, serve_http-samples}
use krakend_otel.Http.Server.Handler.Ends.{Stops, serve_http-ends}
use krakend_otel.Http.Server.New.{gin_handler}
use krakend_otel.Http.Server.New.Route.{gin_handler-route}

-- The state of the connection is the number of calls made on it.
abbrev pub connection : ResponseWriter ℕ
connection = record {
  header = λ s. ("Content-Type", "text/plain" ∷ []) ∷ [];
  change_header = λ f s. s;
  write = λ b s. (s + 1, 5, none);
  write_header = λ status s. s + 1;
  flush = none;
  hijack = some (λ s. (s + 1, some 4, none));
}

-- A span records until it has been ended.
unfoldable pub ended_in : List Call → Bool
ended_in [] = false
ended_in (on_span span end_span ∷ calls) = true
ended_in (_ ∷ calls) = ended_in calls

abbrev pub tracing : ServerTracing
tracing = record {
  starts = λ tracer ctx name. (with_span ctx (live 3), live 3);
  recording = λ span log. not (ended_in log);
}

ended_in-end :
    (span : Span) (xs ys : List Call) → ended_in (xs ++ on_span span end_span ∷ ys) ≡ true
unfolding ended_in
ended_in-end span [] ys = refl
ended_in-end span (x ∷ xs) ys = ground (arith, ended_in-end span xs ys)

pub tracing-Stops : Stops tracing
tracing-Stops span xs ys = ap not (ended_in-end span xs ys)

abbrev pub plain_config : ConfigData
plain_config = record {
  service_name = "shop";
  service_version = "";
  deploy_env = "";
  layers = none;
  exporters = record { otlp = []; prometheus = [] };
  skip_paths = [];
  metric_reporting_period = none;
  trace_sample_rate = none;
}

abbrev pub metrics : MetricsHttp
metrics = no_sem_conv_metrics []

abbrev pub traces : TracesHttp
traces = record {
  tracer = some provided_tracer;
  fixed_attrs = [];
  report_headers = true;
  skip_headers = none;
  trusted_proxies = [];
}

abbrev pub handler : TrackingHandler
handler = record {
  prop = none;
  metrics = some metrics;
  traces = some traces;
  report_headers = true;
  skip_headers = none;
  config = new_config plain_config;
}

abbrev pub request : HttpRequest
request = record {
  url = some (record {
    full = "http://localhost/users/3";
    scheme = "";
    path = "/users/3";
    hostname = "localhost";
    port = "";
  });
  host = "localhost";
  method = "get";
  content_length = pos 0;
  header = [];
  remote_addr = "10.0.0.2:4000";
  ctx = request_ctx 1;
}

abbrev pub answering : HttpRequest → Program
answering r =
    Program.write_header (pos 201)
      (Program.write "hello" (λ n e. Program.write "world" (λ n e. Program.finished)))

abbrev pub upgrading : HttpRequest → Program
upgrading r = Program.hijack (λ conn e. Program.finished)

serve_http_transparent_example :
    (c : Ctx) × (calls : List Call) × (serve_http connection
        (λ s. s)
        tracing
        handler
        answering
        request
        100
      ≡ returned (103, calls))
unfolding run_bare
serve_http_transparent_example =
    serve_http_transparent connection (λ s. s) tracing handler answering request 100

serve_http-samples_example :
    (c : Ctx) × (end : ℕ) × (calls : List Call) × (serve_http connection
        (λ s. s)
        tracing
        handler
        upgrading
        request
        100
      ≡ returned (end, calls))
    × (measured calls ≡ reports 2 metrics)
unfolding hijacks skip_endpoint new_config
serve_http-samples_example =
    serve_http-samples connection (λ s. s) tracing handler metrics upgrading request 100 refl refl

serve_http-ends_example :
    (end : ℕ) × (calls : List Call) × (serve_http connection
        (λ s. s)
        tracing
        handler
        upgrading
        request
        100
      ≡ returned (end, calls))
    × (ends calls ≤ 1)
serve_http-ends_example =
    serve_http-ends connection (λ s. s) tracing tracing-Stops handler upgrading request 100

abbrev users : EndpointConfig ℕ
users = record { endpoint = "/users/{{.Id}}"; method = "GET"; extra_config = [] }

abbrev decode : ℕ → Result Err LayersOpts
decode _ = failed (message "invalid character")

named : normalize_url_pattern users.endpoint ≢ ""
unfolding normalize_url_pattern
named e = cc ((eq_iff "/users/:id" "").1 e)

gin_handler-route_example :
    endpoint_pattern_of
      (run_tracked connection
        (λ s. s)
        tracing
        handler
        request
        (gin_handler decode (some (new_config plain_config)) users answering request)
        100
        []
        (new_tracking (request_ctx 1))).2
    ≡ "/users/:id"
unfolding skip_endpoint new_config normalize_url_pattern
gin_handler-route_example =
    gin_handler-route connection (λ s. s) tracing decode (new_config plain_config) users answering
      handler request 100 [] (new_tracking (request_ctx 1)) refl named (λ n e n' e'. tt)
