-- ===== src/Tests/Exchanges.antt =====
-- http: a forwarded request, and a round trip that is answered with a response.
use krakend_otel.Prelude.{
  ℕ, ◌+◌, ◌-◌, pos, negsuc, true, false, ◌≡◌, ◌≢◌, refl, Option, none, some, List, [], ◌∷◌, length,
  split_comma, trim_space, returned, lookup, eq_iff,
}
use krakend_otel.Telemetry.{
  int, secs, canceled, message, request_ctx, with_span, live, Call, provided_tracer,
}
use krakend_otel.Http.Attributes.{Url, HttpRequest, HttpResponse, client_addr, forwarded_addr}
use krakend_otel.Http.Attributes.Address.{entry, IsLastUntrusted, client_addr_forwarded}
use krakend_otel.Http.Client.Tracking.{RoundTripTracking, new_tracking, Hook}
use krakend_otel.Http.Client.Metrics.{
  TransportMetricsOptions, no_sem_conv_metrics_filler, sem_conv1_27_metrics_filler,
}
use krakend_otel.Http.Client.Report.{request_server_and_port, parse_int32, report_with}
use krakend_otel.Http.Client.Report.Port.{request_server_and_port-port}
use krakend_otel.Http.Client.Report.Counts.{Tally, report_with-Tally}
use krakend_otel.Http.Client.Report.SemConv.{recorded, report_with-recorded}
use krakend_otel.Http.Client.Traces.{TransportTracesOptions, TransportTraces, Tracing}
use krakend_otel.Http.Client.Transport.{Body, raw, Transport, RoundTripper, round_trip}
use krakend_otel.Http.Client.Transport.Transparent.{no_body, round_trip_transparent}

abbrev url : Url
url = record {
  full = "https://example.com:8443/users";
  scheme = "https";
  path = "/users";
  hostname = "example.com";
  port = "8443";
}

abbrev request : HttpRequest
request = record {
  url = some url;
  host = "example.com:8443";
  method = "GET";
  content_length = pos 0;
  header = ("X-Forwarded-For", "1.1.1.1, 2.2.2.2, 10.0.0.1" ∷ []) ∷ [];
  remote_addr = "10.0.0.2:4000";
  ctx = request_ctx 1;
}

named : request.remote_addr ≢ ""
named e = cc ((eq_iff request.remote_addr "").1 e)

client_addr_forwarded_example :
    (j : ℕ) × (client_addr request ("10.0.0.1" ∷ [])
      ≡ entry ("10.0.0.1" ∷ []) (split_comma "1.1.1.1, 2.2.2.2, 10.0.0.1") j)
    × IsLastUntrusted
        ("10.0.0.1" ∷ [])
        (split_comma "1.1.1.1, 2.2.2.2, 10.0.0.1")
        (length (split_comma "1.1.1.1, 2.2.2.2, 10.0.0.1") - 1)
        j
unfolding lookup
client_addr_forwarded_example =
    client_addr_forwarded request "10.0.0.1" [] "1.1.1.1, 2.2.2.2, 10.0.0.1" [] named refl

second_entry : client_addr request ("10.0.0.1" ∷ []) ≡ "2.2.2.2"
unfolding lookup client_addr forwarded_addr split_comma trim_space
second_entry = refl

request_server_and_port-port_example :
    (request_server_and_port request ≡ ("example.com", pos 80))
    × (request_server_and_port (record request { url = some (record url { port = "" }) })
        ≡ ("example.com", pos 0))
unfolding parse_int32
request_server_and_port-port_example = request_server_and_port-port request url refl refl

abbrev metrics_opts : TransportMetricsOptions
metrics_opts = record {
  round_trip = true;
  read_payload = false;
  detailed_connection = true;
  fixed_attributes = [];
  sem_conv = "";
}

abbrev broken : RoundTripTracking Body
broken = record (new_tracking request) { err = some (message "connection reset") }

report_with-Tally_example :
    Tally
      (report_with (no_sem_conv_metrics_filler metrics_opts "shop") broken [] (some canceled))
      1
      0
      1
      0
      1
report_with-Tally_example = report_with-Tally metrics_opts "shop" broken [] (some canceled)

abbrev plain_opts : TransportMetricsOptions
plain_opts = record metrics_opts { detailed_connection = false; sem_conv = "1.27" }

abbrev replied : RoundTripTracking Body
replied = record (new_tracking request) {
  latency = pos 5;
  resp =
      some (record {
        status_code = pos 200;
        content_length = pos 12;
        header = [];
        body = some (raw 9);
      });
}

report_with-recorded_example :
    recorded (report_with (sem_conv1_27_metrics_filler plain_opts "shop") replied [] none)
    ≡ ("http.client.request.body.size", int (pos 0))
      ∷ ("http.client.request.duration", secs (pos 5))
      ∷ ("http.client.response.body.size", int (pos 12))
      ∷ []
report_with-recorded_example = report_with-recorded plain_opts "shop" replied [] refl none

-- The state of the surroundings is the time.
abbrev base : RoundTripper ℕ
base req s = (
  s + 5,
  (
    some (record {
      status_code = pos 200;
      content_length = negsuc 0;
      header = [];
      body = some (raw 9);
    }),
    none,
  ),
  (Hook.get_conn, s + 1) ∷ (Hook.got_conn, s + 2) ∷ [],
)

abbrev tracing : Tracing
tracing = record {
  starts = λ tracer ctx name. (with_span ctx (live 3), live 3);
  recording = λ span. true;
  still_recording = λ span. true;
  injected = λ ctx headers. ("Traceparent", "00-1" ∷ []) ∷ headers;
}

abbrev traces_opts : TransportTracesOptions
traces_opts = record {
  round_trip = true;
  read_payload = true;
  detailed_connection = false;
  fixed_attributes = [];
  report_headers = true;
  skip_headers = [];
}

abbrev traces : TransportTraces
traces = record {
  tracer = provided_tracer;
  span_name = "shop";
  fixed_attrs = [];
  detailed_connection = false;
  report_headers = true;
  skip_headers = none;
}

abbrev transport : Transport
transport = record {
  traces_opts = traces_opts;
  metrics_opts = metrics_opts;
  metrics = some (no_sem_conv_metrics_filler metrics_opts "shop");
  traces = some traces;
  reader_wrapper = λ body ctx. body;
}

answered : {A : Type 0} {o : Option A} {a : A} → o ≡ some a → o ≢ none
answered e n = cc (e, n)

round_trip_transparent_example :
    (resp : Option (HttpResponse Body)) × (calls : List Call) × (round_trip tracing
        (λ s. s)
        (λ ctx s. none)
        base
        transport
        request
        100
      ≡ returned (105, (resp, none), calls))
    × (no_body resp
        ≡ some
            (record { status_code = pos 200; content_length = negsuc 0; header = []; body = none }))
round_trip_transparent_example =
    round_trip_transparent tracing (λ s. s) (λ ctx s. none) base transport request 100 refl
      (λ _. answered refl)
