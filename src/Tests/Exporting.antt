-- ===== src/Tests/Exporting.antt =====
-- exporter/otelcollector: an exporter over HTTP with TLS, with a period of its own.
use krakend_otel.Prelude.{
  ◌≡◌, refl, String, str_eq, has_prefix, pos, none, true, false, [], ◌∷◌, Result, done, failed,
  if◌then◌else◌, Bool-cases, inl, inr, eq_iff, arith, seconds64, to_int64, itoa,
}
use krakend_otel.Telemetry.{Err, eof}
use krakend_otel.Config.Exporters.{OtlpExporter}
use krakend_otel.Exporter.Otlp.{
  Address, OtlpSdk, OtelCollector, trace_http, metric_http, trace_grpc, metric_grpc, with_endpoint,
  new_exporter, exporter_with_options, http_exporter_with_options, destination, options_for,
  reader_interval,
}
use krakend_otel.Exporter.Otlp.Connects.{KeepsScheme, client_for, new_exporter-client_for}
use krakend_otel.Exporter.Otlp.Period.{reader_interval_bounds}

abbrev secure_url : String
secure_url = "https://collector:4318"

-- A parser that knows one URL.
abbrev parse_one : String → Result Err Address
parse_one s =
    if str_eq s secure_url
    then done (record { scheme = "https"; host = "collector:4318" })
    else failed eof

parse_one-KeepsScheme : KeepsScheme parse_one
unfolding has_prefix
parse_one-KeepsScheme s u h = elim (Bool-cases (str_eq s secure_url)) [
  | inl same ↦
      let e : s ≡ secure_url = (eq_iff s secure_url).0 same in
      let scheme : u.scheme ≡ "https" = cc (rw same at h) in rw e (λ k. absurd (cc k), λ k. scheme)
  | inr other ↦ absurd (cc (rw other at h))
]

abbrev sdk : OtlpSdk
sdk = record { new_error = λ lib options. none; parse = parse_one }

abbrev secure : OtlpExporter
secure = record {
  name = "secure";
  host = "https://collector";
  port = pos 4318;
  use_http = true;
  disable_metrics = false;
  disable_traces = false;
  custom_metric_reporting_period = 15;
}

abbrev secure_collector : OtelCollector
secure_collector = record {
  exporter = record { library = trace_http; options = with_endpoint "collector:4318" ∷ [] };
  metric_exporter = record { library = metric_http; options = with_endpoint "collector:4318" ∷ [] };
  metrics_disabled_by_default = false;
  traces_disabled_by_default = false;
  custom_metric_reporting_period = pos 15000000000;
}

secure_made : new_exporter sdk secure ≡ done secure_collector
unfolding new_exporter exporter_with_options http_exporter_with_options destination options_for
    has_prefix seconds64 to_int64 itoa
secure_made = refl

new_exporter-client_for_example :
    (secure_collector.exporter ≡ client_for sdk secure trace_http trace_grpc)
    × (secure_collector.metric_exporter ≡ client_for sdk secure metric_http metric_grpc)
new_exporter-client_for_example =
    new_exporter-client_for sdk secure secure_collector parse_one-KeepsScheme secure_made

reader_interval_bounds_example :
    reader_interval secure_collector (pos 30000000000) ≡ pos 15000000000
reader_interval_bounds_example =
    reader_interval_bounds sdk secure secure_collector (pos 30000000000) (omega arith) secure_made
