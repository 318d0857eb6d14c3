-- ===== src/Http/Client/Metrics.antt =====
-- http/client/transport_metrics.go: the metrics of a round trip.
use krakend_otel.Prelude.{
  ℕ, String, Bool, true, false, ◌||◌, Option, none, some, List, [], if◌then◌else◌, str_eq,
}
use krakend_otel.Telemetry.{
  Attribute, Instrument, Kind, int64_counter, int64_histogram, float64_histogram,
}
use krakend_otel.Config.Buckets.{time_buckets, size_buckets}

pub record TransportMetricsOptions : Type 0 where
  pub round_trip : Bool
  pub read_payload : Bool
  pub detailed_connection : Bool
  pub fixed_attributes : List Attribute
  pub sem_conv : String

-- `Enabled`
unfoldable pub metrics_enabled : TransportMetricsOptions → Bool
metrics_enabled o = o.round_trip || o.read_payload

pub record TransportMetrics : Type 0 where
  pub requests_started : Instrument
  pub requests_failed : Instrument
  pub requests_canceled : Instrument
  pub requests_timed_out : Instrument
  pub request_content_length : Instrument
  pub request_content_length_hist : Instrument
  pub response_latency : Instrument
  pub response_content_length : Instrument
  pub response_no_content_length : Instrument
  pub details_enabled : Bool
  pub get_conn_latency : Instrument
  pub dns_latency : Instrument
  pub tls_latency : Instrument
  pub client_name : String

-- An instrument of the meter, and one of the no-op meter. The error of the creation is dropped.
abbrev meter_instrument : Kind → String → Option String → List ℕ → Instrument
meter_instrument kind name unit buckets = record {
  kind = kind;
  name = name;
  unit = unit;
  buckets = buckets;
  noop = false;
}

abbrev noop_instrument : Kind → String → Instrument
noop_instrument kind name = record {
  kind = kind;
  name = name;
  unit = none;
  buckets = [];
  noop = true;
}

-- `noSemConvMetricsFiller`
unfoldable pub no_sem_conv_metrics_filler : TransportMetricsOptions → String → TransportMetrics
no_sem_conv_metrics_filler opts client_name = record {
  requests_started = meter_instrument int64_counter "http.client.request.started.count" none [];
  requests_failed = meter_instrument int64_counter "http.client.request.failed.count" none [];
  requests_canceled = meter_instrument int64_counter "http.client.request.canceled.count" none [];
  requests_timed_out = meter_instrument int64_counter "http.client.request.timedout.count" none [];
  request_content_length = meter_instrument int64_counter "http.client.request.size" none [];
  request_content_length_hist = noop_instrument int64_histogram "http.client.request.body.size";
  response_latency = meter_instrument float64_histogram "http.client.duration" none time_buckets;
  response_content_length =
      meter_instrument int64_histogram "http.client.response.size" none size_buckets;
  response_no_content_length =
      meter_instrument int64_counter "http.client.response.no-content-length" none [];
  details_enabled = opts.detailed_connection;
  get_conn_latency =
      meter_instrument float64_histogram "http.client.request.get-conn.duration" none time_buckets;
  dns_latency =
      meter_instrument float64_histogram "http.client.request.dns.duration" none time_buckets;
  tls_latency =
      meter_instrument float64_histogram "http.client.request.tls.duration" none time_buckets;
  client_name = client_name;
}

-- An instrument that is made by the meter only if the detailed connection is reported.
abbrev detail_instrument : Bool → Kind → String → Option String → List ℕ → Instrument
detail_instrument true kind name unit buckets = meter_instrument kind name unit buckets
detail_instrument false kind name unit buckets = noop_instrument kind name

-- `semConv1_27MetricsFiller`
unfoldable pub sem_conv1_27_metrics_filler : TransportMetricsOptions → String → TransportMetrics
sem_conv1_27_metrics_filler opts client_name =
    let d = opts.detailed_connection in
    record {
      requests_started =
          detail_instrument d int64_counter "http.client.request.started.count" none [];
      requests_failed =
          detail_instrument d int64_counter "http.client.request.failed.count" none [];
      requests_canceled =
          detail_instrument d int64_counter "http.client.request.canceled.count" none [];
      requests_timed_out =
          detail_instrument d int64_counter "http.client.request.timedout.count" none [];
      request_content_length = noop_instrument int64_counter "http.client.request.size";
      request_content_length_hist =
          meter_instrument int64_histogram "http.client.request.body.size" (some "By") size_buckets;
      response_latency =
          meter_instrument float64_histogram "http.client.request.duration" (some "s") time_buckets;
      response_content_length =
          meter_instrument int64_histogram "http.client.response.body.size" (some "By")
            size_buckets;
      response_no_content_length =
          detail_instrument d int64_counter "http.client.response.no-content-length" (some "By") [];
      details_enabled = d;
      get_conn_latency =
          detail_instrument d float64_histogram "http.client.request.get-conn.duration" (some "s")
            time_buckets;
      dns_latency =
          detail_instrument d float64_histogram "http.client.request.dns.duration" (some "s")
            time_buckets;
      tls_latency =
          detail_instrument d float64_histogram "http.client.request.tls.duration" (some "s")
            time_buckets;
      client_name = client_name;
    }

-- `newTransportMetrics`: nil without a meter
unfoldable pub new_transport_metrics :
    TransportMetricsOptions → Bool → String → Option TransportMetrics
new_transport_metrics opts false client_name = none
new_transport_metrics opts true client_name = some (
    if str_eq opts.sem_conv "1.27"
    then sem_conv1_27_metrics_filler opts client_name
    else no_sem_conv_metrics_filler opts client_name)
