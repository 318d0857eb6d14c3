-- ===== src/Http/Server/Metrics.antt =====
-- http/server/metrics.go: the two samples of a request that is served.
pub mod Interleaved
pub mod Shared
use krakend_otel.Prelude.{
  String, false, not, Option, none, some, List, [], ◌∷◌, ◌++◌, to_int64, to_upper, contains, str_eq,
  if◌then◌else◌,
}
use krakend_otel.Telemetry.{
  Attribute, attr, str, int, secs, Instrument, Kind, int64_histogram, float64_histogram, Call,
  measure,
}
use krakend_otel.Config.Buckets.{time_buckets, size_buckets}
use krakend_otel.Http.Attributes.{HttpRequest, Url}
use krakend_otel.Http.Server.Tracking.{Tracking, endpoint_pattern_of}

pub record MetricsHttp : Type 0 where
  pub fixed_attrs : List Attribute
  pub latency : Instrument
  pub size : Instrument

abbrev histogram : Kind → String → Option String → Instrument
histogram kind name unit = record {
  kind = kind;
  name = name;
  unit = unit;
  buckets = elim kind [ float64_histogram ↦ time_buckets | _ ↦ size_buckets ];
  noop = false;
}

-- `noSemConvMetricsFiller`
unfoldable pub no_sem_conv_metrics : List Attribute → MetricsHttp
no_sem_conv_metrics attrs = record {
  fixed_attrs = attrs;
  latency = histogram float64_histogram "http.server.duration" none;
  size = histogram int64_histogram "http.server.response.size" none;
}

-- `semConv1_27MetricsFiller`
unfoldable pub sem_conv1_27_metrics : List Attribute → MetricsHttp
sem_conv1_27_metrics attrs = record {
  fixed_attrs = attrs;
  latency = histogram float64_histogram "http.server.request.duration" (some "s");
  size = histogram int64_histogram "http.server.response.body.size" (some "By");
}

-- `newMetricsHTTP`, for a meter that makes the instruments
unfoldable pub new_metrics_http : List Attribute → String → MetricsHttp
new_metrics_http attrs sem_conv =
    if str_eq sem_conv "1.27" then sem_conv1_27_metrics attrs else no_sem_conv_metrics attrs

abbrev pub valid_methods : List String
valid_methods =
    "_OTHER" ∷ "CONNECT" ∷ "DELETE" ∷ "GET" ∷ "HEAD" ∷ "OPTIONS" ∷ "PATCH" ∷ "POST" ∷ "PUT"
    ∷ "TRACE" ∷ []

-- `validMethod`
unfoldable pub valid_method : HttpRequest → String
valid_method r =
    if not (contains (to_upper r.method) valid_methods) then "_OTHER" else to_upper r.method

abbrev url_scheme : Option Url → String
url_scheme none = "http"
url_scheme (some u) = if not (str_eq u.scheme "") then u.scheme else "http"

-- The attributes of the request.
abbrev pub dynamic_attrs : Tracking → HttpRequest → List Attribute
dynamic_attrs t r =
    attr "http.request.method" (str (valid_method r))
    ∷ attr "url.scheme" (str (url_scheme r.url))
    ∷ attr "http.route" (str (endpoint_pattern_of t))
    ∷ attr "http.response.status_code" (int t.response_status)
    ∷ []

-- The attributes of both samples: those of the configuration, then those of the request.
abbrev pub sample_attrs : MetricsHttp → Tracking → HttpRequest → List Attribute
sample_attrs m t r = m.fixed_attrs ++ (t.metrics_static_attrs ++ dynamic_attrs t r)

-- `report`
unfoldable pub report : Option MetricsHttp → Tracking → HttpRequest → List Call
report none t r = []
report (some m) t r =
    measure m.latency t.ctx (secs t.latency) (sample_attrs m t r)
    ∷ measure m.size t.ctx (int (to_int64 t.response_size)) (sample_attrs m t r)
    ∷ []
