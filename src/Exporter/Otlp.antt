-- ===== src/Exporter/Otlp.antt =====
-- exporter/otelcollector/otelcollector.go: the exporter of metrics and traces over OTLP. The
-- libraries of the clients, and the parser of URLs, are arguments.
pub mod Connects
pub mod Period
use krakend_otel.Prelude.{
  ℕ, ℤ, pos, negsuc, seconds64, String, concat, itoa, has_prefix, Bool, true, false, not, ◌||◌,
  ◌==◌, Option, none, some, List, [], ◌∷◌, ◌++◌, leb, str_eq, if◌then◌else◌, Result, done, failed,
  ◌>>=◌,
}
use krakend_otel.Telemetry.{Err, message, text}
use krakend_otel.Config.Exporters.{OtlpExporter}

-- otlptracehttp, otlpmetrichttp, otlptracegrpc and otlpmetricgrpc
pub data Library : Type 0 where
  trace_http metric_http trace_grpc metric_grpc : Library

pub data ClientOption : Type 0 where
  with_insecure : ClientOption
  with_endpoint : String → ClientOption
  other_option : ℕ → ClientOption

-- A value of `[]interface{}`: the `Option` of one of the libraries, or anything else.
pub data AnyOption : Type 0 where
  option_of : Library → ClientOption → AnyOption
  other_value : ℕ → AnyOption

-- What a library's `New` makes, by its options in their order.
pub record Client : Type 0 where
  pub library : Library
  pub options : List ClientOption

-- `url.URL`, by the fields that are read.
pub record Address : Type 0 where
  pub scheme : String
  pub host : String

-- The error of a library's `New`, if there is one, and `url.Parse`.
pub record OtlpSdk : Type 0 where
  pub new_error : Library → List ClientOption → Option Err
  pub parse : String → Result Err Address

-- `OtelCollector`; the period in nanoseconds
pub record OtelCollector : Type 0 where
  pub exporter : Client
  pub metric_exporter : Client
  pub metrics_disabled_by_default : Bool
  pub traces_disabled_by_default : Bool
  pub custom_metric_reporting_period : ℤ

-- `SpanExporter`
abbrev pub span_exporter : OtelCollector → Client
span_exporter c = c.exporter

-- `d >= time.Second`
abbrev at_least_second : ℤ → Bool
at_least_second (pos n) = leb 1000000000 n
at_least_second (negsuc n) = false

-- The interval of the periodic reader that `MetricReader` answers.
unfoldable pub reader_interval : OtelCollector → ℤ → ℤ
reader_interval c reporting_period =
    if at_least_second c.custom_metric_reporting_period
    then c.custom_metric_reporting_period
    else reporting_period

-- `MetricDefaultReporting` and `TraceDefaultReporting`
abbrev pub metric_default_reporting : OtelCollector → Bool
metric_default_reporting c = not c.metrics_disabled_by_default

abbrev pub trace_default_reporting : OtelCollector → Bool
trace_default_reporting c = not c.traces_disabled_by_default

abbrev same_library : Library → Library → Bool
same_library trace_http trace_http = true
same_library metric_http metric_http = true
same_library trace_grpc trace_grpc = true
same_library metric_grpc metric_grpc = true
same_library _ _ = false

-- `if o, ok := iopt.(Option); ok { opts = append(opts, o) }`, on the options behind it
abbrev asserted : Library → AnyOption → List ClientOption → List ClientOption
asserted lib (option_of l o) rest = if same_library lib l then o ∷ rest else rest
asserted lib (other_value n) rest = rest

-- The loop over the options, for one of the two libraries.
unfoldable pub options_for : Library → List AnyOption → List ClientOption
options_for lib [] = []
options_for lib (o ∷ os) = asserted lib o (options_for lib os)

-- Whether the connection is plain, and where it goes.
pub record Destination : Type 0 where
  pub plain : Bool
  pub endpoint : String

-- `switch u.Scheme`
abbrev destination_of : String → Address → Destination
destination_of endpoint u =
    if str_eq u.scheme "http"
    then record { plain = true; endpoint = u.host }
    else (if str_eq u.scheme "https"
        then record { plain = false; endpoint = u.host }
        else record { plain = false; endpoint = endpoint })

abbrev parsed : String → Result Err Address → Result Err Destination
parsed endpoint r = r >>= (λ u. done (destination_of endpoint u))

-- `strings.HasPrefix(endpoint, "http://") || strings.HasPrefix(endpoint, "https://")`
abbrev pub is_url : String → Bool
is_url endpoint = has_prefix "http://" endpoint || has_prefix "https://" endpoint

unfoldable pub destination : (String → Result Err Address) → String → Result Err Destination
destination parse endpoint =
    if is_url endpoint
    then parsed endpoint (parse endpoint)
    else done (record { plain = true; endpoint = endpoint })

-- `fmt.Sprintf("%s:%d", cfg.Host, cfg.Port)`
abbrev pub host_port : String → ℤ → String
host_port host port = concat host (concat ":" (itoa port))

-- A client's options: the caller's, then whether it is plain and where it goes.
abbrev pub client_options : Library → List AnyOption → Destination → List ClientOption
client_options lib options d =
    options_for lib options
    ++ ((if d.plain then with_insecure ∷ [] else []) ++ (with_endpoint d.endpoint ∷ []))

abbrev created : (Err → Err) → Client → Option Err → Result Err Client
created describe c none = done c
created describe c (some e) = failed (describe e)

-- `if cfg.Port == 0 { cfg.Port = … }`
abbrev pub port_or : ℕ → ℤ → ℤ
port_or default_port (pos n) = if n == 0 then pos default_port else pos n
port_or default_port (negsuc n) = negsuc n

-- The defaults of `ExporterWithOptions`.
abbrev pub with_defaults : OtlpExporter → OtlpExporter
with_defaults cfg = record cfg {
  port = port_or 4317 cfg.port;
  host = if str_eq cfg.host "" then "localhost" else cfg.host;
}

abbrev pub collector_with : OtlpExporter → Client → Client → OtelCollector
collector_with cfg exporter metric_exporter = record {
  exporter = exporter;
  metric_exporter = metric_exporter;
  metrics_disabled_by_default = cfg.disable_metrics;
  traces_disabled_by_default = cfg.disable_traces;
  custom_metric_reporting_period = seconds64 cfg.custom_metric_reporting_period;
}

-- The errors, by that of `New`.
abbrev pub http_trace_error : Err → Err
http_trace_error e = message (concat "cannot create http trace exporter:" (text e))

abbrev pub http_metric_error : Err → Err
http_metric_error e = message (concat "cannot create http metric exporter:" (text e))

abbrev pub grpc_trace_error : Err → Err
grpc_trace_error e = message "cannot create grpc traces exporter"

abbrev pub grpc_metric_error : Err → Err
grpc_metric_error e = message "cannot create grpc metric exporter"

module _ (sdk : OtlpSdk) where
  -- `New(ctx, opts...)`
  abbrev pub new_client : Library → (Err → Err) → List ClientOption → Result Err Client
  new_client lib describe options =
      created describe (record { library = lib; options = options }) (sdk.new_error lib options)

  unfoldable pub http_exporter_with_options :
      OtlpExporter → List AnyOption → Result Err OtelCollector
  http_exporter_with_options cfg options = do
    d ← destination sdk.parse (host_port cfg.host cfg.port)
    exporter ← new_client trace_http http_trace_error (client_options trace_http options d)
    metric_exporter ←
        new_client metric_http http_metric_error (client_options metric_http options d)
    done (collector_with cfg exporter metric_exporter)

  unfoldable pub grpc_exporter_with_options :
      OtlpExporter → List AnyOption → Result Err OtelCollector
  grpc_exporter_with_options cfg options = do
    d ← destination sdk.parse (host_port cfg.host cfg.port)
    exporter ← new_client trace_grpc grpc_trace_error (client_options trace_grpc options d)
    metric_exporter ←
        new_client metric_grpc grpc_metric_error (client_options metric_grpc options d)
    done (collector_with cfg exporter metric_exporter)

  unfoldable pub exporter_with_options : OtlpExporter → List AnyOption → Result Err OtelCollector
  exporter_with_options cfg options =
      if cfg.use_http
      then http_exporter_with_options (with_defaults cfg) options
      else grpc_exporter_with_options (with_defaults cfg) options

  -- `Exporter`
  unfoldable pub new_exporter : OtlpExporter → Result Err OtelCollector
  new_exporter cfg =
      exporter_with_options cfg
        (option_of trace_grpc with_insecure ∷ option_of metric_grpc with_insecure ∷ [])
