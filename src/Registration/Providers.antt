-- ===== src/Registration/Providers.antt =====
-- state/state.go: the providers of a state, which are what they are made from.
use krakend_otel.Prelude.{
  ℕ, ◌+◌, ℤ, pos, negsuc, seconds64, pattern64, String, not, ◌&&◌, Option, none, some, List, [],
  ◌∷◌, Map, lookup, ltb, str_eq, if◌then◌else◌, Result, done, failed, ◌>>=◌,
}
use krakend_otel.Telemetry.{Attribute, attr, str}
use krakend_otel.Exporter.Otlp.{Client, span_exporter}
use krakend_otel.Registration.Exporters.{MetricReader, SpanExporter, Reader, metric_reader}

-- `OTELStateConfig`; the sample rate in millionths
pub record OtelStateConfig : Type 0 where
  pub metric_providers : List String
  pub trace_providers : List String
  pub metric_reporting_period : ℤ
  pub trace_sample_rate : ℤ

pub data Sampler : Type 0 where
  always_sample : Sampler
  parent_based_ratio : ℤ → Sampler

-- The SDK's meter provider: its readers and its resource.
pub record MeterProvider : Type 0 where
  pub readers : List Reader
  pub resource : List Attribute

pub record TracerProvider : Type 0 where
  pub batchers : List Client
  pub sampler : Sampler
  pub resource : List Attribute

-- `OTELState`: without readers or exporters the no-op provider.
pub record OtelState : Type 0 where
  pub meter_provider : Option MeterProvider
  pub tracer_provider : Option TracerProvider

pub data NotFound : Type 0 where
  no_metric_exporter : String → ℕ → NotFound
  no_span_exporter : String → ℕ → NotFound

abbrev pub found_or :
    {A B : Type 0}
    → NotFound
    → (A → B)
    → Option A
    → Result NotFound (List B)
    → Result NotFound (List B)
found_or e make none rest = failed e
found_or e make (some a) rest = rest >>= (λ made. done (make a ∷ made))

-- The loop over the names of the providers, which makes something of each.
unfoldable pub find_all :
    {A B : Type 0}
    → (String → ℕ → NotFound)
    → (A → B)
    → Map A
    → ℕ
    → List String
    → Result NotFound (List B)
find_all missing make m idx [] = done []
find_all missing make m idx (name ∷ names) =
    found_or (missing name idx) make (lookup name m) (find_all missing make m (idx + 1) names)

abbrev resource_attrs : String → String → String → List Attribute
resource_attrs service_name version env =
    attr "service.name" (str service_name)
    ∷ attr "service.version" (str version)
    ∷ (if not (str_eq env "") then attr "deployment.environment" (str env) ∷ [] else [])

abbrev meter_provider : List Reader → List Attribute → Option MeterProvider
meter_provider [] resource = none
meter_provider (r ∷ rs) resource = some (record { readers = r ∷ rs; resource = resource })

-- `cfg.TraceSampleRate > 0.0 && cfg.TraceSampleRate < 1.0`
abbrev sampler_of : ℤ → Sampler
sampler_of (negsuc n) = always_sample
sampler_of (pos n) = if ltb 0 n && ltb n 1000000 then parent_based_ratio (pos n) else always_sample

abbrev tracer_provider : List Client → ℤ → List Attribute → Option TracerProvider
tracer_provider [] rate resource = none
tracer_provider (e ∷ es) rate resource =
    some (record { batchers = e ∷ es; sampler = sampler_of rate; resource = resource })

abbrev pub state_of :
    String → OtelStateConfig → String → String → List Reader → List Client → OtelState
state_of service_name cfg version env readers clients = record {
  meter_provider = meter_provider readers (resource_attrs service_name version env);
  tracer_provider =
      tracer_provider clients cfg.trace_sample_rate (resource_attrs service_name version env);
}

-- `time.Duration(cfg.MetricReportingPeriod) * time.Second`
abbrev pub reporting_period : OtelStateConfig → ℤ
reporting_period cfg = seconds64 (pattern64 cfg.metric_reporting_period)

-- `NewWithVersionAndEnv`
unfoldable pub new_with_version_and_env :
    String
    → OtelStateConfig
    → String
    → String
    → Map MetricReader
    → Map SpanExporter
    → Result NotFound OtelState
unfolding find_all
new_with_version_and_env service_name cfg version env me te = do
  readers ←
      find_all no_metric_exporter (metric_reader (reporting_period cfg)) me 0 cfg.metric_providers
  clients ← find_all no_span_exporter span_exporter te 0 cfg.trace_providers
  done (state_of service_name cfg version env readers clients)

-- `NewWithVersion`
abbrev pub new_with_version :
    String
    → OtelStateConfig
    → String
    → Map MetricReader
    → Map SpanExporter
    → Result NotFound OtelState
new_with_version service_name cfg version me te =
    new_with_version_and_env service_name cfg version "" me te
