-- ===== src/Tests/Settings.antt =====
-- config and state: configurations with and without layers, and two exporters.
use krakend_otel.Prelude.{
  List, to_lower, ℕ, zero, suc, lookup, pos, String, true, false, ◌≡◌, refl, ◌↔◌, none, some, [],
  ◌∷◌, ◌++◌, map, or_else, Result, done, failed,
}
use krakend_otel.Telemetry.{Err, message}
use krakend_otel.Config.Options.{LayersOpts, PipeOpts, zero_pipe_opts}
use krakend_otel.Config.Exporters.{
  Exporters, OtlpExporter, PrometheusExporter, validate, prometheus_duplicate,
}
use krakend_otel.Config.Exporters.Names.{Distinct, otlp_name, prometheus_name, validate_iff}
use krakend_otel.Config.Data.{ConfigData, unset_fields_to_defaults, default_metric_opts}
use krakend_otel.Config.Data.Defaults.{IsFilled, unset_fields_to_defaults_lem, from_layers}
use krakend_otel.Config.Lura.{namespace, ServiceConfig, from_lura}
use krakend_otel.Config.Lura.Service.{Read, from_lura_cases}
use krakend_otel.Config.PathPattern.{normalize_url_pattern}
use krakend_otel.Config.PathPattern.Templates.{
  Part, literal, parameter, normalize_url_pattern-written,
}
use krakend_otel.State.Config.{new_config, endpoint_pipe_opts, merged_backend_opts}
use krakend_otel.State.Config.Overrides.{new_config_lem}

abbrev otlp : String → OtlpExporter
otlp name = record {
  name = name;
  host = "localhost";
  port = pos 4317;
  use_http = false;
  disable_metrics = false;
  disable_traces = false;
  custom_metric_reporting_period = 0;
}

abbrev prometheus : String → PrometheusExporter
prometheus name = record {
  name = name;
  port = pos 9090;
  host = "";
  process_metrics = true;
  go_metrics = true;
  disable_metrics = false;
}

abbrev two_exporters : Exporters
two_exporters = record { otlp = otlp "local" ∷ []; prometheus = prometheus "scraped" ∷ [] }

validate_iff_example :
    (validate two_exporters ≡ none)
    ↔ Distinct (map otlp_name two_exporters.otlp ++ map prometheus_name two_exporters.prometheus)
validate_iff_example = validate_iff two_exporters

one_name_twice :
    validate (record { otlp = otlp "a" ∷ otlp "b" ∷ []; prometheus = prometheus "b" ∷ [] })
    ≡ some (prometheus_duplicate "b" 0)
unfolding validate
one_name_twice = refl

abbrev quiet_pipe : PipeOpts
quiet_pipe = record zero_pipe_opts { disable_traces = true; skip_headers = "Cookie" ∷ [] }

abbrev piped : LayersOpts
piped = record { global = none; pipe = some quiet_pipe; backend = none }

abbrev metrics_only : LayersOpts
metrics_only = record {
  global = none;
  pipe = none;
  backend = some (record { metrics = some default_metric_opts; traces = none });
}

abbrev small_config : ConfigData
small_config = record {
  service_name = "";
  service_version = "1.0";
  deploy_env = "test";
  layers = some piped;
  exporters = two_exporters;
  skip_paths = [];
  metric_reporting_period = none;
  trace_sample_rate = some (pos 0);
}

unset_fields_to_defaults_lem_example :
    IsFilled small_config (unset_fields_to_defaults small_config)
    × (unset_fields_to_defaults (unset_fields_to_defaults small_config)
        ≡ unset_fields_to_defaults small_config)
unset_fields_to_defaults_lem_example = unset_fields_to_defaults_lem small_config

-- The extra configurations of the tests are numbers, which name what they stand for.
abbrev decode_service : ℕ → Result Err ConfigData
decode_service zero = done small_config
decode_service _ = failed (message "invalid character")

abbrev shop : ServiceConfig ℕ
shop = record { name = "shop"; extra_config = (namespace, 0) ∷ [] }

from_lura_cases_example : Read decode_service shop (some 0) (from_lura decode_service shop)
unfolding lookup
from_lura_cases_example = from_lura_cases decode_service shop

abbrev decode_layers : ℕ → Result Err LayersOpts
decode_layers zero = done piped
decode_layers (suc zero) = done metrics_only
decode_layers _ = failed (message "invalid character")

new_config_lem_example :
    (endpoint_pipe_opts decode_layers (some (new_config small_config)) ((namespace, 1) ∷ [])
      ≡ or_else (from_layers (λ l. l.pipe) small_config) zero_pipe_opts)
    × (merged_backend_opts decode_layers (some (new_config small_config)) ((namespace, 1) ∷ [])
        ≡ record { metrics = some default_metric_opts; traces = none })
unfolding lookup
new_config_lem_example = new_config_lem decode_layers small_config ((namespace, 1) ∷ [])

abbrev user_pattern : List Part
user_pattern = literal "/u/" ∷ parameter "Id" ∷ []

normalize_url_pattern-written_example : normalize_url_pattern "/u/{{.Id}}" ≡ "/u/:id"
unfolding to_lower
normalize_url_pattern-written_example =
    normalize_url_pattern-written user_pattern
      ((refl, (refl, (refl, tt))), ((refl, (refl, tt)), tt))
