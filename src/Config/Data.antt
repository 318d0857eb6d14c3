-- ===== src/Config/Data.antt =====
-- config/config.go: the root of the configuration, and its defaults.
pub mod Defaults
use krakend_otel.Prelude.{ℤ, pos, String, true, false, Option, none, some, List, [], ◌∷◌, or_else}
use krakend_otel.Config.Options.{
  LayersOpts, GlobalOpts, PipeOpts, BackendOpts, BackendMetricOpts, BackendTraceOpts,
  zero_global_opts, zero_pipe_opts, zero_backend_opts,
}
use krakend_otel.Config.Exporters.{Exporters, DuplicateName, validate}

-- The sample rate, a `float64`, is a number of millionths: that is how fine a rate the model tells
-- apart.
pub record ConfigData : Type 0 where
  pub service_name : String
  pub service_version : String
  pub deploy_env : String
  pub layers : Option LayersOpts
  pub exporters : Exporters
  pub skip_paths : List String
  pub metric_reporting_period : Option ℤ
  pub trace_sample_rate : Option ℤ

-- `(*ConfigData).Validate`
unfoldable pub validate_config : ConfigData → Option DuplicateName
validate_config c = validate c.exporters

abbrev pub default_metric_opts : BackendMetricOpts
default_metric_opts = record {
  disable_stage = false;
  round_trip = true;
  read_payload = true;
  detailed_connection = true;
  static_attributes = [];
}

abbrev pub default_trace_opts : BackendTraceOpts
default_trace_opts = record {
  disable_stage = false;
  round_trip = true;
  read_payload = true;
  detailed_connection = true;
  static_attributes = [];
  report_headers = false;
  skip_headers = [];
}

abbrev pub default_skip_paths : List String
default_skip_paths = "/__health" ∷ "/__debug/" ∷ "/__echo/" ∷ "/__stats/" ∷ []

abbrev or_default : List String → List String
or_default [] = default_skip_paths
or_default (p ∷ ps) = p ∷ ps

abbrev backend_to_defaults : BackendOpts → BackendOpts
backend_to_defaults b = record {
  metrics = some (or_else b.metrics default_metric_opts);
  traces = some (or_else b.traces default_trace_opts);
}

abbrev layers_to_defaults : LayersOpts → LayersOpts
layers_to_defaults l = record {
  global = some (or_else l.global zero_global_opts);
  pipe = some (or_else l.pipe zero_pipe_opts);
  backend = some (backend_to_defaults (or_else l.backend zero_backend_opts));
}

-- `(*ConfigData).UnsetFieldsToDefaults`
unfoldable pub unset_fields_to_defaults : ConfigData → ConfigData
unset_fields_to_defaults c = record c {
  metric_reporting_period = some (or_else c.metric_reporting_period (pos 30));
  trace_sample_rate = some (or_else c.trace_sample_rate (pos 1000000));
  layers = some (
      layers_to_defaults
        (or_else c.layers (record { global = none; pipe = none; backend = none })));
  skip_paths = or_default c.skip_paths;
}
