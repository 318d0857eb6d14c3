-- ===== src/State/Config/Overrides.antt =====
-- Which options an endpoint or a backend gets.
use krakend_otel.Prelude.{
  ◌≡◌, Option, none, some, Map, Result, done, failed, or_else, arith, lookup,
}
use krakend_otel.Telemetry.{Err}
use krakend_otel.Config.Options.{LayersOpts, zero_pipe_opts}
use krakend_otel.Config.Data.{ConfigData, default_metric_opts, default_trace_opts}
use krakend_otel.Config.Data.Defaults.{from_layers, from_backend}
use krakend_otel.Config.Lura.{namespace}
use krakend_otel.State.Config.{new_config, endpoint_pipe_opts, merged_backend_opts}

-- The layers that an "extra_config" holds, if it holds any that can be decoded.
abbrev pub layers_in : {J : Type 0} → (J → Result Err LayersOpts) → Map J → Option LayersOpts
layers_in decode extra_config = elim (lookup namespace extra_config) [
  | none ↦ none
  | some j ↦ elim (decode j) [ done l ↦ some l | failed e ↦ none ]
]

abbrev pub field_of : {A : Type 0} → (LayersOpts → Option A) → Option LayersOpts → Option A
field_of f none = none
field_of f (some l) = f l

module _ {J : Type 0} (decode : J → Result Err LayersOpts) (c : ConfigData) where
  endpoint_pipe_opts-new_config :
      (extra_config : Map J)
      → endpoint_pipe_opts decode (some (new_config c)) extra_config
        ≡ or_else
            (field_of (λ l. l.pipe) (layers_in decode extra_config))
            (or_else (from_layers (λ l. l.pipe) c) zero_pipe_opts)
  unfolding endpoint_pipe_opts new_config
  endpoint_pipe_opts-new_config extra_config = ground arith

  pub merged_backend_opts-new_config :
      (extra_config : Map J)
      → merged_backend_opts decode (some (new_config c)) extra_config
        ≡ or_else (field_of (λ l. l.backend) (layers_in decode extra_config)) (record {
          metrics = some (or_else (from_backend (λ b. b.metrics) c) default_metric_opts);
          traces = some (or_else (from_backend (λ b. b.traces) c) default_trace_opts);
        })
  unfolding merged_backend_opts new_config
  merged_backend_opts-new_config extra_config = ground arith

  -- The own options of an endpoint or a backend replace the service's as a whole: an override of a
  -- backend that leaves out the metrics or the traces has none. Without them an endpoint gets the
  -- service's proxy options, and only where the service has none the ones with everything enabled;
  -- and a backend gets the service's metrics and traces, each by default with everything enabled.
  pub new_config_lem :
      (extra_config : Map J)
      → (endpoint_pipe_opts decode (some (new_config c)) extra_config
          ≡ or_else
              (field_of (λ l. l.pipe) (layers_in decode extra_config))
              (or_else (from_layers (λ l. l.pipe) c) zero_pipe_opts))
        × (merged_backend_opts decode (some (new_config c)) extra_config
            ≡ or_else (field_of (λ l. l.backend) (layers_in decode extra_config)) (record {
              metrics = some (or_else (from_backend (λ b. b.metrics) c) default_metric_opts);
              traces = some (or_else (from_backend (λ b. b.traces) c) default_trace_opts);
            }))
  new_config_lem extra_config =
      (endpoint_pipe_opts-new_config extra_config, merged_backend_opts-new_config extra_config)
