-- ===== src/State/Config.antt =====
-- state/config.go: what is configured for an endpoint or a backend. A receiver that may be nil is
-- an `Option`.
pub mod Overrides
use krakend_otel.Prelude.{
  String, Bool, Option, none, some, Map, Result, done, failed, contains, or_else,
}
use krakend_otel.Telemetry.{Err}
use krakend_otel.Config.Options.{
  LayersOpts, GlobalOpts, PipeOpts, BackendOpts, zero_pipe_opts, zero_backend_opts,
}
use krakend_otel.Config.Data.{ConfigData, unset_fields_to_defaults}
use krakend_otel.Config.Lura.{ConfigError, lura_layer_extra_cfg}

-- `StateConfig`
pub record StateConfig : Type 0 where
  pub cfg_data : ConfigData

-- `NewConfig`
unfoldable pub new_config : ConfigData → StateConfig
unfolding unset_fields_to_defaults
new_config c = record { cfg_data = unset_fields_to_defaults c }

-- `s.cfgData.Layers`, nil if `s` is
abbrev layers_of : Option StateConfig → Option LayersOpts
layers_of none = none
layers_of (some s) = s.cfg_data.layers

-- `GlobalOpts`; nil layers, which would panic, do not occur after `new_config`
unfoldable pub global_opts : StateConfig → Option GlobalOpts
global_opts s = elim s.cfg_data.layers [ none ↦ none | some l ↦ l.global ]

module _ {A : Type 0} (field : LayersOpts → Option A) where
  abbrev service_level : Option LayersOpts → Option A
  service_level none = none
  service_level (some l) = field l

  abbrev replaced_by : Option A → Option A → Option A
  replaced_by opts none = opts
  replaced_by opts (some o) = some o

  -- `if err == nil && cfgLayer != nil && cfgLayer.X != nil { opts = cfgLayer.X }`
  abbrev overridden : Option A → Result ConfigError LayersOpts → Option A
  overridden opts (failed e) = opts
  overridden opts (done l) = replaced_by opts (field l)

module _ {J : Type 0} (decode : J → Result Err LayersOpts) where
  -- `EndpointPipeOpts`, for the endpoint's "extra_config"
  unfoldable pub endpoint_pipe_opts : Option StateConfig → Map J → PipeOpts
  unfolding lura_layer_extra_cfg
  endpoint_pipe_opts s extra_config =
      or_else
        (overridden (λ l. l.pipe) (service_level (λ l. l.pipe) (layers_of s))
          (lura_layer_extra_cfg decode extra_config))
        zero_pipe_opts

  -- `mergedBackendOpts`
  unfoldable pub merged_backend_opts : Option StateConfig → Map J → BackendOpts
  unfolding lura_layer_extra_cfg
  merged_backend_opts s extra_config =
      or_else
        (overridden (λ l. l.backend) (service_level (λ l. l.backend) (layers_of s))
          (lura_layer_extra_cfg decode extra_config))
        zero_backend_opts

  -- `EndpointBackendOpts` and `BackendOpts`
  abbrev pub endpoint_backend_opts : Option StateConfig → Map J → BackendOpts
  endpoint_backend_opts s extra_config = merged_backend_opts s extra_config

  abbrev pub backend_opts : Option StateConfig → Map J → BackendOpts
  backend_opts s extra_config = merged_backend_opts s extra_config

-- `SkipEndpoint`
unfoldable pub skip_endpoint : StateConfig → String → Bool
skip_endpoint s endpoint = contains endpoint s.cfg_data.skip_paths
