-- ===== src/Registration/Register.antt =====
-- otel.go: `Register` and what it sets globally. The version of KrakenD is an argument.
pub mod Settles
use krakend_otel.Prelude.{
  ℕ, ℤ, String, Bool, true, false, Option, none, some, List, [], ◌∷◌, ◌++◌, Map, str_eq, concat,
  if◌then◌else◌, Result, done, failed, Outcome, returned, panicked,
}
use krakend_otel.Telemetry.{Err, text, Panic, nil_dereference}
use krakend_otel.Config.Exporters.{DuplicateName}
use krakend_otel.Config.Data.{ConfigData, validate_config}
use krakend_otel.Config.Lura.{ConfigError, no_config, codec_error, ServiceConfig, from_lura}
use krakend_otel.State.Config.{StateConfig, new_config}
use krakend_otel.Exporter.Otlp as Otlp
use krakend_otel.Exporter.Prometheus.{Server}
use krakend_otel.Registration.Exporters.{
  MetricReader, SpanExporter, CreationError, Libraries, instances, metric_default_reporting,
  Started,
}
use krakend_otel.Registration.Globals.{
  Globals, set_global_exporter_instances, set_global_state, set_global_config,
}
use krakend_otel.Registration.Providers.{
  OtelState, OtelStateConfig, NotFound, new_with_version_and_env,
}

pub data RegisterError : Type 0 where
  config_error : ConfigError → RegisterError
  duplicate_name : DuplicateName → RegisterError
  creation_error : CreationError → RegisterError
  not_found : NotFound → RegisterError

-- The globals afterwards, the state that the answered function shuts down, and the error.
abbrev pub Registered : Type 0
Registered = Globals × Option OtelState × Option RegisterError

-- What the handler of the API's errors, which the registration sets, logs of one.
abbrev pub error_line : Err → String
error_line e = concat "[SERVICE: OpenTelemetry] " (text e)

-- The servers of the Prometheus exporters listen from when they are made.
abbrev with_servers : List Server → Globals → Globals
with_servers servers g = record g { servers = g.servers ++ servers }

-- The names whose exporter reports by default.
unfoldable pub reporting_names : {A : Type 0} → (A → Bool) → Map A → List String
reporting_names reports [] = []
reporting_names reports (entry ∷ m) =
    let rest = reporting_names reports m in if reports entry.1 then entry.0 ∷ rest else rest

abbrev pub state_config : Map MetricReader → Map SpanExporter → ℤ → ℤ → OtelStateConfig
state_config me te period rate = record {
  metric_providers = reporting_names metric_default_reporting me;
  trace_providers = reporting_names Otlp.trace_default_reporting te;
  metric_reporting_period = period;
  trace_sample_rate = rate;
}

abbrev set_state : Globals → Result NotFound OtelState → Registered
set_state g (failed e) = (g, none, some (not_found e))
set_state g (done s) = (set_global_state (some s) g, some s, none)

-- `RegisterGlobalInstanceWithEnv`
unfoldable pub register_global_instance :
    String
    → Globals
    → Map MetricReader
    → Map SpanExporter
    → ℤ
    → ℤ
    → String
    → String
    → String
    → Registered
register_global_instance krakend_version g me te period rate service_name service_version env =
    set_state g (
      new_with_version_and_env service_name (state_config me te period rate)
        (if str_eq service_version "" then krakend_version else service_version) env me te)

-- `RegisterGlobalInstance`
abbrev pub register_global_instance_without_env :
    String → Globals → Map MetricReader → Map SpanExporter → ℤ → ℤ → String → String → Registered
register_global_instance_without_env krakend_version g me te period rate service_name version =
    register_global_instance krakend_version g me te period rate service_name version ""

-- `if err == nil { state.SetGlobalConfig(state.NewConfig(cfg)) }`
abbrev set_config : ConfigData → Registered → Registered
set_config cfg (g, shutdown, some e) = (g, shutdown, some e)
set_config cfg (g, shutdown, none) = (set_global_config (some (new_config cfg)) g, shutdown, none)

-- The pointers to the period and the rate are followed.
abbrev with_pointers : Option ℤ → Option ℤ → (ℤ → ℤ → Registered) → Outcome Panic Registered
with_pointers none rate f = panicked nil_dereference
with_pointers (some period) none f = panicked nil_dereference
with_pointers (some period) (some rate) f = returned (f period rate)

abbrev with_instances :
    String
    → ConfigData
    → Globals
    → Started (Map MetricReader × Map SpanExporter)
    → Outcome Panic Registered
with_instances krakend_version cfg g (servers, failed e) =
    returned (with_servers servers g, none, some (creation_error e))
with_instances krakend_version cfg g (servers, done (me, te)) =
    let g' = set_global_exporter_instances me te (with_servers servers g) in
    with_pointers cfg.metric_reporting_period cfg.trace_sample_rate (λ period rate. set_config cfg (
      register_global_instance krakend_version g' me te period rate cfg.service_name
        cfg.service_version cfg.deploy_env))

abbrev pub if_valid :
    Globals → Option DuplicateName → Outcome Panic Registered → Outcome Panic Registered
if_valid g (some d) rest = returned (g, none, some (duplicate_name d))
if_valid g none rest = rest

-- `RegisterWithConfig`
unfoldable pub register_with_config :
    Libraries → String → ConfigData → Globals → Outcome Panic Registered
register_with_config libs krakend_version cfg g =
    if_valid g (validate_config cfg)
      (with_instances krakend_version cfg g (instances libs cfg.exporters))

abbrev with_config :
    Libraries → String → Globals → Result ConfigError ConfigData → Outcome Panic Registered
with_config libs krakend_version g (failed no_config) = returned (g, none, none)
with_config libs krakend_version g (failed (codec_error e)) =
    returned (g, none, some (config_error (codec_error e)))
with_config libs krakend_version g (done cfg) = register_with_config libs krakend_version cfg g

-- `Register`
unfoldable pub register :
    {J : Type 0}
    → Libraries
    → String
    → (J → Result Err ConfigData)
    → ServiceConfig J
    → Globals
    → Outcome Panic Registered
register libs krakend_version decode srv_cfg g =
    with_config libs krakend_version g (from_lura decode srv_cfg)
