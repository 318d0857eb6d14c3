-- ===== src/Tests/Running.antt =====
-- The global variables, the server and the shutdown of the registered service.
use krakend_otel.Prelude.{
  ℕ, suc, ◌≡◌, refl, pos, none, some, or_else, Option, [], ◌∷◌, Map, lookup, done, returned, true,
}
use krakend_otel.Config.Options.{zero_global_opts}
use krakend_otel.Config.Data.{ConfigData}
use krakend_otel.Config.Data.Defaults.{from_layers}
use krakend_otel.Config.Lura.{from_lura}
use krakend_otel.State.Config.{new_config}
use krakend_otel.Http.Server.Handler.{TrackingHandler}
use krakend_otel.Registration.Exporters.{MetricReader, metric_reader, on_demand}
use krakend_otel.Registration.Providers.{
  OtelStateConfig, new_with_version_and_env, find_all, reporting_period,
}
use krakend_otel.Registration.State.{Api, shutdown}
use krakend_otel.Registration.State.Flushes.{
  Named, flushed_clients, flushed_readers, shutdown-new_with_version_and_env,
}
use krakend_otel.Lura.RunServer.{Assertions, RunServer, global_run_server}
use krakend_otel.Lura.RunServer.Registered.{Follows, global_run_server-register}
use krakend_otel.Tests.Registered.{
  registered_globals, state, scraped_collector, libraries, service, decode, unset,
  registered_service,
}

abbrev metrics : Map MetricReader
metrics = registered_globals.metrics_instances

abbrev state_cfg : OtelStateConfig
state_cfg = record {
  metric_providers = "scraped" ∷ [];
  trace_providers = "local" ∷ [];
  metric_reporting_period = pos 30;
  trace_sample_rate = pos 500000;
}

made_state :
    new_with_version_and_env "shop" state_cfg "2.9" "test" metrics
      registered_globals.traces_instances
    ≡ done state
unfolding new_with_version_and_env find_all metric_reader lookup
made_state = refl

shutdown-new_with_version_and_env_example :
    Named
      (λ c. c.exporter)
      registered_globals.traces_instances
      ("local" ∷ [])
      (flushed_clients (shutdown (some state)))
    × Named
        (metric_reader (reporting_period state_cfg))
        metrics
        ("scraped" ∷ [])
        (flushed_readers (shutdown (some state)))
shutdown-new_with_version_and_env_example =
    shutdown-new_with_version_and_env "shop" state_cfg "2.9" "test" metrics
      registered_globals.traces_instances state made_state

flushed_scraped :
    flushed_readers (shutdown (some state)) ≡ on_demand scraped_collector.registry ∷ []
unfolding shutdown
flushed_scraped = refl

abbrev api : Api
api = record { meter_of = λ provider instrument. true; text_map_propagator = λ headers ctx. none }

abbrev assertions : Assertions ℕ
assertions = record { as_object = λ j. none; as_strings = λ j. none }

-- A runner that counts its runs.
abbrev runner : RunServer ℕ ℕ
runner cfg h s = (suc s, none)

global_run_server-register_example :
    (global_run_server assertions "router" api runner unset unset service 0 ≡ returned (1, none))
    × ((c : ConfigData) × (h : Option TrackingHandler) × (from_lura decode service ≡ done c)
        × (global_run_server assertions "router" api runner registered_globals registered_globals
              service 0
            ≡ returned (1, none))
        × Follows (new_config c) (or_else (from_layers (λ l. l.global) c) zero_global_opts) h)
global_run_server-register_example =
    global_run_server-register api assertions "router" runner libraries "2.9" decode service unset
      registered_globals state service 0 refl registered_service
