-- ===== src/Tests/Composing.antt =====
-- The example: a service with the registered configuration, and one without.
use krakend_otel.Prelude.{
  ℕ, suc, pos, true, false, ◌≡◌, refl, Option, none, some, or_else, List, [], ◌∷◌, ◌++◌, done,
  failed, lookup, returned,
}
use krakend_otel.Telemetry.{message, with_span, live}
use krakend_otel.Config.Options.{zero_global_opts}
use krakend_otel.Config.Data.{ConfigData}
use krakend_otel.Config.Data.Defaults.{from_layers}
use krakend_otel.Config.Lura.{ServiceConfig, from_lura}
use krakend_otel.State.Config.{new_config}
use krakend_otel.Http.Client.Transport.{Transport}
use krakend_otel.Http.Server.Handler.{TrackingHandler}
use krakend_otel.Http.Server.Program.{finished}
use krakend_otel.Lura.Proxy.{Proxy}
use krakend_otel.Lura.Factories.{EndpointConfig}
use krakend_otel.Lura.RunServer.Registered.{Follows}
use krakend_otel.Example.Server.{
  Flags, default_flags, Service, overridden, Lura, Router, Action, runs, shuts_down, cancels,
  Environment, intercept, main,
}
use krakend_otel.Example.Server.Composed.{IsCounted, main-register}
use krakend_otel.Example.Server.Plain.{plain_backend, main-no_config}
use krakend_otel.Example.Server.Stops.{shutdowns, main-shutdowns}
use krakend_otel.Tests.Registered.{
  registered_globals, state, libraries, service, decode, unset, registered_service,
}

-- The state of the surroundings is the time, and each request takes one unit of it.
abbrev env : Environment ℕ ℕ
env = record {
  world = record {
    now = λ s. s;
    ctx_err = λ ctx s. none;
    starts = λ tracer ctx name. (with_span ctx (live 1), live 1);
  };
  refused = message "refused";
  decode_layers = λ j. failed (message "no layers");
  decode_config = decode;
  libraries = libraries;
  version = "2.9";
  api = record {
    meter_of = λ provider instrument. true;
    text_map_propagator = λ headers ctx. none;
  };
  assertions = record { as_object = λ j. none; as_strings = λ j. none };
  router_namespace = "router";
  error_text = λ e. "not registered";
}

abbrev answered : Proxy ℕ
answered ctx req s =
    (suc s, (some (record { is_complete = true; status_code = pos 200; headers = [] }), none), [])

-- The parser knows one file; the executors are the transports.
abbrev lura : ServiceConfig ℕ → Lura ℕ ℕ ℕ (Option Transport)
lura cfg = record {
  parse = λ file. done (record { config = cfg; debug = false; port = pos 8080 });
  default_http_request_executor = λ t. t;
  new_http_proxy = λ b t. answered;
  new_default = λ bf e. returned (answered, none);
  endpoint_handler = λ e p r. finished;
  run_server = λ cfg h s. (suc s, none);
}

abbrev flags : Flags
flags = record default_flags { debug = true; port = pos 9000 }

abbrev parsed : ServiceConfig ℕ → Service ℕ
parsed cfg = record { config = cfg; debug = false; port = pos 8080 }

abbrev endpoint : EndpointConfig ℕ
endpoint = record { endpoint = "/shop"; method = "GET"; extra_config = [] }

main-register_example :
    (c : ConfigData) × (r : Router ℕ ℕ ℕ) × (p : Proxy ℕ) × (h : Option TrackingHandler)
    × (from_lura decode service ≡ done c)
    × (main env (lura service) flags (some "interrupt") unset
        ≡ returned (
          registered_globals,
          runs r (overridden flags (parsed service))
              ∷ (intercept env (lura service) (some "interrupt")
                  ++ (shuts_down (some state) ∷ cancels ∷ [])),
        ))
    × (r.proxy_factory endpoint ≡ returned (p, none))
    × IsCounted env (lura service) (new_config c) (λ instrument. true) endpoint answered p
    × (r.run_server service 0 ≡ returned ((lura service).run_server service h 0))
    × Follows (new_config c) (or_else (from_layers (λ l. l.global) c) zero_global_opts) h
main-register_example =
    main-register env (lura service) flags (some "interrupt") unset registered_globals state
      (parsed service) endpoint answered service 0 refl registered_service refl

abbrev plain : ServiceConfig ℕ
plain = record { name = "plain"; extra_config = [] }

main-no_config_example :
    (r : Router ℕ ℕ ℕ) × (main env (lura plain) flags none unset
      ≡ returned (
        unset,
        runs r (overridden flags (parsed plain))
            ∷ (intercept env (lura plain) none ++ (shuts_down none ∷ cancels ∷ [])),
      ))
    × (r.proxy_factory endpoint
        ≡ (lura plain).new_default (plain_backend env (lura plain)) endpoint)
    × (r.handler_factory endpoint answered ≡ (lura plain).endpoint_handler endpoint answered)
    × (r.run_server plain 0 ≡ returned (1, none))
unfolding lookup
main-no_config_example =
    main-no_config env (lura plain) flags none unset (parsed plain) endpoint answered plain 0 refl
      refl refl

main-shutdowns_example :
    (actions : List (Action ℕ ℕ ℕ)) × (main env (lura service) flags (some "interrupt") unset
      ≡ returned (registered_globals, actions))
    × (shutdowns false actions ≡ (some state, true) ∷ [])
main-shutdowns_example =
    main-shutdowns env (lura service) flags (some "interrupt") unset registered_globals (some state)
      (parsed service) refl registered_service
