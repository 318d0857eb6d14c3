-- ===== src/Example/Server.antt =====
-- example/server/main.go: a service with every part of the program, from the flags of the command
-- to the router that it runs. Lura and gin are an argument.
pub mod Composed
pub mod Plain
pub mod Stops
use krakend_otel.Prelude.{
  ℤ, pos, String, Bool, true, false, ◌||◌, Option, none, some, List, [], ◌∷◌, ◌++◌, Result, done,
  failed, Outcome, returned, panicked, concat, if◌then◌else◌, negsuc, ◌==◌,
}
use krakend_otel.Telemetry.{Err, text, Panic, World}
use krakend_otel.Config.Options.{LayersOpts}
use krakend_otel.Config.Data.{ConfigData}
use krakend_otel.Config.Lura.{ServiceConfig}
use krakend_otel.Lura.Proxy.{Proxy}
use krakend_otel.Lura.Factories.{EndpointConfig, Backend, proxy_factory, backend_factory}
use krakend_otel.Lura.Backend.{http_request_executor_from_config}
use krakend_otel.Lura.RunServer.{Assertions, RunServer, global_run_server}
use krakend_otel.Http.Attributes.{HttpRequest}
use krakend_otel.Http.Client.Transport.{Transport}
use krakend_otel.Http.Server.Program.{Program}
use krakend_otel.Http.Server.New.{gin_handler}
use krakend_otel.Registration.Exporters.{Libraries}
use krakend_otel.Registration.Globals.{Globals, global_config}
use krakend_otel.Registration.Providers.{OtelState}
use krakend_otel.Registration.State.{Api, config_otel}
use krakend_otel.Registration.Register.{RegisterError, Registered, register}

-- The flags, as `flag.Parse` leaves them.
pub record Flags : Type 0 where
  pub port : ℤ
  pub log_level : String
  pub debug : Bool
  pub config_file : String

-- Those that are not given.
abbrev pub default_flags : Flags
default_flags = record {
  port = pos 0;
  log_level = "ERROR";
  debug = false;
  config_file = "/etc/krakend/configuration.json";
}

-- Lura's `ServiceConfig`, with the fields that a flag overrides.
pub record Service (J : Type 0) : Type 0 where
  pub config : ServiceConfig J
  pub debug : Bool
  pub port : ℤ

abbrev is_zero : ℤ → Bool
is_zero (pos n) = n == 0
is_zero (negsuc n) = false

unfoldable pub overridden : {J : Type 0} → Flags → Service J → Service J
overridden f srv = record srv {
  debug = srv.debug || f.debug;
  port = if is_zero f.port then srv.port else f.port;
}

-- The settings of gin's engine.
pub record Engine : Type 0 where
  pub redirect_trailing_slash : Bool
  pub redirect_fixed_path : Bool
  pub handle_method_not_allowed : Bool
  pub context_with_fallback : Bool

-- What Lura makes: from the values of JSON `J`, on the state `S` of the pipe and `R` of the runner,
-- with the executors `E` of requests.
pub record Lura (J S R E : Type 0) : Type 0 where
  -- `Parse`
  pub parse : String → Result Err (Service J)
  -- `DefaultHTTPRequestExecutor` of `NewHTTPClient`, with the transport of its client
  pub default_http_request_executor : Option Transport → E
  -- `NewHTTPProxyWithHTTPExecutor`, with the backend's decoder
  pub new_http_proxy : Backend J → E → Proxy S
  -- `New` of `NewDefaultFactory`, which calls the factory of the backends
  pub new_default :
      (Backend J → Outcome Panic (Proxy S))
      → EndpointConfig J
      → Outcome Panic (Proxy S × Option Err)
  -- `EndpointHandler`
  pub endpoint_handler : EndpointConfig J → Proxy S → HttpRequest → Program
  -- `RunServer`
  pub run_server : RunServer J R

-- What the router is made with.
pub record Router (J S R : Type 0) : Type 0 where
  pub engine : Engine
  pub proxy_factory : EndpointConfig J → Outcome Panic (Proxy S × Option Err)
  pub handler_factory : EndpointConfig J → Proxy S → HttpRequest → Program
  pub run_server : ServiceConfig J → R → Outcome Panic (R × Option Err)

-- What the program does: it prints, it cancels its context, it runs the router for the service, and
-- it calls the function that the registration answers.
pub data Action (J S R : Type 0) : Type 0 where
  prints logs : String → Action J S R
  cancels : Action J S R
  runs : Router J S R → Service J → Action J S R
  shuts_down : Option OtelState → Action J S R

-- The rest of what the program is given.
pub record Environment (J S : Type 0) : Type 1 where
  pub world : World S
  pub refused : Err
  pub decode_layers : J → Result Err LayersOpts
  pub decode_config : J → Result Err ConfigData
  pub libraries : Libraries
  pub version : String
  pub api : Api
  pub assertions : Assertions J
  pub router_namespace : String
  -- The text of an error of the registration.
  pub error_text : RegisterError → String

module _ {J S R E : Type 0} (env : Environment J S) (lura : Lura J S R E) where
  open env use {
    world, refused, decode_layers, decode_config, libraries, version, api, assertions,
    router_namespace, error_text,
  }

  -- The first `bf`: the proxy of a backend, with the instrumented requests.
  abbrev pub http_proxy : Globals → Backend J → Proxy S
  http_proxy g cfg = lura.new_http_proxy cfg (
      http_request_executor_from_config lura.default_http_request_executor decode_layers
        (global_config g) (config_otel api g) cfg)

  -- `otellura.BackendFactory(bf)`
  abbrev pub backends : Globals → Backend J → Outcome Panic (Proxy S)
  backends g =
      backend_factory world refused decode_layers (config_otel api g) (global_config g)
        (http_proxy g)

  abbrev pub after_default :
      Globals
      → EndpointConfig J
      → Outcome Panic (Proxy S × Option Err)
      → Outcome Panic (Proxy S × Option Err)
  after_default g cfg (panicked p) = panicked p
  after_default g cfg (returned next) =
      proxy_factory world refused decode_layers (config_otel api g) (global_config g) (λ _. next)
        cfg

  -- `pf`
  abbrev pub proxies : Globals → EndpointConfig J → Outcome Panic (Proxy S × Option Err)
  proxies g cfg = after_default g cfg (lura.new_default (backends g) cfg)

  -- `handlerF`
  abbrev pub handlers : Globals → EndpointConfig J → Proxy S → HttpRequest → Program
  handlers g cfg p = gin_handler decode_layers (global_config g) cfg (lura.endpoint_handler cfg p)

  -- `runserverChain`
  abbrev pub runner : Globals → ServiceConfig J → R → Outcome Panic (R × Option Err)
  runner g = global_run_server assertions router_namespace api lura.run_server g g

  -- The router, from the globals that the registration has left.
  abbrev pub router : Globals → Router J S R
  router g = record {
    engine = record {
      redirect_trailing_slash = true;
      redirect_fixed_path = true;
      handle_method_not_allowed = true;
      context_with_fallback = true;
    };
    proxy_factory = proxies g;
    handler_factory = handlers g;
    run_server = runner g;
  }

  -- What the goroutine of `main` does: a signal is intercepted, or the context is done before that.
  unfoldable pub intercept : Option String → List (Action J S R)
  intercept none = []
  intercept (some signal) = logs (concat "Signal intercepted: " signal) ∷ cancels ∷ []

  -- From `Register` on: the router runs until it ends by itself or, where a signal is intercepted,
  -- until the context is canceled. The deferred calls are the last ones.
  abbrev pub after_register :
      Option String
      → Service J
      → Outcome Panic Registered
      → Outcome Panic (Globals × List (Action J S R))
  after_register signal srv (panicked p) = panicked p
  after_register signal srv (returned (g, shutdown, some e)) = returned (
    g,
    prints (concat "--- failed to register: " (concat (error_text e) "\n"))
        ∷ cancels
        ∷ cancels
        ∷ [],
  )
  after_register signal srv (returned (g, shutdown, none)) =
      returned (g, runs (router g) srv ∷ (intercept signal ++ (shuts_down shutdown ∷ cancels ∷ [])))

  abbrev pub after_parse :
      Flags
      → Option String
      → Globals
      → Result Err (Service J)
      → Outcome Panic (Globals × List (Action J S R))
  after_parse f signal g (failed e) =
      returned (g, prints (concat "ERROR: " (concat (text e) "\n")) ∷ cancels ∷ cancels ∷ [])
  after_parse f signal g (done parsed) =
      let srv = overridden f parsed in
      after_register signal srv (register libraries version decode_config srv.config g)

  -- `main`, with the signal that is intercepted while the router runs, if any
  unfoldable pub main :
      Flags → Option String → Globals → Outcome Panic (Globals × List (Action J S R))
  main f signal g = after_parse f signal g (lura.parse f.config_file)
