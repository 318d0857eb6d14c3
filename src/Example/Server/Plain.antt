-- ===== src/Example/Server/Plain.antt =====
-- The service of the example without a configuration of the program.
use krakend_otel.Prelude.{
  String, ◌≡◌, refl, ◌∙◌, ap, Option, none, [], ◌∷◌, ◌++◌, lookup, Result, done, Outcome, returned,
  panicked,
}
use krakend_otel.Telemetry.{Err, Panic}
use krakend_otel.Config.Data.{ConfigData}
use krakend_otel.Config.Lura.{ServiceConfig, namespace, from_lura, lura_extra_cfg}
use krakend_otel.Http.Server.New.{gin_handler}
use krakend_otel.Registration.Exporters.{Libraries}
use krakend_otel.Registration.Globals.{Globals}
use krakend_otel.Registration.Register.{register}
use krakend_otel.Lura.Proxy.{Proxy}
use krakend_otel.Lura.Backend.{http_request_executor_from_config, client_transport}
use krakend_otel.Lura.Factories.{EndpointConfig, Backend, proxy_factory, backend_factory}
use krakend_otel.Lura.RunServer.{global_run_server}
use krakend_otel.Example.Server.{
  Flags, Service, overridden, Lura, Router, runs, shuts_down, cancels, Environment, backends,
  after_default, router, intercept, after_register, after_parse, main,
}

register-no_config :
    {J : Type 0} (libs : Libraries) (version : String) (decode : J → Result Err ConfigData)
    (srv : ServiceConfig J) (g : Globals)
    → lookup namespace srv.extra_config ≡ none
    → register libs version decode srv g ≡ returned (g, none, none)
unfolding register from_lura lura_extra_cfg
register-no_config libs version decode srv g missing = rw missing

module _ {J S R E : Type 0} (env : Environment J S) (lura : Lura J S R E) where
  open env use {libraries, version, decode_config}

  -- The proxies of Lura's own factories.
  abbrev pub plain_backend : Backend J → Outcome Panic (Proxy S)
  plain_backend b = returned (lura.new_http_proxy b (lura.default_http_request_executor none))

  backends-plain_backend :
      (g : Globals) → g.global_config ≡ none → backends env lura g ≡ plain_backend
  unfolding backend_factory http_request_executor_from_config client_transport
  backends-plain_backend g unset = rw unset

  after_default-none :
      (g : Globals) (e : EndpointConfig J) (r : Outcome Panic (Proxy S × Option Err))
      → g.global_config ≡ none
      → after_default env lura g e r ≡ r
  unfolding proxy_factory
  after_default-none g e (returned next) unset = rw unset
  after_default-none g e (panicked p) unset = refl

  -- For a service without a configuration of the program, and with none registered before, the
  -- example leaves the globals as they are, and runs the router with what Lura makes alone: the
  -- proxies over the plain backends, the handlers of the endpoints, and the runner for the service's
  -- own handler.
  pub main-no_config :
      (f : Flags) (signal : Option String) (g : Globals) (parsed : Service J) (e : EndpointConfig J)
      (p : Proxy S) (cfg : ServiceConfig J) (st : R)
      → lura.parse f.config_file ≡ done parsed
      → lookup namespace parsed.config.extra_config ≡ none
      → g.global_config ≡ none
      → (r : Router J S R) × (main env lura f signal g
          ≡ returned (
            g,
            runs r (overridden f parsed)
                ∷ (intercept env lura signal ++ (shuts_down none ∷ cancels ∷ [])),
          ))
        × (r.proxy_factory e ≡ lura.new_default plain_backend e)
        × (r.handler_factory e p ≡ lura.endpoint_handler e p)
        × (r.run_server cfg st ≡ returned (lura.run_server cfg none st))
  unfolding main overridden gin_handler global_run_server
  main-no_config f signal g parsed e p cfg st read missing unset = (
    router env lura g,
    ap (after_parse env lura f signal g) read
        ∙ ap (after_register env lura signal (overridden f parsed))
            (register-no_config libraries version decode_config parsed.config g missing),
    after_default-none g e (lura.new_default (backends env lura g) e) unset
        ∙ ap (λ b. lura.new_default b e) (backends-plain_backend g unset),
    rw unset,
    rw unset,
  )
