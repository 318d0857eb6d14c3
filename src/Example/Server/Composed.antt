-- ===== src/Example/Server/Composed.antt =====
-- The service of the example, once its configuration has been registered.
use krakend_otel.Prelude.{
  String, ◌≡◌, refl, ◌∙◌, ap, Option, none, some, or_else, [], ◌∷◌, ◌++◌, done, returned, arith,
}
use krakend_otel.Telemetry.{Otel, provided_tracer, Meter}
use krakend_otel.Config.Options.{zero_global_opts}
use krakend_otel.Config.Data.{ConfigData}
use krakend_otel.Config.Data.Defaults.{from_layers}
use krakend_otel.Config.Lura.{ServiceConfig, from_lura}
use krakend_otel.State.Config.{StateConfig, new_config}
use krakend_otel.Http.Server.Handler.{TrackingHandler}
use krakend_otel.Registration.Providers.{OtelState}
use krakend_otel.Registration.Globals.{Globals, global_state}
use krakend_otel.Registration.State.{Api, config_otel, otel_of}
use krakend_otel.Registration.Register.{register}
use krakend_otel.Lura.Proxy.{Proxy}
use krakend_otel.Lura.Factories.{EndpointConfig, proxy_factory}
use krakend_otel.Lura.Factories.Counted.{Counted, metrics_on, traces_on, proxy_factory-Counted}
use krakend_otel.Lura.RunServer.Registered.{Follows, global_run_server-Follows}
use krakend_otel.Example.Server.{
  Flags, Service, overridden, Lura, Router, runs, shuts_down, cancels, Environment, backends,
  proxies, after_default, router, intercept, after_register, after_parse, main,
}

-- What the state that has been registered answers.
abbrev pub otel_with : Meter → Otel
otel_with meter = record { meter = some meter; tracer = some provided_tracer }

config_otel-some :
    (api : Api) (s : OtelState) (g : Globals)
    → g.otel_state ≡ some s
    → config_otel api g ≡ some (otel_with (api.meter_of s.meter_provider))
unfolding config_otel otel_of global_state
config_otel-some api s g hs = ground (arith, hs)

module _ {J S R E : Type 0} (env : Environment J S) (lura : Lura J S R E) where
  open env use {world, refused, decode_layers, decode_config, libraries, version, api}

  -- What is reported of an endpoint, by its options.
  abbrev pub IsCounted : StateConfig → Meter → EndpointConfig J → Proxy S → Proxy S → Type 0
  IsCounted c meter e n p =
      Counted world n (metrics_on world refused decode_layers meter provided_tracer c e n)
        (traces_on world refused decode_layers meter provided_tracer c e n) p

  proxies-IsCounted :
      (c : StateConfig) (s : OtelState) (g : Globals) (e : EndpointConfig J) (n : Proxy S)
      → g.global_config ≡ some c
      → g.otel_state ≡ some s
      → lura.new_default (backends env lura g) e ≡ returned (n, none)
      → (p : Proxy S) × (proxies env lura g e ≡ returned (p, none))
        × IsCounted c (api.meter_of s.meter_provider) e n p
  proxies-IsCounted c s g e n hc hs made =
      let meter = api.meter_of s.meter_provider in
      let by = λ (o : Option Otel) (sc : Option StateConfig).
        proxy_factory world refused decode_layers o sc (λ _. (n, none)) e in
      let (p, gives, counted) =
        proxy_factory-Counted world refused decode_layers meter provided_tracer c e n
          (λ _. (n, none)) refl in
      (
        p,
        ap (after_default env lura g e) made
            ∙ (ap (λ o. by o g.global_config) (config_otel-some api s g hs)
                ∙ (ap (by (some (otel_with meter))) hc ∙ gives)),
        counted,
      )

  -- With a configuration that can be parsed and registered, the example runs the router for the
  -- service, with the flags in place of what they override, and calls the shutdown of the registered
  -- state when it has stopped. The router's factory gives a proxy for each endpoint for which Lura's
  -- own one gives one over the instrumented backends, and a call of it is reported as the endpoint's
  -- options ask for; and its runner gives Lura's the tracking handler that follows the global
  -- options.
  pub main-register :
      (f : Flags) (signal : Option String) (g g' : Globals) (s : OtelState) (parsed : Service J)
      (e : EndpointConfig J) (n : Proxy S) (cfg : ServiceConfig J) (st : R)
      → lura.parse f.config_file ≡ done parsed
      → register libraries version decode_config parsed.config g ≡ returned (g', some s, none)
      → lura.new_default (backends env lura g') e ≡ returned (n, none)
      → (c : ConfigData) × (r : Router J S R) × (p : Proxy S) × (h : Option TrackingHandler)
        × (from_lura decode_config parsed.config ≡ done c)
        × (main env lura f signal g
            ≡ returned (
              g',
              runs r (overridden f parsed)
                  ∷ (intercept env lura signal ++ (shuts_down (some s) ∷ cancels ∷ [])),
            ))
        × (r.proxy_factory e ≡ returned (p, none))
        × IsCounted (new_config c) (api.meter_of s.meter_provider) e n p
        × (r.run_server cfg st ≡ returned (lura.run_server cfg h st))
        × Follows (new_config c) (or_else (from_layers (λ l. l.global) c) zero_global_opts) h
  unfolding main overridden
  main-register f signal g g' s parsed e n cfg st read registers made =
      let (c, h, decoded, hc, hs, serves, follows) =
        global_run_server-Follows api env.assertions env.router_namespace lura.run_server libraries
          version decode_config parsed.config g g' s cfg st registers in
      let (p, gives, counted) = proxies-IsCounted (new_config c) s g' e n hc hs made in
      (
        c,
        router env lura g',
        p,
        h,
        decoded,
        ap (after_parse env lura f signal g) read
            ∙ ap (after_register env lura signal (overridden f parsed)) registers,
        gives,
        counted,
        serves,
        follows,
      )
