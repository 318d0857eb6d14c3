-- ===== src/Lura/RunServer.antt =====
-- lura/runserver.go: the runner of the server, with the tracking handler in front of Lura's. The
-- type assertions on the values of "extra_config", and the namespace that Lura's router has there,
-- are arguments.
pub mod Registered
use krakend_otel.Prelude.{
  String, Option, none, some, List, [], Map, lookup, Outcome, returned, panicked,
}
use krakend_otel.Telemetry.{Err, Panic}
use krakend_otel.Config.Lura.{ServiceConfig}
use krakend_otel.State.Config.{StateConfig}
use krakend_otel.Http.Server.Handler.{TrackingHandler}
use krakend_otel.Http.Server.New.{new_tracking_handler}
use krakend_otel.Registration.Globals.{Globals, global_config}
use krakend_otel.Registration.State.{Api, server_otel}

-- `v.(map[string]interface{})` and `v.([]string)`
pub record Assertions (J : Type 0) : Type 0 where
  pub as_object : J → Option (Map J)
  pub as_strings : J → Option (List String)

-- `RunServerFunc`: it is given the service's handler, or that in the tracking one; `S` is all that
-- it changes.
abbrev pub RunServer : Type 0 → Type 0 → Type 0
RunServer J S = ServiceConfig J → Option TrackingHandler → S → S × Option Err

module _ {J : Type 0} (a : Assertions J) (router_namespace : String) where
  abbrev then_lookup : {A : Type 0} → (J → Option A) → Option J → Option A
  then_lookup f none = none
  then_lookup f (some j) = f j

  abbrev proxies_of : Option (Map J) → List String
  proxies_of none = []
  proxies_of (some v) = elim (then_lookup a.as_strings (lookup "trusted_proxies" v)) [
    | none ↦ []
    | some proxies ↦ proxies
  ]

  unfoldable pub trusted_proxies : ServiceConfig J → List String
  trusted_proxies cfg =
      proxies_of (then_lookup a.as_object (lookup router_namespace cfg.extra_config))

  module _ {S : Type 0} (api : Api) (next : RunServer J S) where
    abbrev pub run_with :
        ServiceConfig J
        → S
        → Outcome Panic (Option TrackingHandler)
        → Outcome Panic (S × Option Err)
    run_with cfg s (panicked p) = panicked p
    run_with cfg s (returned h) = returned (next cfg h s)

    -- The handler that `NewTrackingHandlerWithTrustedProxies` makes of the globals.
    abbrev pub handler_from : Globals → List String → Outcome Panic (Option TrackingHandler)
    handler_from g trusted = new_tracking_handler (global_config g) (server_otel api g) trusted

    abbrev run_if :
        Option StateConfig → Globals → ServiceConfig J → S → Outcome Panic (S × Option Err)
    run_if none now cfg s = returned (next cfg none s)
    run_if (some c) now cfg s = run_with cfg s (handler_from now (trusted_proxies cfg))

    -- `GlobalRunServer`, made while the globals are `made`, and called while they are `now`
    unfoldable pub global_run_server :
        Globals → Globals → ServiceConfig J → S → Outcome Panic (S × Option Err)
    global_run_server made now cfg s = run_if (global_config made) now cfg s
