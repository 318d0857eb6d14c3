-- ===== src/Lura/RunServer/Registered.antt =====
-- The server of a registered service.
use krakend_otel.Prelude.{
  String, ◌≡◌, refl, ◌∙◌, ap, true, not, ◌&&◌, Option, none, some, is_some, or_else, List, Result,
  done, Outcome, returned, panicked, arith,
}
use krakend_otel.Telemetry.{Err, Panic, Meter, Tracer, provided_tracer}
use krakend_otel.Config.Options.{GlobalOpts, zero_global_opts}
use krakend_otel.Config.Data.{ConfigData}
use krakend_otel.Config.Data.Defaults.{from_layers}
use krakend_otel.Config.Lura.{ServiceConfig, from_lura}
use krakend_otel.State.Config.{StateConfig, new_config, global_opts}
use krakend_otel.Http.Server.Handler.{TrackingHandler, Propagator}
use krakend_otel.Http.Server.New.{new_tracking_handler, handler_for}
use krakend_otel.Registration.Exporters.{Libraries}
use krakend_otel.Registration.Providers.{OtelState}
use krakend_otel.Registration.Globals.{Globals, global_state}
use krakend_otel.Registration.State.{Api, server_otel, config_otel, otel_of}
use krakend_otel.Registration.Register.{register}
use krakend_otel.Registration.Register.Settles.Success.{register-IsRegistered}
use krakend_otel.Lura.RunServer.{
  Assertions, RunServer, global_run_server, run_with, run_if, trusted_proxies,
}

-- The handler has the parts that the options leave enabled; with none of them it is left out.
abbrev pub Follows : StateConfig → GlobalOpts → Option TrackingHandler → Type 0
Follows c o none = o.disable_propagation && (o.disable_metrics && o.disable_traces) ≡ true
Follows c o (some h) =
    (is_some h.metrics ≡ not o.disable_metrics)
    × (is_some h.traces ≡ not o.disable_traces)
    × (is_some h.prop ≡ not o.disable_propagation)
    × (h.report_headers ≡ o.report_headers)
    × (h.config ≡ c)

global_opts-new_config :
    (cfg : ConfigData)
    → global_opts (new_config cfg)
      ≡ some (or_else (from_layers (λ l. l.global) cfg) zero_global_opts)
unfolding global_opts new_config
global_opts-new_config cfg = ground arith

-- The handler is made, and follows the options.
abbrev IsMade : StateConfig → GlobalOpts → Outcome Panic (Option TrackingHandler) → Type 0
IsMade c o (panicked p) = ⊥
IsMade c o (returned h) = Follows c o h

handler_for-IsMade :
    (c : StateConfig) (o : GlobalOpts) (meter : Meter) (tracer : Tracer) (prop : Propagator)
    (trusted : List String)
    → IsMade c o
        (handler_for c (some (record { meter = some meter; tracer = some tracer }, prop)) trusted o)
handler_for-IsMade c o meter tracer prop trusted = ground arith

IsMade-returned :
    (c : StateConfig) (o : GlobalOpts) (r : Outcome Panic (Option TrackingHandler))
    → IsMade c o r
    → (h : Option TrackingHandler) × (r ≡ returned h) × Follows c o h
IsMade-returned c o (returned h) follows = (h, refl, follows)
IsMade-returned c o (panicked p) none_made = absurd none_made

module _ (api : Api) where
  server_otel-some :
      (s : OtelState) (g : Globals)
      → g.otel_state ≡ some s
      → server_otel api g
        ≡ some (
          record { meter = some (api.meter_of s.meter_provider); tracer = some provided_tracer },
          api.text_map_propagator,
        )
  unfolding server_otel config_otel otel_of global_state
  server_otel-some s g hs = ground (arith, hs)

  -- With a configuration and a state the handler is made.
  new_tracking_handler-Follows :
      (c : StateConfig) (o : GlobalOpts) (s : OtelState) (g : Globals) (trusted : List String)
      → global_opts c ≡ some o
      → g.otel_state ≡ some s
      → (h : Option TrackingHandler) × (new_tracking_handler (some c) (server_otel api g) trusted
          ≡ returned h)
        × Follows c o h
  unfolding new_tracking_handler
  new_tracking_handler-Follows c o s g trusted ho hs =
      rw (ho, server_otel-some s g hs, new_tracking_handler)
        (IsMade-returned c o _ (
          handler_for-IsMade c o (api.meter_of s.meter_provider) provided_tracer
            api.text_map_propagator trusted))

  module _ {J S : Type 0} (a : Assertions J) (router_namespace : String)
      (next : RunServer J S) where
    -- The server that is run for any service once a configuration has been registered.
    pub global_run_server-Follows :
        {K : Type 0} (libs : Libraries) (version : String) (decode : K → Result Err ConfigData)
        (srv : ServiceConfig K) (g g' : Globals) (s : OtelState) (cfg : ServiceConfig J) (st : S)
        → register libs version decode srv g ≡ returned (g', some s, none)
        → (c : ConfigData) × (h : Option TrackingHandler) × (from_lura decode srv ≡ done c)
          × (g'.global_config ≡ some (new_config c))
          × (g'.otel_state ≡ some s)
          × (global_run_server a router_namespace api next g' g' cfg st ≡ returned (next cfg h st))
          × Follows (new_config c) (or_else (from_layers (λ l. l.global) c) zero_global_opts) h
    unfolding global_run_server
    global_run_server-Follows libs version decode srv g g' s cfg st h =
        let run = λ (o : Option StateConfig) (now : Globals).
          run_if a router_namespace api next o now cfg st in
        let trusted = trusted_proxies a router_namespace cfg in
        let (c, read, (servers, me, te, valid, ei, eg)) =
          register-IsRegistered libs g g' s version decode srv h in
        let configured : g'.global_config ≡ some (new_config c) = ap (λ x. x.global_config) eg in
        let state_set : g'.otel_state ≡ some s = ap (λ x. x.otel_state) eg in
        let (made, em, follows) =
          new_tracking_handler-Follows (new_config c)
            (or_else (from_layers (λ l. l.global) c) zero_global_opts) s g' trusted
            (global_opts-new_config c) state_set in
        let handler =
          λ (o : Option StateConfig). new_tracking_handler o (server_otel api g') trusted in
        (
          c,
          made,
          read,
          configured,
          state_set,
          ap (λ o. run o g') configured
              ∙ (ap (λ o. run_with a router_namespace api next cfg st (handler o)) configured
                  ∙ ap (run_with a router_namespace api next cfg st) em),
          follows,
        )

    -- Before a configuration has been registered the server runs as without the instrumentation.
    -- Once one has been, the server that is run for any service gets one handler and no panic: the
    -- tracking handler, with metrics, traces and propagation just where the global options of the
    -- registered configuration leave them enabled, or the service's own if they leave nothing.
    pub global_run_server-register :
        {K : Type 0} (libs : Libraries) (version : String) (decode : K → Result Err ConfigData)
        (srv : ServiceConfig K) (g g' : Globals) (s : OtelState) (cfg : ServiceConfig J) (st : S)
        → g.global_config ≡ none
        → register libs version decode srv g ≡ returned (g', some s, none)
        → (global_run_server a router_namespace api next g g cfg st ≡ returned (next cfg none st))
          × ((c : ConfigData) × (h : Option TrackingHandler) × (from_lura decode srv ≡ done c)
              × (global_run_server a router_namespace api next g' g' cfg st
                  ≡ returned (next cfg h st))
              × Follows (new_config c) (or_else (from_layers (λ l. l.global) c) zero_global_opts) h)
    unfolding global_run_server
    global_run_server-register libs version decode srv g g' s cfg st unset h =
        let (c, made, read, _, _, runs, follows) =
          global_run_server-Follows libs version decode srv g g' s cfg st h in
        (
          ap (λ (o : Option StateConfig). run_if a router_namespace api next o g cfg st) unset,
          (c, made, read, runs, follows),
        )
