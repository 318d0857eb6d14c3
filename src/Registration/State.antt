-- ===== src/Registration/State.antt =====
-- state/state.go: what a state answers, and its shutdown; and the states that state/config.go gives.
-- The receiver of the methods is a pointer, and may be nil.
pub mod Flushes
use krakend_otel.Prelude.{Option, none, some, List, [], ◌∷◌, ◌++◌, Map}
use krakend_otel.Telemetry.{Meter, Tracer, provided_tracer, Otel}
use krakend_otel.Http.Server.Handler.{Propagator}
use krakend_otel.Registration.Providers.{OtelState, MeterProvider, TracerProvider}
use krakend_otel.Registration.Globals.{Globals, Interface, nil_interface, holding, global_state}

-- What the OpenTelemetry API makes: the meter of a provider (none is the no-op one), and the
-- propagator that is set globally.
pub record Api : Type 0 where
  pub meter_of : Option MeterProvider → Meter
  pub text_map_propagator : Propagator

-- `if s == nil { return nil }`
abbrev of_state : {A : Type 0} → (OtelState → A) → Option OtelState → Option A
of_state f none = none
of_state f (some s) = some (f s)

-- `MeterProvider` and `TracerProvider`; the inner `none` is the no-op provider
abbrev pub meter_provider : Option OtelState → Option (Option MeterProvider)
meter_provider = of_state (λ s. s.meter_provider)

abbrev pub tracer_provider : Option OtelState → Option (Option TracerProvider)
tracer_provider = of_state (λ s. s.tracer_provider)

-- `Tracer`
abbrev pub tracer : Option OtelState → Option Tracer
tracer = of_state (λ s. provided_tracer)

-- A call of `Shutdown` of one of the SDK's providers.
pub data Flush : Type 0 where
  shutdown_tracer_provider : TracerProvider → Flush
  shutdown_meter_provider : MeterProvider → Flush

-- `if p != nil { p.Shutdown(ctx) }`
abbrev if_provider : {A : Type 0} → (A → Flush) → Option A → List Flush
if_provider flush none = []
if_provider flush (some p) = flush p ∷ []

-- `Shutdown`
unfoldable pub shutdown : Option OtelState → List Flush
shutdown none = []
shutdown (some s) =
    if_provider shutdown_tracer_provider s.tracer_provider
    ++ if_provider shutdown_meter_provider s.meter_provider

module _ (api : Api) where
  -- `Meter`
  abbrev pub meter : Option OtelState → Option Meter
  meter = of_state (λ s. api.meter_of s.meter_provider)

  -- `Propagator`
  abbrev pub propagator : Option OtelState → Option Propagator
  propagator = of_state (λ s. api.text_map_propagator)

  -- What the methods of an interface `OTEL` that is not nil answer.
  unfoldable pub otel_of : Interface → Option Otel
  otel_of nil_interface = none
  otel_of (holding s) = some (record { meter = meter s; tracer = tracer s })

  -- `OTEL`, `EndpointOTEL` and `BackendOTEL` of `StateConfig`
  unfoldable pub config_otel : Globals → Option Otel
  config_otel g = otel_of (global_state g)

  abbrev with_propagator : Option Otel → Option Propagator → Option (Otel × Propagator)
  with_propagator none prop = none
  with_propagator (some otel) none = none
  with_propagator (some otel) (some prop) = some (otel, prop)

  abbrev propagator_of : Interface → Option Propagator
  propagator_of nil_interface = none
  propagator_of (holding s) = propagator s

  -- What the handler of the server gets.
  unfoldable pub server_otel : Globals → Option (Otel × Propagator)
  server_otel g = with_propagator (config_otel g) (propagator_of (global_state g))
