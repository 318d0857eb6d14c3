-- ===== src/Http/Client/Transport.antt =====
-- http/client/transport.go: the instrumented round tripper. The wrapped one is a machine on states
-- of its own, which also says which hooks of net/http/httptrace it called.
pub mod Transparent
use krakend_otel.Prelude.{
  ℕ, String, Bool, true, false, not, ◌&&◌, ◌||◌, Option, none, some, List, [], ◌∷◌, ◌++◌, ℤ,
  if◌then◌else◌, is_some, sub_time, Outcome, returned, panicked,
}
use krakend_otel.Telemetry.{Err, Attribute, Ctx, Tracer, Meter, Otel, Call, Panic}
use krakend_otel.Io.Instruments.{Instruments, new_instruments}
use krakend_otel.Http.Attributes.{HttpRequest, HttpResponse}
use krakend_otel.Http.Client.Tracking.{
  RoundTripTracking, new_tracking, with_client_trace, Hook, run_hooks,
}
use krakend_otel.Http.Client.Metrics.{
  TransportMetricsOptions, metrics_enabled, TransportMetrics, new_transport_metrics,
}
use krakend_otel.Http.Client.Report.{report}
use krakend_otel.Http.Client.Traces.{
  TransportTracesOptions, traces_enabled, TransportTraces, new_transport_traces, Tracing, start,
  finish,
}

-- A body: the wrapped round tripper's, or that in an instrumented reader of the package otelio.
pub data Body : Type 0 where
  raw : ℕ → Body
  instrumented : Instruments → Ctx → Body → Body

abbrev pub ReaderWrapper : Type 0
ReaderWrapper = Body → Ctx → Body

abbrev pub if_some : {A : Type 0} → Bool → Option A → Option A
if_some true o = o
if_some false o = none

abbrev if_attrs : Bool → List Attribute → List Attribute
if_attrs true attrs = attrs
if_attrs false attrs = []

-- `readWrapperBuilder`
unfoldable pub read_wrapper_builder :
    TransportMetricsOptions → TransportTracesOptions → Option Meter → Option Tracer → ReaderWrapper
read_wrapper_builder mo to meter tracer body ctx =
    if not mo.read_payload && not to.read_payload
    then body
    else instrumented
        (new_instruments "http.client.response.read." (if_attrs to.read_payload to.fixed_attributes)
          (if_attrs mo.read_payload mo.fixed_attributes) (if_some to.read_payload tracer)
          (if_some mo.read_payload meter))
        ctx body

-- `Transport`, without the wrapped round tripper and the state that it is made from
pub record Transport : Type 0 where
  pub traces_opts : TransportTracesOptions
  pub metrics_opts : TransportMetricsOptions
  pub metrics : Option TransportMetrics
  pub traces : Option TransportTraces
  pub reader_wrapper : ReaderWrapper

abbrev pub transport_of :
    TransportMetricsOptions
    → TransportTracesOptions
    → String
    → Option Meter
    → Option Tracer
    → Transport
transport_of mo to client_name meter tracer = record {
  traces_opts = to;
  metrics_opts = mo;
  metrics = new_transport_metrics mo (is_some meter) client_name;
  traces = new_transport_traces to tracer client_name;
  reader_wrapper = read_wrapper_builder mo to meter tracer;
}

abbrev transport_from :
    TransportMetricsOptions → TransportTracesOptions → String → Option Otel → Option Transport
transport_from mo to client_name none = none
transport_from mo to client_name (some otel) = some (
    transport_of mo to client_name (if_some (metrics_enabled mo) otel.meter)
      (if_some (traces_enabled to) otel.tracer))

-- `newTransport`
unfoldable pub new_transport :
    TransportMetricsOptions → TransportTracesOptions → String → Option Otel → Option Transport
new_transport mo to client_name otel =
    if not (traces_enabled to) && not (metrics_enabled mo)
    then none
    else transport_from mo to client_name otel

-- `NewRoundTripper`: nothing where the given round tripper is the answer
abbrev pub new_round_tripper :
    TransportMetricsOptions → TransportTracesOptions → String → Option Otel → Option Transport
new_round_tripper mo to client_name otel = new_transport mo to client_name otel

-- A round tripper on states `S`: the response or the error, and the hooks that it called.
abbrev pub RoundTripper : Type 0 → Type 0
RoundTripper S = HttpRequest → S → S × (Option (HttpResponse Body) × Option Err) × List (Hook × ℕ)

module _ {S : Type 0} (w : Tracing) (now : S → ℕ) (ctx_err : Ctx → S → Option Err)
    (base : RoundTripper S) where
  abbrev pub wrap_body :
      ReaderWrapper → Ctx → Option (HttpResponse Body) → Option (HttpResponse Body)
  wrap_body wrapper ctx none = none
  wrap_body wrapper ctx (some resp) = elim resp.body [
    | none ↦ some resp
    | some body ↦ some (record resp { body = some (wrapper body ctx) })
  ]

  -- After the report of the metrics: the body is wrapped, and the span ended.
  abbrev pub finished :
      Transport
      → List Call
      → RoundTripTracking Body
      → S
      → Outcome Panic (List Call)
      → Outcome Panic (S × (Option (HttpResponse Body) × Option Err) × List Call)
  finished t calls rtt s (panicked p) = panicked p
  finished t calls rtt s (returned more) =
      let rtt' = record rtt { resp = wrap_body t.reader_wrapper rtt.req.ctx rtt.resp } in
      returned (s, (rtt'.resp, rtt'.err), calls ++ (more ++ finish w t.traces rtt'))

  -- The hooks are called only if they have been put into the request's context.
  abbrev hooks_run : List (Hook × ℕ) → RoundTripTracking Body → RoundTripTracking Body
  hooks_run hooks rtt = if rtt.hooked then run_hooks hooks rtt else rtt

  abbrev pub sent :
      Transport
      → S
      → Outcome Panic (RoundTripTracking Body × List Call)
      → Outcome Panic (S × (Option (HttpResponse Body) × Option Err) × List Call)
  sent t s (panicked p) = panicked p
  sent t s (returned (rtt, calls)) =
      let (s', (resp, err), hooks) = base rtt.req s in
      let rtt' = record (hooks_run hooks rtt) {
        resp = resp;
        err = err;
        latency = sub_time (now s') (now s);
      } in
      finished t calls rtt' s'
        (report t.metrics rtt' t.metrics_opts.fixed_attributes (ctx_err rtt'.req.ctx s'))

  -- `RoundTrip`
  unfoldable pub round_trip :
      Transport
      → HttpRequest
      → S
      → Outcome Panic (S × (Option (HttpResponse Body) × Option Err) × List Call)
  round_trip t req s =
      let rtt = new_tracking req in
      let hooked =
        if t.traces_opts.detailed_connection || t.metrics_opts.detailed_connection
        then with_client_trace rtt
        else rtt in
      sent t s (start w t.traces hooked)
