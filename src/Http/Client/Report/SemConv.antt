-- ===== src/Http/Client/Report/SemConv.antt =====
-- What is measured of a round trip under the semantic convention 1.27.
use krakend_otel.Prelude.{
  ◌≡◌, refl, ◌∙◌, ap₂, String, false, not, Option, none, some, List, [], ◌∷◌, ◌++◌, append-nil,
  arith, is_nonneg, str_eq, if◌then◌else◌,
}
use krakend_otel.Telemetry.{Err, Value, int, secs, Attribute, Ctx, Instrument, Call, measure}
use krakend_otel.Http.Attributes.{HttpResponse}
use krakend_otel.Http.Client.Tracking.{RoundTripTracking}
use krakend_otel.Http.Client.Metrics.{TransportMetricsOptions, sem_conv1_27_metrics_filler}
use krakend_otel.Http.Client.Report.{
  report_with, error_calls, request_size_calls, response_size_calls, detail_calls, count,
}

-- The samples of the real instruments, by the instrument's name and the value, in their order.
abbrev pub recorded : List Call → List (String × Value)
recorded [] = []
recorded (measure i ctx v attrs ∷ cs) = if i.noop then recorded cs else (i.name, v) ∷ recorded cs
recorded (c ∷ cs) = recorded cs

recorded-append : (xs ys : List Call) → recorded (xs ++ ys) ≡ recorded xs ++ recorded ys
recorded-append [] ys = refl
recorded-append (x ∷ xs) ys = ground (arith, recorded-append xs ys)

recorded-parts :
    (c r e s d : List Call) (i : Instrument) (ctx : Ctx) (v : Value) (attrs : List Attribute)
    → i.noop ≡ false
    → recorded c ≡ []
    → recorded e ≡ []
    → recorded d ≡ []
    → recorded (c ++ (r ++ (e ++ measure i ctx v attrs ∷ (s ++ d))))
      ≡ recorded r ++ ((i.name, v) ∷ recorded s)
recorded-parts c r e s d i ctx v attrs real no_c no_e no_d = rw (
  recorded-append c,
  no_c,
  recorded-append r,
  recorded-append e,
  no_e,
  real,
  recorded-append s,
  no_d,
  append-nil,
)

module _ {B : Type 0} (o : TransportMetricsOptions) (client : String) (rtt : RoundTripTracking B)
    (attrs : List Attribute) (plain : o.detailed_connection ≡ false) where
  -- The size of the request's body, where its length is known.
  abbrev pub request_size : List (String × Value)
  request_size =
      if is_nonneg rtt.req.content_length
      then ("http.client.request.body.size", int rtt.req.content_length) ∷ []
      else []

  abbrev size_of : Option (HttpResponse B) → List (String × Value)
  size_of none = []
  size_of (some resp) =
      if is_nonneg resp.content_length
      then ("http.client.response.body.size", int resp.content_length) ∷ []
      else []

  -- That of the response's body, where there is a response of known length to another method than
  -- HEAD.
  abbrev pub response_size : List (String × Value)
  response_size = if not (str_eq rtt.req.method "HEAD") then size_of rtt.resp else []

  count-recorded :
      recorded (
        count
          (sem_conv1_27_metrics_filler o client)
          rtt
          attrs
          (sem_conv1_27_metrics_filler o client).requests_started)
      ≡ []
  unfolding sem_conv1_27_metrics_filler
  count-recorded = ground (arith, plain)

  request_size_calls-recorded :
      recorded (request_size_calls (sem_conv1_27_metrics_filler o client) rtt attrs) ≡ request_size
  unfolding request_size_calls sem_conv1_27_metrics_filler
  request_size_calls-recorded = ground arith

  error_calls-recorded :
      (err ctx_err : Option Err)
      → recorded (error_calls (sem_conv1_27_metrics_filler o client) rtt attrs err ctx_err) ≡ []
  unfolding error_calls sem_conv1_27_metrics_filler
  error_calls-recorded err ctx_err = ground (arith, plain)

  response_size_calls-recorded :
      recorded (response_size_calls (sem_conv1_27_metrics_filler o client) rtt attrs)
      ≡ response_size
  unfolding response_size_calls sem_conv1_27_metrics_filler
  response_size_calls-recorded = ground (arith, plain)

  detail_calls-recorded :
      recorded (detail_calls (sem_conv1_27_metrics_filler o client) rtt attrs) ≡ []
  unfolding detail_calls sem_conv1_27_metrics_filler
  detail_calls-recorded = ground (arith, plain)

  -- Under the convention 1.27, and without the detailed connection, a round trip is measured by its
  -- duration, by the size of the request's body if that is known, and by that of the response's body
  -- if it is known and the method is not HEAD. Nothing else is measured: an error, a cancellation, a
  -- timeout, a start and a response of unknown length are not counted.
  pub report_with-recorded :
      (ctx_err : Option Err)
      → recorded (report_with (sem_conv1_27_metrics_filler o client) rtt attrs ctx_err)
        ≡ request_size ++ (("http.client.request.duration", secs rtt.latency) ∷ response_size)
  unfolding report_with sem_conv1_27_metrics_filler
  report_with-recorded ctx_err =
      let m = sem_conv1_27_metrics_filler o client in
      recorded-parts (count m rtt attrs m.requests_started) (request_size_calls m rtt attrs)
        (error_calls m rtt attrs rtt.err ctx_err) (response_size_calls m rtt attrs)
        (detail_calls m rtt attrs) m.response_latency rtt.req.ctx (secs rtt.latency) attrs refl
        count-recorded (error_calls-recorded rtt.err ctx_err) detail_calls-recorded
      ∙ ap₂ (λ x y. x ++ (("http.client.request.duration", secs rtt.latency) ∷ y))
          request_size_calls-recorded response_size_calls-recorded
