-- ===== src/Http/Client/Report/Counts.antt =====
-- How a round trip is counted.
use krakend_otel.Prelude.{
  ℕ, ◌+◌, ◌≡◌, String, Bool, false, not, ◌&&◌, Option, List, [], ◌∷◌, ◌++◌, arith, ◌∙◌, ap₂, pos,
  is_some, str_eq, if◌then◌else◌,
}
use krakend_otel.Telemetry.{
  Err, is_canceled, is_deadline, opt_is, Value, int, secs, Attribute, Call, measure, count_if,
  count_if-append,
}
use krakend_otel.Http.Client.Tracking.{RoundTripTracking}
use krakend_otel.Http.Client.Metrics.{TransportMetricsOptions, no_sem_conv_metrics_filler}
use krakend_otel.Http.Client.Report.{
  report_with, error_calls, request_size_calls, response_size_calls, detail_calls,
}

-- A sample of the real instrument with this name.
abbrev pub of_name : String → Call → Bool
of_name name (measure i ctx v attrs) = str_eq i.name name && not i.noop
of_name name _ = false

abbrev one_if : Bool → ℕ
one_if b = if b then 1 else 0

abbrev pub times : String → List Call → ℕ
times name = count_if (of_name name)

times-append :
    (name : String) (xs ys : List Call) → times name (xs ++ ys) ≡ times name xs + times name ys
times-append name = count_if-append (of_name name)

abbrev started : String
started = "http.client.request.started.count"

abbrev failed_name : String
failed_name = "http.client.request.failed.count"

abbrev canceled_name : String
canceled_name = "http.client.request.canceled.count"

abbrev timed_out : String
timed_out = "http.client.request.timedout.count"

abbrev duration : String
duration = "http.client.duration"

-- How often the calls count a start, a failure, a cancellation, a timeout and a duration.
pub record Tally (calls : List Call) (s f c t d : ℕ) : Type 0 where
  pub starts : times started calls ≡ s
  pub failures : times failed_name calls ≡ f
  pub cancellations : times canceled_name calls ≡ c
  pub timeouts : times timed_out calls ≡ t
  pub durations : times duration calls ≡ d

Tally-append :
    {xs ys : List Call} {s f c t d s' f' c' t' d' : ℕ}
    → Tally xs s f c t d
    → Tally ys s' f' c' t' d'
    → Tally (xs ++ ys) (s + s') (f + f') (c + c') (t + t') (d + d')
Tally-append {xs} {ys} h k = record {
  starts = times-append started xs ys ∙ ap₂ ◌+◌ h.starts k.starts;
  failures = times-append failed_name xs ys ∙ ap₂ ◌+◌ h.failures k.failures;
  cancellations = times-append canceled_name xs ys ∙ ap₂ ◌+◌ h.cancellations k.cancellations;
  timeouts = times-append timed_out xs ys ∙ ap₂ ◌+◌ h.timeouts k.timeouts;
  durations = times-append duration xs ys ∙ ap₂ ◌+◌ h.durations k.durations;
}

module _ {B : Type 0} (o : TransportMetricsOptions) (client : String) (rtt : RoundTripTracking B)
    (attrs : List Attribute) where
  started-Tally :
      (v : Value)
      → Tally
          (measure (no_sem_conv_metrics_filler o client).requests_started rtt.req.ctx v attrs ∷ [])
          1
          0
          0
          0
          0
  unfolding no_sem_conv_metrics_filler
  started-Tally v = omega arith

  latency-Tally :
      (v : Value)
      → Tally
          (measure (no_sem_conv_metrics_filler o client).response_latency rtt.req.ctx v attrs ∷ [])
          0
          0
          0
          0
          1
  unfolding no_sem_conv_metrics_filler
  latency-Tally v = omega arith

  request_size_calls-Tally :
      Tally (request_size_calls (no_sem_conv_metrics_filler o client) rtt attrs) 0 0 0 0 0
  unfolding request_size_calls no_sem_conv_metrics_filler
  request_size_calls-Tally = ground arith

  response_size_calls-Tally :
      Tally (response_size_calls (no_sem_conv_metrics_filler o client) rtt attrs) 0 0 0 0 0
  unfolding response_size_calls no_sem_conv_metrics_filler
  response_size_calls-Tally = ground arith

  detail_calls-Tally :
      Tally (detail_calls (no_sem_conv_metrics_filler o client) rtt attrs) 0 0 0 0 0
  unfolding detail_calls no_sem_conv_metrics_filler
  detail_calls-Tally = ground arith

  error_calls-Tally :
      (err ctx_err : Option Err)
      → let canceled = opt_is is_canceled ctx_err in
        let failed = is_some err && not canceled in
        Tally
          (error_calls (no_sem_conv_metrics_filler o client) rtt attrs err ctx_err)
          0
          (one_if failed)
          (one_if (is_some err && canceled))
          (one_if (failed && opt_is is_deadline ctx_err))
          0
  unfolding error_calls no_sem_conv_metrics_filler
  error_calls-Tally err ctx_err = ground arith

  -- With the instruments that have no semantic convention, each round trip counts one start and one
  -- duration. A round trip with an error counts one cancellation if the context of the request is
  -- canceled, and otherwise one failure, with one timeout if the deadline of the context is
  -- exceeded; a round trip without an error counts none of these.
  pub report_with-Tally :
      (ctx_err : Option Err)
      → let canceled = opt_is is_canceled ctx_err in
        let failed = is_some rtt.err && not canceled in
        Tally
          (report_with (no_sem_conv_metrics_filler o client) rtt attrs ctx_err)
          1
          (one_if failed)
          (one_if (is_some rtt.err && canceled))
          (one_if (failed && opt_is is_deadline ctx_err))
          1
  unfolding report_with
  report_with-Tally ctx_err =
      let t = Tally-append (started-Tally (int (pos 1))) (
        Tally-append request_size_calls-Tally (
          Tally-append (error_calls-Tally rtt.err ctx_err) (
            Tally-append (latency-Tally (secs rtt.latency))
              (Tally-append response_size_calls-Tally detail_calls-Tally)))) in
      record {
        starts = omega (arith, t.starts);
        failures = omega (arith, t.failures);
        cancellations = omega (arith, t.cancellations);
        timeouts = omega (arith, t.timeouts);
        durations = omega (arith, t.durations);
      }
