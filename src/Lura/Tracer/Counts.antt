-- ===== src/Lura/Tracer/Counts.antt =====
-- How many spans the tracer of a stage ends.
use krakend_otel.Prelude.{String, ◌≡◌, refl, Option, none, some, List, [], ◌∷◌, ◌++◌, arith, ◌+◌}
use krakend_otel.Telemetry.{
  Headers, Err, Call, Ctx, Span, Starts, ends, samples, ends-append, samples-append, on_span,
  set_attributes, attr, bool, end_span,
}
use krakend_otel.Lura.Meter.{Response, complete}
use krakend_otel.Lura.Tracer.{MiddlewareTracer, header_calls, start, finish, outcome_calls}

abbrev pub Silent : List Call → Type 0
Silent calls = (ends calls ≡ 0) × (samples calls ≡ 0)

pub header_calls-Silent :
    (span : Span) (prefix : String) (skipped : Option (List String)) (hs : Headers)
    → Silent (header_calls span prefix skipped hs)
unfolding header_calls
header_calls-Silent span prefix skipped [] = (refl, refl)
header_calls-Silent span prefix skipped ((k, v) ∷ hs) =
    ground (arith, header_calls-Silent span prefix skipped hs)

pub start-Silent :
    (starts : Starts) (t : MiddlewareTracer) (ctx : Ctx) (hs : Headers)
    → Silent (start starts t ctx hs).2
unfolding start
start-Silent starts t ctx hs = ground (
  arith,
  header_calls-Silent (starts t.tracer ctx t.name).1 "http.request.header." t.skip_headers hs,
)

outcome_calls-Silent :
    (t : MiddlewareTracer) (span : Span) (resp : Option Response) (err : Option Err)
    → Silent (outcome_calls t span resp err)
outcome_calls-Silent t span none none = (refl, refl)
outcome_calls-Silent t span (some r) none =
    ground (arith, header_calls-Silent span "http.response.header." t.skip_headers r.headers)
outcome_calls-Silent t span resp (some e) = ground arith

pub finish_once :
    (t : MiddlewareTracer) (span : Span) (resp : Option Response) (err : Option Err)
    → (ends (finish t span resp err) ≡ 1) × (samples (finish t span resp err) ≡ 0)
unfolding finish
finish_once t span resp err =
    let last : List Call =
      on_span span (set_attributes (attr "complete" (bool (complete resp)) ∷ []))
      ∷ on_span span end_span
      ∷ [] in
    omega (
      arith,
      outcome_calls-Silent t span resp err,
      ends-append (outcome_calls t span resp err) last,
      samples-append (outcome_calls t span resp err) last,
    )

-- Calls of a stage that stand between an opening without samples and a report.
pub counts_between :
    (xs ys zs : List Call)
    → Silent xs
    → (ends (xs ++ (ys ++ zs)) ≡ ends ys + ends zs)
      × (samples (xs ++ (ys ++ zs)) ≡ samples ys + samples zs)
counts_between xs ys zs h = omega (
  arith,
  ends-append xs (ys ++ zs),
  ends-append ys zs,
  samples-append xs (ys ++ zs),
  samples-append ys zs,
)
