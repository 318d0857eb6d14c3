-- ===== src/Lura/Tracer.antt =====
-- lura/proxy_tracer.go: the span of a stage of the pipe. A map of headers is a list, in the order in
-- which Go happens to range over it.
pub mod Counts
pub mod Omits
pub mod Hides
use krakend_otel.Prelude.{
  String, Bool, true, false, not, ◌||◌, Option, none, some, List, [], ◌∷◌, ◌++◌, ℤ, pos, concat,
  if◌then◌else◌, is_some, map, contains, to_lower, canonical_header_key,
}
use krakend_otel.Telemetry.{
  Headers, Err, is_canceled, text, Attribute, attr, bool, str, strs, int, Ctx, Span, Tracer, Starts,
  Call, start_span, on_span, set_attributes, end_span,
}
use krakend_otel.Lura.Meter.{Response, complete}

-- `skip_headers` is nil where no header is named.
pub record MiddlewareTracer : Type 0 where
  pub name : String
  pub tracer : Tracer
  pub report_headers : Bool
  pub skip_headers : Option (List String)
  pub attrs : List Attribute

-- The set of the canonical names of the headers to skip, nil if there are none.
unfoldable pub skip_set : List String → Option (List String)
skip_set [] = none
skip_set (k ∷ ks) = some (map canonical_header_key (k ∷ ks))

-- `newMiddlewareTracer`, for the tracer of the OTEL state
unfoldable pub new_middleware_tracer :
    Option Tracer → String → String → Bool → List String → List Attribute → Option MiddlewareTracer
new_middleware_tracer none name stage_name report_headers skip_headers attrs = none
new_middleware_tracer (some tracer) name stage_name report_headers skip_headers attrs =
    some (record {
      name = name;
      tracer = tracer;
      report_headers = report_headers;
      skip_headers = skip_set skip_headers;
      attrs = attrs ++ attr "krakend.stage" (str stage_name) ∷ [];
    })

-- `t.skipHeaders == nil || !t.skipHeaders[hk]`
unfoldable pub kept : Option (List String) → String → Bool
kept none hk = true
kept (some skipped) hk = not (contains hk skipped)

-- The loop over the headers: one `SetAttributes` for each that is kept.
unfoldable pub header_calls : Span → String → Option (List String) → Headers → List Call
unfolding kept
header_calls span prefix skipped [] = []
header_calls span prefix skipped ((hk, hv) ∷ hs) =
    let rest = header_calls span prefix skipped hs in
    if kept skipped hk
    then on_span span (set_attributes (attr (concat prefix (to_lower hk)) (strs hv) ∷ [])) ∷ rest
    else rest

abbrev reported : MiddlewareTracer → Span → String → Headers → List Call
reported t span prefix hs =
    if t.report_headers then header_calls span prefix t.skip_headers hs else []

-- `start`, for a request with these headers
unfoldable pub start : Starts → MiddlewareTracer → Ctx → Headers → Ctx × Span × List Call
start starts t ctx headers =
    let (ctx', span) = starts t.tracer ctx t.name in
    (
      ctx',
      span,
      start_span t.tracer ctx t.name
          ∷ on_span span (set_attributes t.attrs)
          ∷ reported t span "http.request.header." headers,
    )

abbrev status : ℤ → Attribute
status code = attr "http.response.status_code" (int code)

abbrev outcome_calls : MiddlewareTracer → Span → Option Response → Option Err → List Call
outcome_calls t span resp (some err) =
    on_span span (
      set_attributes (
        (if is_canceled err then attr "canceled" (bool true) else attr "error" (str (text err)))
        ∷ []))
    ∷ on_span span (set_attributes (status (pos 500) ∷ []))
    ∷ []
outcome_calls t span none none = []
outcome_calls t span (some r) none =
    on_span span (set_attributes (status r.status_code ∷ []))
    ∷ reported t span "http.response.header." r.headers

-- `end`
unfoldable pub finish : MiddlewareTracer → Span → Option Response → Option Err → List Call
finish t span resp err =
    outcome_calls t span resp err
    ++ (on_span span (set_attributes (attr "complete" (bool (complete resp)) ∷ []))
        ∷ on_span span end_span
        ∷ [])
