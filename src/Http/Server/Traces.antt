-- ===== src/Http/Server/Traces.antt =====
-- http/server/traces.go: the span of a request that is served.
pub mod Hides
use krakend_otel.Prelude.{
  String, Bool, true, Option, none, some, List, [], ◌∷◌, ◌++◌, trim_space, map, is_empty, to_int64,
  if◌then◌else◌, Outcome, returned, panicked,
}
use krakend_otel.Telemetry.{
  Err, text, Attribute, attr, str, int, bool, Headers, Span, Tracer, Starts, Call, start_span,
  on_span, set_attributes, record_error, set_status, end_span, Code, Panic,
}
use krakend_otel.Http.Attributes.{HttpRequest, Url, trace_incoming_request_attrs}
use krakend_otel.Http.Server.Tracking.{Tracking, endpoint_pattern_of}
use krakend_otel.Lura.Tracer.{header_calls}

-- `trusted_proxies` is the list of the map's keys.
pub record TracesHttp : Type 0 where
  pub tracer : Option Tracer
  pub fixed_attrs : List Attribute
  pub report_headers : Bool
  pub skip_headers : Option (List String)
  pub trusted_proxies : List String

-- `newTracesHTTP`
unfoldable pub new_traces_http :
    Option Tracer → List Attribute → Bool → Option (List String) → List String → TracesHttp
new_traces_http tracer attrs report_headers skip_headers trusted = record {
  tracer = tracer;
  fixed_attrs = attrs;
  report_headers = report_headers;
  skip_headers = skip_headers;
  trusted_proxies = map trim_space trusted;
}

-- What the tracer answers, and whether a span is recording after the calls made so far.
pub record ServerTracing : Type 0 where
  pub starts : Starts
  pub recording : Span → List Call → Bool

abbrev pub opening_calls : TracesHttp → Span → HttpRequest → List Attribute → List Call
opening_calls t span r attrs =
    on_span span (set_attributes attrs)
    ∷ ((if is_empty t.fixed_attrs then [] else on_span span (set_attributes t.fixed_attrs) ∷ [])
        ++ (if t.report_headers
            then header_calls span "http.request.header." t.skip_headers r.header
            else []))

abbrev pub opened :
    TracesHttp
    → HttpRequest
    → Tracking
    → List Call
    → Span
    → Outcome Panic (List Attribute)
    → Outcome Panic (HttpRequest × Tracking × List Call)
opened t r tr calls span (panicked p) = panicked p
opened t r tr calls span (returned attrs) = returned (r, tr, calls ++ opening_calls t span r attrs)

module _ (w : ServerTracing) where
  abbrev pub start_with :
      TracesHttp
      → HttpRequest
      → Tracking
      → Option Tracer
      → Option Url
      → Outcome Panic (HttpRequest × Tracking × List Call)
  start_with t r tr none url = returned (r, tr, [])
  start_with t r tr (some tracer) none = returned (r, tr, [])
  start_with t r tr (some tracer) (some u) =
      let (ctx, span) = w.starts tracer r.ctx u.path in
      let r' : HttpRequest = record r { ctx = ctx } in
      opened t r' (record tr { ctx = ctx; span = some span }) (start_span tracer r.ctx u.path ∷ [])
        span (trace_incoming_request_attrs r' t.trusted_proxies)

  -- `start`
  unfoldable pub start :
      Option TracesHttp
      → HttpRequest
      → Tracking
      → Outcome Panic (HttpRequest × Tracking × List Call)
  start none r tr = returned (r, tr, [])
  start (some t) r tr = start_with t r tr t.tracer r.url

  abbrev pub hijack_error_calls : Span → Option Err → List Call
  hijack_error_calls span none = []
  hijack_error_calls span (some e) =
      on_span span (set_attributes (attr "http.connection.error" (str (text e)) ∷ [])) ∷ []

  abbrev pub hijack_calls : Span → Tracking → List Call
  hijack_calls span tr =
      if tr.is_hijacked
      then on_span span (set_attributes (attr "http.connection.hijacked" (bool true) ∷ []))
        ∷ hijack_error_calls span tr.hijacked_err
      else []

  abbrev pub response_header_calls : TracesHttp → Span → Option Headers → List Call
  response_header_calls t span none = []
  response_header_calls t span (some hs) =
      header_calls span "http.response.header." t.skip_headers hs

  abbrev pub status_calls : Span → List Err → List Call
  status_calls span [] = on_span span (set_status Code.ok "") ∷ []
  status_calls span (e ∷ es) =
      on_span span (record_error e) ∷ on_span span (set_status Code.error (text e)) ∷ []

  abbrev pub end_calls : TracesHttp → Span → Tracking → List Call
  end_calls t span tr =
      hijack_calls span tr
      ++ (on_span span (
            set_attributes (
              attr "http.route" (str (endpoint_pattern_of tr))
              ∷ attr "http.response.status_code" (int tr.response_status)
              ∷ attr "http.response.body.size" (int (to_int64 tr.response_size))
              ∷ []))
          ∷ on_span span (set_attributes tr.traces_static_attrs)
          ∷ (response_header_calls t span tr.response_headers
              ++ (status_calls span tr.write_errs ++ on_span span end_span ∷ [])))

  abbrev pub end_with : TracesHttp → Tracking → List Call → Option Span → List Call
  end_with t tr log none = []
  end_with t tr log (some span) = if w.recording span log then end_calls t span tr else []

  -- `end`, after the calls in `log`
  unfoldable pub finish : Option TracesHttp → Tracking → List Call → List Call
  finish none tr log = []
  finish (some t) tr log = end_with t tr log tr.span
