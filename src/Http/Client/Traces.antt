-- ===== src/Http/Client/Traces.antt =====
-- http/client/transport_traces.go: the span of a round trip.
use krakend_otel.Prelude.{
  String, Bool, ◌&&◌, ◌||◌, Option, none, some, List, [], ◌∷◌, ◌++◌, concat, if◌then◌else◌,
  to_lower, Outcome, returned, panicked,
}
use krakend_otel.Telemetry.{
  Err, text, Attribute, attr, strs, secs, Ctx, Headers, Span, Tracer, Starts, Call, start_span,
  on_span, inject, set_attributes, record_error, set_status, add_event, end_span, Code, Panic,
}
use krakend_otel.Http.Attributes.{HttpResponse, trace_request_attrs, trace_response_attrs}
use krakend_otel.Http.Client.Tracking.{RoundTripTracking}
use krakend_otel.Lura.Tracer.{skip_set, kept}

pub record TransportTracesOptions : Type 0 where
  pub round_trip : Bool
  pub read_payload : Bool
  pub detailed_connection : Bool
  pub fixed_attributes : List Attribute
  pub report_headers : Bool
  pub skip_headers : List String

-- `Enabled`
unfoldable pub traces_enabled : TransportTracesOptions → Bool
traces_enabled o = o.round_trip || o.read_payload

pub record TransportTraces : Type 0 where
  pub tracer : Tracer
  pub span_name : String
  pub fixed_attrs : List Attribute
  pub detailed_connection : Bool
  pub report_headers : Bool
  pub skip_headers : Option (List String)

-- `newTransportTraces`: nil without a tracer
unfoldable pub new_transport_traces :
    TransportTracesOptions → Option Tracer → String → Option TransportTraces
new_transport_traces opts none span_name = none
new_transport_traces opts (some tracer) span_name = some (record {
  tracer = tracer;
  span_name = span_name;
  fixed_attrs = opts.fixed_attributes;
  detailed_connection = opts.detailed_connection;
  report_headers = opts.report_headers;
  skip_headers = skip_set opts.skip_headers;
})

-- The attributes of the headers that are reported and not skipped.
unfoldable pub header_attrs : Bool → String → Option (List String) → Headers → List Attribute
header_attrs report prefix skipped [] = []
header_attrs report prefix skipped ((k, v) ∷ hs) =
    let rest = header_attrs report prefix skipped hs in
    if report && kept skipped k then attr (concat prefix (to_lower k)) (strs v) ∷ rest else rest

-- What the tracer, its spans and the propagator answer: whether a span is recording when it has
-- just started and when the round trip is over, and the headers with the context put in.
pub record Tracing : Type 0 where
  pub starts : Starts
  pub recording : Span → Bool
  pub still_recording : Span → Bool
  pub injected : Ctx → Headers → Headers

module _ {B : Type 0} (w : Tracing) where
  -- The rest of `start`, for a span that records.
  abbrev pub start_recording :
      TransportTraces
      → RoundTripTracking B
      → Ctx
      → Span
      → Outcome Panic (List Attribute)
      → Outcome Panic (RoundTripTracking B × List Call)
  start_recording t rtt ctx span (panicked p) = panicked p
  start_recording t rtt ctx span (returned attrs) =
      let req = record (rtt.req) { ctx = ctx; header = w.injected ctx rtt.req.header } in
      returned (
        record rtt { span = some span; req = req },
        inject ctx
            ∷ on_span span (set_attributes t.fixed_attrs)
            ∷ on_span span (
                set_attributes (
                  attrs
                  ++ header_attrs t.report_headers "http.request.header." t.skip_headers
                      rtt.req.header))
            ∷ [],
      )

  abbrev pub prefixed :
      List Call
      → Outcome Panic (RoundTripTracking B × List Call)
      → Outcome Panic (RoundTripTracking B × List Call)
  prefixed calls (panicked p) = panicked p
  prefixed calls (returned (rtt, more)) = returned (rtt, calls ++ more)

  -- `start`; the request is never nil
  unfoldable pub start :
      Option TransportTraces → RoundTripTracking B → Outcome Panic (RoundTripTracking B × List Call)
  start none rtt = returned (rtt, [])
  start (some t) rtt =
      let (ctx, span) = w.starts t.tracer rtt.req.ctx t.span_name in
      let opened = start_span t.tracer rtt.req.ctx t.span_name ∷ [] in
      if w.recording span
      then prefixed opened (start_recording t rtt ctx span (trace_request_attrs rtt.req))
      else returned (rtt, opened)

  abbrev detail_calls : TransportTraces → RoundTripTracking B → Span → List Call
  detail_calls t rtt span =
      if t.detailed_connection
      then on_span span (
          set_attributes (
            attr "get-conn-duration" (secs rtt.get_conn_latency)
            ∷ attr "dns-duration" (secs rtt.dns_latency)
            ∷ attr "tls-duration" (secs rtt.tls_latency)
            ∷ []))
        ∷ on_span span (add_event "first-byte-time" rtt.first_byte_time)
        ∷ []
      else []

  abbrev response_header : Option (HttpResponse B) → Headers
  response_header none = []
  response_header (some resp) = resp.header

  -- Without an error the response is not nil: reading its headers would panic.
  abbrev end_calls : TransportTraces → RoundTripTracking B → Span → Option Err → List Call
  end_calls t rtt span (some e) =
      on_span span (record_error e) ∷ on_span span (set_status Code.error (text e)) ∷ []
  end_calls t rtt span none =
      on_span span (
        set_attributes (
          trace_response_attrs rtt.resp
          ++ header_attrs t.report_headers "http.response.header." t.skip_headers
              (response_header rtt.resp)))
      ∷ on_span span (set_attributes (attr "response-duration" (secs rtt.latency) ∷ []))
      ∷ (detail_calls t rtt span ++ on_span span (set_status Code.ok "") ∷ [])

  abbrev end_span_of : TransportTraces → RoundTripTracking B → Option Span → List Call
  end_span_of t rtt none = []
  end_span_of t rtt (some span) =
      if w.still_recording span
      then end_calls t rtt span rtt.err ++ on_span span end_span ∷ []
      else []

  -- `end`
  unfoldable pub finish : Option TransportTraces → RoundTripTracking B → List Call
  finish none rtt = []
  finish (some t) rtt = end_span_of t rtt rtt.span
