-- ===== src/Http/Client/Report.antt =====
-- http/client/transport_metrics.go: the report of a round trip.
pub mod Port
pub mod Counts
pub mod SemConv
use Prim.Native.Char.{code}
use Prim.Native.String
use krakend_otel.Prelude.{
  ℕ, ◌+◌, ◌-◌, ◌*◌, String, Bool, true, false, not, ◌&&◌, Option, none, some, List, [], ◌∷◌, ◌++◌,
  ℤ, pos, negsuc, is_nonneg, leb, ltb, if◌then◌else◌, str_eq, is_some, Outcome, returned, panicked,
  ◌==◌,
}
use krakend_otel.Telemetry.{
  Err, is_canceled, is_deadline, opt_is, Attribute, attr, str, int, secs, Ctx, Instrument, Call,
  measure, Panic, nil_dereference,
}
use krakend_otel.Http.Attributes.{HttpRequest, HttpResponse, Url}
use krakend_otel.Http.Client.Tracking.{RoundTripTracking}
use krakend_otel.Http.Client.Metrics.{TransportMetrics}

pub data Digits : Type 0 where
  number : ℕ → Digits
  out_of_range not_digits : Digits

-- `strconv.ParseUint(s, 10, 32)` behind the digits read so far
parse_digits : ℕ → String → Digits
parse_digits n String.[] = number n
parse_digits n (String.◌∷◌ c s) =
    let n' = n * 10 + (code c - b'0') in
    let rest = parse_digits n' s in
    if leb b'0' (code c) && leb (code c) b'9'
    then (if ltb 4294967295 n' then out_of_range else rest)
    else not_digits

-- The sign and the digits: whether the number is negative, and its absolute value.
abbrev signed : Bool → Digits → ℤ × Bool
signed false (number n) = if leb 2147483648 n then (pos 2147483647, true) else (pos n, false)
signed true (number n) =
    if ltb 2147483648 n
    then (negsuc 2147483647, true)
    else (if n == 0 then pos 0 else negsuc (n - 1), false)
signed false out_of_range = (pos 2147483647, true)
signed true out_of_range = (negsuc 2147483647, true)
signed neg not_digits = (pos 0, true)

unsigned_digits : String → Digits
unfolding parse_digits
unsigned_digits String.[] = not_digits
unsigned_digits (String.◌∷◌ c s) = parse_digits 0 (String.◌∷◌ c s)

-- `strconv.ParseInt(s, 10, 32)`: the number, and whether the error is not nil
unfoldable pub parse_int32 : String → ℤ × Bool
unfolding unsigned_digits
parse_int32 String.[] = (pos 0, true)
parse_int32 (String.◌∷◌ c s) =
    if code c == b'+'
    then signed false (unsigned_digits s)
    else (if code c == b'-'
        then signed true (unsigned_digits s)
        else signed false (unsigned_digits (String.◌∷◌ c s)))

abbrev port_of : ℤ × Bool → ℤ
port_of (p, err) = if err then p else pos 80

-- `requestServerAndPort`
unfoldable pub request_server_and_port : HttpRequest → String × ℤ
request_server_and_port r = elim r.url [
  | none ↦ (r.host, pos 80)
  | some u ↦ (u.hostname, port_of (parse_int32 u.port))
]

module _ {B : Type 0} where
  -- `rtt.resp.StatusCode`, read where the error is nil
  abbrev pub status_of : Option Err → Option (HttpResponse B) → Outcome Panic ℤ
  status_of (some e) resp = returned (pos 0)
  status_of none none = panicked nil_dereference
  status_of none (some resp) = returned resp.status_code

  abbrev pub status_code : RoundTripTracking B → Outcome Panic ℤ
  status_code rtt = status_of rtt.err rtt.resp

  -- The attributes of every sample, for the status code.
  abbrev pub sample_attrs :
      TransportMetrics → RoundTripTracking B → List Attribute → ℤ → List Attribute
  sample_attrs m rtt attrs status =
      let (address, port) = request_server_and_port rtt.req in
      attrs
      ++ ((if str_eq m.client_name "" then [] else attr "clientname" (str m.client_name) ∷ [])
          ++ (attr "http.request.method" (str rtt.req.method)
              ∷ attr "server.address" (str address)
              ∷ attr "server.port" (int port)
              ∷ attr "http.response.status_code" (int status)
              ∷ []))

  abbrev pub attributes_for :
      TransportMetrics
      → RoundTripTracking B
      → List Attribute
      → Outcome Panic ℤ
      → Outcome Panic (List Attribute)
  attributes_for m rtt attrs (returned status) = returned (sample_attrs m rtt attrs status)
  attributes_for m rtt attrs (panicked p) = panicked p

  -- `attributesOption`
  unfoldable pub attributes_option :
      TransportMetrics → RoundTripTracking B → List Attribute → Outcome Panic (List Attribute)
  attributes_option m rtt attrs = attributes_for m rtt attrs (status_code rtt)

  module _ (m : TransportMetrics) (rtt : RoundTripTracking B) (opts : List Attribute) where
    abbrev pub count : Instrument → List Call
    count i = measure i rtt.req.ctx (int (pos 1)) opts ∷ []

    -- What an error is counted as, by the error of the request's context.
    unfoldable pub error_calls : Option Err → Option Err → List Call
    error_calls none ctx_err = []
    error_calls (some e) ctx_err =
        if opt_is is_canceled ctx_err
        then count m.requests_canceled
        else (if opt_is is_deadline ctx_err
            then count m.requests_timed_out ++ count m.requests_failed
            else count m.requests_failed)

    unfoldable pub request_size_calls : List Call
    request_size_calls =
        if is_nonneg rtt.req.content_length
        then measure m.request_content_length rtt.req.ctx (int rtt.req.content_length) opts
          ∷ measure m.request_content_length_hist rtt.req.ctx (int rtt.req.content_length) opts
          ∷ []
        else []

    abbrev response_calls : Option (HttpResponse B) → List Call
    response_calls none = []
    response_calls (some resp) =
        if is_nonneg resp.content_length
        then measure m.response_content_length rtt.req.ctx (int resp.content_length) opts ∷ []
        else count m.response_no_content_length

    unfoldable pub response_size_calls : List Call
    response_size_calls = if not (str_eq rtt.req.method "HEAD") then response_calls rtt.resp else []

    unfoldable pub detail_calls : List Call
    detail_calls =
        if m.details_enabled
        then measure m.get_conn_latency rtt.req.ctx (secs rtt.get_conn_latency) opts
          ∷ measure m.dns_latency rtt.req.ctx (secs rtt.dns_latency) opts
          ∷ measure m.tls_latency rtt.req.ctx (secs rtt.tls_latency) opts
          ∷ []
        else []

    -- `report`, once the attributes are known
    unfoldable pub report_with : Option Err → List Call
    report_with ctx_err =
        count m.requests_started
        ++ (request_size_calls
            ++ (error_calls rtt.err ctx_err
                ++ (measure m.response_latency rtt.req.ctx (secs rtt.latency) opts
                    ∷ (response_size_calls ++ detail_calls))))

  abbrev pub report_for :
      TransportMetrics
      → RoundTripTracking B
      → Option Err
      → Outcome Panic (List Attribute)
      → Outcome Panic (List Call)
  report_for m rtt ctx_err (returned opts) = returned (report_with m rtt opts ctx_err)
  report_for m rtt ctx_err (panicked p) = panicked p

  -- `report`; `ctx_err` is the error of the request's context
  unfoldable pub report :
      Option TransportMetrics
      → RoundTripTracking B
      → List Attribute
      → Option Err
      → Outcome Panic (List Call)
  report none rtt attrs ctx_err = returned []
  report (some m) rtt attrs ctx_err = report_for m rtt ctx_err (attributes_option m rtt attrs)
