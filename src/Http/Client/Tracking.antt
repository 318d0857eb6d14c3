-- ===== src/Http/Client/Tracking.antt =====
-- http/client/transport_tracking.go: what is gathered during one round trip. The hooks of
-- net/http/httptrace are events, each with the time at which it is called; the methods of
-- some of them are empty. `B` is the type of the bodies.
use krakend_otel.Prelude.{ℕ, Bool, true, false, Option, none, List, [], ◌∷◌, ℤ, pos, sub_time}
use krakend_otel.Telemetry.{Err, Span}
use krakend_otel.Http.Attributes.{HttpRequest, HttpResponse}

pub record RoundTripTracking (B : Type 0) : Type 0 where
  pub req : HttpRequest
  pub resp : Option (HttpResponse B)
  pub span : Option Span
  pub latency : ℤ
  pub err : Option Err
  pub get_conn_start : ℕ
  pub get_conn_latency : ℤ
  pub first_byte_time : ℕ
  pub dns_start : ℕ
  pub dns_latency : ℤ
  pub tls_start : ℕ
  pub tls_latency : ℤ
  -- whether `withClientTrace` has put the hooks into the request's context
  pub hooked : Bool

-- `roundTripTracking{req: req}`
abbrev pub new_tracking : {B : Type 0} → HttpRequest → RoundTripTracking B
new_tracking req = record {
  req = req;
  resp = none;
  span = none;
  latency = pos 0;
  err = none;
  get_conn_start = 0;
  get_conn_latency = pos 0;
  first_byte_time = 0;
  dns_start = 0;
  dns_latency = pos 0;
  tls_start = 0;
  tls_latency = pos 0;
  hooked = false;
}

pub data Hook : Type 0 where
  get_conn got_conn first_response_byte dns_started dns_done tls_started tls_done : Hook
  put_idle_conn got_100_continue got_1xx_response connect_started connect_done : Hook
  wrote_header_field wrote_headers wait_100_continue wrote_request : Hook

module _ {B : Type 0} where
  -- `withClientTrace`
  unfoldable pub with_client_trace : RoundTripTracking B → RoundTripTracking B
  with_client_trace t = record t { hooked = true }

  -- The methods `GetConn`, `GotConn`, `GotFirstResponseByte`, `DNSStart`, `DNSDone`,
  -- `TLSHandshakeStart` and `TLSHandshakeDone`
  unfoldable pub on_hook : Hook → ℕ → RoundTripTracking B → RoundTripTracking B
  on_hook get_conn now t = record t { get_conn_start = now }
  on_hook got_conn now t = record t { get_conn_latency = sub_time now t.get_conn_start }
  on_hook first_response_byte now t = record t { first_byte_time = now }
  on_hook dns_started now t = record t { dns_start = now }
  on_hook dns_done now t = record t { dns_latency = sub_time now t.dns_start }
  on_hook tls_started now t = record t { tls_start = now }
  on_hook tls_done now t = record t { tls_latency = sub_time now t.tls_start }
  on_hook _ now t = t

  -- The hooks that are called during a round trip.
  unfoldable pub run_hooks : List (Hook × ℕ) → RoundTripTracking B → RoundTripTracking B
  unfolding on_hook
  run_hooks [] t = t
  run_hooks ((h, now) ∷ hs) t = run_hooks hs (on_hook h now t)
