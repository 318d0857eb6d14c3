-- ===== src/Http/Server/Tracking.antt =====
-- http/server/tracking.go: what is gathered while a request is served.
use krakend_otel.Prelude.{
  ℕ, String, Bool, false, not, Option, none, List, [], ◌∷◌, ℤ, pos, negsuc, concat, itoa, sub_time,
  str_eq, if◌then◌else◌, ◌==◌,
}
use krakend_otel.Telemetry.{Err, Attribute, Ctx, Headers, Span}

pub record Tracking : Type 0 where
  pub start_time : ℕ
  pub ctx : Ctx
  pub span : Option Span
  pub latency : ℤ
  -- the 64-bit pattern of an `int`
  pub response_size : ℕ
  pub response_status : ℤ
  pub response_headers : Option Headers
  pub write_errs : List Err
  pub endpoint_pattern : String
  pub is_hijacked : Bool
  pub metrics_static_attrs : List Attribute
  pub traces_static_attrs : List Attribute
  pub hijacked_err : Option Err

-- The table of `http.StatusText`.
abbrev status_texts : List (ℕ × String)
status_texts =
    (100, "Continue")
    ∷ (101, "Switching Protocols")
    ∷ (102, "Processing")
    ∷ (103, "Early Hints")
    ∷ (200, "OK")
    ∷ (201, "Created")
    ∷ (202, "Accepted")
    ∷ (203, "Non-Authoritative Information")
    ∷ (204, "No Content")
    ∷ (205, "Reset Content")
    ∷ (206, "Partial Content")
    ∷ (207, "Multi-Status")
    ∷ (208, "Already Reported")
    ∷ (226, "IM Used")
    ∷ (300, "Multiple Choices")
    ∷ (301, "Moved Permanently")
    ∷ (302, "Found")
    ∷ (303, "See Other")
    ∷ (304, "Not Modified")
    ∷ (305, "Use Proxy")
    ∷ (307, "Temporary Redirect")
    ∷ (308, "Permanent Redirect")
    ∷ (400, "Bad Request")
    ∷ (401, "Unauthorized")
    ∷ (402, "Payment Required")
    ∷ (403, "Forbidden")
    ∷ (404, "Not Found")
    ∷ (405, "Method Not Allowed")
    ∷ (406, "Not Acceptable")
    ∷ (407, "Proxy Authentication Required")
    ∷ (408, "Request Timeout")
    ∷ (409, "Conflict")
    ∷ (410, "Gone")
    ∷ (411, "Length Required")
    ∷ (412, "Precondition Failed")
    ∷ (413, "Request Entity Too Large")
    ∷ (414, "Request URI Too Long")
    ∷ (415, "Unsupported Media Type")
    ∷ (416, "Requested Range Not Satisfiable")
    ∷ (417, "Expectation Failed")
    ∷ (418, "I'm a teapot")
    ∷ (421, "Misdirected Request")
    ∷ (422, "Unprocessable Entity")
    ∷ (423, "Locked")
    ∷ (424, "Failed Dependency")
    ∷ (425, "Too Early")
    ∷ (426, "Upgrade Required")
    ∷ (428, "Precondition Required")
    ∷ (429, "Too Many Requests")
    ∷ (431, "Request Header Fields Too Large")
    ∷ (451, "Unavailable For Legal Reasons")
    ∷ (500, "Internal Server Error")
    ∷ (501, "Not Implemented")
    ∷ (502, "Bad Gateway")
    ∷ (503, "Service Unavailable")
    ∷ (504, "Gateway Timeout")
    ∷ (505, "HTTP Version Not Supported")
    ∷ (506, "Variant Also Negotiates")
    ∷ (507, "Insufficient Storage")
    ∷ (508, "Loop Detected")
    ∷ (510, "Not Extended")
    ∷ (511, "Network Authentication Required")
    ∷ []

text_in : List (ℕ × String) → ℕ → String
text_in [] code = ""
text_in ((c, text) ∷ texts) code = let rest = text_in texts code in if c == code then text else rest

-- `http.StatusText`
unfoldable pub status_text : ℤ → String
unfolding text_in
status_text (pos code) = text_in status_texts code
status_text (negsuc n) = ""

-- `EndpointPattern`
unfoldable pub endpoint_pattern_of : Tracking → String
endpoint_pattern_of t =
    if not (str_eq t.endpoint_pattern "")
    then t.endpoint_pattern
    else (if t.is_hijacked
        then "Upgraded Connection"
        else concat (itoa t.response_status) (concat " " (status_text t.response_status)))

-- `MetricsStaticAttributes` and `TracesStaticAttributes`
abbrev pub metrics_static_attributes : Tracking → List Attribute
metrics_static_attributes t = t.metrics_static_attrs

abbrev pub traces_static_attributes : Tracking → List Attribute
traces_static_attributes t = t.traces_static_attrs

-- `newTracking`, with the request's context that `ServeHTTP` stores in it at once
abbrev pub new_tracking : Ctx → Tracking
new_tracking ctx = record {
  start_time = 0;
  ctx = ctx;
  span = none;
  latency = pos 0;
  response_size = 0;
  response_status = pos 200;
  response_headers = none;
  write_errs = [];
  endpoint_pattern = "";
  is_hijacked = false;
  metrics_static_attrs = [];
  traces_static_attrs = [];
  hijacked_err = none;
}

-- `SetEndpointPattern`, where the context leads to this tracking
abbrev pub set_endpoint_pattern : String → Tracking → Tracking
set_endpoint_pattern pattern t = record t { endpoint_pattern = pattern }

-- `SetStaticAttributtes`, where the context leads to this tracking
abbrev pub set_static_attributes : List Attribute → List Attribute → Tracking → Tracking
set_static_attributes metrics traces t = record t {
  metrics_static_attrs = metrics;
  traces_static_attrs = traces;
}

-- `(*tracking).Start`
abbrev pub begin : ℕ → Tracking → Tracking
begin now t = record t { start_time = now }

-- `(*tracking).Finish`
abbrev pub stop : ℕ → Tracking → Tracking
stop now t = record t { latency = sub_time now t.start_time }
