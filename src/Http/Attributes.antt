-- ===== src/Http/Attributes.antt =====
-- http/attributes.go: the attributes of requests and responses.
pub mod Address
use krakend_otel.Prelude.{
  ℕ, zero, suc, ◌-◌, String, Bool, true, false, not, Option, none, some, List, [], ◌∷◌, ◌++◌, ℤ,
  is_nonneg, if◌then◌else◌, str_eq, lookup, get_or, length, trim_space, split_comma, contains,
  is_empty, Outcome, returned, panicked,
}
use krakend_otel.Telemetry.{Attribute, attr, str, int, Ctx, Headers, Panic, nil_dereference}

-- `url.URL`, by what its methods and fields give.
pub record Url : Type 0 where
  -- `String()`
  pub full : String
  pub scheme : String
  pub path : String
  -- `Hostname()` and `Port()`
  pub hostname : String
  pub port : String

-- `http.Request`, as far as it is read.
pub record HttpRequest : Type 0 where
  pub url : Option Url
  pub host : String
  pub method : String
  pub content_length : ℤ
  pub header : Headers
  pub remote_addr : String
  pub ctx : Ctx

-- `http.Response`, as far as it is read.
pub record HttpResponse (B : Type 0) : Type 0 where
  pub status_code : ℤ
  pub content_length : ℤ
  pub header : Headers
  pub body : Option B

abbrev first_value : Option (List String) → String
first_value none = ""
first_value (some []) = ""
first_value (some (v ∷ vs)) = v

-- `r.UserAgent()`
abbrev user_agent : HttpRequest → String
user_agent r = first_value (lookup "User-Agent" r.header)

abbrev pub request_attrs : Url → HttpRequest → List Attribute
request_attrs url r =
    (attr "url.full" (str url.full)
      ∷ attr "server.address" (str r.host)
      ∷ attr "http.request.method" (str r.method)
      ∷ [])
    ++ ((if is_nonneg r.content_length
          then attr "http.request.body.size" (int r.content_length) ∷ []
          else [])
        ++ (if not (str_eq (user_agent r) "")
            then attr "user_agent.original" (str (user_agent r)) ∷ []
            else []))

-- `TraceRequestAttrs`, which panics without a URL
unfoldable pub trace_request_attrs : HttpRequest → Outcome Panic (List Attribute)
trace_request_attrs r = elim r.url [
  | none ↦ panicked nil_dereference
  | some url ↦ returned (request_attrs url r)
]

-- The loop of `clientAddr` from the index down to 1.
scan : List String → List String → ℕ → Option String
scan trusted s zero = none
scan trusted s (suc i) =
    let ip = trim_space (get_or s (suc i) "") in
    let further = scan trusted s i in if not (contains ip trusted) then some ip else further

abbrev or_first : List String → Option String → String
or_first s none = trim_space (get_or s 0 "")
or_first s (some ip) = ip

-- The address in the first value of the header: `s` is never empty.
unfoldable pub forwarded_addr : List String → String → String
unfolding scan
forwarded_addr trusted value =
    let s = split_comma value in or_first s (scan trusted s (length s - 1))

-- `vals, ok := r.Header["X-Forwarded-For"]`, and "X-Real-Ip" if it is not there
abbrev forwarded_values : Headers → Option (List String)
forwarded_values h = elim (lookup "X-Forwarded-For" h) [
  | none ↦ lookup "X-Real-Ip" h
  | some vals ↦ some vals
]

abbrev addr_of : List String → String → Option (List String) → String
addr_of trusted remote none = remote
addr_of trusted remote (some []) = remote
addr_of trusted remote (some (v ∷ vs)) = forwarded_addr trusted v

-- `clientAddr`; the map of the trusted proxies is the list of its keys
unfoldable pub client_addr : HttpRequest → List String → String
client_addr r trusted =
    if str_eq r.remote_addr ""
    then ""
    else (if is_empty trusted
        then r.remote_addr
        else addr_of trusted r.remote_addr (forwarded_values r.header))

abbrev pub with_client_addr : List Attribute → String → List Attribute
with_client_addr attrs addr =
    if not (str_eq addr "") then attrs ++ attr "client.address" (str addr) ∷ [] else attrs

-- `TraceIncomingRequestAttrs`
unfoldable pub trace_incoming_request_attrs :
    HttpRequest → List String → Outcome Panic (List Attribute)
unfolding trace_request_attrs
trace_incoming_request_attrs r trusted = elim (trace_request_attrs r) [
  | panicked p ↦ panicked p
  | returned attrs ↦ returned (with_client_addr attrs (client_addr r trusted))
]

-- `TraceResponseAttrs`
unfoldable pub trace_response_attrs : {B : Type 0} → Option (HttpResponse B) → List Attribute
trace_response_attrs none = []
trace_response_attrs (some resp) =
    attr "http.response.status_code" (int resp.status_code)
    ∷ attr "http.response.body.size" (int resp.content_length)
    ∷ []
