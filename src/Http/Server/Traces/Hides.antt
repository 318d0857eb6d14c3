-- ===== src/Http/Server/Traces/Hides.antt =====
-- http/server/traces.go: the headers that the span of a request leaves out.
use krakend_otel.Prelude.{
  String, Bool, true, false, ◌≡◌, refl, Option, none, some, List, [], ◌∷◌, ◌++◌, contains,
  all_token, All, All-append, Bool-cases, inl, inr, arith, Outcome, returned, panicked,
  if◌then◌else◌, has_prefix, str_eq, Option-cases, is_empty, to_int64,
}
use krakend_otel.Telemetry.{
  Err, Attribute, attr, str, int, bool, text, on_span, set_attributes, start_span, Headers, Call,
  Span, Panic, Tracer,
}
use krakend_otel.Http.Attributes.{
  HttpRequest, Url, trace_request_attrs, trace_incoming_request_attrs, request_attrs,
  with_client_addr, client_addr,
}
use krakend_otel.Lura.Tracer.{skip_set, header_calls}
use krakend_otel.Lura.Tracer.Omits.{
  Canonical, Hidden, Unnamed, request_headers-Hidden, response_headers-Hidden, is_plain,
  is_plain-Unnamed,
}
use krakend_otel.Http.Server.Tracking.{Tracking, endpoint_pattern_of}
use krakend_otel.Http.Server.Traces.{
  TracesHttp, ServerTracing, start, start_with, opened, opening_calls, finish, end_with, end_calls,
  hijack_calls, hijack_error_calls, response_header_calls, status_calls,
}

request_attrs-plain : (u : Url) (r : HttpRequest) → is_plain (request_attrs u r) ≡ true
unfolding has_prefix
request_attrs-plain u r = ground arith

is_plain-append :
    (xs ys : List Attribute) → is_plain xs ≡ true → is_plain ys ≡ true → is_plain (xs ++ ys) ≡ true
is_plain-append [] ys p q = q
is_plain-append (x ∷ xs) ys p q = ground (arith, is_plain-append xs ys (ground (arith, p)) q)

with_client_addr-plain :
    (attrs : List Attribute) (addr : String)
    → is_plain attrs ≡ true
    → is_plain (with_client_addr attrs addr) ≡ true
unfolding has_prefix
with_client_addr-plain attrs addr p = elim (Bool-cases (str_eq addr "")) [
  | inl empty ↦ rw empty p
  | inr there ↦ rw there (is_plain-append attrs _ p refl)
]

-- The attributes of a request, where there are any, have none of the keys.
abbrev ArePlain : Outcome Panic (List Attribute) → Type 0
ArePlain (panicked p) = Unit
ArePlain (returned attrs) = is_plain attrs ≡ true

incoming-ArePlain :
    (r : HttpRequest) (trusted : List String) → ArePlain (trace_incoming_request_attrs r trusted)
unfolding trace_incoming_request_attrs trace_request_attrs client_addr
incoming-ArePlain r trusted = elim (Option-cases r.url) [
  | inl missing ↦ rw missing tt
  | inr (u, e) ↦
      rw e (
        with_client_addr-plain (request_attrs u r) (client_addr r trusted)
          (request_attrs-plain u r))
]

if_All :
    {A : Type 0} (P : A → Type 0) (b : Bool) (xs ys : List A)
    → All P xs
    → All P ys
    → All P (if b then xs else ys)
if_All P true xs ys p q = p
if_All P false xs ys p q = q

-- The traces skip the headers of the list, and their fixed attributes have none of the keys.
abbrev pub Skips : String → List String → Option TracesHttp → Type 0
Skips k ks none = Unit
Skips k ks (some t) = (t.skip_headers ≡ skip_set ks) × Unnamed k t.fixed_attrs

abbrev pub gathered : Option Headers → Headers
gathered none = []
gathered (some hs) = hs

-- What holds while the request is served.
abbrev pub Hides : String → Tracking → List Call → Type 0
Hides k tr log =
    All (Hidden k) log × Unnamed k tr.traces_static_attrs × Canonical (gathered tr.response_headers)

-- What has been started, if there is no panic.
abbrev pub Opened : String → Outcome Panic (HttpRequest × Tracking × List Call) → Type 0
Opened k (panicked p) = Unit
Opened k (returned (r, tr, calls)) = Hides k tr calls

module _ (k : String) (ks : List String) (named : contains k ks ≡ true)
    (token : all_token k ≡ true) where
  opening_calls-Hidden :
      (t : TracesHttp) (span : Span) (r : HttpRequest) (attrs : List Attribute)
      → Skips k ks (some t)
      → Canonical r.header
      → is_plain attrs ≡ true
      → All (Hidden k) (opening_calls t span r attrs)
  opening_calls-Hidden t span r attrs (skips, fixed) canonical plain =
      let headers = header_calls span "http.request.header." t.skip_headers r.header in
      let reported : All (Hidden k) headers =
        rw skips (request_headers-Hidden k ks named token span r.header canonical) in
      (
        is_plain-Unnamed k attrs plain,
        All-append (Hidden k)
            (if is_empty t.fixed_attrs
              then []
              else on_span span (set_attributes t.fixed_attrs) ∷ [])
            (if t.report_headers then headers else [])
            (if_All (Hidden k) (is_empty t.fixed_attrs) [] _ tt (fixed, tt))
            (if_All (Hidden k) t.report_headers headers [] reported tt),
      )

  hijack_error_calls-Hidden :
      (w : ServerTracing) (span : Span) (err : Option Err)
      → All (Hidden k) (hijack_error_calls w span err)
  unfolding has_prefix
  hijack_error_calls-Hidden w span none = tt
  hijack_error_calls-Hidden w span (some e) =
      (is_plain-Unnamed k (attr "http.connection.error" (str (text e)) ∷ []) refl, tt)

  hijack_calls-Hidden :
      (w : ServerTracing) (span : Span) (tr : Tracking) → All (Hidden k) (hijack_calls w span tr)
  unfolding has_prefix
  hijack_calls-Hidden w span tr =
      if_All (Hidden k) tr.is_hijacked _ []
        (
          is_plain-Unnamed k (attr "http.connection.hijacked" (bool true) ∷ []) refl,
          hijack_error_calls-Hidden w span tr.hijacked_err,
        )
        tt

  status_calls-Hidden :
      (w : ServerTracing) (span : Span) (errs : List Err)
      → All (Hidden k) (status_calls w span errs)
  status_calls-Hidden w span [] = ((tt, tt), tt)
  status_calls-Hidden w span (e ∷ es) = ((tt, tt), ((tt, tt), tt))

  response_header_calls-Hidden :
      (w : ServerTracing) (t : TracesHttp) (span : Span) (hs : Option Headers)
      → t.skip_headers ≡ skip_set ks
      → Canonical (gathered hs)
      → All (Hidden k) (response_header_calls w t span hs)
  response_header_calls-Hidden w t span none skips c = tt
  response_header_calls-Hidden w t span (some hs) skips c =
      rw skips (response_headers-Hidden k ks named token span hs c)

  end_calls-Hidden :
      (w : ServerTracing) (t : TracesHttp) (span : Span) (tr : Tracking)
      → Skips k ks (some t)
      → Unnamed k tr.traces_static_attrs
      → Canonical (gathered tr.response_headers)
      → All (Hidden k) (end_calls w t span tr)
  unfolding has_prefix
  end_calls-Hidden w t span tr (skips, fixed) static canonical =
      All-append (Hidden k) (hijack_calls w span tr) _ (hijack_calls-Hidden w span tr) (
        is_plain-Unnamed k
            (attr "http.route" (str (endpoint_pattern_of tr))
              ∷ attr "http.response.status_code" (int tr.response_status)
              ∷ attr "http.response.body.size" (int (to_int64 tr.response_size))
              ∷ [])
            refl,
        (
          static,
          All-append (Hidden k) (response_header_calls w t span tr.response_headers) _
              (response_header_calls-Hidden w t span tr.response_headers skips canonical)
              (All-append (Hidden k) (status_calls w span tr.write_errs) _
                (status_calls-Hidden w span tr.write_errs) ((tt, tt), tt)),
        ),
      )

  opened-Opened :
      (w : ServerTracing) (t : TracesHttp) (r : HttpRequest) (tr : Tracking) (log : List Call)
      (span : Span) (attrs : Outcome Panic (List Attribute))
      → Skips k ks (some t)
      → Canonical r.header
      → ArePlain attrs
      → Hides k tr log
      → Opened k (opened t r tr log span attrs)
  opened-Opened w t r tr log span (panicked p) skips canonical plain h = tt
  opened-Opened w t r tr log span (returned attrs) skips canonical plain (hidden, static, gathers) =
      (
        All-append (Hidden k) log (opening_calls t span r attrs) hidden
            (opening_calls-Hidden t span r attrs skips canonical plain),
        static,
        gathers,
      )

  start_with-Opened :
      (w : ServerTracing) (t : TracesHttp) (r : HttpRequest) (tr : Tracking)
      (tracer : Option Tracer) (url : Option Url)
      → Skips k ks (some t)
      → Canonical r.header
      → Hides k tr []
      → Opened k (start_with w t r tr tracer url)
  start_with-Opened w t r tr none url skips canonical h = h
  start_with-Opened w t r tr (some tracer) none skips canonical h = h
  start_with-Opened w t r tr (some tracer) (some u) skips canonical (_, static, gathers) =
      let (ctx, span) = w.starts tracer r.ctx u.path in
      let r' : HttpRequest = record r { ctx = ctx } in
      opened-Opened w t r' (record tr { ctx = ctx; span = some span })
        (start_span tracer r.ctx u.path ∷ []) span
        (trace_incoming_request_attrs r' t.trusted_proxies) skips canonical
        (incoming-ArePlain r' t.trusted_proxies) (((tt, tt), tt), static, gathers)

  pub start-Opened :
      (w : ServerTracing) (ts : Option TracesHttp) (r : HttpRequest) (tr : Tracking)
      → Skips k ks ts
      → Canonical r.header
      → Hides k tr []
      → Opened k (start w ts r tr)
  unfolding start
  start-Opened w none r tr skips canonical h = h
  start-Opened w (some t) r tr skips canonical h =
      start_with-Opened w t r tr t.tracer r.url skips canonical h

  end_with-Hidden :
      (w : ServerTracing) (t : TracesHttp) (tr : Tracking) (log : List Call) (span : Option Span)
      → Skips k ks (some t)
      → Unnamed k tr.traces_static_attrs
      → Canonical (gathered tr.response_headers)
      → All (Hidden k) (end_with w t tr log span)
  end_with-Hidden w t tr log none skips static canonical = tt
  end_with-Hidden w t tr log (some span) skips static canonical =
      if_All (Hidden k) (w.recording span log) _ []
        (end_calls-Hidden w t span tr skips static canonical) tt

  pub finish-Hidden :
      (w : ServerTracing) (ts : Option TracesHttp) (tr : Tracking) (log : List Call)
      → Skips k ks ts
      → Unnamed k tr.traces_static_attrs
      → Canonical (gathered tr.response_headers)
      → All (Hidden k) (finish w ts tr log)
  unfolding finish
  finish-Hidden w none tr log skips static canonical = tt
  finish-Hidden w (some t) tr log skips static canonical =
      end_with-Hidden w t tr log tr.span skips static canonical
