-- ===== src/Lura/Tracer/Hides.antt =====
-- lura/proxy_tracer.go: the headers that the span of a stage leaves out.
use Prim.Native.Char.{code}
use krakend_otel.Prelude.{
  String, Bool, true, ◌≡◌, ◌≢◌, refl, Option, none, some, List, [], ◌∷◌, ◌++◌, concat, contains,
  to_lower, all_token, All, All-append, Bool-cases, inl, inr, has_prefix, ℤ, pos,
}
use krakend_otel.Telemetry.{
  Headers, Err, Attribute, attr, str, Ctx, Span, Tracer, Starts, is_canceled, on_span,
  set_attributes,
}
use krakend_otel.Lura.Meter.{Response}
use krakend_otel.Lura.Tracer.{
  MiddlewareTracer, new_middleware_tracer, skip_set, start, finish, outcome_calls, reported, status,
}
use krakend_otel.Lura.Tracer.Omits.{
  Canonical, Omits, request_key, response_key, header_calls-Omits, other_key,
}

reported-Omits :
    (t : MiddlewareTracer) (span : Span) (prefix k : String) (ks : List String) (hs : Headers)
    → t.skip_headers ≡ skip_set ks
    → contains k ks ≡ true
    → all_token k ≡ true
    → Canonical hs
    → All (Omits (concat prefix (to_lower k))) (reported t span prefix hs)
reported-Omits t span prefix k ks hs skips named token canonical =
    elim (Bool-cases t.report_headers) [
      | inl p ↦ rw (p, skips) (header_calls-Omits span prefix k ks hs named token canonical)
      | inr p ↦ rw p tt
    ]

abbrev pub response_headers : Option Response → Headers
response_headers none = []
response_headers (some r) = r.headers

status-Omits :
    (span : Span) (code : ℤ) (k : String)
    → Omits (response_key k) (on_span span (set_attributes (status code ∷ [])))
unfolding has_prefix
status-Omits span code k =
    (other_key "http.response.header." "http.response.status_code" k refl, tt)

outcome_calls-Omits :
    (t : MiddlewareTracer) (span : Span) (k : String) (ks : List String) (resp : Option Response)
    (err : Option Err)
    → t.skip_headers ≡ skip_set ks
    → contains k ks ≡ true
    → all_token k ≡ true
    → Canonical (response_headers resp)
    → All (Omits (response_key k)) (outcome_calls t span resp err)
unfolding has_prefix
outcome_calls-Omits t span k ks resp (some e) skips named token canonical =
    elim (Bool-cases (is_canceled e)) [
      | inl p ↦ rw p (
        (other_key "http.response.header." "canceled" k refl, tt),
        (status-Omits span (pos 500) k, tt),
      )
      | inr p ↦ rw p (
        (other_key "http.response.header." "error" k refl, tt),
        (status-Omits span (pos 500) k, tt),
      )
    ]
outcome_calls-Omits t span k ks none none skips named token canonical = tt
outcome_calls-Omits t span k ks (some r) none skips named token canonical = (
  status-Omits span r.status_code k,
  reported-Omits t span "http.response.header." k ks r.headers skips named token canonical,
)

-- If the names of the headers of the request and of the response are canonical, the span of a stage
-- that is told to skip a header never gets the attribute of that header, in whatever case its name
-- is configured, as long as it is a legal one: neither that of the request's at the start, unless
-- a static attribute of the stage has the same key, nor that of the response's at the end.
pub new_middleware_tracer-Omits :
    (starts : Starts) (tracer : Option Tracer) (name stage_name : String) (report : Bool)
    (ks : List String) (attrs : List Attribute) (t : MiddlewareTracer) (k : String) (ctx : Ctx)
    (hs : Headers) (span : Span) (resp : Option Response) (err : Option Err)
    → new_middleware_tracer tracer name stage_name report ks attrs ≡ some t
    → contains k ks ≡ true
    → all_token k ≡ true
    → Canonical hs
    → Canonical (response_headers resp)
    → All (λ a. a.key ≢ request_key k) attrs
    → All (Omits (request_key k)) (start starts t ctx hs).2
      × All (Omits (response_key k)) (finish t span resp err)
unfolding new_middleware_tracer start finish has_prefix
new_middleware_tracer-Omits starts none name stage_name report ks attrs t k ctx hs span resp err e
      named token canonical canonical' others =
    cc e
new_middleware_tracer-Omits starts (some tracer) name stage_name report ks attrs t k ctx hs span
      resp err e named token canonical canonical' others =
    let skips : t.skip_headers ≡ skip_set ks = cc e in
    let fixed : t.attrs ≡ attrs ++ attr "krakend.stage" (str stage_name) ∷ [] = cc e in
    let started = (starts t.tracer ctx t.name).1 in
    (
      (
        tt,
        (
          rw fixed (
              All-append (λ a. a.key ≢ request_key k) attrs _ others
                (other_key "http.request.header." "krakend.stage" k refl, tt)),
          reported-Omits t started "http.request.header." k ks hs skips named token canonical,
        ),
      ),
      All-append (Omits (response_key k)) (outcome_calls t span resp err) _
          (outcome_calls-Omits t span k ks resp err skips named token canonical')
          ((other_key "http.response.header." "complete" k refl, tt), (tt, tt)),
    )
