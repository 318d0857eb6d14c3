-- ===== src/Http/Server/New/Hides.antt =====
-- http/server/server.go: the headers that a configured handler leaves out.
use krakend_otel.Prelude.{
  String, true, not, ◌&&◌, ◌≡◌, ◌≢◌, refl, Option, none, some, List, [], ◌∷◌, ◌++◌, contains,
  all_token, All, All-append, Bool-cases, inl, inr, Outcome, returned, panicked, str_eq, has_prefix,
  subst, ℕ,
}
use krakend_otel.Telemetry.{Attribute, attr, str, Otel, Call, Panic, nil_dereference}
use krakend_otel.Config.Options.{GlobalOpts, Attributes, append_static}
use krakend_otel.State.Config.{StateConfig, global_opts}
use krakend_otel.Lura.Tracer.Omits.{Canonical, Hidden, request_key, response_key, is_plain-Unnamed}
use krakend_otel.Http.Attributes.{HttpRequest}
use krakend_otel.Http.Server.Metrics.{MetricsHttp}
use krakend_otel.Http.Server.Traces.{ServerTracing, new_traces_http}
use krakend_otel.Http.Server.Traces.Hides.{Skips}
use krakend_otel.Http.Server.Writer.{ResponseWriter}
use krakend_otel.Http.Server.Program.{Program}
use krakend_otel.Http.Server.Handler.{TrackingHandler, Propagator, serve_http}
use krakend_otel.Http.Server.Handler.Hides.{SetsUnnamed, serve_http-Hidden}
use krakend_otel.Http.Server.New.{
  new_tracking_handler, handler_for, handler_with, metrics_for, traces_for,
}

-- Configured attributes whose keys are other ones.
append_static-All :
    (key : String) (attrs : List Attribute) (kvs : Attributes)
    → All (λ a. a.key ≢ key) attrs
    → All (λ kv. kv.key ≢ key) kvs
    → All (λ a. a.key ≢ key) (append_static attrs kvs)
unfolding append_static
append_static-All key attrs [] h hs = h
append_static-All key attrs (kv ∷ kvs) h (k, ks) =
    elim (Bool-cases (not (str_eq kv.key "") && not (str_eq kv.value ""))) [
      | inl full ↦ rw full (
          append_static-All key (attrs ++ attr kv.key (str kv.value) ∷ []) kvs
            (All-append (λ a. a.key ≢ key) attrs _ h (k, tt)) ks)
      | inr empty ↦ rw empty (append_static-All key attrs kvs h ks)
    ]

abbrev pub UnnamedBy : String → Attributes → Type 0
UnnamedBy k kvs = All (λ kv. kv.key ≢ request_key k) kvs × All (λ kv. kv.key ≢ response_key k) kvs

module _ (k : String) (g : GlobalOpts) (static : UnnamedBy k g.traces_static_attributes) where
  traces_for-Skips :
      (otel : Otel) (trusted : List String) → Skips k g.skip_headers (traces_for g otel trusted)
  unfolding has_prefix new_traces_http
  traces_for-Skips otel trusted = elim (Bool-cases g.disable_traces) [
    | inl off ↦ rw off tt
    | inr on ↦
        let (request, response) =
          is_plain-Unnamed k (attr "krakend.stage" (str "global") ∷ []) refl in
        rw on (
          refl,
          (
            append_static-All (request_key k) _ g.traces_static_attributes request static.0,
            append_static-All (response_key k) _ g.traces_static_attributes response static.1,
          ),
        )
  ]

  -- The handler that is made skips the headers of the options.
  abbrev AllSkip : Outcome Panic (Option TrackingHandler) → Type 0
  AllSkip (panicked p) = Unit
  AllSkip (returned none) = Unit
  AllSkip (returned (some h)) = Skips k g.skip_headers h.traces

  handler_with-AllSkip :
      (c : StateConfig) (otel : Otel) (prop : Propagator) (trusted : List String)
      (m : Outcome Panic (Option MetricsHttp))
      → AllSkip (handler_with c g otel prop trusted m)
  handler_with-AllSkip c otel prop trusted (panicked p) = tt
  handler_with-AllSkip c otel prop trusted (returned m) = traces_for-Skips otel trusted

  handler_for-AllSkip :
      (c : StateConfig) (s : Option (Otel × Propagator)) (trusted : List String)
      → AllSkip (handler_for c s trusted g)
  handler_for-AllSkip c s trusted =
      elim (Bool-cases (g.disable_propagation && (g.disable_metrics && g.disable_traces))) [
        | inl off ↦ rw off tt
        | inr on ↦ rw on (by_state c s trusted)
      ]
    where
      by_state :
          (c : StateConfig) (s : Option (Otel × Propagator)) (trusted : List String)
          → AllSkip (elim s [
            | none ↦ panicked nil_dereference
            | some (otel, prop) ↦ handler_with c g otel prop trusted (metrics_for g otel.meter)
          ])
      by_state c none trusted = tt
      by_state c (some (otel, prop)) trusted =
          handler_with-AllSkip c otel prop trusted (metrics_for g otel.meter)

  new_tracking_handler-AllSkip :
      (c : StateConfig) (s : Option (Otel × Propagator)) (trusted : List String)
      → global_opts c ≡ some g
      → AllSkip (new_tracking_handler (some c) s trusted)
  unfolding new_tracking_handler
  new_tracking_handler-AllSkip c s trusted e =
      rw (e, new_tracking_handler) (handler_for-AllSkip c s trusted)

-- The tracking handler that is made of a configuration does not panic on a request whose headers
-- have canonical names, like those of the writer. A header that the global options name among those
-- to skip, in whatever case, as long as it is a legal one, is not reported: no call of the API has
-- the attribute of that header of the request or of the response, unless a static attribute of the
-- global traces or of the wrapped handler has the same key; also where the connection is taken over.
pub new_tracking_handler-Hidden :
    {S : Type 0} (writer : ResponseWriter S) (now : S → ℕ) (w : ServerTracing) (c : StateConfig)
    (g : GlobalOpts) (s : Option (Otel × Propagator)) (trusted : List String) (h : TrackingHandler)
    (k : String) (next : HttpRequest → Program) (r : HttpRequest) (st : S)
    → global_opts c ≡ some g
    → new_tracking_handler (some c) s trusted ≡ returned (some h)
    → contains k g.skip_headers ≡ true
    → all_token k ≡ true
    → UnnamedBy k g.traces_static_attributes
    → ((r' : HttpRequest) → SetsUnnamed k (next r'))
    → ((s' : S) → Canonical (writer.header s'))
    → Canonical r.header
    → (end : S) × (calls : List Call) × (serve_http writer now w h next r st
        ≡ returned (end, calls))
      × All (Hidden k) calls
new_tracking_handler-Hidden writer now w c g s trusted h k next r st options made named token static
      sets canonical headers =
    serve_http-Hidden writer now w k g.skip_headers named token canonical h next r st
      (subst (AllSkip k g static) made
        (new_tracking_handler-AllSkip k g static c s trusted options))
      sets headers
