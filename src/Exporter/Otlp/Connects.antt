-- ===== src/Exporter/Otlp/Connects.antt =====
-- Where the clients of an exporter connect to, and how often the metrics are pushed.
use krakend_otel.Prelude.{
  String, has_prefix, ◌≡◌, refl, ap, Bool, true, false, not, Option, none, some, List, [], ◌∷◌,
  ◌++◌, if◌then◌else◌, Result, done, failed, bind_done, ◌>>=◌, Result-cases, ◌||◌, Bool-cases, inl,
  inr, arith, eq_iff,
}
use krakend_otel.Telemetry.{Err}
use krakend_otel.Config.Exporters.{OtlpExporter}
use krakend_otel.Exporter.Otlp.{
  Library, trace_http, metric_http, trace_grpc, metric_grpc, ClientOption, with_insecure,
  with_endpoint, AnyOption, option_of, Client, Address, OtlpSdk, OtelCollector, Destination,
  destination, destination_of, is_url, host_port, client_options, options_for, created, new_client,
  http_trace_error, http_metric_error, grpc_trace_error, grpc_metric_error, collector_with,
  with_defaults, http_exporter_with_options, grpc_exporter_with_options, exporter_with_options,
  new_exporter,
}

-- What the program relies on of `url.Parse`: the scheme of a URL is what stands before its "://".
abbrev pub KeepsScheme : (String → Result Err Address) → Type 0
KeepsScheme parse =
    (s : String) (u : Address)
    → parse s ≡ done u
    → (has_prefix "http://" s ≡ true → u.scheme ≡ "http")
      × (has_prefix "https://" s ≡ true → u.scheme ≡ "https")

-- Where a client connects to: the host of a URL, or else the text as it is.
abbrev pub target : (String → Result Err Address) → String → String
target parse endpoint =
    if is_url endpoint then elim (parse endpoint) [ done u ↦ u.host | failed e ↦ "" ] else endpoint

abbrev pub dial : Bool → String → List ClientOption
dial plain endpoint = (if plain then with_insecure ∷ [] else []) ++ (with_endpoint endpoint ∷ [])

-- By which of the two prefixes the text has.
destination_of_lem :
    (endpoint : String) (u : Address) (http https : Bool)
    → http || https ≡ true
    → (http ≡ true → u.scheme ≡ "http")
    → (https ≡ true → u.scheme ≡ "https")
    → destination_of endpoint u ≡ record { plain = not https; endpoint = u.host }
destination_of_lem endpoint u true true h p q =
    ground (arith, p refl, q refl, eq_iff "http" "https")
destination_of_lem endpoint u true false h p q = ground (arith, p refl, eq_iff u.scheme "http")
destination_of_lem endpoint u false true h p q =
    ground (arith, q refl, eq_iff u.scheme "http", eq_iff u.scheme "https", eq_iff "https" "http")
destination_of_lem endpoint u false false h p q = absurd (cc h)

destination_lem :
    (parse : String → Result Err Address) (endpoint : String) (d : Destination)
    → KeepsScheme parse
    → destination parse endpoint ≡ done d
    → d ≡ record { plain = not (has_prefix "https://" endpoint); endpoint = target parse endpoint }
unfolding destination
destination_lem parse endpoint d keeps h = elim (Result-cases (parse endpoint)) [
  | inl (u, eq) ↦ ground (
    arith,
    eq,
    keeps endpoint u eq,
    destination_of_lem endpoint u (has_prefix "http://" endpoint) (has_prefix "https://" endpoint),
  )
  | inr (e, eq) ↦ ground (arith, eq)
]

created_lem :
    (describe : Err → Err) (c c' : Client) (o : Option Err)
    → created describe c o ≡ done c'
    → c' ≡ c
created_lem describe c c' none h = cc h
created_lem describe c c' (some e) h = absurd (cc h)

-- When the destination and both clients are there, so is the collector.
pub both_done :
    (r : Result Err Destination) (trace metric : Destination → Result Err Client)
    (finish : Client → Client → OtelCollector) (c : OtelCollector)
    → r >>= (λ d. trace d >>= (λ t. metric d >>= (λ m. done (finish t m)))) ≡ done c
    → (d : Destination) × (t : Client) × (m : Client) × (r ≡ done d)
      × (trace d ≡ done t)
      × (metric d ≡ done m)
      × (c ≡ finish t m)
both_done r trace metric finish c h =
    let (d, hd, h1) =
      bind_done r (λ d. trace d >>= (λ t. metric d >>= (λ m. done (finish t m)))) c h in
    let (t, ht, h2) = bind_done (trace d) (λ t. metric d >>= (λ m. done (finish t m))) c h1 in
    let (m, hm, h3) = bind_done (metric d) (λ m. done (finish t m)) c h2 in
    (d, t, m, hd, ht, hm, cc h3)

module _ (sdk : OtlpSdk) (keeps : KeepsScheme sdk.parse) (cfg : OtlpExporter)
    (options : List AnyOption) (c : OtelCollector) where
  -- The options of both clients behind those that the caller gives.
  abbrev dialled : List ClientOption
  dialled =
      let endpoint = host_port cfg.host cfg.port in
      dial (not (has_prefix "https://" endpoint)) (target sdk.parse endpoint)

  abbrev client_of : Library → Client
  client_of lib = record { library = lib; options = options_for lib options ++ dialled }

  abbrev Uses : Library → Library → Type 0
  Uses trace metric = c ≡ collector_with cfg (client_of trace) (client_of metric)

  clients-Uses :
      (trace metric : Library) (trace_error metric_error : Err → Err)
      → destination sdk.parse (host_port cfg.host cfg.port) >>= (λ d.
        new_client sdk trace trace_error (client_options trace options d) >>= (λ t.
          new_client sdk metric metric_error (client_options metric options d)
          >>= (λ m. done (collector_with cfg t m))))
        ≡ done c
      → Uses trace metric
  clients-Uses trace metric trace_error metric_error h =
      let (d, t, m, hd, ht, hm, e) =
        both_done (destination sdk.parse (host_port cfg.host cfg.port))
          (λ d. new_client sdk trace trace_error (client_options trace options d))
          (λ d. new_client sdk metric metric_error (client_options metric options d))
          (collector_with cfg) c h in
      let ed = destination_lem sdk.parse (host_port cfg.host cfg.port) d keeps hd in
      let et =
        created_lem trace_error
          (record { library = trace; options = client_options trace options d }) t
          (sdk.new_error trace (client_options trace options d)) ht in
      let em =
        created_lem metric_error
          (record { library = metric; options = client_options metric options d }) m
          (sdk.new_error metric (client_options metric options d)) hm in
      cc (e, ed, et, em)

module _ (sdk : OtlpSdk) (cfg : OtlpExporter) where
  abbrev pub endpoint_of : String
  endpoint_of = host_port (with_defaults cfg).host (with_defaults cfg).port

  -- An OTLP client of the library for the protocol: over gRPC it is first of all plain.
  abbrev pub client_for : Library → Library → Client
  client_for over_http over_grpc = record {
    library = if cfg.use_http then over_http else over_grpc;
    options =
        (if cfg.use_http then [] else with_insecure ∷ [])
        ++ dial (not (has_prefix "https://" endpoint_of)) (target sdk.parse endpoint_of);
  }

  -- If the parser of URLs keeps the scheme, the two clients of an exporter that could be made go over
  -- HTTP or over gRPC as the configuration says, to the host of the URL that the configured host is,
  -- or else to the host and the port themselves, each with its default. Over HTTP the connection is
  -- plain exactly when the host is not an https URL; over gRPC it is always plain, also where it is.
  pub new_exporter-client_for :
      (c : OtelCollector)
      → KeepsScheme sdk.parse
      → new_exporter sdk cfg ≡ done c
      → (c.exporter ≡ client_for trace_http trace_grpc)
        × (c.metric_exporter ≡ client_for metric_http metric_grpc)
  unfolding new_exporter exporter_with_options http_exporter_with_options grpc_exporter_with_options
      options_for
  new_exporter-client_for c keeps h =
      let options = option_of trace_grpc with_insecure ∷ option_of metric_grpc with_insecure ∷ [] in
      elim (Bool-cases cfg.use_http) [
        | inl http ↦
            let uses =
              clients-Uses sdk keeps (with_defaults cfg) options c trace_http metric_http
                http_trace_error http_metric_error (rw (http, new_exporter) at h) in
            rw http (ap (λ o. o.exporter) uses, ap (λ o. o.metric_exporter) uses)
        | inr grpc ↦
            let uses =
              clients-Uses sdk keeps (with_defaults cfg) options c trace_grpc metric_grpc
                grpc_trace_error grpc_metric_error (rw (grpc, new_exporter) at h) in
            rw grpc (ap (λ o. o.exporter) uses, ap (λ o. o.metric_exporter) uses)
      ]
