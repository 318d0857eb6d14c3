-- ===== src/Exporter/Prometheus/Serves.antt =====
-- What the server of an exporter serves.
use krakend_otel.Prelude.{
  ◌≡◌, refl, ◌∙◌, ap, Bool, true, false, Option, none, some, List, [], ◌∷◌, ◌++◌, sym, append-nil,
  append_assoc, if◌then◌else◌, Result, done, bind_done, ◌>>=◌,
}
use krakend_otel.Telemetry.{Err}
use krakend_otel.Config.Exporters.{PrometheusExporter}
use krakend_otel.Exporter.Otlp.{host_port, port_or}
use krakend_otel.Exporter.Prometheus.{
  Collector, process_collector, go_collector, exporter_collector, Registry, PrometheusSdk,
  PrometheusCollector, Server, unless_error, register_if, new_registered, new_server, new_exporter,
}

unless_error-done :
    {A : Type 0} (o : Option Err) (a b : A) → unless_error o a ≡ done b → (o ≡ none) × (b ≡ a)
unless_error-done none a b h = (refl, cc h)
unless_error-done (some e) a b h = absurd (cc h)

abbrev if_wanted : Bool → Collector → List Collector
if_wanted wanted c = if wanted then c ∷ [] else []

-- The exporter with this registry, and its server.
abbrev made_of : PrometheusExporter → Registry → PrometheusCollector × Server
made_of cfg registry = (
  record { registry = registry; disabled_by_default = cfg.disable_metrics },
  new_server cfg registry,
)

done-injective :
    {x y : PrometheusCollector × Server}
    → ◌≡◌ {A = Result Err (PrometheusCollector × Server)} (done x) (done y)
    → y ≡ x
done-injective h = cc h

module _ (sdk : PrometheusSdk) where
  register_if-done :
      (wanted : Bool) (c : Collector) (before after : Registry)
      → register_if sdk wanted c before ≡ done after
      → after ≡ before ++ if_wanted wanted c
  register_if-done true c before after h =
      (unless_error-done (sdk.register_error before c) (before ++ (c ∷ [])) after h).1
  register_if-done false c before after h = cc (h, append-nil before)

  -- An exporter that could be made has registered the collectors of the process and of Go that its
  -- configuration asks for and then its own, in this order, and no other. Its server serves just
  -- these, under /metrics, on the configured host and port, or port 9090.
  pub new_exporter-Server :
      (cfg : PrometheusExporter) (c : PrometheusCollector) (server : Server)
      → new_exporter sdk cfg ≡ done (c, server)
      → (c.registry
          ≡ if_wanted cfg.process_metrics process_collector
            ++ (if_wanted cfg.go_metrics go_collector ++ (exporter_collector ∷ [])))
        × (server.registry ≡ c.registry)
        × (server.path ≡ "/metrics")
        × (server.addr ≡ host_port cfg.host (port_or 9090 cfg.port))
  unfolding new_exporter
  new_exporter-Server cfg c server h =
      let finish : Registry → Result Err (PrometheusCollector × Server) =
        λ registry. done (made_of cfg registry) in
      let make = λ (runtimes : Registry). new_registered sdk runtimes >>= finish in
      let (processes, hp, h1) =
        bind_done (register_if sdk cfg.process_metrics process_collector [])
          (λ processes. register_if sdk cfg.go_metrics go_collector processes >>= make) (c, server)
          h in
      let (runtimes, hg, h2) =
        bind_done (register_if sdk cfg.go_metrics go_collector processes) make (c, server) h1 in
      let (registry, hn, h3) = bind_done (new_registered sdk runtimes) finish (c, server) h2 in
      let ep = register_if-done cfg.process_metrics process_collector [] processes hp in
      let eg = register_if-done cfg.go_metrics go_collector processes runtimes hg in
      let en =
        (unless_error-done (sdk.new_error runtimes) (runtimes ++ (exporter_collector ∷ [])) registry
          hn).1 in
      let made = done-injective h3 in
      let ec = ap (λ x. x.0.registry) made in
      (
        ec
            ∙ (en
                ∙ (ap (λ l. l ++ (exporter_collector ∷ []))
                      (eg ∙ ap (λ l. l ++ if_wanted cfg.go_metrics go_collector) ep)
                    ∙ append_assoc (if_wanted cfg.process_metrics process_collector)
                        (if_wanted cfg.go_metrics go_collector) (exporter_collector ∷ []))),
        ap (λ x. x.1.registry) made ∙ sym ec,
        ap (λ x. x.1.path) made,
        ap (λ x. x.1.addr) made,
      )
