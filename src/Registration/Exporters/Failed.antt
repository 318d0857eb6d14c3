-- ===== src/Registration/Exporters/Failed.antt =====
-- How the making of the exporters of a configuration fails.
use krakend_otel.Prelude.{
  ℕ, suc, ◌+◌, ◌≡◌, refl, ap, some, List, [], ◌∷◌, Map, insert, get_elem?, length, Result, done,
  failed, Result-cases, inl, inr, arith, subst,
}
use krakend_otel.Config.Exporters.{OtlpExporter, PrometheusExporter, Exporters}
use krakend_otel.Exporter.Otlp as Otlp
use krakend_otel.Exporter.Prometheus.{Server}
use krakend_otel.Exporter.Prometheus as Prometheus
use krakend_otel.Registration.Exporters.{
  MetricReader, otlp_reader, prometheus_reader, SpanExporter, CreationError, otlp_failed,
  prometheus_failed, Libraries, Started, create_otlp_from, create_prometheus_from,
  create_otlp_exporters, create_prometheus_exporters, instances, with_otlp,
}

module _ (libs : Libraries) where
  -- What an error says: the exporter at the index has the name, and could not be made.
  abbrev pub Blames : Exporters → List Server → CreationError → Type 0
  Blames e servers (otlp_failed name idx err) =
      (servers ≡ [])
      × ((x : OtlpExporter) × (get_elem? e.otlp idx ≡ some x)
          × (x.name ≡ name)
          × (Otlp.new_exporter libs.otlp x ≡ failed err))
  Blames e servers (prometheus_failed name idx err) =
      (length servers ≡ idx)
      × ((x : PrometheusExporter) × (get_elem? e.prometheus idx ≡ some x)
          × (x.name ≡ name)
          × (Prometheus.new_exporter libs.prometheus x ≡ failed err))

  -- For the exporters from the index `idx` on, with the position `k` among them.
  abbrev OtlpBlamed : ℕ → List OtlpExporter → CreationError → Type 0
  OtlpBlamed idx es (otlp_failed name i err) =
      (k : ℕ) × (i ≡ idx + k)
      × (x : OtlpExporter) × (get_elem? es k ≡ some x)
      × (x.name ≡ name)
      × (Otlp.new_exporter libs.otlp x ≡ failed err)
  OtlpBlamed idx es (prometheus_failed name i err) = ⊥

  OtlpBlamed-later :
      (idx : ℕ) (e : OtlpExporter) (es : List OtlpExporter) (err : CreationError)
      → OtlpBlamed (idx + 1) es err
      → OtlpBlamed idx (e ∷ es) err
  OtlpBlamed-later idx e es (otlp_failed name i err) (k, at, x, found, named, why) =
      (suc k, omega arith, x, found, named, why)
  OtlpBlamed-later idx e es (prometheus_failed name i err) h = h

  create_otlp_from-OtlpBlamed :
      (idx : ℕ) (es : List OtlpExporter) (m : Map MetricReader) (s : Map SpanExporter)
      (err : CreationError)
      → create_otlp_from libs idx es m s ≡ failed err
      → OtlpBlamed idx es err
  unfolding create_otlp_from
  create_otlp_from-OtlpBlamed idx [] m s err h = absurd (cc h)
  create_otlp_from-OtlpBlamed idx (e ∷ es) m s err h =
      elim (Result-cases (Otlp.new_exporter libs.otlp e)) [
        | inl (c, eq) ↦ OtlpBlamed-later idx e es err (
            create_otlp_from-OtlpBlamed (idx + 1) es (insert e.name (otlp_reader c) m)
              (insert e.name c s) err (rw (eq, create_otlp_from) at h))
        | inr (why, eq) ↦
            let same : otlp_failed e.name idx why ≡ err = cc (rw (eq, create_otlp_from) at h) in
            subst (OtlpBlamed idx (e ∷ es)) same (0, omega arith, e, refl, refl, eq)
      ]

  abbrev PrometheusBlamed : ℕ → List PrometheusExporter → List Server → CreationError → Type 0
  PrometheusBlamed idx ps servers (otlp_failed name i err) = ⊥
  PrometheusBlamed idx ps servers (prometheus_failed name i err) =
      (i ≡ idx + length servers)
      × (x : PrometheusExporter) × (get_elem? ps (length servers) ≡ some x)
      × (x.name ≡ name)
      × (Prometheus.new_exporter libs.prometheus x ≡ failed err)

  PrometheusBlamed-later :
      (idx : ℕ) (p : PrometheusExporter) (ps : List PrometheusExporter) (server : Server)
      (servers : List Server) (err : CreationError)
      → PrometheusBlamed (idx + 1) ps servers err
      → PrometheusBlamed idx (p ∷ ps) (server ∷ servers) err
  PrometheusBlamed-later idx p ps server servers (otlp_failed name i err) h = h
  PrometheusBlamed-later idx p ps server servers (prometheus_failed name i err)
        (at, x, found, named, why) =
      (omega arith, x, found, named, why)

  create_prometheus_from-PrometheusBlamed :
      (idx : ℕ) (ps : List PrometheusExporter) (m : Map MetricReader) (err : CreationError)
      → (create_prometheus_from libs idx ps m).1 ≡ failed err
      → PrometheusBlamed idx ps (create_prometheus_from libs idx ps m).0 err
  unfolding create_prometheus_from
  create_prometheus_from-PrometheusBlamed idx [] m err h = absurd (cc h)
  create_prometheus_from-PrometheusBlamed idx (p ∷ ps) m err h =
      elim (Result-cases (Prometheus.new_exporter libs.prometheus p)) [
        | inl ((c, server), eq) ↦
            rw (eq, create_prometheus_from)
              (PrometheusBlamed-later idx p ps server _ err (
                create_prometheus_from-PrometheusBlamed (idx + 1) ps
                  (insert p.name (prometheus_reader c) m) err
                  (rw (eq, create_prometheus_from) at h)))
        | inr (why, eq) ↦
            let same : prometheus_failed p.name idx why ≡ err =
              cc (rw (eq, create_prometheus_from) at h) in
            rw (eq, create_prometheus_from)
              (subst (PrometheusBlamed idx (p ∷ ps) []) same (omega arith, p, refl, refl, eq))
      ]

  OtlpBlamed-Blames :
      (e : Exporters) (err : CreationError) → OtlpBlamed 0 e.otlp err → Blames e [] err
  OtlpBlamed-Blames e (otlp_failed name i err) (k, at, x, found, named, why) =
      let same : i ≡ k = omega arith in (refl, (x, rw same found, named, why))
  OtlpBlamed-Blames e (prometheus_failed name i err) h = absurd h

  PrometheusBlamed-Blames :
      (e : Exporters) (servers : List Server) (err : CreationError)
      → PrometheusBlamed 0 e.prometheus servers err
      → Blames e servers err
  PrometheusBlamed-Blames e servers (otlp_failed name i err) h = absurd h
  PrometheusBlamed-Blames e servers (prometheus_failed name i err) (at, x, found, named, why) =
      let same : i ≡ length servers = omega arith in (omega arith, (x, rw same found, named, why))

  moved :
      (e : Exporters) (servers servers' : List Server) (x err : CreationError)
      → servers ≡ servers'
      → ◌≡◌ {A = Result CreationError (Map MetricReader × Map SpanExporter)} (failed x) (failed err)
      → Blames e servers x
      → Blames e servers' err
  moved e servers servers' x err es ex h =
      let same : x ≡ err = cc ex in subst (λ l. Blames e l err) es (subst (Blames e servers) same h)

  with_otlp-Blames :
      (e : Exporters) (p : Started (Map MetricReader))
      (o : Result CreationError (Map MetricReader × Map SpanExporter)) (servers : List Server)
      (err : CreationError)
      → create_prometheus_exporters libs e.prometheus ≡ p
      → create_otlp_exporters libs e.otlp ≡ o
      → with_otlp libs p o ≡ (servers, failed err)
      → Blames e servers err
  unfolding create_prometheus_exporters create_otlp_exporters
  with_otlp-Blames e p (failed x) servers err ep eo h =
      moved e [] servers x err (ap (λ r. r.0) h) (ap (λ r. r.1) h)
        (OtlpBlamed-Blames e x (create_otlp_from-OtlpBlamed 0 e.otlp [] [] x eo))
  with_otlp-Blames e (ss, failed x) (done (m, s)) servers err ep eo h =
      moved e ss servers x err (ap (λ r. r.0) h) (ap (λ r. r.1) h) (
        PrometheusBlamed-Blames e ss x (
          subst (λ started. PrometheusBlamed 0 e.prometheus started x) (ap (λ r. r.0) ep)
            (create_prometheus_from-PrometheusBlamed 0 e.prometheus [] x (ap (λ r. r.1) ep))))
  with_otlp-Blames e (ss, done pm) (done (m, s)) servers err ep eo h = absurd (cc h)

  -- When the making of the exporters fails, the error names an exporter of the configuration by its
  -- name and its index, and that exporter's own error. For one of OTLP no server has been started, for
  -- one of Prometheus those of the exporters before it, as many as its index says.
  pub instances-Blames :
      (e : Exporters) (servers : List Server) (err : CreationError)
      → instances libs e ≡ (servers, failed err)
      → Blames e servers err
  unfolding instances
  instances-Blames e servers err h = with_otlp-Blames e _ _ servers err refl refl h
