-- ===== src/Registration/Exporters/Filled.antt =====
-- What the maps of the exporters hold once the exporters have been made.
use krakend_otel.Prelude.{
  ℕ, ◌+◌, String, ◌≡◌, refl, ◌∙◌, false, some, List, [], ◌∷◌, map, Map, lookup, insert,
  lookup-insert, IsMap, insert-IsMap, done, Result-cases, All, inl, inr, contains, arith, eq_iff,
  eq_refl,
}
use krakend_otel.Config.Exporters.{OtlpExporter, PrometheusExporter}
use krakend_otel.Config.Exporters.Names.{Distinct, otlp_name, prometheus_name}
use krakend_otel.Exporter.Otlp.{OtelCollector}
use krakend_otel.Exporter.Otlp as Otlp
use krakend_otel.Exporter.Prometheus.{PrometheusCollector, Server}
use krakend_otel.Exporter.Prometheus as Prometheus
use krakend_otel.Registration.Exporters.{
  MetricReader, otlp_reader, prometheus_reader, SpanExporter, Libraries, create_otlp_from,
  create_prometheus_from,
}

-- An entry under another key is not found.
pub lookup-other {ℓ} :
    {V : Type ℓ} (m : Map V) (key : String) (v : V) (names : List String) (k : String)
    → contains k (key ∷ names) ≡ false
    → lookup k (insert key v m) ≡ lookup k m
lookup-other m key v names k h = rw (lookup-insert m k key v) (ground (arith, eq_iff key k))

pub lookup-same {ℓ} :
    {V : Type ℓ} (m : Map V) (key : String) (v : V) → lookup key (insert key v m) ≡ some v
lookup-same m key v = rw (lookup-insert m key key v, eq_refl key) refl

module _ (libs : Libraries) where
  abbrev pub OtlpIn : Map MetricReader → Map SpanExporter → OtlpExporter → Type 0
  OtlpIn m s e =
      (c : OtelCollector) × (Otlp.new_exporter libs.otlp e ≡ done c)
      × (lookup e.name m ≡ some (otlp_reader c))
      × (lookup e.name s ≡ some c)

  abbrev pub PrometheusIn : Map MetricReader → PrometheusExporter → Type 0
  PrometheusIn m p =
      (c : PrometheusCollector) × (server : Server) × (Prometheus.new_exporter libs.prometheus p
        ≡ done (c, server))
      × (lookup p.name m ≡ some (prometheus_reader c))

  pub create_otlp_from-other :
      (idx : ℕ) (es : List OtlpExporter) (m : Map MetricReader) (s : Map SpanExporter)
      (m' : Map MetricReader) (s' : Map SpanExporter) (k : String)
      → create_otlp_from libs idx es m s ≡ done (m', s')
      → contains k (map otlp_name es) ≡ false
      → (lookup k m' ≡ lookup k m) × (lookup k s' ≡ lookup k s)
  unfolding create_otlp_from
  create_otlp_from-other idx [] m s m' s' k h out = ground arith
  create_otlp_from-other idx (e ∷ es) m s m' s' k h out =
      elim (Result-cases (Otlp.new_exporter libs.otlp e)) [
        | inl (c, eq) ↦
            let (hm, hs) =
              create_otlp_from-other (idx + 1) es (insert e.name (otlp_reader c) m)
                (insert e.name c s) m' s' k (rw (eq, create_otlp_from) at h) (ground arith) in
            (
              hm ∙ lookup-other m e.name (otlp_reader c) (map otlp_name es) k out,
              hs ∙ lookup-other s e.name c (map otlp_name es) k out,
            )
        | inr (err, eq) ↦ absurd (cc (rw (eq, create_otlp_from) at h))
      ]

  pub create_otlp_from-OtlpIn :
      (idx : ℕ) (es : List OtlpExporter) (m : Map MetricReader) (s : Map SpanExporter)
      (m' : Map MetricReader) (s' : Map SpanExporter)
      → create_otlp_from libs idx es m s ≡ done (m', s')
      → Distinct (map otlp_name es)
      → All (OtlpIn m' s') es
  unfolding create_otlp_from
  create_otlp_from-OtlpIn idx [] m s m' s' h distinct = tt
  create_otlp_from-OtlpIn idx (e ∷ es) m s m' s' h (fresh, distinct) =
      elim (Result-cases (Otlp.new_exporter libs.otlp e)) [
        | inl (c, eq) ↦
            let h' = rw (eq, create_otlp_from) at h in
            let (hm, hs) =
              create_otlp_from-other (idx + 1) es (insert e.name (otlp_reader c) m)
                (insert e.name c s) m' s' e.name h' fresh in
            (
              (c, eq, hm ∙ lookup-same m e.name (otlp_reader c), hs ∙ lookup-same s e.name c),
              create_otlp_from-OtlpIn (idx + 1) es (insert e.name (otlp_reader c) m)
                  (insert e.name c s) m' s' h' distinct,
            )
        | inr (err, eq) ↦ absurd (cc (rw (eq, create_otlp_from) at h))
      ]

  pub create_prometheus_from-other :
      (idx : ℕ) (ps : List PrometheusExporter) (m m' : Map MetricReader) (k : String)
      → (create_prometheus_from libs idx ps m).1 ≡ done m'
      → contains k (map prometheus_name ps) ≡ false
      → lookup k m' ≡ lookup k m
  unfolding create_prometheus_from
  create_prometheus_from-other idx [] m m' k h out = ground arith
  create_prometheus_from-other idx (p ∷ ps) m m' k h out =
      elim (Result-cases (Prometheus.new_exporter libs.prometheus p)) [
        | inl ((c, server), eq) ↦
            create_prometheus_from-other (idx + 1) ps (insert p.name (prometheus_reader c) m) m' k
              (rw (eq, create_prometheus_from) at h) (ground arith)
            ∙ lookup-other m p.name (prometheus_reader c) (map prometheus_name ps) k out
        | inr (err, eq) ↦ absurd (cc (rw (eq, create_prometheus_from) at h))
      ]

  pub create_prometheus_from-PrometheusIn :
      (idx : ℕ) (ps : List PrometheusExporter) (m m' : Map MetricReader)
      → (create_prometheus_from libs idx ps m).1 ≡ done m'
      → Distinct (map prometheus_name ps)
      → All (PrometheusIn m') ps
  unfolding create_prometheus_from
  create_prometheus_from-PrometheusIn idx [] m m' h distinct = tt
  create_prometheus_from-PrometheusIn idx (p ∷ ps) m m' h (fresh, distinct) =
      elim (Result-cases (Prometheus.new_exporter libs.prometheus p)) [
        | inl ((c, server), eq) ↦
            let h' = rw (eq, create_prometheus_from) at h in
            let m1 = insert p.name (prometheus_reader c) m in
            let kept = create_prometheus_from-other (idx + 1) ps m1 m' p.name h' fresh in
            (
              (c, server, eq, kept ∙ lookup-same m p.name (prometheus_reader c)),
              create_prometheus_from-PrometheusIn (idx + 1) ps m1 m' h' distinct,
            )
        | inr (err, eq) ↦ absurd (cc (rw (eq, create_prometheus_from) at h))
      ]

  pub create_prometheus_from-IsMap :
      (idx : ℕ) (ps : List PrometheusExporter) (m m' : Map MetricReader)
      → (create_prometheus_from libs idx ps m).1 ≡ done m'
      → IsMap m
      → IsMap m'
  unfolding create_prometheus_from
  create_prometheus_from-IsMap idx [] m m' h good = ground arith
  create_prometheus_from-IsMap idx (p ∷ ps) m m' h good =
      elim (Result-cases (Prometheus.new_exporter libs.prometheus p)) [
        | inl ((c, server), eq) ↦
            create_prometheus_from-IsMap (idx + 1) ps (insert p.name (prometheus_reader c) m) m'
              (rw (eq, create_prometheus_from) at h)
              (insert-IsMap p.name (prometheus_reader c) m good)
        | inr (err, eq) ↦ absurd (cc (rw (eq, create_prometheus_from) at h))
      ]

  pub create_otlp_from-IsMap :
      (idx : ℕ) (es : List OtlpExporter) (m : Map MetricReader) (s : Map SpanExporter)
      (m' : Map MetricReader) (s' : Map SpanExporter)
      → create_otlp_from libs idx es m s ≡ done (m', s')
      → IsMap m × IsMap s
      → IsMap m' × IsMap s'
  unfolding create_otlp_from
  create_otlp_from-IsMap idx [] m s m' s' h good = ground arith
  create_otlp_from-IsMap idx (e ∷ es) m s m' s' h (hm, hs) =
      elim (Result-cases (Otlp.new_exporter libs.otlp e)) [
        | inl (c, eq) ↦
            create_otlp_from-IsMap (idx + 1) es (insert e.name (otlp_reader c) m)
              (insert e.name c s) m' s' (rw (eq, create_otlp_from) at h)
              (insert-IsMap e.name (otlp_reader c) m hm, insert-IsMap e.name c s hs)
        | inr (err, eq) ↦ absurd (cc (rw (eq, create_otlp_from) at h))
      ]
