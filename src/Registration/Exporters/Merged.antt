-- ===== src/Registration/Exporters/Merged.antt =====
-- What `Instances` answers: every exporter of the configuration under its own name, and no other.
use krakend_otel.Prelude.{
  String, ◌≡◌, refl, ◌∙◌, ap, false, ◌||◌, none, List, [], ◌∷◌, ◌++◌, map, Map, lookup, insert_all,
  IsMap, lookup-insert_all, insert_all-IsMap, Result, done, failed, All, contains, arith, subst,
}
use krakend_otel.Config.Exporters.{Exporters, OtlpExporter, PrometheusExporter}
use krakend_otel.Config.Exporters.Names.{Distinct, otlp_name, prometheus_name}
use krakend_otel.Exporter.Prometheus.{Server}
use krakend_otel.Registration.Exporters.{
  MetricReader, SpanExporter, CreationError, Libraries, instances, create_otlp_exporters,
  create_prometheus_exporters, Started, with_otlp,
}
use krakend_otel.Registration.Exporters.Filled.{
  OtlpIn, PrometheusIn, create_otlp_from-other, create_otlp_from-OtlpIn,
  create_prometheus_from-other, create_prometheus_from-PrometheusIn, create_prometheus_from-IsMap,
  create_otlp_from-IsMap,
}

contains-append :
    (k : String) (xs ys : List String) → contains k (xs ++ ys) ≡ contains k xs || contains k ys
contains-append k [] ys = refl
contains-append k (x ∷ xs) ys = ground (arith, contains-append k xs ys)

Distinct-append :
    (xs ys : List String)
    → Distinct (xs ++ ys)
    → Distinct xs × Distinct ys × All (λ x. contains x ys ≡ false) xs
Distinct-append [] ys h = (tt, h, tt)
Distinct-append (x ∷ xs) ys (fresh, h) =
    ground (arith, Distinct-append xs ys h, contains-append x xs ys)

module _ (libs : Libraries) where
  -- The exporters of Prometheus leave those of the other names as they are.
  OtlpIn-merged :
      (pm m : Map MetricReader) (s : Map SpanExporter) (ys : List String) (es : List OtlpExporter)
      → IsMap pm
      → ((k : String) → contains k ys ≡ false → lookup k pm ≡ none)
      → All (λ x. contains x ys ≡ false) (map otlp_name es)
      → All (OtlpIn libs m s) es
      → All (OtlpIn libs (insert_all pm m) s) es
  OtlpIn-merged pm m s ys [] good out apart h = tt
  OtlpIn-merged pm m s ys (e ∷ es) good out (a, apart) ((c, made, in_m, in_s), h) = (
    (c, made, lookup-insert_all pm m e.name good ∙ rw (out e.name a) in_m, in_s),
    OtlpIn-merged pm m s ys es good out apart h,
  )

  PrometheusIn-merged :
      (pm m : Map MetricReader) (ps : List PrometheusExporter)
      → IsMap pm
      → All (PrometheusIn libs pm) ps
      → All (PrometheusIn libs (insert_all pm m)) ps
  PrometheusIn-merged pm m [] good h = tt
  PrometheusIn-merged pm m (p ∷ ps) good ((c, server, made, in_pm), h) = (
    (c, server, made, lookup-insert_all pm m p.name good ∙ rw in_pm refl),
    PrometheusIn-merged pm m ps good h,
  )

  -- A name that no exporter has is in neither map.
  abbrev pub NoOther : Map MetricReader → Map SpanExporter → List String → Type 0
  NoOther m s names =
      (k : String) → contains k names ≡ false → (lookup k m ≡ none) × (lookup k s ≡ none)

  abbrev pub IsFilled : Map MetricReader → Map SpanExporter → Exporters → Type 0
  IsFilled m s e =
      All (OtlpIn libs m s) e.otlp
      × All (PrometheusIn libs m) e.prometheus
      × NoOther m s (map otlp_name e.otlp ++ map prometheus_name e.prometheus)
      × IsMap m
      × IsMap s

  merged-IsFilled :
      (e : Exporters) (pm m : Map MetricReader) (s : Map SpanExporter)
      → Distinct (map otlp_name e.otlp ++ map prometheus_name e.prometheus)
      → create_otlp_exporters libs e.otlp ≡ done (m, s)
      → (create_prometheus_exporters libs e.prometheus).1 ≡ done pm
      → IsFilled (insert_all pm m) s e
  unfolding create_otlp_exporters create_prometheus_exporters lookup
  merged-IsFilled e pm m s distinct hm hpm =
      let (ds, dp, apart) =
        Distinct-append (map otlp_name e.otlp) (map prometheus_name e.prometheus) distinct in
      let good = create_prometheus_from-IsMap libs 0 e.prometheus [] pm hpm tt in
      let (good_m, good_s) = create_otlp_from-IsMap libs 0 e.otlp [] [] m s hm (tt, tt) in
      let out = λ (k : String) (h : contains k (map prometheus_name e.prometheus) ≡ false).
        create_prometheus_from-other libs 0 e.prometheus [] pm k hpm h in
      (
        OtlpIn-merged pm m s (map prometheus_name e.prometheus) e.otlp good out apart
            (create_otlp_from-OtlpIn libs 0 e.otlp [] [] m s hm ds),
        PrometheusIn-merged pm m e.prometheus good
            (create_prometheus_from-PrometheusIn libs 0 e.prometheus [] pm hpm dp),
        λ k h.
            let split =
              contains-append k (map otlp_name e.otlp) (map prometheus_name e.prometheus) in
            let h' : contains k (map prometheus_name e.prometheus) ≡ false =
              ground (arith, split) in
            let (hk, hs) =
              create_otlp_from-other libs 0 e.otlp [] [] m s k hm (ground (arith, split)) in
            (lookup-insert_all pm m k good ∙ rw (out k h') hk, hs),
        insert_all-IsMap pm m good_m,
        good_s,
      )

  with_otlp-IsFilled :
      (e : Exporters) (p : Started (Map MetricReader))
      (o : Result CreationError (Map MetricReader × Map SpanExporter)) (servers : List Server)
      (me : Map MetricReader) (te : Map SpanExporter)
      → create_prometheus_exporters libs e.prometheus ≡ p
      → create_otlp_exporters libs e.otlp ≡ o
      → Distinct (map otlp_name e.otlp ++ map prometheus_name e.prometheus)
      → with_otlp libs p o ≡ (servers, done (me, te))
      → IsFilled me te e
  with_otlp-IsFilled e (ss, done pm) (done (m, s)) servers me te ep eo distinct h =
      let filled = merged-IsFilled e pm m s distinct eo (ap (λ x. x.1) ep) in
      let same : ◌≡◌ {A = Result CreationError (Map MetricReader × Map SpanExporter)}
          (done (insert_all pm m, s)) (done (me, te)) =
        ap (λ x. x.1) h in
      subst (λ r. elim r [ done (a, b) ↦ IsFilled a b e | failed x ↦ Unit ]) same filled
  with_otlp-IsFilled e (ss, failed x) (done (m, s)) servers me te ep eo distinct h = absurd (cc h)
  with_otlp-IsFilled e p (failed x) servers me te ep eo distinct h = absurd (cc h)

  pub instances-IsFilled :
      (e : Exporters) (servers : List Server) (me : Map MetricReader) (te : Map SpanExporter)
      → Distinct (map otlp_name e.otlp ++ map prometheus_name e.prometheus)
      → instances libs e ≡ (servers, done (me, te))
      → IsFilled me te e
  unfolding instances
  instances-IsFilled e servers me te distinct h =
      with_otlp-IsFilled e _ _ servers me te refl refl distinct h
