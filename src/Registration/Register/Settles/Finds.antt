-- ===== src/Registration/Register/Settles/Finds.antt =====
-- register.go: finding the exporters of a registered configuration by their names.
use krakend_otel.Prelude.{
  String, ◌≡◌, ◌∙◌, ap, true, ◌⊎◌, inl, inr, Bool-cases, none, some, List, [], ◌∷◌, ◌++◌, map, Map,
  lookup, insert_all, IsMap, Result, done, failed, returned, All, contains,
}
use krakend_otel.Telemetry.{Err, message}
use krakend_otel.Config.Data.{ConfigData, validate_config}
use krakend_otel.Config.Exporters.{OtlpExporter, PrometheusExporter, Exporters}
use krakend_otel.Config.Exporters.Names.{otlp_name, prometheus_name, validate_iff}
use krakend_otel.Config.Lura.{ServiceConfig, from_lura}
use krakend_otel.Exporter.Otlp.{OtelCollector}
use krakend_otel.Exporter.Otlp as Otlp
use krakend_otel.Exporter.Prometheus.{PrometheusCollector, Server}
use krakend_otel.Exporter.Prometheus as Prometheus
use krakend_otel.Registration.Exporters.{
  MetricReader, otlp_reader, prometheus_reader, SpanExporter, Libraries,
}
use krakend_otel.Registration.Exporters.Filled.{OtlpIn, PrometheusIn}
use krakend_otel.Registration.Exporters.Merged.{IsFilled, NoOther, instances-IsFilled}
use krakend_otel.Registration.Globals.{
  Globals, found_as, global_metric_instance, global_trace_instance,
}
use krakend_otel.Registration.Globals.Copies.{lookup-copy}
use krakend_otel.Registration.Providers.{OtelState}
use krakend_otel.Registration.Register.{register}
use krakend_otel.Registration.Register.Settles.Success.{register-IsRegistered}

module _ (libs : Libraries) where
  abbrev OtlpFound : Globals → OtlpExporter → Type 0
  OtlpFound g e =
      (c : OtelCollector) × (Otlp.new_exporter libs.otlp e ≡ done c)
      × (global_metric_instance g e.name ≡ done (otlp_reader c))
      × (global_trace_instance g e.name ≡ done c)

  abbrev PrometheusFound : Globals → PrometheusExporter → Type 0
  PrometheusFound g p =
      (c : PrometheusCollector) × (server : Server) × (Prometheus.new_exporter libs.prometheus p
        ≡ done (c, server))
      × (global_metric_instance g p.name ≡ done (prometheus_reader c))

  abbrev names_of : Exporters → List String
  names_of e = map otlp_name e.otlp ++ map prometheus_name e.prometheus

  abbrev NoneElse : Globals → List String → Type 0
  NoneElse g names =
      (k : String)
      → (contains k names ≡ true)
        ⊎ ((global_metric_instance g k ≡ failed (message "not found"))
            × (global_trace_instance g k ≡ failed (message "not found")))

  -- Each exporter is found under its name, and nothing under any other name.
  abbrev pub FindsAll : Globals → Exporters → Type 0
  FindsAll g e =
      All (OtlpFound g) e.otlp × All (PrometheusFound g) e.prometheus × NoneElse g (names_of e)

  module _ (g : Globals) (me : Map MetricReader) (te : Map SpanExporter)
      (good : IsMap me × IsMap te) (hm : g.metrics_instances ≡ insert_all me [])
      (ht : g.traces_instances ≡ insert_all te []) where
    metric_lookup : (k : String) → global_metric_instance g k ≡ found_as (lookup k me)
    unfolding global_metric_instance
    metric_lookup k = ap (λ m. found_as (lookup k m)) hm ∙ ap found_as (lookup-copy me k good.0)

    trace_lookup : (k : String) → global_trace_instance g k ≡ found_as (lookup k te)
    unfolding global_trace_instance
    trace_lookup k = ap (λ m. found_as (lookup k m)) ht ∙ ap found_as (lookup-copy te k good.1)

    OtlpIn-OtlpFound : (es : List OtlpExporter) → All (OtlpIn libs me te) es → All (OtlpFound g) es
    OtlpIn-OtlpFound [] h = tt
    OtlpIn-OtlpFound (e ∷ es) ((c, made, in_m, in_t), h) = (
      (c, made, metric_lookup e.name ∙ ap found_as in_m, trace_lookup e.name ∙ ap found_as in_t),
      OtlpIn-OtlpFound es h,
    )

    PrometheusIn-PrometheusFound :
        (ps : List PrometheusExporter) → All (PrometheusIn libs me) ps → All (PrometheusFound g) ps
    PrometheusIn-PrometheusFound [] h = tt
    PrometheusIn-PrometheusFound (p ∷ ps) ((c, server, made, in_m), h) = (
      (c, server, made, metric_lookup p.name ∙ ap found_as in_m),
      PrometheusIn-PrometheusFound ps h,
    )

    NoOther-NoneElse : (names : List String) → NoOther libs me te names → NoneElse g names
    NoOther-NoneElse names h k = elim (Bool-cases (contains k names)) [
      | inl known ↦ inl known
      | inr out ↦
          let (m, t) = h k out in
          inr (metric_lookup k ∙ ap found_as m, trace_lookup k ∙ ap found_as t)
    ]

  IsFilled-FindsAll :
      (g : Globals) (me : Map MetricReader) (te : Map SpanExporter) (e : Exporters)
      → g.metrics_instances ≡ insert_all me []
      → g.traces_instances ≡ insert_all te []
      → IsFilled libs me te e
      → FindsAll g e
  IsFilled-FindsAll g me te e hm ht (otlp, prometheus, others, good_m, good_t) =
      let good : IsMap me × IsMap te = (good_m, good_t) in
      (
        OtlpIn-OtlpFound g me te good hm ht e.otlp otlp,
        PrometheusIn-PrometheusFound g me te good hm ht e.prometheus prometheus,
        NoOther-NoneElse g me te good hm ht (names_of e) others,
      )

  -- When a registration answers a state to be shut down, it has read a configuration, and every
  -- exporter of it has been made and is found under its name: those of OTLP among the metrics and
  -- among the traces, those of Prometheus among the metrics. A name that no exporter of the
  -- configuration has is not found, whatever was registered before.
  pub register-FindsAll :
      {J : Type 0} (version : String) (decode : J → Result Err ConfigData) (srv : ServiceConfig J)
      (g g' : Globals) (s : OtelState)
      → register libs version decode srv g ≡ returned (g', some s, none)
      → (cfg : ConfigData) × (from_lura decode srv ≡ done cfg) × FindsAll g' cfg.exporters
  unfolding validate_config
  register-FindsAll version decode srv g g' s h =
      let (cfg, read, (servers, me, te, valid, ei, eg)) =
        register-IsRegistered libs g g' s version decode srv h in
      let filled =
        instances-IsFilled libs cfg.exporters servers me te ((validate_iff cfg.exporters).0 valid)
          ei in
      (
        cfg,
        read,
        IsFilled-FindsAll g' me te cfg.exporters (ap (λ x. x.metrics_instances) eg)
            (ap (λ x. x.traces_instances) eg) filled,
      )
