-- ===== src/Registration/Globals/Copies.antt =====
-- exporter/exporter.go: reading back the global maps.
use krakend_otel.Prelude.{
  String, ◌≡◌, refl, ◌∙◌, ap, Option, none, some, [], Map, lookup, insert_all, lookup-insert_all,
  insert_all-IsMap, IsMap, first_of,
}
use krakend_otel.Registration.Exporters.{MetricReader, SpanExporter}
use krakend_otel.Registration.Globals.{
  Globals, set_global_exporter_instances, get_global_exporter_instances, global_metric_instance,
  global_trace_instance, found_as,
}

pub found_as-first_of : {A : Type 0} (o : Option A) → found_as (first_of o none) ≡ found_as o
found_as-first_of none = refl
found_as-first_of (some a) = refl

pub lookup-copy {ℓ} :
    {A : Type ℓ} (m : Map A) (k : String) → IsMap m → lookup k (insert_all m []) ≡ lookup k m
unfolding lookup
lookup-copy {A = A} m k good = lookup-insert_all m [] k good ∙ first_of-none (lookup k m)
  where
    first_of-none : (o : Option A) → first_of o none ≡ o
    first_of-none none = refl
    first_of-none (some a) = refl

set_global_exporter_instances_lem :
    (m : Map MetricReader) (t : Map SpanExporter) (g : Globals) (k : String)
    → IsMap m
    → IsMap t
    → (lookup k (get_global_exporter_instances (set_global_exporter_instances m t g)).0
        ≡ lookup k m)
      × (lookup k (get_global_exporter_instances (set_global_exporter_instances m t g)).1
          ≡ lookup k t)
      × (global_metric_instance (set_global_exporter_instances m t g) k ≡ found_as (lookup k m))
      × (global_trace_instance (set_global_exporter_instances m t g) k ≡ found_as (lookup k t))
unfolding global_metric_instance global_trace_instance
set_global_exporter_instances_lem m t g k hm ht = (
  lookup-copy (insert_all m []) k (insert_all-IsMap m [] tt) ∙ lookup-copy m k hm,
  lookup-copy (insert_all t []) k (insert_all-IsMap t [] tt) ∙ lookup-copy t k ht,
  ap found_as (lookup-copy m k hm),
  ap found_as (lookup-copy t k ht),
)
