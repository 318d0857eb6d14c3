-- ===== src/Config/Exporters.antt =====
-- config/config.go: the exporters of the configuration, and the check of their names.
pub mod Names
use krakend_otel.Prelude.{
  ℕ, ◌+◌, ℤ, String, Bool, Option, none, some, List, [], ◌∷◌, if◌then◌else◌, contains,
}

pub record OtlpExporter : Type 0 where
  pub name : String
  pub host : String
  pub port : ℤ
  pub use_http : Bool
  pub disable_metrics : Bool
  pub disable_traces : Bool
  pub custom_metric_reporting_period : ℕ

pub record PrometheusExporter : Type 0 where
  pub name : String
  pub port : ℤ
  pub host : String
  pub process_metrics : Bool
  pub go_metrics : Bool
  pub disable_metrics : Bool

pub record Exporters : Type 0 where
  pub otlp : List OtlpExporter
  pub prometheus : List PrometheusExporter

-- The errors of `Validate`, with the name and the index in the list.
pub data DuplicateName : Type 0 where
  otlp_duplicate : String → ℕ → DuplicateName
  prometheus_duplicate : String → ℕ → DuplicateName

-- The first loop, over the names seen so far: those names after it, or the error.
pub data Checked : Type 0 where
  seen : List String → Checked
  duplicate : DuplicateName → Checked

check_otlp : ℕ → List String → List OtlpExporter → Checked
check_otlp idx names [] = seen names
check_otlp idx names (e ∷ es) =
    if contains e.name names
    then duplicate (otlp_duplicate e.name idx)
    else check_otlp (idx + 1) (e.name ∷ names) es

-- The second loop.
check_prometheus : ℕ → List String → List PrometheusExporter → Option DuplicateName
check_prometheus idx names [] = none
check_prometheus idx names (e ∷ es) =
    if contains e.name names
    then some (prometheus_duplicate e.name idx)
    else check_prometheus (idx + 1) (e.name ∷ names) es

after_otlp : Checked → List PrometheusExporter → Option DuplicateName
after_otlp (seen names) ps = check_prometheus 0 names ps
after_otlp (duplicate d) ps = some d

-- `(*Exporters).Validate`; nil is `none`
unfoldable pub validate : Exporters → Option DuplicateName
unfolding check_otlp check_prometheus after_otlp
validate e = after_otlp (check_otlp 0 [] e.otlp) e.prometheus
