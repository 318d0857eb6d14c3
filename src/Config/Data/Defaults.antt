-- ===== src/Config/Data/Defaults.antt =====
-- The defaults complete a configuration and keep what it sets.
use krakend_otel.Prelude.{
  ◌≡◌, refl, Option, none, some, List, [], arith, is_empty, if◌then◌else◌, ◌∷◌, pos, String,
}
use krakend_otel.Config.Options.{LayersOpts, BackendOpts, zero_global_opts, zero_pipe_opts}
use krakend_otel.Config.Data.{
  ConfigData, unset_fields_to_defaults, default_metric_opts, default_trace_opts, default_skip_paths,
  or_default,
}

or_default_idempotent : (ps : List String) → or_default (or_default ps) ≡ or_default ps
or_default_idempotent [] = refl
or_default_idempotent (p ∷ ps) = refl

-- A nil pointer has become this default, and any other is as it was.
abbrev pub Fills : {A : Type 0} → A → Option A → Option A → Type 0
Fills d none after = after ≡ some d
Fills d (some a) after = after ≡ some a

unset_fields_to_defaults_idempotent :
    (c : ConfigData)
    → unset_fields_to_defaults (unset_fields_to_defaults c) ≡ unset_fields_to_defaults c
unfolding unset_fields_to_defaults
unset_fields_to_defaults_idempotent c = rw (or_default_idempotent c.skip_paths)

abbrev pub from_layers : {A : Type 0} → (LayersOpts → Option A) → ConfigData → Option A
from_layers f c = elim c.layers [ none ↦ none | some l ↦ f l ]

abbrev pub from_backend : {A : Type 0} → (BackendOpts → Option A) → ConfigData → Option A
from_backend f = from_layers (λ l. elim l.backend [ none ↦ none | some b ↦ f b ])

-- What the defaults do to each field, the options of the layers looked up through the pointers.
pub record IsFilled (c c' : ConfigData) : Type 0 where
  pub period : Fills (pos 30) c.metric_reporting_period c'.metric_reporting_period
  pub rate : Fills (pos 1000000) c.trace_sample_rate c'.trace_sample_rate
  pub global :
      Fills zero_global_opts (from_layers (λ l. l.global) c) (from_layers (λ l. l.global) c')
  pub pipe : Fills zero_pipe_opts (from_layers (λ l. l.pipe) c) (from_layers (λ l. l.pipe) c')
  pub metrics :
      Fills default_metric_opts (from_backend (λ b. b.metrics) c) (from_backend (λ b. b.metrics) c')
  pub traces :
      Fills default_trace_opts (from_backend (λ b. b.traces) c) (from_backend (λ b. b.traces) c')
  pub paths : c'.skip_paths ≡ (if is_empty c.skip_paths then default_skip_paths else c.skip_paths)
  pub name : c'.service_name ≡ c.service_name
  pub version : c'.service_version ≡ c.service_version
  pub env : c'.deploy_env ≡ c.deploy_env
  pub exporters : c'.exporters ≡ c.exporters

pub unset_fields_to_defaults-IsFilled : (c : ConfigData) → IsFilled c (unset_fields_to_defaults c)
unfolding unset_fields_to_defaults
unset_fields_to_defaults-IsFilled c = ground arith

-- After the defaults every optional field is set: to its default where it was nil, on whichever
-- level of the layers, and otherwise to what it was. The skip paths are the four default ones if
-- there were none, and otherwise as they were, and nothing else has changed. Applying the defaults
-- twice is applying them once.
pub unset_fields_to_defaults_lem :
    (c : ConfigData)
    → IsFilled c (unset_fields_to_defaults c)
      × (unset_fields_to_defaults (unset_fields_to_defaults c) ≡ unset_fields_to_defaults c)
unset_fields_to_defaults_lem c =
    (unset_fields_to_defaults-IsFilled c, unset_fields_to_defaults_idempotent c)
