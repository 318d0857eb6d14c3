-- ===== src/Registration/Register/Settles.antt =====
-- How a registration ends.
pub mod Success
pub mod Finds
use krakend_otel.Prelude.{
  ℕ, ◌+◌, ℤ, String, ◌≡◌, refl, ◌∙◌, ap, Bool, Option, none, some, List, [], ◌∷◌, ◌++◌, Map, lookup,
  insert_all, str_eq, if◌then◌else◌, Result, done, failed, ◌>>=◌, Outcome, returned, All,
  Bool-cases, inl, inr, eq_refl,
}
use krakend_otel.Telemetry.{Err, Panic}
use krakend_otel.Config.Data.{ConfigData, validate_config, unset_fields_to_defaults}
use krakend_otel.Config.Exporters.{DuplicateName}
use krakend_otel.Config.Lura.{
  ConfigError, no_config, codec_error, ServiceConfig, from_lura, lura_extra_cfg, service_name,
}
use krakend_otel.State.Config.{new_config}
use krakend_otel.Exporter.Otlp.{span_exporter}
use krakend_otel.Registration.Exporters.{
  MetricReader, SpanExporter, Libraries, instances, Started, metric_reader,
}
use krakend_otel.Registration.Globals.{Globals, set_global_exporter_instances}
use krakend_otel.Registration.Providers.{
  OtelState, NotFound, find_all, found_or, state_of, reporting_period, new_with_version_and_env,
  no_metric_exporter, no_span_exporter,
}
use krakend_otel.Registration.Register.{
  config_error, duplicate_name, creation_error, Registered, reporting_names, register,
  register_with_config, if_valid, register_global_instance, state_config, with_config,
  with_instances, with_pointers, set_config, set_state, with_servers,
}

module _ {A : Type 0} where
  abbrev Has : Map A → String → Type 0
  Has m name = (a : A) × (lookup name m ≡ some a)

  lookup-later :
      (entry : String × A) (m : Map A) (name : String) → Has m name → Has (entry ∷ m) name
  unfolding lookup
  lookup-later entry m name (a, found) = elim (Bool-cases (str_eq entry.0 name)) [
    | inl same ↦ (entry.1, rw same)
    | inr other ↦ (a, rw other found)
  ]

  lookup-first : (entry : String × A) (m : Map A) → Has (entry ∷ m) entry.0
  unfolding lookup
  lookup-first entry m = (entry.1, rw (eq_refl entry.0))

  All-later :
      (entry : String × A) (m : Map A) (names : List String)
      → All (Has m) names
      → All (Has (entry ∷ m)) names
  All-later entry m [] h = h
  All-later entry m (name ∷ names) (h, hs) =
      (lookup-later entry m name h, All-later entry m names hs)

  -- Every name of a map that reports is a name of the map.
  reporting_names-Has : (p : A → Bool) (m : Map A) → All (Has m) (reporting_names p m)
  unfolding reporting_names
  reporting_names-Has p [] = tt
  reporting_names-Has p (entry ∷ m) =
      let later = All-later entry m (reporting_names p m) (reporting_names-Has p m) in
      elim (Bool-cases (p entry.1)) [
        | inl on ↦ rw on (lookup-first entry m, later)
        | inr off ↦ rw off later
      ]

  find_all-done :
      {B : Type 0} (missing : String → ℕ → NotFound) (make : A → B) (m : Map A) (idx : ℕ)
      (names : List String)
      → All (Has m) names
      → (found : List B) × (find_all missing make m idx names ≡ done found)
  unfolding find_all
  find_all-done missing make m idx [] h = ([], refl)
  find_all-done missing make m idx (name ∷ names) ((a, h), hs) =
      let (found, eq) = find_all-done missing make m (idx + 1) names hs in
      (
        make a ∷ found,
        ap (λ o. found_or (missing name idx) make o (find_all missing make m (idx + 1) names)) h
            ∙ ap (λ r. r >>= (λ xs. done (make a ∷ xs))) eq,
      )

-- The providers of the global state are always found.
new_state-done :
    (service version env : String) (me : Map MetricReader) (te : Map SpanExporter) (period rate : ℤ)
    → (s : OtelState) × (new_with_version_and_env service
          (state_config me te period rate)
          version
          env
          me
          te
        ≡ done s)
unfolding new_with_version_and_env
new_state-done service version env me te period rate =
    let cfg = state_config me te period rate in
    let (readers, eq) =
      find_all-done no_metric_exporter (metric_reader (reporting_period cfg)) me 0
        cfg.metric_providers (reporting_names-Has _ me) in
    let (exporters, eq') =
      find_all-done no_span_exporter span_exporter te 0 cfg.trace_providers
        (reporting_names-Has _ te) in
    (state_of service cfg version env readers exporters, rw (eq, eq'))

-- The pointers that are followed are set.
abbrev HasPointers : Result ConfigError ConfigData → Type 0
HasPointers (failed e) = Unit
HasPointers (done cfg) =
    ((period : ℤ) × (cfg.metric_reporting_period ≡ some period))
    × ((rate : ℤ) × (cfg.trace_sample_rate ≡ some rate))

defaults-HasPointers :
    (name : ConfigData → ConfigData) (r : Result ConfigError ConfigData)
    → HasPointers (r >>= (λ cfg. done (unset_fields_to_defaults (name cfg))))
unfolding unset_fields_to_defaults
defaults-HasPointers name (failed e) = tt
defaults-HasPointers name (done cfg) = ((_, refl), (_, refl))

from_lura-HasPointers :
    {J : Type 0} (decode : J → Result Err ConfigData) (srv : ServiceConfig J)
    → HasPointers (from_lura decode srv)
unfolding from_lura
from_lura-HasPointers decode srv =
    defaults-HasPointers
      (λ cfg. record cfg { service_name = service_name cfg.service_name srv.name })
      (lura_extra_cfg decode srv.extra_config)

module _ (libs : Libraries) (g : Globals) where
  -- With exporters that could be made: everything global is set, and there is no error.
  abbrev Made :
      ConfigData → Started (Map MetricReader × Map SpanExporter) → Outcome Panic Registered → Type 0
  Made cfg (servers, failed e) r =
      r ≡ returned (record g { servers = g.servers ++ servers }, none, some (creation_error e))
  Made cfg (servers, done (me, te)) r =
      (s : OtelState) × (r
        ≡ returned (
          record {
            metrics_instances = insert_all me [];
            traces_instances = insert_all te [];
            otel_state = some s;
            global_config = some (new_config cfg);
            servers = g.servers ++ servers;
          },
          some s,
          none,
        ))

  abbrev Checked : ConfigData → Option DuplicateName → Outcome Panic Registered → Type 0
  Checked cfg (some d) r = r ≡ returned (g, none, some (duplicate_name d))
  Checked cfg none r = Made cfg (instances libs cfg.exporters) r

  -- What a registration comes to, by the configuration that was read.
  abbrev pub Settles : Result ConfigError ConfigData → Outcome Panic Registered → Type 0
  Settles (failed no_config) r = r ≡ returned (g, none, none)
  Settles (failed (codec_error e)) r = r ≡ returned (g, none, some (config_error (codec_error e)))
  Settles (done cfg) r = Checked cfg (validate_config cfg) r

  made :
      (version : String) (cfg : ConfigData) (i : Started (Map MetricReader × Map SpanExporter))
      → HasPointers (done cfg)
      → Made cfg i (with_instances version cfg g i)
  unfolding register_global_instance
  made version cfg (servers, failed e) h = refl
  made version cfg (servers, done (me, te)) ((period, p), (rate, q)) =
      let version' = if str_eq cfg.service_version "" then version else cfg.service_version in
      let (s, eq) = new_state-done cfg.service_name version' cfg.deploy_env me te period rate in
      let g' = set_global_exporter_instances me te (with_servers servers g) in
      let f : ℤ → ℤ → Registered = λ x y. set_config cfg (
        register_global_instance version g' me te x y cfg.service_name cfg.service_version
          cfg.deploy_env) in
      (
        s,
        ap (λ o. with_pointers o cfg.trace_sample_rate f) p
            ∙ (ap (λ o. with_pointers (some period) o f) q
                ∙ ap (λ o. returned (set_config cfg (set_state g' o))) eq),
      )

  checked :
      (version : String) (cfg : ConfigData) (o : Option DuplicateName)
      → HasPointers (done cfg)
      → Checked cfg o (if_valid g o (with_instances version cfg g (instances libs cfg.exporters)))
  checked version cfg none h = made version cfg (instances libs cfg.exporters) h
  checked version cfg (some d) h = refl

  settled :
      (version : String) (r : Result ConfigError ConfigData)
      → HasPointers r
      → Settles r (with_config libs version g r)
  unfolding register_with_config
  settled version (failed no_config) h = refl
  settled version (failed (codec_error e)) h = refl
  settled version (done cfg) h = checked version cfg (validate_config cfg) h

  -- A registration does not panic, and never fails for an exporter that it does not find. Without a
  -- configuration it leaves everything as it is. The errors of the codec, a duplicate name and an
  -- exporter that cannot be made are answered, with the globals as they were, but the servers of the
  -- exporters made before that one have been started. In all other cases the exporters, the state and
  -- the configuration are set, and the state is the one to be shut down.
  pub register-Settles :
      {J : Type 0} (version : String) (decode : J → Result Err ConfigData) (srv : ServiceConfig J)
      → Settles (from_lura decode srv) (register libs version decode srv g)
  unfolding register
  register-Settles version decode srv =
      settled version (from_lura decode srv) (from_lura-HasPointers decode srv)
