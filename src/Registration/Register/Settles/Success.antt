-- ===== src/Registration/Register/Settles/Success.antt =====
-- What a registration that has succeeded must have been.
use krakend_otel.Prelude.{
  ◌≡◌, refl, ◌++◌, List, Option, none, some, [], Map, insert_all, Result, done, failed, Outcome,
  returned,
}
use krakend_otel.Telemetry.{Err, Panic}
use krakend_otel.Prelude.{String}
use krakend_otel.Config.Data.{ConfigData, validate_config}
use krakend_otel.Config.Exporters.{DuplicateName}
use krakend_otel.Config.Lura.{ConfigError, no_config, codec_error, ServiceConfig, from_lura}
use krakend_otel.State.Config.{new_config}
use krakend_otel.Exporter.Prometheus.{Server}
use krakend_otel.Registration.Exporters.{MetricReader, SpanExporter, Libraries, Started, instances}
use krakend_otel.Registration.Providers.{OtelState}
use krakend_otel.Registration.Globals.{Globals}
use krakend_otel.Registration.Register.{Registered, register}
use krakend_otel.Registration.Register.Settles.{Settles, Checked, Made, register-Settles}

module _ (libs : Libraries) (g g' : Globals) (s : OtelState) where
  -- The registration has answered the globals `g'` and the state to be shut down.
  abbrev Registers : Outcome Panic Registered → Type 0
  Registers r = r ≡ returned (g', some s, none)

  -- The globals, from the exporters that were made for the configuration.
  abbrev pub IsRegistered : ConfigData → Type 0
  IsRegistered cfg =
      (servers : List Server) × (me : Map MetricReader) × (te : Map SpanExporter) × (validate_config
          cfg
        ≡ none)
      × (instances libs cfg.exporters ≡ (servers, done (me, te)))
      × (g' ≡ record {
        metrics_instances = insert_all me [];
        traces_instances = insert_all te [];
        otel_state = some s;
        global_config = some (new_config cfg);
        servers = g.servers ++ servers;
      })

  Made-IsRegistered :
      (cfg : ConfigData) (i : Started (Map MetricReader × Map SpanExporter))
      (r : Outcome Panic Registered)
      → validate_config cfg ≡ none
      → instances libs cfg.exporters ≡ i
      → Made libs g cfg i r
      → Registers r
      → IsRegistered cfg
  Made-IsRegistered cfg (servers, failed e) r valid ei m h = absurd (cc (m, h))
  Made-IsRegistered cfg (servers, done (me, te)) r valid ei (s', m) h =
      (servers, me, te, valid, ei, cc (m, h))

  Checked-IsRegistered :
      (cfg : ConfigData) (o : Option DuplicateName) (r : Outcome Panic Registered)
      → validate_config cfg ≡ o
      → Checked libs g cfg o r
      → Registers r
      → IsRegistered cfg
  Checked-IsRegistered cfg (some d) r valid c h = absurd (cc (c, h))
  Checked-IsRegistered cfg none r valid m h =
      Made-IsRegistered cfg (instances libs cfg.exporters) r valid refl m h

  Settles-IsRegistered :
      (o : Result ConfigError ConfigData) (r : Outcome Panic Registered)
      → Settles libs g o r
      → Registers r
      → (cfg : ConfigData) × (o ≡ done cfg) × IsRegistered cfg
  Settles-IsRegistered (failed no_config) r c h = absurd (cc (c, h))
  Settles-IsRegistered (failed (codec_error e)) r c h = absurd (cc (c, h))
  Settles-IsRegistered (done cfg) r c h =
      (cfg, refl, Checked-IsRegistered cfg (validate_config cfg) r refl c h)

  pub register-IsRegistered :
      {J : Type 0} (version : String) (decode : J → Result Err ConfigData) (srv : ServiceConfig J)
      → register libs version decode srv g ≡ returned (g', some s, none)
      → (cfg : ConfigData) × (from_lura decode srv ≡ done cfg) × IsRegistered cfg
  register-IsRegistered version decode srv h =
      Settles-IsRegistered (from_lura decode srv) (register libs version decode srv g)
        (register-Settles libs g version decode srv) h
