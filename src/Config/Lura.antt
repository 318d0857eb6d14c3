-- ===== src/Config/Lura.antt =====
-- config/lura.go: the configuration inside Lura's "extra_config". A value of JSON is opaque, and
-- its encoding and decoding, which encoding/json does, is an argument.
pub mod Service
use krakend_otel.Prelude.{
  String, str_eq, not, Option, none, some, if◌then◌else◌, Map, lookup, Result, done, failed, ◌>>=◌,
}
use krakend_otel.Telemetry.{Err}
use krakend_otel.Config.Options.{LayersOpts}
use krakend_otel.Config.Data.{ConfigData, unset_fields_to_defaults}

abbrev pub namespace : String
namespace = "telemetry/opentelemetry"

-- `ErrNoConfig`, or the error of the JSON codec.
pub data ConfigError : Type 0 where
  no_config : ConfigError
  codec_error : Err → ConfigError

-- The part of Lura's `ServiceConfig` that is read.
pub record ServiceConfig (J : Type 0) : Type 0 where
  pub name : String
  pub extra_config : Map J

abbrev pub service_name : String → String → String
service_name configured lura_name =
    if str_eq configured ""
    then (if not (str_eq lura_name "") then lura_name else "KrakenD")
    else configured

abbrev decoded : {A : Type 0} → Result Err A → Result ConfigError A
decoded (done a) = done a
decoded (failed e) = failed (codec_error e)

module _ {J : Type 0} where
  abbrev extra : {A : Type 0} → (J → Result Err A) → Option J → Result ConfigError A
  extra decode none = failed no_config
  extra decode (some tmp) = decoded (decode tmp)

  -- `LuraExtraCfg`
  unfoldable pub lura_extra_cfg :
      (J → Result Err ConfigData) → Map J → Result ConfigError ConfigData
  lura_extra_cfg decode extra_cfg = extra decode (lookup namespace extra_cfg)

  -- `LuraLayerExtraCfg`
  unfoldable pub lura_layer_extra_cfg :
      (J → Result Err LayersOpts) → Map J → Result ConfigError LayersOpts
  lura_layer_extra_cfg decode extra_cfg = extra decode (lookup namespace extra_cfg)

  -- `FromLura`
  unfoldable pub from_lura :
      (J → Result Err ConfigData) → ServiceConfig J → Result ConfigError ConfigData
  unfolding lura_extra_cfg
  from_lura decode srv_cfg = do
    cfg ← lura_extra_cfg decode srv_cfg.extra_config
    done (
        unset_fields_to_defaults
          (record cfg { service_name = service_name cfg.service_name srv_cfg.name }))
