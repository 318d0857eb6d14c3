-- ===== src/Config/Lura/Service.antt =====
-- What a service's configuration comes to.
use krakend_otel.Prelude.{
  String, ◌≡◌, refl, ◌≢◌, Option, none, some, lookup, Result, done, failed, arith, eq_iff, str_eq,
  if◌then◌else◌, List, [], ◌∷◌,
}
use krakend_otel.Telemetry.{Err}
use krakend_otel.Config.Data.{ConfigData, unset_fields_to_defaults}
use krakend_otel.Config.Data.Defaults.{IsFilled, unset_fields_to_defaults-IsFilled}
use krakend_otel.Config.Lura.{
  namespace, ConfigError, no_config, codec_error, ServiceConfig, from_lura, service_name, extra,
}

-- The first name that is not empty, if there is one.
abbrev pub first_named : List String → String
first_named [] = ""
first_named (n ∷ ns) = if str_eq n "" then first_named ns else n

module _ {J : Type 0} (decode : J → Result Err ConfigData) (srv : ServiceConfig J) where
  abbrev Decoded : Result Err ConfigData → Result ConfigError ConfigData → Type 0
  Decoded (failed e) r = r ≡ failed (codec_error e)
  Decoded (done c) r =
      (c' : ConfigData) × (r ≡ done c')
      × IsFilled (record c { service_name = c'.service_name }) c'
      × (c'.service_name ≢ "")
      × (c'.service_name ≡ first_named (c.service_name ∷ srv.name ∷ "KrakenD" ∷ []))

  -- The three ways in which reading a service's configuration ends.
  abbrev pub Read : Option J → Result ConfigError ConfigData → Type 0
  Read none r = r ≡ failed no_config
  Read (some j) r = Decoded (decode j) r

  service_name_cases :
      (configured lura_name : String)
      → (service_name configured lura_name ≢ "")
        × (service_name configured lura_name
            ≡ first_named (configured ∷ lura_name ∷ "KrakenD" ∷ []))
  service_name_cases configured lura_name =
      ground (arith, eq_iff configured "", eq_iff lura_name "", eq_iff "KrakenD" "")

  from_lura-Decoded :
      (j : J) (d : Result Err ConfigData)
      → lookup namespace srv.extra_config ≡ some j
      → decode j ≡ d
      → Decoded d (from_lura decode srv)
  unfolding from_lura unset_fields_to_defaults
  from_lura-Decoded j (failed e) found decodes = rw (found, extra, decodes)
  from_lura-Decoded j (done c) found decodes =
      let s = service_name c.service_name srv.name in
      let (named, first) = service_name_cases c.service_name srv.name in
      (
        unset_fields_to_defaults (record c { service_name = s }),
        rw (found, extra, decodes),
        unset_fields_to_defaults-IsFilled (record c { service_name = s }),
        named,
        first,
      )

  from_lura-Read :
      (o : Option J) → lookup namespace srv.extra_config ≡ o → Read o (from_lura decode srv)
  unfolding from_lura
  from_lura-Read none missing = rw missing
  from_lura-Read (some j) found = from_lura-Decoded j (decode j) found refl

  -- Without the key in "extra_config" the error says that there is no configuration, and an error of
  -- the codec is passed on. A configuration that can be decoded comes back with the defaults filled
  -- in and with a service name that is not empty: the first that is not empty of its own, Lura's and
  -- "KrakenD".
  pub from_lura_cases : Read (lookup namespace srv.extra_config) (from_lura decode srv)
  from_lura_cases = from_lura-Read (lookup namespace srv.extra_config) refl
