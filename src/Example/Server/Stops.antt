-- ===== src/Example/Server/Stops.antt =====
-- example/server/main.go: with which context the registered state is shut down.
use krakend_otel.Prelude.{
  String, Bool, true, false, ◌≡◌, refl, ◌∙◌, ap, Option, none, some, is_some, List, [], ◌∷◌, ◌++◌,
  done, returned,
}
use krakend_otel.Registration.Globals.{Globals}
use krakend_otel.Registration.Providers.{OtelState}
use krakend_otel.Registration.Register.{register}
use krakend_otel.Example.Server.{
  Flags, Service, overridden, Lura, Action, prints, logs, runs, shuts_down, cancels, Environment,
  intercept, after_register, after_parse, main,
}

-- The states that are shut down, and whether the context, which the registration has handed to the
-- shutdown, has been canceled by then.
abbrev pub shutdowns :
    {J S R : Type 0} → Bool → List (Action J S R) → List (Option OtelState × Bool)
shutdowns canceled [] = []
shutdowns canceled (prints s ∷ rest) = shutdowns canceled rest
shutdowns canceled (logs s ∷ rest) = shutdowns canceled rest
shutdowns canceled (cancels ∷ rest) = shutdowns true rest
shutdowns canceled (runs r srv ∷ rest) = shutdowns canceled rest
shutdowns canceled (shuts_down s ∷ rest) = (s, canceled) ∷ shutdowns canceled rest

module _ {J S R E : Type 0} (env : Environment J S) (lura : Lura J S R E) where
  open env use {libraries, version, decode_config}

  shutdowns-intercept :
      (signal : Option String) (s : Option OtelState)
      → shutdowns false (intercept env lura signal ++ (shuts_down s ∷ cancels ∷ []))
        ≡ (s, is_some signal) ∷ []
  unfolding intercept
  shutdowns-intercept none s = refl
  shutdowns-intercept (some signal) s = refl

  -- Once the service has been registered, the example shuts the registered state down, once. Where a
  -- signal has stopped the service, the context that the shutdown is called with has been canceled
  -- by then; where the router has ended by itself, it has not.
  pub main-shutdowns :
      (f : Flags) (signal : Option String) (g g' : Globals) (s : Option OtelState)
      (parsed : Service J)
      → lura.parse f.config_file ≡ done parsed
      → register libraries version decode_config parsed.config g ≡ returned (g', s, none)
      → (actions : List (Action J S R)) × (main env lura f signal g ≡ returned (g', actions))
        × (shutdowns false actions ≡ (s, is_some signal) ∷ [])
  unfolding main overridden
  main-shutdowns f signal g g' s parsed read registers = (
    _,
    ap (after_parse env lura f signal g) read
        ∙ ap (after_register env lura signal (overridden f parsed)) registers,
    shutdowns-intercept signal s,
  )
