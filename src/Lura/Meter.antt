-- ===== src/Lura/Meter.antt =====
-- lura/proxy_meter.go: the metrics of a stage of the pipe.
pub mod Labels
use krakend_otel.Prelude.{
  String, Bool, true, false, not, ◌&&◌, ◌||◌, Option, none, some, List, [], ◌∷◌, ◌++◌, ℤ, concat,
  if◌then◌else◌, is_some, Result, done, failed, ◌>>=◌,
}
use krakend_otel.Telemetry.{
  Err, Errs, nil, cons, multi, message, is_canceled, opt_is, Attribute, attr, bool, secs, Ctx,
  Meter, Instrument, float64_histogram, Call, measure,
}
use krakend_otel.Config.Buckets.{time_buckets}

pub record MiddlewareMeter : Type 0 where
  pub duration : Instrument
  pub attrs : List Attribute

-- The response of a proxy, as far as it is read.
pub record Response : Type 0 where
  pub is_complete : Bool
  pub status_code : ℤ
  pub headers : List (String × List String)

abbrev pub duration_instrument : String → Instrument
duration_instrument stage_name = record {
  kind = float64_histogram;
  name = concat "krakend." (concat stage_name ".duration");
  unit = none;
  buckets = time_buckets;
  noop = false;
}

-- `newMiddlewareMeter`: the OTEL state, which may be nil, with the meter that it has, which may be
-- nil too. The error of the meter is the argument `refused`.
unfoldable pub new_middleware_meter :
    Err → Option (Option Meter) → String → List Attribute → Result Err MiddlewareMeter
new_middleware_meter refused none stage_name attrs = failed (message "no OTEL state provided")
new_middleware_meter refused (some none) stage_name attrs =
    failed (message "OTEL state returned nil meter")
new_middleware_meter refused (some (some meter)) stage_name attrs =
    if meter (duration_instrument stage_name)
    then done (record { duration = duration_instrument stage_name; attrs = attrs })
    else failed refused

-- The loop over `mErr.Errors()`, on (isErr, isCanceled).
sort_errors : Errs → Bool × Bool → Bool × Bool
sort_errors nil flags = flags
sort_errors (cons e es) (is_err, canceled) =
    sort_errors es (if is_canceled e then (is_err, true) else (true, canceled))

-- `if mErr, ok := err.(multiError); ok { … }`
abbrev sort_multi : Err → Bool × Bool → Bool × Bool
sort_multi (multi s es) flags = sort_errors es flags
sort_multi _ flags = flags

abbrev err_unless_canceled : Bool × Bool → Bool × Bool
err_unless_canceled (is_err, canceled) = (if not canceled then true else is_err, canceled)

-- The labels (isErr, isCanceled) of a call that ended with `err`, under a context with the error
-- `ctx_err`.
unfoldable pub classify : Option Err → Option Err → Bool × Bool
unfolding sort_errors
classify ctx_err none = (false, false)
classify ctx_err (some err) =
    err_unless_canceled (
      sort_multi err (false, if is_canceled err || opt_is is_canceled ctx_err then true else false))

abbrev pub complete : Option Response → Bool
complete none = false
complete (some r) = r.is_complete

-- `report`
unfoldable pub report :
    MiddlewareMeter → Ctx → Option Err → ℤ → Option Response → Option Err → List Call
report m ctx ctx_err duration resp err =
    let (is_err, canceled) = classify ctx_err err in
    measure m.duration ctx (secs duration) (
      m.attrs
      ++ (attr "error" (bool is_err)
          ∷ attr "canceled" (bool canceled)
          ∷ attr "complete" (bool (complete resp))
          ∷ []))
    ∷ []
