-- ===== src/Lura/Meter/Labels.antt =====
-- What the labels "error" and "canceled" say of a call.
use krakend_otel.Prelude.{
  Bool, true, false, not, ◌||◌, ◌≡◌, Option, none, some, arith, if◌then◌else◌,
}
use krakend_otel.Telemetry.{Err, Errs, nil, cons, multi, is_canceled, opt_is}
use krakend_otel.Lura.Meter.{classify, sort_errors, sort_multi}

-- Some error of the list is a cancellation; some is not.
abbrev pub any_canceled : Errs → Bool
any_canceled nil = false
any_canceled (cons e es) = is_canceled e || any_canceled es

abbrev pub any_failed : Errs → Bool
any_failed nil = false
any_failed (cons e es) = not (is_canceled e) || any_failed es

abbrev pub parts : Err → Errs
parts (multi s es) = es
parts _ = nil

sort_errors_lem :
    (es : Errs) (is_err canceled : Bool)
    → sort_errors es (is_err, canceled) ≡ (is_err || any_failed es, canceled || any_canceled es)
unfolding sort_errors
sort_errors_lem nil is_err canceled = ground arith
sort_errors_lem (cons e es) is_err canceled =
    ground (arith, sort_errors_lem es is_err true, sort_errors_lem es true canceled)

sort_multi_lem :
    (e : Err) (canceled : Bool)
    → sort_multi e (false, canceled) ≡ (any_failed (parts e), canceled || any_canceled (parts e))
sort_multi_lem (multi s es) canceled = sort_errors_lem es false canceled
sort_multi_lem _ canceled = ground arith

-- A call that ended with an error is labelled canceled exactly if the error or the context's is a
-- cancellation, or the error is a collection that holds one. It is labelled an error exactly if the
-- collection holds anything but cancellations, or if it is not labelled canceled. So it has one of
-- the labels, and a call without an error has none.
pub classify_lem :
    (ctx_err : Option Err) (err : Err)
    → let canceled = (is_canceled err || opt_is is_canceled ctx_err) || any_canceled (parts err) in
      (classify ctx_err (some err) ≡ (any_failed (parts err) || not canceled, canceled))
      × (classify ctx_err none ≡ (false, false))
unfolding classify
classify_lem ctx_err err =
    let seen = is_canceled err || opt_is is_canceled ctx_err in
    ground (
      arith,
      sort_multi_lem err (if is_canceled err || opt_is is_canceled ctx_err then true else false),
    )
