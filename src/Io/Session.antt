-- ===== src/Io/Session.antt =====
-- A whole use of a reader or a writer: the transfers and the calls of `Close` in their order, as
-- the tracker of io/tracking.go sees them.
pub mod Once
pub mod Stop
pub mod Steps
pub mod Report
pub mod Unread
use krakend_otel.Prelude.{ℕ, Option, List, [], ◌∷◌, ◌++◌, Bool}
use krakend_otel.Telemetry.{Err, Starts, Call}
use krakend_otel.Io.Tracking.{IoTracking, start, inc_size, finish}

pub data Event : Type 0 where
  -- a `Read` or a `Write`: when it began and ended, the bytes, and the error
  transfer : ℕ → ℕ → ℕ → Option Err → Event
  closed : ℕ → Option Err → Event

unfoldable pub step : Starts → Event → IoTracking → IoTracking × List Call
step starts (transfer begun ended n err) t =
    let (t', calls) = start starts begun t in
    let (t'', more) = inc_size ended n err t' in (t'', calls ++ more)
step starts (closed now err) t = finish now err t

unfoldable pub run : Starts → List Event → IoTracking → IoTracking × List Call
run starts [] t = (t, [])
run starts (e ∷ es) t =
    let (t', calls) = step starts e t in let (t'', more) = run starts es t' in (t'', calls ++ more)
