-- ===== src/Io/Session/Stop.antt =====
-- A session of io/tracking.go up to what ends it: transfers without errors, and the end.
use krakend_otel.Prelude.{ℕ, ◌+◌, true, Option, none, some, List, [], ◌∷◌}
use krakend_otel.Telemetry.{Err}
use krakend_otel.Io.Tracking.{IoTracking, failure}
use krakend_otel.Io.Session.{Event, transfer, closed}

-- A transfer with no error: when it began and ended, and the bytes.
abbrev pub Plain : Type 0
Plain = ℕ × ℕ × ℕ

abbrev pub plain : Plain → Event
plain (begun, ended, n) = transfer begun ended n none

abbrev pub bytes : List Plain → ℕ
bytes [] = 0
bytes ((begun, ended, n) ∷ xs) = n + bytes xs

-- What ends a session: a transfer with an error, or a `Close`.
pub data Stop : Type 0 where
  failing : ℕ → ℕ → ℕ → Err → Stop
  closing : ℕ → Option Err → Stop

abbrev pub stop_event : Stop → Event
stop_event (failing begun ended n e) = transfer begun ended n (some e)
stop_event (closing now err) = closed now err

abbrev pub stop_bytes : Stop → ℕ
stop_bytes (failing begun ended n e) = n
stop_bytes (closing now err) = 0

abbrev pub stop_time : Stop → ℕ
stop_time (failing begun ended n e) = ended
stop_time (closing now err) = now

abbrev pub stop_error : Stop → Option Err
stop_error (failing begun ended n e) = some e
stop_error (closing now err) = err

-- When the first transfer begins, 0 if there is none.
abbrev pub first_begun : List Plain → Stop → ℕ
first_begun ((begun, ended, n) ∷ xs) stop = begun
first_begun [] (failing begun ended n e) = begun
first_begun [] (closing now err) = 0

-- The tracker that the report is made from.
abbrev pub ended : IoTracking → ℕ → Stop → IoTracking
ended t total stop = record t {
  size = total;
  finished = true;
  got_error = failure (stop_error stop) t.got_error;
}
