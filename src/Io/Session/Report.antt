-- ===== src/Io/Session/Report.antt =====
-- The whole log of a session: when the span is opened, and what is reported when it ends.
use krakend_otel.Prelude.{
  ℕ, ◌+◌, ◌^◌, ◌<◌, ◌≡◌, refl, false, Option, none, some, List, [], ◌∷◌, ◌++◌, map, arith, sub_time,
  if◌then◌else◌, is_empty, append-nil, append_assoc, zero-add, ◌∙◌, ap, add-zero, add_assoc,
}
use krakend_otel.Telemetry.{Err, Starts, Call, Ctx, start_span, on_span, set_attributes}
use krakend_otel.Io.Instruments.{Instruments}
use krakend_otel.Io.Tracking.{IoTracking, start, inc_size, report}
use krakend_otel.Io.Reader.{new_track}
use krakend_otel.Io.Session.{Event, transfer, step, run}
use krakend_otel.Io.Session.Stop.{
  Plain, plain, bytes, Stop, failing, closing, stop_event, stop_bytes, stop_time, first_begun,
  ended,
}
use krakend_otel.Io.Session.Steps.{start_again, run_again, step_stop, step-plain}

module _ (starts : Starts) (stop : Stop) (rest : List Event) where
  run_started :
      (xs : List Plain) (t : IoTracking)
      → t.finished ≡ false
      → 0 < t.started
      → t.size + bytes xs + stop_bytes stop < 2 ^ 63
      → (run starts (map plain xs ++ stop_event stop ∷ rest) t).1
        ≡ report
            (ended t (t.size + bytes xs + stop_bytes stop) stop)
            (sub_time (stop_time stop) t.started)
  unfolding run
  run_started [] t f s small = rw (add-zero t.size) (
      rw (step_stop starts stop t f s (omega arith)) (
        rw (run_again starts rest (ended t (t.size + stop_bytes stop) stop) refl s) (append-nil _)))
  run_started ((b, e, n) ∷ xs) t f s small =
      let t' : IoTracking = record t { size = t.size + n } in
      rw (step-plain starts b e n t s (omega arith))
        (rw (← add_assoc t.size n (bytes xs)) (run_started xs t' f s (omega arith)))

-- What a new tracker does first in a transfer.
module _ (starts : Starts) (i : Instruments) (ctx : Ctx) where
  abbrev pub opening : List Call
  opening =
      start_span i.tracer ctx i.trace_name
      ∷ (if is_empty i.trace_fixed_attrs
          then []
          else on_span (starts i.tracer ctx i.trace_name).1 (set_attributes i.trace_fixed_attrs)
            ∷ [])

  -- The tracker after the opening.
  abbrev pub opened : ℕ → IoTracking
  opened b = record {
    instr = i;
    ctx = (starts i.tracer ctx i.trace_name).0;
    span = (starts i.tracer ctx i.trace_name).1;
    started = b;
    finished = false;
    got_error = none;
    size = 0;
  }

  start_first : (b : ℕ) → start starts b (new_track i ctx) ≡ (opened b, opening)
  unfolding start
  start_first b = refl

  pub run-opening :
      (b e n : ℕ) (err : Option Err) (es : List Event)
      → 0 < b
      → (run starts (transfer b e n err ∷ es) (new_track i ctx)).1
        ≡ opening ++ (run starts (transfer b e n err ∷ es) (opened b)).1
  unfolding run step
  run-opening b e n err es p = rw (start_first b) (
      rw (start_again starts b (opened b) p) (
        append_assoc opening (inc_size e n err (opened b)).1
          (run starts es (inc_size e n err (opened b)).0).1))

  -- A session of transfers without errors that is ended by a failing transfer or a `Close`, with
  -- anything after it: the log of the API is exactly the opening of one span at the first transfer
  -- and one report, of the bytes of all those transfers, of the time from the start of the first to
  -- the end, and of the error unless it is `io.EOF`. This needs one transfer at least, a clock past
  -- the zero time, and fewer than 2^63 bytes.
  pub session_log :
      (xs : List Plain) (stop : Stop) (rest : List Event)
      → 0 < first_begun xs stop
      → bytes xs + stop_bytes stop < 2 ^ 63
      → (run starts (map plain xs ++ stop_event stop ∷ rest) (new_track i ctx)).1
        ≡ opening
          ++ report
              (ended (opened (first_begun xs stop)) (bytes xs + stop_bytes stop) stop)
              (sub_time (stop_time stop) (first_begun xs stop))
  session_log [] (closing now err) rest p small = absurd (omega arith)
  session_log [] (failing b e n x) rest p small =
      run-opening b e n (some x) rest p
      ∙ ap (λ c. opening ++ c)
          (run_started starts (failing b e n x) rest [] (opened b) refl p (omega arith))
  session_log ((b, e, n) ∷ xs) stop rest p small =
      run-opening b e n none (map plain xs ++ stop_event stop ∷ rest) p
      ∙ ap (λ c. opening ++ c)
          (rw (zero-add (n + bytes xs)) at
            (run_started starts stop rest ((b, e, n) ∷ xs) (opened b) refl p (omega arith)))
