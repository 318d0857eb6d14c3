-- ===== src/Tests/Sessions.antt =====
-- io: a body of three bytes that is read twice and closed.
use krakend_otel.Prelude.{length, ◌+◌}
use krakend_otel.Io.Writer.{Writer, InstrumentedWriter, new_instrumented_writer}
use krakend_otel.Io.Writer.Transparent.{
  Order, write_order, close_order, run_writer, run_plain, run_writer-eq-run_plain,
  session as written_session,
}
use krakend_otel.Prelude.{
  ℕ, ◌-◌, ◌≡◌, refl, none, some, List, [], ◌∷◌, ◌++◌, map, arith, sub_time, ltb, if◌then◌else◌,
}
use Prim.Native.Nat.{min}
use krakend_otel.Telemetry.{
  eof, message, request_ctx, with_span, live, Starts, provided_tracer, samples, measured,
  ended_spans, opened_spans,
}
use krakend_otel.Io.Instruments.{Instruments, new_instruments}
use krakend_otel.Io.Tracking.{start, inc_size, finish, report}
use krakend_otel.Io.Reader.{ReadCloser, InstrumentedReader, new_instrumented_reader, new_track}
use krakend_otel.Io.Reader as Reader
use krakend_otel.Io.Writer as Written
use krakend_otel.Io.Reader.Transparent.{
  Request, read_request, close_request, run_instrumented, run_bare, run_instrumented-eq-run_bare,
  events,
}
use krakend_otel.Io.Session as Session
use krakend_otel.Io.Session.{Event, transfer, closed}
use krakend_otel.Io.Session.Once.{report_samples, run_reports_once}
use krakend_otel.Io.Session.Stop.{plain, closing, stop_event, ended}
use krakend_otel.Io.Session.Report.{opening, opened, session_log}
use krakend_otel.Io.Session.Unread.{unread_calls, unread_close_log}

-- What is left of the body, and a read of at most the buffer's length.
abbrev short_body : ReadCloser ℕ
short_body = record {
  read = λ len left.
      if ltb 0 left then (left - min len left, min len left, none) else (0, 0, some eof);
  close = λ left. (left, none);
}

abbrev starts : Starts
starts tracer ctx name = (with_span ctx (live 7), live 7)

abbrev instr : Instruments
instr = new_instruments "read." [] [] (some provided_tracer) none

abbrev reader : InstrumentedReader ℕ
reader = new_instrumented_reader "" [] [] (some provided_tracer) none 3 (request_ctx 1)

abbrev asked : List Request
asked = read_request 10 11 2 ∷ read_request 12 14 2 ∷ read_request 15 16 2 ∷ close_request 20 ∷ []

run_instrumented-eq-run_bare_example :
    let (r', as', calls) = run_instrumented short_body starts asked reader in
    ((r'.reader, as') ≡ run_bare short_body starts asked reader.reader)
    × ((r'.track, calls)
        ≡ Session.run starts (events short_body starts asked reader.reader) reader.track)
run_instrumented-eq-run_bare_example = run_instrumented-eq-run_bare short_body starts asked reader

abbrev session : List Event
session = transfer 10 11 2 none ∷ transfer 12 14 0 (some eof) ∷ closed 20 none ∷ closed 21 none ∷ []

run_reports_once_example :
    let calls = (Session.run starts session (new_track instr (request_ctx 1))).1 in
    (measured calls ≡ report_samples instr)
    × (ended_spans calls ≡ live 7 ∷ [])
    × (opened_spans calls ≡ instr.trace_name ∷ [])
run_reports_once_example =
    run_reports_once starts instr (request_ctx 1) session (omega arith, (omega arith, tt))

four_samples : samples (Session.run starts session (new_track instr (request_ctx 1))).1 ≡ 4
unfolding Session.run Session.step start new_instruments inc_size finish
four_samples = refl

session_log_example :
    (Session.run starts
      (map plain ((10, 11, 2) ∷ (12, 14, 1) ∷ [])
        ++ stop_event (closing 20 (some (message "reset"))) ∷ closed 21 none ∷ [])
      (new_track instr (request_ctx 1))).1
    ≡ opening starts instr (request_ctx 1)
      ++ report
          (ended (opened starts instr (request_ctx 1) 10) 3 (closing 20 (some (message "reset"))))
          (sub_time 20 10)
session_log_example =
    session_log starts instr (request_ctx 1) ((10, 11, 2) ∷ (12, 14, 1) ∷ [])
      (closing 20 (some (message "reset"))) (closed 21 none ∷ []) (omega arith) (omega arith)

abbrev year_2024 : ℕ
year_2024 = 63839664000000000000

-- A buffer that takes everything, and cannot be closed: its state is the number of bytes.
abbrev buffer : Writer ℕ
buffer = record {
  write = λ bytes written. (written + length bytes, length bytes, none);
  closer = none;
}

abbrev writer : InstrumentedWriter ℕ
writer = new_instrumented_writer "" [] [] (some provided_tracer) none 0 (request_ctx 1)

abbrev empty_writer : InstrumentedWriter ℕ
empty_writer = new_instrumented_writer "" [] [] (some provided_tracer) none 3 (request_ctx 1)

abbrev orders : List Order
orders = write_order 10 11 (65 ∷ 66 ∷ []) ∷ close_order 20 ∷ []

run_writer-eq-run_plain_example :
    let (w', rs, calls) = run_writer buffer starts orders writer in
    ((w'.writer, rs) ≡ run_plain buffer starts orders writer.writer)
    × ((w'.track, calls)
        ≡ Session.run starts (written_session buffer starts orders writer.writer) writer.track)
run_writer-eq-run_plain_example = run_writer-eq-run_plain buffer starts orders writer

unread_close_log_example :
    ((Reader.close short_body year_2024 reader).2
      ≡ unread_calls reader.track.instr (request_ctx 1) none)
    × ((Written.close buffer year_2024 empty_writer).2
        ≡ unread_calls empty_writer.track.instr (request_ctx 1) none)
unread_close_log_example =
    unread_close_log short_body buffer "" [] [] (some provided_tracer) none 3 (request_ctx 1)
      year_2024 (omega arith)
