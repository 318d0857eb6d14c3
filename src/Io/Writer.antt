-- ===== src/Io/Writer.antt =====
-- io/writer.go: a writer that reports what is written through it. The wrapped `io.Writer` is a
-- parameter; it may have no `Close`.
pub mod Transparent
use krakend_otel.Prelude.{ℕ, String, Option, none, some, List, ◌++◌, if◌then◌else◌, str_eq}
use krakend_otel.Telemetry.{Err, Attribute, Ctx, Tracer, Starts, Meter, Call}
use krakend_otel.Io.Instruments.{new_instruments}
use krakend_otel.Io.Tracking.{IoTracking, start, inc_size, finish}
use krakend_otel.Io.Reader.{new_track}

pub record Writer (S : Type 0) : Type 0 where
  -- `Write` of a buffer: the bytes written, and the error
  pub write : List ℕ → S → S × ℕ × Option Err
  -- `Close`, if the writer is an `io.Closer`
  pub closer : Option (S → S × Option Err)

pub record InstrumentedWriter (S : Type 0) : Type 0 where
  pub writer : S
  pub track : IoTracking

-- `NewInstrumentedWriterFactory`, applied to a writer.
unfoldable pub new_instrumented_writer :
    {S : Type 0}
    → String
    → List Attribute
    → List Attribute
    → Option Tracer
    → Option Meter
    → S
    → Ctx
    → InstrumentedWriter S
new_instrumented_writer prefix attr_t attr_m tracer meter w ctx = record {
  writer = w;
  track =
      new_track
        (new_instruments (if str_eq prefix "" then "written." else prefix) attr_t attr_m tracer
          meter)
        ctx;
}

-- `NewInstrumentedWriter`
abbrev pub instrument_writer :
    {S : Type 0}
    → String
    → S
    → Ctx
    → List Attribute
    → List Attribute
    → Option Tracer
    → Option Meter
    → InstrumentedWriter S
instrument_writer prefix w ctx attr_t attr_m tracer meter =
    new_instrumented_writer prefix attr_t attr_m tracer meter w ctx

-- `Write`
unfoldable pub write :
    {S : Type 0}
    → Writer S
    → Starts
    → ℕ
    → ℕ
    → List ℕ
    → InstrumentedWriter S
    → InstrumentedWriter S × (ℕ × Option Err) × List Call
write wc starts begun ended buffer w =
    let (t, calls) = start starts begun w.track in
    let (s, n, err) = wc.write buffer w.writer in
    let (t', more) = inc_size ended n err t in
    (record { writer = s; track = t' }, (n, err), calls ++ more)

abbrev pub close_with : {S : Type 0} → Option (S → S × Option Err) → S → S × Option Err
close_with none s = (s, none)
close_with (some f) s = f s

-- `Close`
unfoldable pub close :
    {S : Type 0}
    → Writer S
    → ℕ
    → InstrumentedWriter S
    → InstrumentedWriter S × Option Err × List Call
close wc now w =
    let (s, err) = close_with wc.closer w.writer in
    let (t, calls) = finish now err w.track in (record { writer = s; track = t }, err, calls)
