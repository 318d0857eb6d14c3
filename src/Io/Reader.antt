-- ===== src/Io/Reader.antt =====
-- io/reader.go: a reader that reports what is read through it. The wrapped `io.ReadCloser` is a
-- parameter, a machine on states of its own, and so is what the tracer answers.
pub mod Transparent
use krakend_otel.Prelude.{ℕ, String, Bool, true, Option, List, [], ◌++◌, if◌then◌else◌, str_eq}
use krakend_otel.Prelude.{none, false}
use krakend_otel.Telemetry.{Err, Attribute, Span, noop_span, Ctx, Tracer, Starts, Meter, Call}
use krakend_otel.Io.Instruments.{Instruments, new_instruments}
use krakend_otel.Io.Tracking.{IoTracking, start, inc_size, finish}

pub record ReadCloser (S : Type 0) : Type 0 where
  -- `Read` into a buffer of this length: the bytes read, and the error
  pub read : ℕ → S → S × ℕ × Option Err
  pub close : S → S × Option Err

pub record InstrumentedReader (S : Type 0) : Type 0 where
  pub reader : S
  pub track : IoTracking

-- The state of a new tracker.
abbrev pub new_track : Instruments → Ctx → IoTracking
new_track instr ctx = record {
  instr = instr;
  ctx = ctx;
  span = noop_span;
  started = 0;
  finished = false;
  got_error = none;
  size = 0;
}

-- `NewInstrumentedReaderFactory`, applied to a reader.
unfoldable pub new_instrumented_reader :
    {S : Type 0}
    → String
    → List Attribute
    → List Attribute
    → Option Tracer
    → Option Meter
    → S
    → Ctx
    → InstrumentedReader S
new_instrumented_reader prefix attr_t attr_m tracer meter r ctx = record {
  reader = r;
  track =
      new_track
        (new_instruments (if str_eq prefix "" then "read." else prefix) attr_t attr_m tracer meter)
        ctx;
}

-- `NewInstrumentedReader`
abbrev pub instrument_reader :
    {S : Type 0}
    → String
    → S
    → Ctx
    → List Attribute
    → List Attribute
    → Option Tracer
    → Option Meter
    → InstrumentedReader S
instrument_reader prefix r ctx attr_t attr_m tracer meter =
    new_instrumented_reader prefix attr_t attr_m tracer meter r ctx

-- `Read`: the clock is read at the start and at the end.
unfoldable pub read :
    {S : Type 0}
    → ReadCloser S
    → Starts
    → ℕ
    → ℕ
    → ℕ
    → InstrumentedReader S
    → InstrumentedReader S × (ℕ × Option Err) × List Call
read rc starts begun ended len r =
    let (t, calls) = start starts begun r.track in
    let (s, n, err) = rc.read len r.reader in
    let (t', more) = inc_size ended n err t in
    (record { reader = s; track = t' }, (n, err), calls ++ more)

-- `Close`
unfoldable pub close :
    {S : Type 0}
    → ReadCloser S
    → ℕ
    → InstrumentedReader S
    → InstrumentedReader S × Option Err × List Call
close rc now r =
    let (s, err) = rc.close r.reader in
    let (t, calls) = finish now err r.track in (record { reader = s; track = t }, err, calls)
