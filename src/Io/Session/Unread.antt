-- ===== src/Io/Session/Unread.antt =====
-- A reader or a writer of io/reader.go and io/writer.go that is closed before it is used.
use krakend_otel.Prelude.{
  ℕ, ◌^◌, ◌≤◌, pos, max_int64, to_int64, sub_time_zero, ◌≡◌, refl, Bool-cases, inl, inr, String,
  Option, none, some, List, [], ◌∷◌, if◌then◌else◌,
}
use krakend_otel.Telemetry.{
  Err, is_eof, text, Attribute, attr, int, secs, Ctx, noop_span, Call, measure, on_span,
  set_attributes, set_status, record_error, end_span, ok, error, Tracer, Meter,
}
use krakend_otel.Io.Instruments.{Instruments}
use krakend_otel.Io.Tracking.{finish}
use krakend_otel.Io.Reader.{ReadCloser, new_track, new_instrumented_reader}
use krakend_otel.Io.Reader as Reader
use krakend_otel.Io.Writer.{Writer, new_instrumented_writer, close_with}
use krakend_otel.Io.Writer as Written

-- What is reported of no bytes in the largest `time.Duration`, on the no-op span, after its status.
abbrev pub nothing_moved : Instruments → Ctx → List Attribute → List Call
nothing_moved i ctx attrs =
    measure i.size_count ctx (int (pos 0)) attrs
    ∷ measure i.size_histogram ctx (int (pos 0)) attrs
    ∷ measure i.time_count ctx (secs (pos max_int64)) attrs
    ∷ measure i.time_histogram ctx (secs (pos max_int64)) attrs
    ∷ on_span noop_span (
        set_attributes (
          attr i.trace_size_attr_name (int (pos 0))
          ∷ attr i.trace_time_attr_name (secs (pos max_int64))
          ∷ []))
    ∷ on_span noop_span end_span
    ∷ []

abbrev pub closed_well : Instruments → Ctx → List Call
closed_well i ctx =
    on_span noop_span (set_status ok "") ∷ nothing_moved i ctx i.metric_attribute_set_opt

abbrev pub closed_badly : Instruments → Ctx → Err → List Call
closed_badly i ctx e =
    on_span noop_span (record_error e)
    ∷ on_span noop_span (set_status error (text e))
    ∷ nothing_moved i ctx i.metric_attribute_set_with_error_opt

-- The whole log, by the error of the wrapped `Close`.
abbrev pub unread_calls : Instruments → Ctx → Option Err → List Call
unread_calls i ctx none = closed_well i ctx
unread_calls i ctx (some e) = if is_eof e then closed_well i ctx else closed_badly i ctx e

finish-new_track :
    (i : Instruments) (ctx : Ctx) (now : ℕ) (err : Option Err)
    → 2 ^ 63 ≤ now
    → (finish now err (new_track i ctx)).1 ≡ unread_calls i ctx err
unfolding finish to_int64
finish-new_track i ctx now none h = rw (sub_time_zero now h)
finish-new_track i ctx now (some e) h = elim (Bool-cases (is_eof e)) [
  | inl eof ↦ rw (sub_time_zero now h) (rw eof refl)
  | inr other ↦ rw (sub_time_zero now h) (rw other refl)
]

-- A reader and a writer that are closed before any transfer report no bytes and the largest duration
-- there is, some 292 years, with the status of the error that the wrapped `Close` returns, unless it
-- is `io.EOF`; all on the no-op span, and no span is started. The clock is past the year 293.
pub unread_close_log :
    {S : Type 0} (rc : ReadCloser S) (wc : Writer S) (prefix : String)
    (attr_t attr_m : List Attribute) (tracer : Option Tracer) (meter : Option Meter) (s : S)
    (ctx : Ctx) (now : ℕ)
    → 2 ^ 63 ≤ now
    → let r = new_instrumented_reader prefix attr_t attr_m tracer meter s ctx in
      let w = new_instrumented_writer prefix attr_t attr_m tracer meter s ctx in
      ((Reader.close rc now r).2 ≡ unread_calls r.track.instr ctx (rc.close s).1)
      × ((Written.close wc now w).2 ≡ unread_calls w.track.instr ctx (close_with wc.closer s).1)
unfolding Reader.close Written.close new_instrumented_reader new_instrumented_writer
unread_close_log rc wc prefix attr_t attr_m tracer meter s ctx now h = (
  finish-new_track _ ctx now (rc.close s).1 h,
  finish-new_track _ ctx now (close_with wc.closer s).1 h,
)
