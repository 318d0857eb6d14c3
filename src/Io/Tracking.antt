-- ===== src/Io/Tracking.antt =====
-- io/tracking.go: what is measured while a reader or a writer is in use. Each operation takes the
-- readings of the clock that it makes, and returns the new state with its calls of the API.
use krakend_otel.Prelude.{
  ℕ, Bool, true, Option, none, some, List, [], ◌∷◌, ◌++◌, if◌then◌else◌, ◌==◌, is_empty, ℤ, add64,
  to_int64, sub_time,
}
use krakend_otel.Telemetry.{
  Err, is_eof, text, Attribute, attr, int, secs, Span, Ctx, Starts, Call, start_span, on_span,
  measure, set_attributes, set_status, record_error, end_span, ok, error,
}
use krakend_otel.Io.Instruments.{Instruments}

pub record IoTracking : Type 0 where
  pub instr : Instruments
  pub ctx : Ctx
  pub span : Span
  -- nanoseconds since the zero `time.Time`, 0 before the first read or write
  pub started : ℕ
  pub finished : Bool
  pub got_error : Option Err
  -- the 64-bit pattern of an `int64`
  pub size : ℕ

-- `start`
unfoldable pub start : Starts → ℕ → IoTracking → IoTracking × List Call
start starts now t =
    if t.started == 0
    then (let (ctx, span) = starts t.instr.tracer t.ctx t.instr.trace_name in
        (
          record t { started = now; ctx = ctx; span = span },
          start_span t.instr.tracer t.ctx t.instr.trace_name
              ∷ (if is_empty t.instr.trace_fixed_attrs
                  then []
                  else on_span span (set_attributes t.instr.trace_fixed_attrs) ∷ []),
        ))
    else (t, [])

-- `err != nil && err != io.EOF` replaces the error that was there.
abbrev pub failure : Option Err → Option Err → Option Err
failure none old = old
failure (some e) old = if is_eof e then old else some e

-- The attributes of the samples.
abbrev pub sample_attrs : Instruments → Option Err → List Attribute
sample_attrs i none = i.metric_attribute_set_opt
sample_attrs i (some e) = i.metric_attribute_set_with_error_opt

abbrev pub status_calls : Span → Option Err → List Call
status_calls s none = on_span s (set_status ok "") ∷ []
status_calls s (some e) = on_span s (record_error e) ∷ on_span s (set_status error (text e)) ∷ []

-- The calls that `end` makes once, for the duration in nanoseconds.
abbrev pub report : IoTracking → ℤ → List Call
report t d =
    status_calls t.span t.got_error
    ++ (measure t.instr.size_count t.ctx (int (to_int64 t.size)) (sample_attrs t.instr t.got_error)
        ∷ measure t.instr.size_histogram t.ctx (int (to_int64 t.size))
            (sample_attrs t.instr t.got_error)
        ∷ measure t.instr.time_count t.ctx (secs d) (sample_attrs t.instr t.got_error)
        ∷ measure t.instr.time_histogram t.ctx (secs d) (sample_attrs t.instr t.got_error)
        ∷ on_span t.span (
            set_attributes (
              attr t.instr.trace_size_attr_name (int (to_int64 t.size))
              ∷ attr t.instr.trace_time_attr_name (secs d)
              ∷ []))
        ∷ on_span t.span end_span
        ∷ [])

-- `end`
unfoldable pub finish : ℕ → Option Err → IoTracking → IoTracking × List Call
finish now err t =
    if t.finished
    then (t, [])
    else let t' : IoTracking = record t { finished = true; got_error = failure err t.got_error } in
      (t', report t' (sub_time now t.started))

-- `incSize`: `now` is read by whichever call of `end` is the first.
unfoldable pub inc_size : ℕ → ℕ → Option Err → IoTracking → IoTracking × List Call
inc_size now n none t = (record t { size = add64 t.size n }, [])
inc_size now n (some e) t =
    let (t', calls) = finish now (some e) (record t { size = add64 t.size n }) in
    let (t'', more) =
      finish now (some e) (record t' { got_error = failure (some e) t'.got_error }) in
    (t'', calls ++ more)
