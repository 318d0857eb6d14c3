-- ===== src/Io/Session/Once.antt =====
-- Whole sessions of the tracker of io/tracking.go, in whatever order transfers and closings come.
use krakend_otel.Prelude.{
  ℕ, ◌<◌, ◌≡◌, refl, ◌∙◌, Bool, true, false, String, Option-cases, none, some, List, [], ◌∷◌, ◌++◌,
  ap, ap₂, add64, inl, inr, if◌then◌else◌, append-nil, sub_time, is_empty, Bool-cases, ℤ,
}
use krakend_otel.Telemetry.{
  Starts, Call, Ctx, Span, noop_span, Sample, of_time, of_number, measured, ended_spans,
  opened_spans, measured-append, ended_spans-append, opened_spans-append,
}
use krakend_otel.Io.Instruments.{Instruments}
use krakend_otel.Io.Tracking.{IoTracking, failure, start, report}
use krakend_otel.Io.Reader.{new_track}
use krakend_otel.Io.Session.{Event, transfer, closed, step, run}
use krakend_otel.Io.Session.Steps.{
  finish_again, inc_size_again, run_again, step_clean, step_failing, step-closed,
}
use krakend_otel.Io.Session.Report.{opening, opened, run-opening}

-- Whether a session has a `Close` or a transfer with an error.
abbrev pub stops : List Event → Bool
stops [] = false
stops (transfer begun ended n none ∷ es) = stops es
stops (transfer begun ended n (some e) ∷ es) = true
stops (closed now err ∷ es) = true

-- The clock is past the zero time when a transfer begins.
abbrev pub OnClock : List Event → Type 0
OnClock [] = Unit {0}
OnClock (transfer begun ended n err ∷ es) = (0 < begun) × OnClock es
OnClock (closed now err ∷ es) = OnClock es

-- The samples of one report: the number of bytes on two instruments, then the time on two.
abbrev pub report_samples : Instruments → List Sample
report_samples i =
    of_number i.size_count
    ∷ of_number i.size_histogram
    ∷ of_time i.time_count
    ∷ of_time i.time_histogram
    ∷ []

-- The span that a session reports on: the one that the first transfer starts, unless a `Close` comes
-- before it.
abbrev pub session_span : Starts → Instruments → Ctx → List Event → Span
session_span starts i ctx [] = noop_span
session_span starts i ctx (transfer begun ended n err ∷ es) = (starts i.tracer ctx i.trace_name).1
session_span starts i ctx (closed now err ∷ es) = noop_span

-- The names under which a session starts spans: one if it has a transfer.
abbrev pub session_opens : Instruments → List Event → List String
session_opens i [] = []
session_opens i (transfer begun ended n err ∷ es) = i.trace_name ∷ []
session_opens i (closed now err ∷ es) = session_opens i es

-- A log that has one report of a tracker, or nothing.
abbrev Told : IoTracking → Bool → List Call → Type 0
Told t reported calls =
    (measured calls ≡ (if reported then report_samples t.instr else []))
    × (ended_spans calls ≡ (if reported then t.span ∷ [] else []))
    × (opened_spans calls ≡ [])

report-Told : (t : IoTracking) (d : ℤ) → Told t true (report t d)
report-Told t d = elim (Option-cases t.got_error) [
  | inl clean ↦ rw clean (refl, refl, refl)
  | inr (e, failed) ↦ rw failed (refl, refl, refl)
]

module _ (starts : Starts) where
  -- A tracker that has started and that is not finished reports when it is stopped, on its span.
  run_started-Told :
      (es : List Event) (t : IoTracking)
      → t.finished ≡ false
      → 0 < t.started
      → Told t (stops es) (run starts es t).1
  unfolding run
  run_started-Told [] t f s = (refl, refl, refl)
  run_started-Told (transfer b e n none ∷ es) t f s =
      rw (step_clean starts b e n t s)
        (run_started-Told es (record t { size = add64 t.size n }) f s)
  run_started-Told (transfer b e n (some x) ∷ es) t f s =
      let t' : IoTracking = record t {
        size = add64 t.size n;
        finished = true;
        got_error = failure (some x) t.got_error;
      } in
      rw (step_failing starts b e n x t f s)
        (rw (run_again starts es t' refl s) (rw append-nil (report-Told t' (sub_time e t.started))))
  run_started-Told (closed now err ∷ es) t f s =
      let t' : IoTracking = record t { finished = true; got_error = failure err t.got_error } in
      rw (step-closed starts now err t f) (
        rw (run_again starts es t' refl s)
          (rw append-nil (report-Told t' (sub_time now t.started))))

  -- What opening a span says.
  abbrev Opens : String → List Call → Type 0
  Opens name calls =
      (measured calls ≡ []) × (ended_spans calls ≡ []) × (opened_spans calls ≡ name ∷ [])

  opening-Opens : (i : Instruments) (ctx : Ctx) → Opens i.trace_name (opening starts i ctx)
  opening-Opens i ctx = elim (Bool-cases (is_empty i.trace_fixed_attrs)) [
    | inl plain ↦ rw plain (refl, refl, refl)
    | inr fixed ↦ rw fixed (refl, refl, refl)
  ]

  start_unstarted :
      (b : ℕ) (t : IoTracking)
      → t.started ≡ 0
      → start starts b t ≡ (
        record t {
          started = b;
          ctx = (starts t.instr.tracer t.ctx t.instr.trace_name).0;
          span = (starts t.instr.tracer t.ctx t.instr.trace_name).1;
        },
        opening starts t.instr t.ctx,
      )
  unfolding start
  start_unstarted b t h = rw h refl

  -- A tracker that has finished without a transfer reports no more: it opens a span at the first
  -- transfer that follows, and does not end it.
  run_unread :
      (es : List Event) (t : IoTracking)
      → OnClock es
      → t.finished ≡ true
      → t.started ≡ 0
      → let calls = (run starts es t).1 in
        (measured calls ≡ [])
        × (ended_spans calls ≡ [])
        × (opened_spans calls ≡ session_opens t.instr es)
  unfolding run step
  run_unread [] t clock f s = (refl, refl, refl)
  run_unread (transfer b e n err ∷ es) t (p, clock) f s =
      let t2 : IoTracking = record t {
        started = b;
        ctx = (starts t.instr.tracer t.ctx t.instr.trace_name).0;
        span = (starts t.instr.tracer t.ctx t.instr.trace_name).1;
      } in
      let (t3, eq, f3, s3) = inc_size_again e n err t2 f in
      rw (start_unstarted b t s) (
        rw eq (
          rw (run_again starts es t3 f3 (rw s3 p))
            (rw append-nil (rw append-nil (opening-Opens t.instr t.ctx)))))
  run_unread (closed now err ∷ es) t clock f s =
      rw (finish_again now err t f) (run_unread es t clock f s)

  -- Over any session of a new reader or writer whose transfers begin past the zero time: if the
  -- session has a `Close` or a transfer with an error, then each of the four instruments has exactly
  -- one sample, of the bytes or of the time as its name says, and exactly one span is ended, the one
  -- that the session's first transfer starts; else there are no samples and no span is ended. One
  -- span is started if there is a transfer, and none otherwise. Where the session begins with a
  -- `Close`, the span that is ended is the no-op one, and a span that is started later is never ended.
  pub run_reports_once :
      (i : Instruments) (ctx : Ctx) (es : List Event)
      → OnClock es
      → let calls = (run starts es (new_track i ctx)).1 in
        (measured calls ≡ (if stops es then report_samples i else []))
        × (ended_spans calls ≡ (if stops es then session_span starts i ctx es ∷ [] else []))
        × (opened_spans calls ≡ session_opens i es)
  unfolding run
  run_reports_once i ctx [] clock = (refl, refl, refl)
  run_reports_once i ctx (transfer b e n err ∷ es) (p, clock) =
      let all : List Event = transfer b e n err ∷ es in
      let t = opened starts i ctx b in
      let (m, x, o) = run_started-Told all t refl p in
      let (m', x', o') = opening-Opens i ctx in
      let front = opening starts i ctx in
      let rest = (run starts all t).1 in
      let eq = run-opening starts i ctx b e n err es p in
      (
        ap measured eq ∙ (measured-append front rest ∙ ap₂ (λ y z. y ++ z) m' m),
        ap ended_spans eq ∙ (ended_spans-append front rest ∙ ap₂ (λ y z. y ++ z) x' x),
        ap opened_spans eq ∙ (opened_spans-append front rest ∙ ap₂ (λ y z. y ++ z) o' o),
      )
  run_reports_once i ctx (closed now err ∷ es) clock =
      let t = new_track i ctx in
      let t' : IoTracking = record t { finished = true; got_error = failure err none } in
      let (m, x, o) = run_unread es t' clock refl refl in
      let front = report t' (sub_time now 0) in
      let rest = (run starts es t').1 in
      let (m', x', o') = report-Told t' (sub_time now 0) in
      rw (step-closed starts now err t refl) (
        measured-append front rest ∙ ap₂ (λ y z. y ++ z) m' m,
        ended_spans-append front rest ∙ ap₂ (λ y z. y ++ z) x' x,
        opened_spans-append front rest ∙ ap₂ (λ y z. y ++ z) o' o,
      )
