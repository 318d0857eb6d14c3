-- ===== src/Io/Writer/Transparent.antt =====
-- An instrumented writer behaves as the writer that it wraps, whether or not that can be closed.
use krakend_otel.Prelude.{ℕ, ◌≡◌, refl, ap, Option, List, [], ◌∷◌, ◌++◌}
use krakend_otel.Telemetry.{Err, Starts, Call}
use krakend_otel.Io.Session as Session
use krakend_otel.Io.Session.{Event, transfer, closed}
use krakend_otel.Io.Writer.{Writer, InstrumentedWriter, write, close, close_with}

-- A `Write` of a buffer with the times at which it begins and ends, or a `Close` with its time.
pub data Order : Type 0 where
  write_order : ℕ → ℕ → List ℕ → Order
  close_order : ℕ → Order

-- The bytes written and the error.
abbrev pub Reply : Type 0
Reply = ℕ × Option Err

module _ {S : Type 0} (wc : Writer S) (starts : Starts) where
  abbrev plain : Order → S → S × Reply
  plain (write_order begun ended buffer) s = let (s', n, err) = wc.write buffer s in (s', (n, err))
  plain (close_order now) s = let (s', err) = close_with wc.closer s in (s', (0, err))

  -- What the wrapped writer alone answers.
  pub run_plain : List Order → S → S × List Reply
  run_plain [] s = (s, [])
  run_plain (o ∷ os) s = let (s', r) = plain o s in let (s'', rs) = run_plain os s' in (s'', r ∷ rs)

  abbrev tracked : Order → InstrumentedWriter S → InstrumentedWriter S × Reply × List Call
  tracked (write_order begun ended buffer) w = write wc starts begun ended buffer w
  tracked (close_order now) w = let (w', err, calls) = close wc now w in (w', (0, err), calls)

  -- What the instrumented writer answers.
  pub run_writer : List Order → InstrumentedWriter S → InstrumentedWriter S × List Reply × List Call
  run_writer [] w = (w, [], [])
  run_writer (o ∷ os) w =
      let (w', r, calls) = tracked o w in
      let (w'', rs, more) = run_writer os w' in (w'', r ∷ rs, calls ++ more)

  abbrev seen : Order → Reply → Event
  seen (write_order begun ended buffer) (n, err) = transfer begun ended n err
  seen (close_order now) (n, err) = closed now err

  -- The session that the tracker sees.
  pub session : List Order → S → List Event
  session [] s = []
  session (o ∷ os) s = let (s', r) = plain o s in seen o r ∷ session os s'

  -- The client of an instrumented writer gets the answers of the wrapped writer, which ends in the
  -- same state, whatever is written; a writer that cannot be closed answers a `Close` without an error.
  -- The tracker sees the session of those answers.
  pub run_writer-eq-run_plain :
      (os : List Order) (w : InstrumentedWriter S)
      → let (w', rs, calls) = run_writer os w in
        ((w'.writer, rs) ≡ run_plain os w.writer)
        × ((w'.track, calls) ≡ Session.run starts (session os w.writer) w.track)
  unfolding run_writer run_plain session write close Session.run Session.step
  run_writer-eq-run_plain [] w = (refl, refl)
  run_writer-eq-run_plain (write_order begun ended buffer ∷ os) w =
      let (w', r, calls) = tracked (write_order begun ended buffer) w in
      let (same, seen') = run_writer-eq-run_plain os w' in
      (ap (λ p. (p.0, r ∷ p.1)) same, ap (λ p. (p.0, calls ++ p.1)) seen')
  run_writer-eq-run_plain (close_order now ∷ os) w =
      let (w', r, calls) = tracked (close_order now) w in
      let (same, seen') = run_writer-eq-run_plain os w' in
      (ap (λ p. (p.0, r ∷ p.1)) same, ap (λ p. (p.0, calls ++ p.1)) seen')
