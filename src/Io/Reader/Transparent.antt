-- ===== src/Io/Reader/Transparent.antt =====
-- An instrumented reader behaves as the reader that it wraps.
use krakend_otel.Prelude.{ℕ, ◌≡◌, refl, ap, Option, List, [], ◌∷◌, ◌++◌}
use krakend_otel.Telemetry.{Err, Starts, Call}
use krakend_otel.Io.Session as Session
use krakend_otel.Io.Session.{Event, transfer, closed}
use krakend_otel.Io.Reader.{ReadCloser, InstrumentedReader, read, close}

-- What a client asks: a `Read` with the times at which it begins and ends and the length of its
-- buffer, or a `Close` with its time.
pub data Request : Type 0 where
  read_request : ℕ → ℕ → ℕ → Request
  close_request : ℕ → Request

-- What it is answered.
pub data Answer : Type 0 where
  read_answer : ℕ → Option Err → Answer
  close_answer : Option Err → Answer

module _ {S : Type 0} (rc : ReadCloser S) (starts : Starts) where
  abbrev bare : Request → S → S × Answer
  bare (read_request begun ended len) s =
      let (s', n, err) = rc.read len s in (s', read_answer n err)
  bare (close_request now) s = let (s', err) = rc.close s in (s', close_answer err)

  -- The wrapped reader alone.
  pub run_bare : List Request → S → S × List Answer
  run_bare [] s = (s, [])
  run_bare (q ∷ qs) s = let (s', a) = bare q s in let (s'', as') = run_bare qs s' in (s'', a ∷ as')

  abbrev instrumented : Request → InstrumentedReader S → InstrumentedReader S × Answer × List Call
  instrumented (read_request begun ended len) r =
      let (r', (n, err), calls) = read rc starts begun ended len r in (r', read_answer n err, calls)
  instrumented (close_request now) r =
      let (r', err, calls) = close rc now r in (r', close_answer err, calls)

  -- The instrumented reader.
  pub run_instrumented :
      List Request → InstrumentedReader S → InstrumentedReader S × List Answer × List Call
  run_instrumented [] r = (r, [], [])
  run_instrumented (q ∷ qs) r =
      let (r', a, calls) = instrumented q r in
      let (r'', as', more) = run_instrumented qs r' in (r'', a ∷ as', calls ++ more)

  abbrev event : Request → Answer → Event
  event (read_request begun ended len) (read_answer n err) = transfer begun ended n err
  event (read_request begun ended len) (close_answer err) = closed begun err
  event (close_request now) (read_answer n err) = closed now err
  event (close_request now) (close_answer err) = closed now err

  -- The session that the tracker sees.
  pub events : List Request → S → List Event
  events [] s = []
  events (q ∷ qs) s = let (s', a) = bare q s in event q a ∷ events qs s'

  -- The client of an instrumented reader gets the answers of the wrapped reader, which ends in the
  -- same state, whatever is asked; and the tracker sees the session of those answers.
  pub run_instrumented-eq-run_bare :
      (qs : List Request) (r : InstrumentedReader S)
      → let (r', as', calls) = run_instrumented qs r in
        ((r'.reader, as') ≡ run_bare qs r.reader)
        × ((r'.track, calls) ≡ Session.run starts (events qs r.reader) r.track)
  unfolding run_instrumented run_bare events read close Session.run Session.step
  run_instrumented-eq-run_bare [] r = (refl, refl)
  run_instrumented-eq-run_bare (read_request begun ended len ∷ qs) r =
      let (r', a, calls) = instrumented (read_request begun ended len) r in
      let (same, seen) = run_instrumented-eq-run_bare qs r' in
      (ap (λ p. (p.0, a ∷ p.1)) same, ap (λ p. (p.0, calls ++ p.1)) seen)
  run_instrumented-eq-run_bare (close_request now ∷ qs) r =
      let (r', a, calls) = instrumented (close_request now) r in
      let (same, seen) = run_instrumented-eq-run_bare qs r' in
      (ap (λ p. (p.0, a ∷ p.1)) same, ap (λ p. (p.0, calls ++ p.1)) seen)
