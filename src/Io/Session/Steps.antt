-- ===== src/Io/Session/Steps.antt =====
-- Single steps of a session on a tracker of io/tracking.go that has started, and on one that has finished.
use krakend_otel.Prelude.{
  ℕ, ◌+◌, ◌^◌, ◌<◌, ◌≡◌, refl, true, false, Option, none, some, List, [], ◌∷◌, arith, add64,
  sub_time, if◌then◌else◌, append-nil, add-zero,
}
use krakend_otel.Telemetry.{Err, Starts}
use krakend_otel.Io.Tracking.{IoTracking, start, inc_size, finish, failure, report}
use krakend_otel.Io.Session.{Event, transfer, closed, step, run}
use krakend_otel.Io.Session.Stop.{
  plain, Stop, failing, closing, stop_event, stop_bytes, stop_time, ended,
}

pub start_again :
    (starts : Starts) (now : ℕ) (t : IoTracking) → 0 < t.started → start starts now t ≡ (t, [])
unfolding start
start_again starts now t h = ground arith

pub finish_again :
    (now : ℕ) (err : Option Err) (t : IoTracking) → t.finished ≡ true → finish now err t ≡ (t, [])
unfolding finish
finish_again now err t h = rw h

pub finish_first :
    (now : ℕ) (err : Option Err) (t : IoTracking)
    → t.finished ≡ false
    → let t' : IoTracking = record t { finished = true; got_error = failure err t.got_error } in
      finish now err t ≡ (t', report t' (sub_time now t.started))
unfolding finish
finish_first now err t h = rw (h, if◌then◌else◌)

pub failure_idempotent : (err old : Option Err) → failure err (failure err old) ≡ failure err old
failure_idempotent none old = refl
failure_idempotent (some e) old = ground arith

-- A transfer with an error ends the session with the error: the second call of `end` does nothing.
pub inc_size_stop :
    (now n : ℕ) (e : Err) (t : IoTracking)
    → t.finished ≡ false
    → let t' : IoTracking = record t {
      size = add64 t.size n;
      finished = true;
      got_error = failure (some e) t.got_error;
    } in
      inc_size now n (some e) t ≡ (t', report t' (sub_time now t.started))
unfolding inc_size
inc_size_stop now n e t h =
    let t1 : IoTracking = record t { size = add64 t.size n } in
    rw (finish_first now (some e) t1 h)
      (rw (finish_again, failure_idempotent (some e) t.got_error) (rw append-nil))

pub inc_size_again :
    (now n : ℕ) (err : Option Err) (t : IoTracking)
    → t.finished ≡ true
    → (t' : IoTracking) × (inc_size now n err t ≡ (t', []))
      × (t'.finished ≡ true)
      × (t'.started ≡ t.started)
unfolding inc_size
inc_size_again now n none t h = (record t { size = add64 t.size n }, refl, h, refl)
inc_size_again now n (some e) t h =
    let t1 : IoTracking = record t { size = add64 t.size n } in
    let t2 : IoTracking = record t1 { got_error = failure (some e) t.got_error } in
    (t2, rw (finish_again now (some e) t1 h) (rw (finish_again now (some e) t2 h)), h, refl)

pub step_again :
    (starts : Starts) (e : Event) (t : IoTracking)
    → t.finished ≡ true
    → 0 < t.started
    → (t' : IoTracking) × (step starts e t ≡ (t', [])) × (t'.finished ≡ true) × (0 < t'.started)
unfolding step
step_again starts (transfer b e n err) t f s =
    let (t', eq, f', s') = inc_size_again e n err t f in
    (t', rw (start_again starts b t s) (rw eq), f', rw s' s)
step_again starts (closed now err) t f s = (t, finish_again now err t f, f, s)

-- A tracker that has finished makes no further calls.
pub run_again :
    (starts : Starts) (es : List Event) (t : IoTracking)
    → t.finished ≡ true
    → 0 < t.started
    → (run starts es t).1 ≡ []
unfolding run
run_again starts [] t f s = refl
run_again starts (e ∷ es) t f s =
    let (t', eq, f', s') = step_again starts e t f s in rw eq (run_again starts es t' f' s')

pub add64_small : (a b : ℕ) → a + b < 2 ^ 63 → add64 a b ≡ a + b
unfolding add64
add64_small a b h = omega arith

pub step_stop :
    (starts : Starts) (stop : Stop) (t : IoTracking)
    → t.finished ≡ false
    → 0 < t.started
    → t.size + stop_bytes stop < 2 ^ 63
    → let t' = ended t (t.size + stop_bytes stop) stop in
      step starts (stop_event stop) t ≡ (t', report t' (sub_time (stop_time stop) t.started))
unfolding step
step_stop starts (failing b e n x) t f s small =
    rw (start_again starts b t s) (rw (inc_size_stop e n x t f) (rw (add64_small t.size n small)))
step_stop starts (closing now err) t f s small = rw (finish_first now err t f) (rw add-zero)

pub step-plain :
    (starts : Starts) (b e n : ℕ) (t : IoTracking)
    → 0 < t.started
    → t.size + n < 2 ^ 63
    → step starts (plain (b, e, n)) t ≡ (record t { size = t.size + n }, [])
unfolding step inc_size
step-plain starts b e n t s small = rw (start_again starts b t s) (rw (add64_small t.size n small))

-- Steps of a tracker that is not finished, whatever the size.
module _ (starts : Starts) where
  pub step_clean :
      (b e n : ℕ) (t : IoTracking)
      → 0 < t.started
      → step starts (transfer b e n none) t ≡ (record t { size = add64 t.size n }, [])
  unfolding step inc_size
  step_clean b e n t s = rw (start_again starts b t s)

  pub step_failing :
      (b e n : ℕ) (x : Err) (t : IoTracking)
      → t.finished ≡ false
      → 0 < t.started
      → let t' : IoTracking = record t {
        size = add64 t.size n;
        finished = true;
        got_error = failure (some x) t.got_error;
      } in
        step starts (transfer b e n (some x)) t ≡ (t', report t' (sub_time e t.started))
  unfolding step
  step_failing b e n x t f s = rw (start_again starts b t s) (rw (inc_size_stop e n x t f))

  pub step-closed :
      (now : ℕ) (err : Option Err) (t : IoTracking)
      → t.finished ≡ false
      → let t' : IoTracking = record t { finished = true; got_error = failure err t.got_error } in
        step starts (closed now err) t ≡ (t', report t' (sub_time now t.started))
  unfolding step
  step-closed now err t f = finish_first now err t f
