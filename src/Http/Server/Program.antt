-- ===== src/Http/Server/Program.antt =====
-- What a handler that is given a response writer does with it, as a program: each step is a call of
-- the writer, of http/server/tracking.go, or of a map of headers, and the rest may depend on what
-- the call answers. A program is run on the wrapped writer alone by `run_bare`.
use krakend_otel.Prelude.{ℕ, String, Option, List, ◌+◌, ℤ}
use krakend_otel.Telemetry.{Err, Attribute, Headers}
use krakend_otel.Http.Server.Writer.{ResponseWriter, flushed, taken_over}

pub data Program : Type 0 where
  finished : Program
  change_header : (Headers → Headers) → Program → Program
  write : String → (ℕ → Option Err → Program) → Program
  write_header : ℤ → Program → Program
  flush : Program → Program
  hijack : (Option ℕ → Option Err → Program) → Program
  set_endpoint_pattern : String → Program → Program
  set_static_attributes : List Attribute → List Attribute → Program → Program

module _ {S : Type 0} (writer : ResponseWriter S) where
  -- The program on the wrapped writer alone. For a writer that is no Flusher or no Hijacker, `flush`
  -- and `hijack` stand for what the tracking writer answers in its place, nothing and an error: the
  -- bare writer has no such methods, and a handler that asserts the interface would see that.
  unfoldable pub run_bare : Program → S → S
  run_bare finished s = s
  run_bare (change_header f p) s = run_bare p (writer.change_header f s)
  run_bare (write b k) s = let (s', n, e) = writer.write b s in run_bare (k n e) s'
  run_bare (write_header status p) s = run_bare p (writer.write_header status s)
  run_bare (flush p) s = run_bare p (flushed writer s)
  run_bare (hijack k) s = let (s', conn, e) = taken_over writer s in run_bare (k conn e) s'
  run_bare (set_endpoint_pattern pattern p) s = run_bare p s
  run_bare (set_static_attributes metrics traces p) s = run_bare p s

  -- How often the program takes the connection over.
  unfoldable pub hijacks : Program → S → ℕ
  hijacks finished s = 0
  hijacks (change_header f p) s = hijacks p (writer.change_header f s)
  hijacks (write b k) s = let (s', n, e) = writer.write b s in hijacks (k n e) s'
  hijacks (write_header status p) s = hijacks p (writer.write_header status s)
  hijacks (flush p) s = hijacks p (flushed writer s)
  hijacks (hijack k) s = let (s', conn, e) = taken_over writer s in 1 + hijacks (k conn e) s'
  hijacks (set_endpoint_pattern pattern p) s = hijacks p s
  hijacks (set_static_attributes metrics traces p) s = hijacks p s
