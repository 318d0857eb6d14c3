-- ===== src/Http/Server/Writer.antt =====
-- http/server/response_writer.go: the writer that the handlers get in place of the connection's. The
-- wrapped `http.ResponseWriter` is a machine on states of its own.
use krakend_otel.Prelude.{
  ℕ, String, Bool, true, not, Option, none, some, List, [], ◌∷◌, ◌++◌, ℤ, add64, is_some,
  if◌then◌else◌,
}
use krakend_otel.Telemetry.{Err, message, Headers}
use krakend_otel.Http.Server.Tracking.{Tracking}
use krakend_otel.Lura.Tracer.{kept}

-- A connection is named by a number. What `http.Flusher` and `http.Hijacker` ask is there only if the
-- writer implements them.
pub record ResponseWriter (S : Type 0) : Type 0 where
  pub header : S → Headers
  pub change_header : (Headers → Headers) → S → S
  -- the bytes written, as the 64-bit pattern of an `int`, and the error
  pub write : String → S → S × ℕ × Option Err
  pub write_header : ℤ → S → S
  pub flush : Option (S → S)
  pub hijack : Option (S → S × Option ℕ × Option Err)

-- What the tracking writer is made with, beside the tracking and the wrapped writer.
pub record HeaderOptions : Type 0 where
  pub record_headers : Bool
  pub skip_headers : Option (List String)

abbrev pub kept_headers : Option (List String) → Headers → Headers
kept_headers skipped [] = []
kept_headers skipped ((k, v) ∷ hs) =
    let rest = kept_headers skipped hs in if kept skipped k then (k, v) ∷ rest else rest

-- `gatherHeaders`, for the headers at this time
unfoldable pub gather_headers : HeaderOptions → Headers → Tracking → Tracking
gather_headers o h t =
    if not o.record_headers
    then t
    else (if is_some t.response_headers
        then t
        else record t { response_headers = some (kept_headers o.skip_headers h) })

abbrev with_error : List Err → Option Err → List Err
with_error es none = es
with_error es (some e) = es ++ e ∷ []

module _ {S : Type 0} (writer : ResponseWriter S) where
  -- The answers to `Flush` and `Hijack`, also where the writer does not implement them.
  abbrev pub flushed : S → S
  flushed s = elim writer.flush [ none ↦ s | some f ↦ f s ]

  abbrev pub taken_over : S → S × Option ℕ × Option Err
  taken_over s = elim writer.hijack [
    | none ↦ (s, none, some (message "not implements Hijacker interface"))
    | some h ↦ h s
  ]

module _ {S : Type 0} (writer : ResponseWriter S) (o : HeaderOptions) where
  -- `Write`
  unfoldable pub write : String → S → Tracking → S × Tracking × ℕ × Option Err
  write b s t =
      let t' = gather_headers o (writer.header s) t in
      let (s', n, e) = writer.write b s in
      (
        s',
        record t' {
          write_errs = with_error t'.write_errs e;
          response_size = add64 t'.response_size n;
        },
        n,
        e,
      )

  -- `WriteHeader`
  unfoldable pub write_header : ℤ → S → Tracking → S × Tracking
  write_header status s t = (
    writer.write_header status s,
    record (gather_headers o (writer.header s) t) { response_status = status },
  )

  -- `Flush`
  unfoldable pub flush : S → S
  flush s = flushed writer s

  -- `Hijack` up to the callback: the answer of the wrapped writer is kept in the tracking.
  unfoldable pub hijack : S → Tracking → S × Tracking × Option ℕ × Option Err
  hijack s t =
      let (s', conn, e) = taken_over writer s in
      (s', record t { hijacked_err = e; is_hijacked = true }, conn, e)
