-- ===== src/Telemetry/Errors.antt =====
-- Go's `error` values, as far as the program tells them apart. `multi` is an error with a method
-- `Errors()` and no `Unwrap`, the interface `multiError` of lura/proxy_meter.go.
use krakend_otel.Prelude.{String, Bool, true, false, Option, none, some}

mutual
  pub data Err : Type 0 where
    eof canceled deadline_exceeded : Err
    message : String → Err
    wrapped : String → Err → Err
    multi : String → Errs → Err

  pub data Errs : Type 0 where
    nil : Errs
    cons : Err → Errs → Errs

-- `err == io.EOF`
abbrev pub is_eof : Err → Bool
is_eof eof = true
is_eof _ = false

-- `errors.Is(err, context.Canceled)`
abbrev pub is_canceled : Err → Bool
is_canceled canceled = true
is_canceled (wrapped s e) = is_canceled e
is_canceled _ = false

-- `errors.Is(err, context.DeadlineExceeded)`
abbrev pub is_deadline : Err → Bool
is_deadline deadline_exceeded = true
is_deadline (wrapped s e) = is_deadline e
is_deadline _ = false

-- `errors.Is` on an error that may be nil
abbrev pub opt_is : (Err → Bool) → Option Err → Bool
opt_is p none = false
opt_is p (some e) = p e

-- `err.Error()`
abbrev pub text : Err → String
text eof = "EOF"
text canceled = "context canceled"
text deadline_exceeded = "context deadline exceeded"
text (message s) = s
text (wrapped s e) = s
text (multi s es) = s

pub data Panic : Type 0 where
  too_many_proxies not_enough_proxies nil_dereference : Panic
