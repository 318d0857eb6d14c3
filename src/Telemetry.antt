-- ===== src/Telemetry.antt =====
-- What the program hands to the OpenTelemetry API, whose own code is not part of the repository:
-- each call is a value of `Call`, in the order in which it is made. A context, a span and a tracer
-- are names that the program passes round; what the API answers is an argument of the definitions.
mod Errors
pub use Errors.*
use krakend_otel.Prelude.{
  ℕ, String, Bool, true, false, Option, List, [], ◌∷◌, ℤ, ◌+◌, if◌then◌else◌, ◌≡◌, ◌++◌, arith, sym,
  refl, append_assoc,
}

pub data Value : Type 0 where
  str : String → Value
  int : ℤ → Value
  -- a `float64` number of seconds, as the duration in nanoseconds that it is computed from
  secs : ℤ → Value
  bool : Bool → Value
  strs : List String → Value

-- `http.Header`, in the order in which Go happens to range over the map.
abbrev pub Headers : Type 0
Headers = List (String × List String)

-- `attribute.KeyValue`
pub record Attribute : Type 0 where
  pub key : String
  pub value : Value

abbrev pub attr : String → Value → Attribute
attr k v = record { key = k; value = v }

-- `trace.Span`: the no-op span, or one that a tracer has started.
pub data Span : Type 0 where
  noop_span : Span
  live : ℕ → Span

-- `context.Context`, as far as it is derived from the request's.
pub data Ctx : Type 0 where
  request_ctx : ℕ → Ctx
  with_span : Ctx → Span → Ctx
  with_tracking : Ctx → ℕ → Ctx

-- `trace.Tracer`: the provider's, or a no-op one with its name.
pub data Tracer : Type 0 where
  provided_tracer : Tracer
  noop_tracer : String → Tracer

-- What `Tracer.Start` answers.
abbrev pub Starts : Type 0
Starts = Tracer → Ctx → String → Ctx × Span

pub data Kind : Type 0 where
  int64_counter int64_histogram float64_counter float64_histogram : Kind

-- A metric instrument, with the options that it was created with.
pub record Instrument : Type 0 where
  pub kind : Kind
  pub name : String
  pub unit : Option String
  pub buckets : List ℕ
  pub noop : Bool

-- `metric.Meter`: whether the creation of an instrument succeeds.
abbrev pub Meter : Type 0
Meter = Instrument → Bool

pub data Code : Type 0 where
  ok error : Code

pub data SpanCall : Type 0 where
  set_attributes : List Attribute → SpanCall
  record_error : Err → SpanCall
  set_status : Code → String → SpanCall
  add_event : String → ℕ → SpanCall
  end_span : SpanCall

pub data Call : Type 0 where
  start_span : Tracer → Ctx → String → Call
  on_span : Span → SpanCall → Call
  -- `Add` on a counter and `Record` on a histogram
  measure : Instrument → Ctx → Value → List Attribute → Call
  inject : Ctx → Call

abbrev is_end : Call → Bool
is_end (on_span s end_span) = true
is_end _ = false

abbrev is_measure : Call → Bool
is_measure (measure i c v a) = true
is_measure _ = false

abbrev pub count_if : (Call → Bool) → List Call → ℕ
count_if p [] = 0
count_if p (c ∷ cs) = (if p c then 1 else 0) + count_if p cs

-- How often a log ends a span, and how many samples it has.
abbrev pub ends : List Call → ℕ
ends = count_if is_end

abbrev pub samples : List Call → ℕ
samples = count_if is_measure

pub count_if-append :
    (p : Call → Bool) (xs ys : List Call) → count_if p (xs ++ ys) ≡ count_if p xs + count_if p ys
count_if-append p [] ys = omega arith
count_if-append p (x ∷ xs) ys = omega (arith, count_if-append p xs ys)

pub ends-append : (xs ys : List Call) → ends (xs ++ ys) ≡ ends xs + ends ys
ends-append = count_if-append is_end

pub samples-append : (xs ys : List Call) → samples (xs ++ ys) ≡ samples xs + samples ys
samples-append = count_if-append is_measure

-- What each call of a log has to tell, in the order of the log.
abbrev pub gather {ℓ} : {A : Type ℓ} → (Call → List A) → List Call → List A
gather tell [] = []
gather tell (c ∷ cs) = tell c ++ gather tell cs

-- A sample, of a time or of a number, on an instrument.
pub data Sample : Type 0 where
  of_time of_number : Instrument → Sample

abbrev sample_of : Instrument → Value → Sample
sample_of i (secs d) = of_time i
sample_of i _ = of_number i

abbrev samples_of : Call → List Sample
samples_of (measure i c v a) = sample_of i v ∷ []
samples_of _ = []

abbrev ended_by : Call → List Span
ended_by (on_span s end_span) = s ∷ []
ended_by _ = []

abbrev opened_by : Call → List String
opened_by (start_span tracer ctx name) = name ∷ []
opened_by _ = []

-- The samples of a log, the spans that it ends, and the names under which it starts spans.
abbrev pub measured : List Call → List Sample
measured = gather samples_of

abbrev pub ended_spans : List Call → List Span
ended_spans = gather ended_by

abbrev pub opened_spans : List Call → List String
opened_spans = gather opened_by

pub gather-append {ℓ} :
    {A : Type ℓ} (tell : Call → List A) (xs ys : List Call)
    → gather tell (xs ++ ys) ≡ gather tell xs ++ gather tell ys
gather-append tell [] ys = refl
gather-append tell (x ∷ xs) ys =
    rw (gather-append tell xs ys) (sym (append_assoc (tell x) (gather tell xs) (gather tell ys)))

pub measured-append : (xs ys : List Call) → measured (xs ++ ys) ≡ measured xs ++ measured ys
measured-append = gather-append samples_of

pub ended_spans-append :
    (xs ys : List Call) → ended_spans (xs ++ ys) ≡ ended_spans xs ++ ended_spans ys
ended_spans-append = gather-append ended_by

pub opened_spans-append :
    (xs ys : List Call) → opened_spans (xs ++ ys) ≡ opened_spans xs ++ opened_spans ys
opened_spans-append = gather-append opened_by

pub measured-none : (cs : List Call) → samples cs ≡ 0 → measured cs ≡ []
measured-none [] h = refl
measured-none (start_span tracer ctx name ∷ cs) h = measured-none cs (omega (arith, h))
measured-none (on_span s c ∷ cs) h = measured-none cs (omega (arith, h))
measured-none (measure i c v a ∷ cs) h = absurd (omega (arith, h))
measured-none (inject ctx ∷ cs) h = measured-none cs (omega (arith, h))

-- What the surroundings of the program answer, which may depend on all that has happened, the
-- state `S`: the clock, in nanoseconds since the zero time, the error of a context, and the tracer.
pub record World (S : Type 0) : Type 0 where
  pub now : S → ℕ
  pub ctx_err : Ctx → S → Option Err
  pub starts : Starts

-- `state.OTEL`, the interface: the meter and the tracer, either of which may be nil.
pub record Otel : Type 0 where
  pub meter : Option Meter
  pub tracer : Option Tracer
