-- ===== src/Io/Instruments.antt =====
-- io/instruments.go: the instruments of a reader or a writer, created once for each factory.
use krakend_otel.Prelude.{
  ℕ, String, true, false, Option, none, some, List, [], ◌∷◌, ◌++◌, if◌then◌else◌, str_eq, concat,
}
use krakend_otel.Telemetry.{
  Attribute, attr, str, Tracer, noop_tracer, Meter, Kind, int64_counter, int64_histogram,
  float64_counter, float64_histogram, Instrument,
}
use krakend_otel.Config.Buckets.{time_buckets, size_buckets}

pub record Instruments : Type 0 where
  pub metric_fixed_attrs : List Attribute
  pub trace_fixed_attrs : List Attribute
  pub size_count : Instrument
  pub size_histogram : Instrument
  pub time_count : Instrument
  pub time_histogram : Instrument
  pub errors_meter : Instrument
  pub tracer : Tracer
  pub trace_size_attr_name : String
  pub trace_time_attr_name : String
  pub trace_name : String
  pub metric_attribute_set_opt : List Attribute
  pub metric_attribute_set_with_error_opt : List Attribute

-- The instrument asked of the meter, and the no-op one that stays where there is no meter or the
-- creation fails.
abbrev instrument : Option Meter → Kind → String → Option String → List ℕ → Instrument
instrument none kind name unit buckets = record {
  kind = kind;
  name = name;
  unit = none;
  buckets = buckets;
  noop = true;
}
instrument (some meter) kind name unit buckets =
    let real : Instrument = record {
      kind = kind;
      name = name;
      unit = unit;
      buckets = buckets;
      noop = false;
    } in
    if meter real
    then real
    else record { kind = kind; name = name; unit = none; buckets = buckets; noop = true }

abbrev or_noop : Option Tracer → Tracer
or_noop none = noop_tracer "read-tracer"
or_noop (some t) = t

-- `newInstruments` once the prefix is known.
abbrev instruments_for :
    String → List Attribute → List Attribute → Option Tracer → Option Meter → Instruments
instruments_for prefix attr_t attr_m tracer meter = record {
  metric_fixed_attrs = attr_m;
  trace_fixed_attrs = attr_t;
  size_count = instrument meter int64_counter (concat prefix "size") (some "b") [];
  size_histogram =
      instrument meter int64_histogram (concat prefix "size-hist") (some "b") size_buckets;
  time_count = instrument meter float64_counter (concat prefix "time") (some "s") [];
  time_histogram =
      instrument meter float64_histogram (concat prefix "time-hist") (some "s") time_buckets;
  errors_meter = instrument meter int64_counter (concat prefix "errors") none [];
  tracer = or_noop tracer;
  trace_size_attr_name = concat prefix "size";
  trace_time_attr_name = concat prefix "time";
  trace_name = concat prefix "tracker";
  metric_attribute_set_opt = attr_m;
  metric_attribute_set_with_error_opt = attr_m ++ attr "error" (str "true") ∷ [];
}

unfoldable pub new_instruments :
    String → List Attribute → List Attribute → Option Tracer → Option Meter → Instruments
new_instruments prefix attr_t attr_m tracer meter =
    instruments_for (if str_eq prefix "" then "io." else prefix) attr_t attr_m tracer meter
