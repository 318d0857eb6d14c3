-- ===== src/Registration/State/Flushes.antt =====
-- state/state.go: what the shutdown of a state flushes.
use krakend_otel.Prelude.{
  ℕ, ◌+◌, String, ◌≡◌, refl, some, lookup, Option-cases, inl, inr, List, [], ◌∷◌, ◌++◌, append-nil,
  Map, done, bind_done, ◌>>=◌,
}
use krakend_otel.Exporter.Otlp.{Client, span_exporter}
use krakend_otel.Registration.Exporters.{MetricReader, SpanExporter, Reader, metric_reader}
use krakend_otel.Registration.Providers.{
  OtelState, OtelStateConfig, NotFound, find_all, state_of, new_with_version_and_env,
  no_metric_exporter, no_span_exporter, reporting_period,
}
use krakend_otel.Registration.State.{
  Flush, shutdown_tracer_provider, shutdown_meter_provider, shutdown,
}

-- The clients whose spans a shutdown sends, and the readers whose metrics it collects.
abbrev pub flushed_clients : List Flush → List Client
flushed_clients [] = []
flushed_clients (shutdown_tracer_provider p ∷ fs) = p.batchers ++ flushed_clients fs
flushed_clients (shutdown_meter_provider p ∷ fs) = flushed_clients fs

abbrev pub flushed_readers : List Flush → List Reader
flushed_readers [] = []
flushed_readers (shutdown_tracer_provider p ∷ fs) = flushed_readers fs
flushed_readers (shutdown_meter_provider p ∷ fs) = p.readers ++ flushed_readers fs

state_of-flushed :
    (service : String) (cfg : OtelStateConfig) (version env : String) (readers : List Reader)
    (clients : List Client)
    → (flushed_clients (shutdown (some (state_of service cfg version env readers clients)))
        ≡ clients)
      × (flushed_readers (shutdown (some (state_of service cfg version env readers clients)))
          ≡ readers)
unfolding shutdown
state_of-flushed service cfg version env [] [] = (refl, refl)
state_of-flushed service cfg version env (r ∷ rs) [] = (refl, append-nil (r ∷ rs))
state_of-flushed service cfg version env [] (c ∷ cs) = (append-nil (c ∷ cs), refl)
state_of-flushed service cfg version env (r ∷ rs) (c ∷ cs) =
    (append-nil (c ∷ cs), append-nil (r ∷ rs))

-- The exporters that a map has under the names of a list, one for each name and in the order of the
-- names, made into what stands in the other list.
abbrev pub Named : {A B : Type 0} → (A → B) → Map A → List String → List B → Type 0
Named make m [] [] = Unit {0}
Named make m [] (b ∷ bs) = ⊥
Named make m (name ∷ names) [] = ⊥
Named {A = A} make m (name ∷ names) (b ∷ bs) =
    ((a : A) × (lookup name m ≡ some a) × (b ≡ make a)) × Named make m names bs

find_all-Named :
    {A B : Type 0} (missing : String → ℕ → NotFound) (make : A → B) (m : Map A) (idx : ℕ)
    (names : List String) (bs : List B)
    → find_all missing make m idx names ≡ done bs
    → Named make m names bs
unfolding find_all
find_all-Named missing make m idx [] [] h = tt
find_all-Named missing make m idx [] (b ∷ bs) h = absurd (cc h)
find_all-Named missing make m idx (name ∷ names) bs h = elim (Option-cases (lookup name m)) [
  | inl none_there ↦ absurd (cc (rw none_there at h))
  | inr (a, there) ↦
      let rest = find_all missing make m (idx + 1) names in
      let (made, hm, h1) = bind_done rest (λ made. done (make a ∷ made)) bs (rw there at h) in
      let e : bs ≡ make a ∷ made = cc h1 in
      rw e ((a, there, refl), find_all-Named missing make m (idx + 1) names made hm)
]

-- Of a state that could be made, the shutdown flushes the spans of the clients of the exporters that
-- the map of exporters has under the names that its configuration has for the traces, each name once
-- and in this order, and the metrics of the readers that the exporters under the names for the
-- metrics make with the period of the configuration.
pub shutdown-new_with_version_and_env :
    (service : String) (cfg : OtelStateConfig) (version env : String) (me : Map MetricReader)
    (te : Map SpanExporter) (s : OtelState)
    → new_with_version_and_env service cfg version env me te ≡ done s
    → Named (λ c. c.exporter) te cfg.trace_providers (flushed_clients (shutdown (some s)))
      × Named
          (metric_reader (reporting_period cfg))
          me
          cfg.metric_providers
          (flushed_readers (shutdown (some s)))
unfolding new_with_version_and_env
shutdown-new_with_version_and_env service cfg version env me te s h =
    let period = reporting_period cfg in
    let found = find_all no_metric_exporter (metric_reader period) me 0 cfg.metric_providers in
    let exported = find_all no_span_exporter span_exporter te 0 cfg.trace_providers in
    let (readers, hr, h1) =
      bind_done found
        (λ readers.
          exported >>= (λ clients. done (state_of service cfg version env readers clients)))
        s h in
    let (clients, hc, h2) =
      bind_done exported (λ clients. done (state_of service cfg version env readers clients)) s
        h1 in
    let (fc, fr) = state_of-flushed service cfg version env readers clients in
    let e : s ≡ state_of service cfg version env readers clients = cc h2 in
    rw e (
      rw fc (find_all-Named no_span_exporter span_exporter te 0 cfg.trace_providers clients hc),
      rw fr (
          find_all-Named no_metric_exporter (metric_reader period) me 0 cfg.metric_providers readers
            hr),
    )
