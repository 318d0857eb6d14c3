-- ===== src/Http/Server/Metrics/Shared.antt =====
-- http/server/metrics.go: the attributes of a report as the slices that they are. The slice of an
-- endpoint's static attributes, which router/gin/endpoint.go makes once, is shared by all requests of
-- the endpoint, and `report` appends to it.
use krakend_otel.Prelude.{
  ℕ, ◌+◌, ◌≡◌, refl, sym, ◌∙◌, List, ◌++◌, leb, Bool-cases, inl, inr, if◌then◌else◌, Slice, Heap,
  contents, append, IsGood, contents-append, contents-append_twice, ap,
}
use krakend_otel.Telemetry.{Attribute}
use krakend_otel.Http.Attributes.{HttpRequest}
use krakend_otel.Http.Server.Tracking.{Tracking}
use krakend_otel.Http.Server.Metrics.{MetricsHttp, sample_attrs, dynamic_attrs}

module _ (grow : ℕ → ℕ) where
  -- `dynAttrs := t.metricsStaticAttrs; dynAttrs = append(dynAttrs, …)`
  unfoldable pub append_attrs :
      Slice → Tracking → HttpRequest → Heap Attribute → Heap Attribute × Slice
  append_attrs static t r h = append grow static (dynamic_attrs t r) h

  -- What `metric.WithAttributes(dynAttrs...)` then reads, behind the attributes of the configuration.
  abbrev pub read_attrs : MetricsHttp → Heap Attribute × Slice → List Attribute
  read_attrs m (h, s) = m.fixed_attrs ++ contents h s

  -- One request alone: what is appended is read at once.
  unfoldable pub report_alone :
      MetricsHttp → Slice → Tracking → HttpRequest → Heap Attribute → List Attribute
  report_alone m static t r h = read_attrs m (append_attrs static t r h)

  -- Two requests at the same time: the first appends, the second appends, the first reads.
  unfoldable pub report_first :
      MetricsHttp
      → Slice
      → Tracking
      → HttpRequest
      → Tracking
      → HttpRequest
      → Heap Attribute
      → List Attribute
  report_first m static t r t' r' h =
      let (h1, s1) = append_attrs static t r h in
      let (h2, s2) = append_attrs static t' r' h1 in read_attrs m (h2, s1)

  report_alone-sample_attrs :
      (m : MetricsHttp) (static : Slice) (t : Tracking) (r : HttpRequest) (h : Heap Attribute)
      → IsGood h static
      → t.metrics_static_attrs ≡ contents h static
      → report_alone m static t r h ≡ sample_attrs m t r
  unfolding report_alone append_attrs
  report_alone-sample_attrs m static t r h good shared =
      ap (λ l. m.fixed_attrs ++ l)
        (contents-append grow static (dynamic_attrs t r) h good
          ∙ ap (λ l. l ++ dynamic_attrs t r) (sym shared))

  report_first-sample_attrs :
      (m : MetricsHttp) (static : Slice) (t : Tracking) (r : HttpRequest) (t' : Tracking)
      (r' : HttpRequest) (h : Heap Attribute)
      → IsGood h static
      → t.metrics_static_attrs ≡ contents h static
      → t'.metrics_static_attrs ≡ contents h static
      → report_first m static t r t' r' h
        ≡ (if leb (static.len + 4) static.cap then sample_attrs m t' r' else sample_attrs m t r)
  unfolding report_first append_attrs
  report_first-sample_attrs m static t r t' r' h good shared shared' =
      elim (Bool-cases (leb (static.len + 4) static.cap)) [
        | inl room ↦
            ap (λ l. m.fixed_attrs ++ l)
              (contents-append_twice grow static (dynamic_attrs t r) (dynamic_attrs t' r') h good
                refl)
            ∙ rw (room, shared') refl
        | inr full ↦
            ap (λ l. m.fixed_attrs ++ l)
              (contents-append_twice grow static (dynamic_attrs t r) (dynamic_attrs t' r') h good
                refl)
            ∙ rw (full, shared) refl
      ]

  -- A request whose report is not interrupted is reported with the attributes of the configuration,
  -- the endpoint's static ones and its own, whatever the capacity of the endpoint's slice. Of two
  -- requests of one endpoint whose reports overlap, so that both append before the first reads, the
  -- first is reported with its own attributes only if the endpoint's slice has no room for four more
  -- elements. If it has, the first is reported with the attributes of the second.
  pub reports-sample_attrs :
      (m : MetricsHttp) (static : Slice) (t : Tracking) (r : HttpRequest) (t' : Tracking)
      (r' : HttpRequest) (h : Heap Attribute)
      → IsGood h static
      → t.metrics_static_attrs ≡ contents h static
      → t'.metrics_static_attrs ≡ contents h static
      → (report_alone m static t r h ≡ sample_attrs m t r)
        × (report_first m static t r t' r' h ≡ (
            if leb (static.len + 4) static.cap then sample_attrs m t' r' else sample_attrs m t r))
  reports-sample_attrs m static t r t' r' h good shared shared' = (
    report_alone-sample_attrs m static t r h good shared,
    report_first-sample_attrs m static t r t' r' h good shared shared',
  )
