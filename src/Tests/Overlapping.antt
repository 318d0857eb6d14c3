-- ===== src/Tests/Overlapping.antt =====
-- http/server: the end of a request that is taken over, and two requests at the same time.
use krakend_otel.Prelude.{
  ℕ, zero, suc, ◌*◌, arith, ◌≡◌, refl, List, [], ◌∷◌, Slice, Heap, take, append, returned,
}
use krakend_otel.Telemetry.{Attribute, attr, str, Call, provided_tracer, ends, request_ctx}
use krakend_otel.State.Config.{skip_endpoint, new_config}
use krakend_otel.Http.Attributes.{HttpRequest, Url}
use krakend_otel.Http.Server.Tracking.{Tracking, new_tracking}
use krakend_otel.Http.Server.Metrics.{sample_attrs}
use krakend_otel.Http.Server.Metrics.Shared.{
  append_attrs, read_attrs, report_alone, report_first, reports-sample_attrs,
}
use krakend_otel.Http.Server.Metrics.Interleaved.{
  waiting, reported, Reports, update, after_append, Reach, start, later, appends, reads,
  Reach-sample_attrs,
}
use krakend_otel.Http.Server.Handler.{serve_http}
use krakend_otel.Http.Server.Handler.Exactly.{Records, serve_http-ends_once}
use krakend_otel.Tests.Served.{
  connection, tracing, tracing-Stops, ended_in, metrics, traces, handler, request, upgrading,
}

tracing-Records : Records tracing
unfolding ended_in
tracing-Records span [] unended = refl
tracing-Records span (c ∷ calls) unended = ground (arith, tracing-Records span calls)

abbrev url : Url
url = record {
  full = "http://localhost/users/3";
  scheme = "";
  path = "/users/3";
  hostname = "localhost";
  port = "";
}

serve_http-ends_once_example :
    (end : ℕ) × (calls : List Call) × (serve_http connection
        (λ s. s)
        tracing
        handler
        upgrading
        request
        100
      ≡ returned (end, calls))
    × (ends calls ≡ 1)
unfolding skip_endpoint new_config
serve_http-ends_once_example =
    serve_http-ends_once connection (λ s. s) tracing tracing-Stops tracing-Records handler traces
      provided_tracer url upgrading request 100 refl refl refl refl

-- Two attributes in an array of eight.
abbrev static_attrs : List Attribute
static_attrs = attr "team" (str "shop") ∷ attr "tier" (str "gold") ∷ []

abbrev static_slice : Slice
static_slice = record { array = 0; len = 2; cap = 8 }

abbrev heap : Heap Attribute
heap = record { cells = λ array. static_attrs; fresh = 1 }

abbrev posted : HttpRequest
posted = record request { method = "post" }

abbrev tracked : Tracking
tracked = record (new_tracking (request_ctx 1)) { metrics_static_attrs = static_attrs }

-- The first of two requests that overlap is reported as a POST.
reports-sample_attrs_example :
    (report_alone (λ n. 2 * n) metrics static_slice tracked request heap
      ≡ sample_attrs metrics tracked request)
    × (report_first (λ n. 2 * n) metrics static_slice tracked request tracked posted heap
        ≡ sample_attrs metrics tracked posted)
unfolding take
reports-sample_attrs_example =
    reports-sample_attrs (λ n. 2 * n) metrics static_slice tracked request tracked posted heap
      (omega arith) refl refl

-- The same, with no room for what is appended.
abbrev full_slice : Slice
full_slice = record { array = 0; len = 2; cap = 2 }

abbrev numbered : ℕ → HttpRequest
numbered zero = request
numbered (suc i) = posted

abbrev overlapped : Reports
overlapped =
    after_append (λ n. 2 * n) metrics full_slice (λ i. tracked) numbered
      (after_append (λ n. 2 * n) metrics full_slice (λ i. tracked) numbered
        (record { memory = heap; phase = λ i. waiting }) 0)
      1

-- The slice that the first request has made, and what it reads in the end.
abbrev made : Slice
made = record { array = 1; len = 6; cap = 12 }

abbrev read : List Attribute
read = read_attrs (λ n. 2 * n) metrics (overlapped.memory, made)

overlapped-Reach :
    Reach
      (λ n. 2 * n)
      metrics
      full_slice
      (λ i. tracked)
      numbered
      heap
      (record overlapped { phase = update overlapped.phase 0 (reported read) })
unfolding append_attrs append
overlapped-Reach = later (later (later start (appends 0 refl)) (appends 1 refl)) (reads 0 made refl)

Reach-sample_attrs_example : read ≡ sample_attrs metrics tracked request
unfolding take
Reach-sample_attrs_example =
    Reach-sample_attrs (λ n. 2 * n) metrics full_slice (λ i. tracked) numbered heap refl (λ i. refl)
      (omega arith) overlapped-Reach 0 read refl
