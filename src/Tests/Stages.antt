-- ===== src/Tests/Stages.antt =====
-- lura: a stage that answers with a response or an error, and a backend whose options leave the
-- traces out.
use krakend_otel.Lura.Backend.{client_transport}
use krakend_otel.Lura.Backend.RoundTrips.{is_measured, is_traced, client_transport_lem}
use krakend_otel.Config.Options.{BackendOpts, BackendMetricOpts, backend_enabled}
use krakend_otel.Prelude.{
  ℕ, suc, pos, true, false, ◌≡◌, refl, none, some, [], ◌∷◌, Result, done, returned, panicked,
  lookup, All, canonical_header_key, all_token,
}
use krakend_otel.Telemetry.{
  Err, nil, cons, multi, canceled, message, with_span, live, World, Otel, provided_tracer,
  nil_dereference, attr, str, Headers, request_ctx, not_enough_proxies, too_many_proxies,
}
use krakend_otel.Config.Options.{LayersOpts}
use krakend_otel.Config.Data.{ConfigData, default_metric_opts}
use krakend_otel.State.Config.{new_config, skip_endpoint}
use krakend_otel.Lura.Meter.{Response, classify}
use krakend_otel.Lura.Meter.Labels.{classify_lem}
use krakend_otel.Lura.Tracer.{MiddlewareTracer, skip_set, new_middleware_tracer, start, finish}
use krakend_otel.Lura.Tracer.Omits.{Canonical, Omits, request_key, response_key}
use krakend_otel.Lura.Tracer.Hides.{new_middleware_tracer-Omits}
use krakend_otel.Lura.Proxy.{Proxy, apply_middleware}
use krakend_otel.Lura.Proxy.Transparent.{Instruments, apply_middleware-Instruments}
use krakend_otel.Lura.Factories.{Backend, backend_factory, EndpointConfig, proxy_factory}
use krakend_otel.Lura.Factories.Counted.{Counted, proxy_factory-Counted}
use krakend_otel.Config.Options.{zero_pipe_opts}
use krakend_otel.State.Config.{endpoint_pipe_opts}
use krakend_otel.Lura.Factories.Panics.{backend_factory_cases}

abbrev two_errors : Err
two_errors = multi "request error" (cons canceled (cons (message "refused") nil))

classify_lem_example :
    (classify none (some two_errors) ≡ (true, true)) × (classify none none ≡ (false, false))
classify_lem_example = classify_lem none two_errors

-- The state of the surroundings is the time.
abbrev world : World ℕ
world = record {
  now = λ s. s;
  ctx_err = λ ctx s. none;
  starts = λ tracer ctx name. (with_span ctx (live 1), live 1);
}

abbrev complete_response : Response
complete_response = record { is_complete = true; status_code = pos 200; headers = [] }

abbrev stage : Proxy ℕ
stage ctx req s = (suc s, (some complete_response, none), [])

abbrev tracer : MiddlewareTracer
tracer = record {
  name = "/shop";
  tracer = provided_tracer;
  report_headers = true;
  skip_headers = some ("Cookie" ∷ []);
  attrs = [];
}

abbrev skipping : MiddlewareTracer
skipping = record {
  name = "/shop";
  tracer = provided_tracer;
  report_headers = true;
  skip_headers = skip_set ("set-COOKIE" ∷ ("cookie" ∷ []));
  attrs = attr "krakend.stage" (str "proxy") ∷ [];
}

abbrev sent : Headers
sent = ("Accept", "*/*" ∷ []) ∷ (("Cookie", "session=1" ∷ []) ∷ [])

sent-Canonical : Canonical sent
unfolding canonical_header_key
sent-Canonical = (refl, (refl, tt))

new_middleware_tracer-Omits_example :
    All (Omits (request_key "cookie")) (start world.starts skipping (request_ctx 1) sent).2
    × All (Omits (response_key "cookie")) (finish skipping (live 1) (some complete_response) none)
unfolding new_middleware_tracer all_token
new_middleware_tracer-Omits_example =
    new_middleware_tracer-Omits world.starts (some provided_tracer) "/shop" "proxy" true
      ("set-COOKIE" ∷ ("cookie" ∷ [])) [] skipping "cookie" (request_ctx 1) sent (live 1)
      (some complete_response) none refl refl refl sent-Canonical tt tt

apply_middleware-Instruments_example :
    ((p : Proxy ℕ) × (apply_middleware world none (some tracer) (stage ∷ []) ≡ returned p)
      × Instruments world stage none (some tracer) p)
    × (apply_middleware world none (some tracer) [] ≡ panicked not_enough_proxies)
    × (apply_middleware world none (some tracer) (stage ∷ (stage ∷ [])) ≡ panicked too_many_proxies)
apply_middleware-Instruments_example =
    apply_middleware-Instruments world stage none (some tracer) stage []

abbrev metrics_only : LayersOpts
metrics_only = record {
  global = none;
  pipe = none;
  backend = some (record { metrics = some default_metric_opts; traces = none });
}

abbrev plain_config : ConfigData
plain_config = record {
  service_name = "shop";
  service_version = "";
  deploy_env = "";
  layers = none;
  exporters = record { otlp = []; prometheus = [] };
  skip_paths = [];
  metric_reporting_period = none;
  trace_sample_rate = none;
}

abbrev users : Backend ℕ
users = record {
  url_pattern = "/users/{{.Id}}";
  method = "GET";
  parent_endpoint = "/shop/:id";
  parent_endpoint_method = "GET";
  extra_config = ("telemetry/opentelemetry", 0) ∷ [];
}

abbrev decode : ℕ → Result Err LayersOpts
decode _ = done metrics_only

abbrev otel : Otel
otel = record { meter = some (λ i. true); tracer = some provided_tracer }

backend_factory_cases_example :
    backend_factory world
      (message "refused")
      decode
      (some otel)
      (some (new_config plain_config))
      (λ b. stage)
      users
    ≡ panicked nil_dereference
unfolding lookup skip_endpoint new_config
backend_factory_cases_example =
    backend_factory_cases world (message "refused") decode otel plain_config (λ b. stage) users refl

-- The stage of the metrics is disabled, and the round trips are asked for.
abbrev unstaged : BackendMetricOpts
unstaged = record default_metric_opts { disable_stage = true }

abbrev unstaged_options : BackendOpts
unstaged_options = record { metrics = some unstaged; traces = none }

abbrev decode_unstaged : ℕ → Result Err LayersOpts
decode_unstaged _ = done (record { global = none; pipe = none; backend = some unstaged_options })

client_transport_lem_example :
    (is_measured
        (client_transport decode_unstaged (some (new_config plain_config)) (some otel) users)
      ≡ true)
    × (is_traced
          (client_transport decode_unstaged (some (new_config plain_config)) (some otel) users)
        ≡ true)
unfolding lookup skip_endpoint new_config backend_enabled
client_transport_lem_example = client_transport_lem decode_unstaged plain_config otel users

-- An endpoint whose options have no traces, and a meter that makes every instrument.
abbrev no_traces : LayersOpts
no_traces = record {
  global = none;
  pipe = some (record zero_pipe_opts { disable_traces = true });
  backend = none;
}

abbrev shop : EndpointConfig ℕ
shop = record {
  endpoint = "/shop/:id";
  method = "GET";
  extra_config = ("telemetry/opentelemetry", 0) ∷ [];
}

proxy_factory-Counted_example :
    (p : Proxy ℕ) × (proxy_factory world
        (message "refused")
        (λ j. done no_traces)
        (some otel)
        (some (new_config plain_config))
        (λ cfg. (stage, none))
        shop
      ≡ returned (p, none))
    × Counted world stage true false p
unfolding lookup skip_endpoint new_config endpoint_pipe_opts
proxy_factory-Counted_example =
    proxy_factory-Counted world (message "refused") (λ j. done no_traces) (λ i. true)
      provided_tracer (new_config plain_config) shop stage (λ cfg. (stage, none)) refl
