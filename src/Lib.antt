-- ===== src/Lib.antt =====
-- Verification of krakend-otel, which instruments the KrakenD gateway with OpenTelemetry metrics and
-- traces.
--
-- The parts of the program and their files:
--   * config/config.go, config/lura.go, config/histogram_buckets.go, config/path_pattern.go: the
--     configuration that Lura's "extra_config" holds. Config/Options has its records, Config/Exporters
--     the exporters with `Validate`, Config/Data the root with `UnsetFieldsToDefaults`, Config/Lura
--     `FromLura`, Config/Buckets the histogram boundaries and Config/PathPattern
--     `NormalizeURLPattern`.
--   * state/config.go, in State/Config: the options that an endpoint or a backend gets, its own or
--     the service's.
--   * io/instruments.go, io/tracking.go, io/reader.go, io/writer.go, in Io: the readers and writers
--     that report what passes through them. Io/Session is a whole use of one, as its tracker sees it.
--   * lura/proxy.go, lura/proxy_meter.go, lura/proxy_tracer.go, in Lura: the middleware that measures
--     and traces a stage of the pipe (Lura/Proxy, with Lura/Meter and Lura/Tracer), and the factories
--     that put it round Lura's proxies (Lura/Factories). They read the options of State/Config.
--   * lura/backend.go and http/client/client.go, in Lura/Backend: the client of a backend's requests,
--     with the transport of Http/Client that the options of State/Config ask for.
--   * http/attributes.go, in Http/Attributes: the attributes of requests and responses.
--   * http/client/transport.go with transport_metrics.go, transport_traces.go and
--     transport_tracking.go, in Http/Client: the round tripper of the backend requests, which wraps
--     the bodies of the responses in the readers of Io.
--   * http/server, in Http/Server: the handler of the gateway's requests. Tracking is tracking.go,
--     Writer response_writer.go, Metrics metrics.go, Traces traces.go, and Handler and New server.go;
--     Metrics/Shared has the attributes of a report as slices that requests share, and
--     Metrics/Interleaved the reports of any number of requests as a step relation;
--     New also has router/gin/endpoint.go, which tells the tracking the endpoint's pattern. A handler
--     under it is a Program: the calls that it makes of its writer, each depending on the answers. It
--     does not ask which interfaces the writer implements.
--   * exporter/otelcollector/otelcollector.go and exporter/prometheus/prometheus.go, in Exporter: the
--     clients and readers of an exporter over OTLP (Exporter/Otlp), and the collectors and the server
--     of one that Prometheus scrapes (Exporter/Prometheus).
--   * exporter/exporter.go, state/state.go, state/global.go and otel.go, in Registration: Exporters is
--     `Instances`, Providers the state that `NewWithVersionAndEnv` makes, State its getters and its
--     shutdown, Globals the global variables with what sets and reads them, and Register `Register`,
--     from the configuration of Config to that of State, which sets them all.
--   * lura/runserver.go, in Lura/RunServer: the tracking handler of Http/Server in front of the
--     service's handler, made from the globals of Registration.
--   * example/server/main.go, in Example/Server: a service that is put together from all of these.
--
-- Conventions. A pointer or an interface that may be nil is an `Option`; a slice is a list, but for
-- one that is shared and appended to, which Prelude/Slices has with its array and its capacity; a
-- map is an association list, and a header is ranged over in the order of its list. What the program
-- hands to the OpenTelemetry API is a list of values of `Telemetry.Call`, in the order of the calls,
-- and what the API answers, and the clock, are arguments: `Starts` for a tracer, `World` for the
-- surroundings of the pipe, `Tracing` for those of the round tripper, `ServerTracing` and
-- `Propagator` for those of the server. Lura's proxies, the wrapped readers, writers and round
-- trippers are functions on a state of their own. Times are nanoseconds since the zero time,
-- durations saturate as `time.Duration` does, and a number of seconds that is a `float64` stands as
-- the duration that it is computed from. Sizes wrap at 2^64. A sample rate is a number of millionths.
-- A Go panic is `panicked`.
--
-- Every recursion is on the structure of its argument: there is no fuel. `normalize_after` counts
-- down the characters that a match of the regular expression has used up, and the decimal digits of
-- an `int` are at most 19.
--
-- Prelude has the shared notation and the functions of Go's standard library that the program calls
-- on text; letters beyond ASCII keep their case. Tests has runs at concrete inputs.
--
-- Not modelled: the handing of the propagator and of the error handler to the OpenTelemetry API in
-- otel.go, of which the line that is logged is modelled, and the parsing of the flags of the example.
-- The JSON codec, the OpenTelemetry SDK, the libraries of OTLP and Prometheus, url.Parse, Lura and
-- gin are not part of the repository; what is used of them is an argument.
pub mod Prelude
pub mod Telemetry
pub mod Config
pub mod Exporter
pub mod Io
pub mod State
pub mod Lura
pub mod Http
pub mod Registration
pub mod Example
pub mod Tests
