-- ===== src/Exporter/Otlp/Period.antt =====
-- How often the metrics of an exporter are pushed.
use krakend_otel.Prelude.{
  ℕ, ◌*◌, ◌≤◌, ℤ, pos, seconds64, to_int64, ◌≡◌, refl, done, if◌then◌else◌, arith, ltb, leb, ◌&&◌,
  ◌>>=◌, Bool-cases, List, [], ◌∷◌, inl, inr,
}
use krakend_otel.Telemetry.{Err}
use krakend_otel.Exporter.Otlp.Connects.{both_done}
use krakend_otel.Config.Exporters.{OtlpExporter}
use krakend_otel.Exporter.Otlp.{
  OtlpSdk, OtelCollector, new_exporter, exporter_with_options, http_exporter_with_options,
  grpc_exporter_with_options, reader_interval, collector_with, Client, Library, trace_http,
  metric_http, trace_grpc, metric_grpc, with_insecure, AnyOption, option_of, destination, host_port,
  client_options, new_client, with_defaults, http_trace_error, http_metric_error, grpc_trace_error,
  grpc_metric_error,
}

-- The interval of an exporter that has a period of `n` seconds of its own.
interval_lem :
    (cfg : OtlpExporter) (t m : Client) (n : ℕ) (period : ℤ)
    → cfg.custom_metric_reporting_period ≡ n
    → n ≤ 18446744073
    → reader_interval (collector_with cfg t m) period
      ≡ (if ltb 0 n && leb n 9223372036 then pos (n * 1000000000) else period)
unfolding reader_interval seconds64 to_int64
interval_lem cfg t m n period e h = rw e (ground arith)

module _ (sdk : OtlpSdk) (cfg : OtlpExporter) (c : OtelCollector) where
  abbrev IsCollector : Type 0
  IsCollector = (t : Client) × (m : Client) × (c ≡ collector_with (with_defaults cfg) t m)

  clients_done :
      (trace metric : Library) (trace_error metric_error : Err → Err) (options : List AnyOption)
      → destination sdk.parse (host_port (with_defaults cfg).host (with_defaults cfg).port)
          >>= (λ d. new_client sdk trace trace_error (client_options trace options d) >>= (λ t.
              new_client sdk metric metric_error (client_options metric options d)
              >>= (λ m. done (collector_with (with_defaults cfg) t m))))
        ≡ done c
      → IsCollector
  clients_done trace metric trace_error metric_error options h =
      let (d, t, m, hd, ht, hm, e) =
        both_done
          (destination sdk.parse (host_port (with_defaults cfg).host (with_defaults cfg).port))
          (λ d. new_client sdk trace trace_error (client_options trace options d))
          (λ d. new_client sdk metric metric_error (client_options metric options d))
          (collector_with (with_defaults cfg)) c h in
      (t, m, e)

  new_exporter-collector_with : new_exporter sdk cfg ≡ done c → IsCollector
  unfolding new_exporter exporter_with_options http_exporter_with_options grpc_exporter_with_options
  new_exporter-collector_with h =
      let options = option_of trace_grpc with_insecure ∷ option_of metric_grpc with_insecure ∷ [] in
      elim (Bool-cases cfg.use_http) [
        | inl http ↦
            clients_done trace_http metric_http http_trace_error http_metric_error options
              (rw (http, new_exporter) at h)
        | inr grpc ↦
            clients_done trace_grpc metric_grpc grpc_trace_error grpc_metric_error options
              (rw (grpc, new_exporter) at h)
      ]

  -- The metrics of an exporter that could be made are pushed at its own period, if it has one of 1 to
  -- 9223372036 seconds. They are pushed at the service's period if it has none, and also if it has one
  -- of 9223372037 to 18446744073 seconds, which is more than a `time.Duration` holds.
  pub reader_interval_bounds :
      (period : ℤ)
      → cfg.custom_metric_reporting_period ≤ 18446744073
      → new_exporter sdk cfg ≡ done c
      → reader_interval c period ≡ (
          if ltb 0 cfg.custom_metric_reporting_period
            && leb cfg.custom_metric_reporting_period 9223372036
          then pos (cfg.custom_metric_reporting_period * 1000000000)
          else period)
  reader_interval_bounds period fits h =
      let (t, m, e) = new_exporter-collector_with h in
      rw e
        (interval_lem (with_defaults cfg) t m cfg.custom_metric_reporting_period period refl fits)
