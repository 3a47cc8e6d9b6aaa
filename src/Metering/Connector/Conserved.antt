-- ===== src/Metering/Connector/Conserved.antt =====
-- What the connector hands on and what it holds, over any run
-- (connectors/signozmeterconnector/connector.go).
use Prim.Native.Nat.{ℕ, ◌+◌, ◌^◌, ◌<◌}
use mathlib.Core.List.{List, [], ◌∷◌, ◌++◌}
use mathlib.Core.Option.{Option}
use mathlib.Core.Path.{◌≡◌, refl, ap, ◌∙◌}
use native.Mathlib.Omega.{arith}
use otel_collector.Common.Lists.{total}
use otel_collector.Common.Tests.{comparable_nat}
use otel_collector.Metering.{count_per_resource}
use otel_collector.Metering.Size.{
  ResourceLogs, log_count_per_resource, log_size_per_resource, ResourceSpans,
  span_count_per_resource, span_size_per_resource,
}
use otel_collector.Metering.Connector.{
  Signal, spans, data_points, logs, metric_name_count, MeterConnector, Meters, consume_traces,
  consume_metrics, consume_logs, export_meters,
}
use otel_collector.Metrics.{ResourceMetrics}
use otel_collector.Metering.Connector.Held.{held, gained, IsLoop, held-loop}
use otel_collector.Metering.Connector.Exported.{handed, handed-export_meters}

-- Each method is a loop that aggregates.
module _ {V : Type 0} (x : Meters V) where
  traces-IsLoop :
      IsLoop x spans
        (λ r. r.attributes)
        span_count_per_resource
        (span_size_per_resource x.flat_size)
        (consume_traces x)
  unfolding consume_traces
  traces-IsLoop = (λ c. refl, λ r rs c. refl)

  logs-IsLoop :
      IsLoop x logs
        (λ r. r.attributes)
        log_count_per_resource
        (log_size_per_resource x.sizer)
        (consume_logs x)
  unfolding consume_logs
  logs-IsLoop = (λ c. refl, λ r rs c. refl)

  metrics-IsLoop :
      (F : Type 0)
      → IsLoop x data_points
          (λ r. r.resource_attributes)
          count_per_resource
          (λ r. 0)
          (consume_metrics {F = F} x)
  unfolding consume_metrics
  metrics-IsLoop F = (λ c. refl, λ r rs c. refl)

-- What happens to the connector: telemetry comes, or the ticker fires at a time.
pub data Event (V F : Type 0) : Type 0 where
  traces : List (ResourceSpans V) → Event V F
  metrics : List (ResourceMetrics V F) → Event V F
  log_records : List (ResourceLogs V) → Event V F
  flush : ℕ → Event V F

module _ {V F : Type 0} (x : Meters V) where
  -- What the exports of a run hand on, and the connector after it.
  unfoldable pub run :
      List (Event V F)
      → MeterConnector
      → List (Option (List (ResourceMetrics V F))) × MeterConnector
  unfolding consume_traces consume_metrics consume_logs export_meters
  run [] c = ([], c)
  run (traces rs ∷ events) c = run events (consume_traces x rs c)
  run (metrics rs ∷ events) c = run events (consume_metrics x rs c)
  run (log_records rs ∷ events) c = run events (consume_logs x rs c)
  run (flush now ∷ events) c =
      let (out, c') = export_meters x now c in let (outs, c'') = run events c' in (out ∷ outs, c'')

  -- What an event brings of a signal.
  abbrev pub consumed : Signal → Event V F → ℕ
  consumed s (traces rs) = gained s spans (total span_count_per_resource rs)
  consumed s (metrics rs) = gained s data_points (total count_per_resource rs)
  consumed s (log_records rs) = gained s logs (total log_count_per_resource rs)
  consumed s (flush now) = 0

  -- Over any run of traces, metrics, logs and exports that ends with an export, the counts of a
  -- signal that are handed to the next consumer add up to what was held at the start and what was
  -- consumed, if that is below 2^63.
  pub run-flushed :
      (s : Signal) (now : ℕ) (events : List (Event V F)) (c : MeterConnector)
      → held s c.aggregated_meter_metrics + total (consumed s) events < 2 ^ 63
      → total (handed (metric_name_count s)) (run (events ++ flush now ∷ []) c).0
        ≡ held s c.aggregated_meter_metrics + total (consumed s) events
  unfolding run
  run-flushed s now [] c h = omega (arith, (handed-export_meters F x s now c (omega (arith, h))).0)
  run-flushed s now (traces rs ∷ events) c h =
      let same =
        held-loop x s spans (λ r. r.attributes) span_count_per_resource _ (consume_traces x)
          (traces-IsLoop x) rs c (omega (arith, h)) in
      omega (arith, same, run-flushed s now events (consume_traces x rs c) (omega (arith, h, same)))
  run-flushed s now (metrics rs ∷ events) c h =
      let same =
        held-loop x s data_points (λ r. r.resource_attributes) count_per_resource _
          (consume_metrics x) (metrics-IsLoop x F) rs c (omega (arith, h)) in
      omega
        (arith, same, run-flushed s now events (consume_metrics x rs c) (omega (arith, h, same)))
  run-flushed s now (log_records rs ∷ events) c h =
      let same =
        held-loop x s logs (λ r. r.attributes) log_count_per_resource _ (consume_logs x)
          (logs-IsLoop x) rs c (omega (arith, h)) in
      omega (arith, same, run-flushed s now events (consume_logs x rs c) (omega (arith, h, same)))
  run-flushed s now (flush t ∷ events) c h =
      let (out, none_held) = handed-export_meters F x s t c (omega (arith, h)) in
      let after = (export_meters {F = F} x t c).1 in
      let empty_held : held s after.aggregated_meter_metrics ≡ 0 =
        ap (held s) none_held ∙ (unfold held in refl) in
      omega (arith, out, empty_held, run-flushed s now events after (omega (arith, h, empty_held)))
