-- ===== src/Metering/Tests.antt =====
-- Runs of the meters and of the meter connector.
use Prim.Native.Nat.{ℕ, ◌+◌}
use mathlib.Core.Bool.{true, false}
use mathlib.Core.List.{List, [], ◌∷◌, ◌++◌}
use mathlib.Core.Path.{◌≡◌, refl}
use native.Mathlib.Omega.{arith}
use otel_collector.Common.Int.{pos}
use otel_collector.Common.Lists.{length, total}
use otel_collector.Common.Texts.{Text, ascii, has_prefix}
use otel_collector.Metering.{is_excluded, count_points, count_metric, count_per_resource, count}
use otel_collector.Metering.Connector.{logs, metric_name_count, MeterConnector, Meters}
use otel_collector.Metering.Connector.Conserved.{
  Event, metrics, log_records, flush, run, consumed, run-flushed,
}
use otel_collector.Metering.Connector.Exported.{handed}
use otel_collector.Metering.Connector.Held.{held}
use otel_collector.Metering.Size.{log_count_per_resource}
use otel_collector.Metering.Samples.{prepare_batch-count}
use otel_collector.Metrics.Process.Points.{any_nan}
use otel_collector.Metrics.Process.Prepare.{prepare_batch}
use otel_collector.Metrics.Tests.{platform, attributes, pushed_metrics}

pushed_count : count pushed_metrics ≡ 12
unfolding count count_per_resource count_metric count_points is_excluded
pushed_count = refl

prepare_batch-count_example :
    length (prepare_batch platform false (pos 9) pushed_metrics).samples ≡ count pushed_metrics
unfolding is_excluded any_nan
prepare_batch-count_example =
    prepare_batch-count platform false (pos 9) pushed_metrics (
      (((refl, (refl, (refl, tt))), ((refl, ((refl, refl), tt)), ((refl, (refl, tt)), tt))), tt),
      tt,
    )

abbrev meters : Meters Text
meters = record {
  values = record { as_string = λ v. v; put_str = λ t. t };
  map_hash = length;
  sizer = record { excluded = λ k. has_prefix k (ascii "signoz"); json_size = length };
  flat_size = length;
}

abbrev new_connector : MeterConnector
new_connector = record {
  id = ascii "c";
  dimensions = ascii "a" ∷ [];
  aggregated_meter_metrics = [];
  started = true;
}

abbrev events : List (Event Text ℕ)
events =
    log_records (
      record {
        attributes = attributes;
        scope_logs =
            (record { attributes = []; body_size = 4 }
              ∷ record { attributes = []; body_size = 2 }
              ∷ [])
            ∷ [];
      }
      ∷ [])
    ∷ flush 5
    ∷ metrics pushed_metrics
    ∷ log_records (
        record {
          attributes = [];
          scope_logs = (record { attributes = []; body_size = 1 } ∷ []) ∷ [];
        }
        ∷ [])
    ∷ []

three_logs : total (consumed meters logs) events ≡ 3
unfolding log_count_per_resource
three_logs = refl

run-flushed_example :
    total (handed (metric_name_count logs)) (run meters (events ++ flush 7 ∷ []) new_connector).0
    ≡ held logs [] + total (consumed meters logs) events
unfolding held log_count_per_resource
run-flushed_example = run-flushed meters logs 7 events new_connector (omega arith)
