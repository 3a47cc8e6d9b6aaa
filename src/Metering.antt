-- ===== src/Metering.antt =====
-- What is billed for telemetry (pkg/metering/v1: metrics.go, logs.go, traces.go; pkg/metering/json.go).
-- Counts and sizes are lengths of data in memory, for which Go's int does not wrap.
pub mod Samples
pub mod Size
pub mod Connector
mod Tests
use Prim.Native.Nat.{ℕ, ◌+◌}
use mathlib.Core.Bool.{Bool, ◌||◌}
use mathlib.Core.List.{List}
use otel_collector.Common.Lists.{length, total}
use otel_collector.Common.Tests.{if◌then◌else◌}
use otel_collector.Common.Texts.{Text, ascii, has_prefix}
use otel_collector.Metrics.{
  MetricData, empty, gauge, sum, histogram, exponential_histogram, summary, Metric, ScopeMetrics,
  ResourceMetrics, HistogramDataPoint, ExponentialHistogramDataPoint, SummaryDataPoint,
}

-- Whether `^(signoz|otelcol).*` matches.
unfoldable pub is_excluded : Text → Bool
is_excluded name = has_prefix name (ascii "signoz") || has_prefix name (ascii "otelcol")

abbrev pub one_if : Bool → ℕ
one_if test = if test then 1 else 0

module _ {V F : Type 0} where
  abbrev pub count_histogram : HistogramDataPoint V F → ℕ
  count_histogram dp =
      length dp.bucket_counts + 1 + one_if dp.has_sum + one_if dp.has_min + one_if dp.has_max

  abbrev pub count_summary : SummaryDataPoint V F → ℕ
  count_summary dp = length dp.quantile_values + 2

  abbrev pub count_exponential : ExponentialHistogramDataPoint V F → ℕ
  count_exponential dp =
      length dp.negative.bucket_counts
      + length dp.positive.bucket_counts
      + 1
      + one_if dp.has_sum
      + one_if dp.has_min
      + one_if dp.has_max

  unfoldable pub count_points : MetricData V F → ℕ
  count_points empty = 0
  count_points (gauge points) = length points
  count_points (sum temporality is_monotonic points) = length points
  count_points (histogram temporality points) = total count_histogram points
  count_points (summary points) = total count_summary points
  count_points (exponential_histogram temporality points) = total count_exponential points

  unfoldable pub count_metric : Metric V F → ℕ
  unfolding is_excluded count_points
  count_metric m = if is_excluded m.name then 0 else count_points m.points

  unfoldable pub count_per_resource : ResourceMetrics V F → ℕ
  unfolding count_metric
  count_per_resource rmd = total (λ sm. total count_metric sm.metrics) rmd.scope_metrics

  unfoldable pub count : List (ResourceMetrics V F) → ℕ
  unfolding count_per_resource
  count md = total count_per_resource md
