-- ===== src/Metrics/Process/Exponential.antt =====
-- The rows of an exponential histogram
-- (exporter/signozclickhousemetrics/exporter.go: processExponentialHistogram).
use mathlib.Core.Bool.{Bool, ◌||◌, not}
use mathlib.Core.List.{List, [], ◌++◌, map}
use otel_collector.Common.Int.{pos}
use otel_collector.Common.Tests.{if◌then◌else◌}
use otel_collector.Common.Texts.{Text}
use otel_collector.Metrics.{
  AggregationTemporality, unspecified, MetricType, gauge_metric, sum_metric,
  exponential_histogram_metric, Buckets, ExponentialHistogramDataPoint, Platform,
}
use otel_collector.Metrics.Batch.{Batch, Sketch, SketchStore, add_exp_hist}
use otel_collector.Metrics.Process.{
  Source, temporality_extra, series_hash, add_series, add_point, start_loop, each_point,
}
use otel_collector.Metrics.Process.Points.{
  is_delta, count_suffix, sum_suffix, min_suffix, max_suffix, when, neg_int32, suffixed,
  add_summary_metadata,
}

module _ {V F : Type 0} (p : Platform V F) where
  -- The extra label is the temporality of the metric, also where the sample has none.
  unfoldable pub add_exponential_sample :
      Source
      → AggregationTemporality
      → Text
      → MetricType
      → AggregationTemporality
      → F
      → ExponentialHistogramDataPoint V F
      → Batch F
      → Batch F
  unfolding add_point
  add_exponential_sample src temporality suffix typ sample_temporality value dp b =
      let extras = temporality_extra p temporality in
      add_point p src (suffixed p suffix typ sample_temporality dp.attributes extras dp.timestamp)
        value dp.flags b

  unfoldable pub to_store : Buckets → SketchStore F
  to_store buckets = record {
    contiguous_bin_index_offset = buckets.offset;
    contiguous_bin_counts = map p.from_uint64 buckets.bucket_counts;
  }

  unfoldable pub sketch_of : ExponentialHistogramDataPoint V F → Sketch F
  unfolding to_store
  sketch_of dp =
      let two = p.from_int64 (pos 2) in
      record {
        gamma = p.pow two (p.pow two (p.from_int64 (neg_int32 dp.scale)));
        positive_values = to_store dp.positive;
        negative_values = to_store dp.negative;
        zero_count = p.from_uint64 dp.zero_count;
      }

  unfoldable pub add_dd_sketch_sample :
      Source → AggregationTemporality → ExponentialHistogramDataPoint V F → Batch F → Batch F
  unfolding sketch_of add_series series_hash add_exp_hist
  add_dd_sketch_sample src temporality dp b =
      let extras = temporality_extra p temporality in
      let s =
        suffixed p [] exponential_histogram_metric temporality dp.attributes extras dp.timestamp in
      add_series p src s (
        add_exp_hist
          (record {
            env = src.env;
            temporality = temporality;
            metric_name = src.name ++ s.suffix;
            fingerprint = series_hash p src s;
            unix_milli = s.time;
            sketch = sketch_of dp;
            count = p.from_uint64 dp.count;
            sum = dp.sum;
            min = dp.min;
            max = dp.max;
            flags = dp.flags;
          })
          b)

  unfoldable pub add_exponential :
      Source → AggregationTemporality → ExponentialHistogramDataPoint V F → Batch F → Batch F
  unfolding add_exponential_sample add_dd_sketch_sample when
  add_exponential src temporality dp b0 =
      let b1 =
        add_exponential_sample src temporality count_suffix sum_metric temporality
          (p.from_uint64 dp.count) dp b0 in
      let b2 =
        when dp.has_sum
          (add_exponential_sample src temporality sum_suffix sum_metric temporality dp.sum dp) b1 in
      let b3 =
        when dp.has_min
          (add_exponential_sample src temporality min_suffix gauge_metric unspecified dp.min dp)
          b2 in
      let b4 =
        when dp.has_max
          (add_exponential_sample src temporality max_suffix gauge_metric unspecified dp.max dp)
          b3 in
      let nan = p.is_nan dp.sum || p.is_nan dp.min || p.is_nan dp.max in
      if nan then b0 else add_dd_sketch_sample src temporality dp b4

  -- Nothing is added unless the exporter takes exponential histograms and the points are deltas.
  unfoldable pub process_exponential_histogram :
      Bool
      → Source
      → AggregationTemporality
      → List (ExponentialHistogramDataPoint V F)
      → Batch F
      → Batch F
  unfolding add_exponential each_point add_summary_metadata
  process_exponential_histogram enable_exp_hist src temporality points b =
      let l =
        each_point (λ dp. dp.timestamp) (add_exponential src temporality) points (start_loop b) in
      if not enable_exp_hist
      then b
      else if not (is_delta temporality)
      then b
      else (add_summary_metadata p src temporality l).batch
