-- ===== src/Metrics/Process/Points.antt =====
-- The rows of each kind of metric (exporter/signozclickhousemetrics/exporter.go: processGauge,
-- processSum, processHistogram, processSummary, processExponentialHistogram).
use Prim.Native.Nat.{ℕ, zero, suc, ◌+◌, ◌-◌, ◌%◌, ◌^◌}
use mathlib.Core.Bool.{Bool, true, false, ◌||◌}
use mathlib.Core.List.{List, [], ◌∷◌}
use otel_collector.Common.Int.{ℤ, pos, negsuc}
use otel_collector.Common.Tests.{if◌then◌else◌, nat_eqb}
use otel_collector.Common.Texts.{Text, ascii}
use otel_collector.Metrics.{
  AggregationTemporality, unspecified, delta, cumulative, MetricType, gauge_metric, sum_metric,
  histogram_metric, summary_metric, Number, no_number, int_number, double_number, NumberDataPoint,
  HistogramDataPoint, SummaryDataPoint, Platform, unix_milli,
}
use otel_collector.Metrics.Batch.{Batch}
use otel_collector.Metrics.Process.{
  Source, Series, Loop, temporality_extra, add_point, start_loop, each_point,
  add_resource_and_scope,
}

abbrev pub is_delta : AggregationTemporality → Bool
is_delta unspecified = false
is_delta delta = true
is_delta cumulative = false

abbrev pub count_suffix : Text
count_suffix = ascii ".count"

abbrev pub sum_suffix : Text
sum_suffix = ascii ".sum"

abbrev pub min_suffix : Text
min_suffix = ascii ".min"

abbrev pub max_suffix : Text
max_suffix = ascii ".max"

abbrev pub bucket_suffix : Text
bucket_suffix = ascii ".bucket"

abbrev pub quantiles_suffix : Text
quantiles_suffix = ascii ".quantile"

-- `if test { b = add(b) }`
unfoldable pub when : {A : Type 0} → Bool → (A → A) → A → A
when test add b = if test then add b else b

-- `-x` of an int32
abbrev pub neg_int32 : ℤ → ℤ
neg_int32 (pos zero) = pos 0
neg_int32 (pos (suc n)) = negsuc n
neg_int32 (negsuc n) = if nat_eqb n (2 ^ 31 - 1) then negsuc n else pos (suc n)

module _ {V F : Type 0} (p : Platform V F) where
  abbrev pub number_value : Number F → F
  number_value no_number = p.from_int64 (pos 0)
  number_value (int_number n) = p.from_int64 n
  number_value (double_number f) = f

  -- The body of the loop for gauges and sums.
  unfoldable pub add_number :
      Source → MetricType → AggregationTemporality → Bool → NumberDataPoint V F → Batch F → Batch F
  unfolding add_point
  add_number src typ temporality is_monotonic dp b =
      let value = number_value dp.number in
      if p.is_nan value
      then b
      else add_point p src
          (record {
            suffix = [];
            typ = typ;
            temporality = temporality;
            is_monotonic = is_monotonic;
            point_attributes = dp.attributes;
            extras = temporality_extra p temporality;
            time = unix_milli dp.timestamp;
          })
          value dp.flags b

  unfoldable pub process_numbers :
      Source
      → MetricType
      → AggregationTemporality
      → Bool
      → List (NumberDataPoint V F)
      → Batch F
      → Batch F
  unfolding add_number each_point add_resource_and_scope
  process_numbers src typ temporality is_monotonic points b =
      let l =
        each_point (λ dp. dp.timestamp) (add_number src typ temporality is_monotonic) points
          (start_loop b) in
      (add_resource_and_scope src [] typ temporality is_monotonic l).batch

  unfoldable pub process_gauge : Source → List (NumberDataPoint V F) → Batch F → Batch F
  unfolding process_numbers
  process_gauge src points b = process_numbers src gauge_metric unspecified false points b

  unfoldable pub process_sum :
      Source → AggregationTemporality → Bool → List (NumberDataPoint V F) → Batch F → Batch F
  unfolding process_numbers
  process_sum src temporality is_monotonic points b =
      process_numbers src sum_metric temporality is_monotonic points b

  -- The series that a point of a monotonic metric has under a suffix.
  abbrev pub suffixed :
      Text
      → MetricType
      → AggregationTemporality
      → List (Text × V)
      → List (Text × Text)
      → ℕ
      → Series V
  suffixed suffix typ temporality attributes extras timestamp = record {
    suffix = suffix;
    typ = typ;
    temporality = temporality;
    is_monotonic = true;
    point_attributes = attributes;
    extras = extras;
    time = unix_milli timestamp;
  }

  -- A bucket or a quantile: the extra label and its value come first.
  abbrev pub labelled : Text → Text → AggregationTemporality → List (Text × Text)
  labelled label value temporality = (label, value) ∷ temporality_extra p temporality

  -- The loop over the buckets, with the count so far, as long as there are bounds and counts.
  unfoldable pub add_buckets :
      Source
      → AggregationTemporality
      → HistogramDataPoint V F
      → ℕ
      → List F
      → List ℕ
      → Batch F
      → Batch F
  unfolding add_point
  add_buckets src temporality dp total [] counts b = b
  add_buckets src temporality dp total (bound ∷ bounds) [] b = b
  add_buckets src temporality dp total (bound ∷ bounds) (n ∷ counts) b =
      let total' = (total + n) % 2 ^ 64 in
      let le = labelled (ascii "le") (p.format_float bound) temporality in
      let s = suffixed bucket_suffix histogram_metric temporality dp.attributes le dp.timestamp in
      add_buckets src temporality dp total' bounds counts
        (add_point p src s (p.from_uint64 total') dp.flags b)

  unfoldable pub add_bucket_sample :
      Source → AggregationTemporality → HistogramDataPoint V F → Batch F → Batch F
  unfolding add_buckets add_point
  add_bucket_sample src temporality dp b =
      let le = labelled (ascii "le") (ascii "+Inf") temporality in
      let s = suffixed bucket_suffix histogram_metric temporality dp.attributes le dp.timestamp in
      add_point p src s (p.from_uint64 dp.count) dp.flags
        (add_buckets src temporality dp 0 dp.explicit_bounds dp.bucket_counts b)

  -- `addSample` of a histogram: the sample's temporality is also the extra label.
  unfoldable pub add_histogram_sample :
      Source
      → Text
      → MetricType
      → AggregationTemporality
      → F
      → HistogramDataPoint V F
      → Batch F
      → Batch F
  unfolding add_point
  add_histogram_sample src suffix typ temporality value dp b =
      let extras = temporality_extra p temporality in
      add_point p src (suffixed suffix typ temporality dp.attributes extras dp.timestamp) value
        dp.flags b

  unfoldable pub add_histogram :
      Source → AggregationTemporality → HistogramDataPoint V F → Batch F → Batch F
  unfolding add_histogram_sample add_bucket_sample when
  add_histogram src temporality dp b0 =
      let b1 =
        add_histogram_sample src count_suffix sum_metric temporality (p.from_uint64 dp.count) dp
          b0 in
      let b2 =
        when dp.has_sum (add_histogram_sample src sum_suffix sum_metric temporality dp.sum dp) b1 in
      let b3 =
        when dp.has_min (add_histogram_sample src min_suffix gauge_metric unspecified dp.min dp)
          b2 in
      let b4 =
        when dp.has_max (add_histogram_sample src max_suffix gauge_metric unspecified dp.max dp)
          b3 in
      let nan = p.is_nan dp.sum || p.is_nan dp.min || p.is_nan dp.max in
      if nan then b0 else add_bucket_sample src temporality dp b4

  -- The metadata for the count, the sum, the minimum and the maximum.
  unfoldable pub add_summary_metadata : Source → AggregationTemporality → Loop F → Loop F
  unfolding add_resource_and_scope
  add_summary_metadata src temporality l =
      add_resource_and_scope src max_suffix gauge_metric unspecified true (
        add_resource_and_scope src min_suffix gauge_metric unspecified true (
          add_resource_and_scope src sum_suffix sum_metric temporality true
            (add_resource_and_scope src count_suffix sum_metric temporality true l)))

  unfoldable pub process_histogram :
      Source → AggregationTemporality → List (HistogramDataPoint V F) → Batch F → Batch F
  unfolding add_histogram each_point add_summary_metadata add_resource_and_scope
  process_histogram src temporality points b =
      let l =
        each_point (λ dp. dp.timestamp) (add_histogram src temporality) points (start_loop b) in
      (add_resource_and_scope src bucket_suffix histogram_metric temporality true
        (add_summary_metadata src temporality l)).batch

  -- Summaries are cumulative.
  unfoldable pub add_quantiles : Source → SummaryDataPoint V F → List (F × F) → Batch F → Batch F
  unfolding add_point
  add_quantiles src dp [] b = b
  add_quantiles src dp ((quantile, value) ∷ quantiles) b =
      let label = labelled (ascii "quantile") (p.format_float quantile) cumulative in
      let s =
        suffixed quantiles_suffix summary_metric cumulative dp.attributes label dp.timestamp in
      add_quantiles src dp quantiles (add_point p src s value dp.flags b)

  unfoldable pub add_summary_sample : Source → Text → F → SummaryDataPoint V F → Batch F → Batch F
  unfolding add_point
  add_summary_sample src suffix value dp b =
      let extras = temporality_extra p cumulative in
      add_point p src (suffixed suffix sum_metric cumulative dp.attributes extras dp.timestamp)
        value dp.flags b

  unfoldable pub any_nan : List (F × F) → Bool
  any_nan [] = false
  any_nan ((quantile, value) ∷ quantiles) =
      let rest = any_nan quantiles in if p.is_nan value then true else rest

  unfoldable pub add_summary : Source → SummaryDataPoint V F → Batch F → Batch F
  unfolding any_nan add_quantiles add_summary_sample
  add_summary src dp b =
      if p.is_nan dp.sum || any_nan dp.quantile_values
      then b
      else add_quantiles src dp dp.quantile_values (
          add_summary_sample src sum_suffix dp.sum dp
            (add_summary_sample src count_suffix (p.from_uint64 dp.count) dp b))

  unfoldable pub process_summary : Source → List (SummaryDataPoint V F) → Batch F → Batch F
  unfolding add_summary each_point add_resource_and_scope
  process_summary src points b =
      let l = each_point (λ dp. dp.timestamp) (add_summary src) points (start_loop b) in
      (add_resource_and_scope src quantiles_suffix summary_metric cumulative true (
        add_resource_and_scope src sum_suffix sum_metric cumulative true
          (add_resource_and_scope src count_suffix sum_metric cumulative true l))).batch
