-- ===== src/Metering/Samples.antt =====
-- The samples that the metrics exporter writes for what the meter counts
-- (exporter/signozclickhousemetrics/exporter.go: prepareBatch; pkg/metering/v1/metrics.go: Count).
use Prim.Native.Nat.{ℕ, suc, ◌+◌, ◌%◌, ◌^◌}
use mathlib.Core.Bool.{Bool, false, ◌||◌}
use mathlib.Core.List.{List, [], ◌∷◌}
use mathlib.Core.Path.{◌≡◌, refl}
use native.Mathlib.Omega.{arith}
use otel_collector.Common.Int.{ℤ}
use otel_collector.Common.Lists.{length, length-append, total, All}
use otel_collector.Common.Texts.{Text}
use otel_collector.Metering.{
  is_excluded, one_if, count_histogram, count_summary, count_points, count_metric,
  count_per_resource, count,
}
use otel_collector.Metrics.{
  AggregationTemporality, MetricType, MetricData, empty, gauge, sum, histogram,
  exponential_histogram, summary, Metric, ScopeMetrics, ResourceMetrics, NumberDataPoint,
  HistogramDataPoint, SummaryDataPoint, Platform,
}
use otel_collector.Metrics.Batch.{Batch, new_batch, add_metadata, add_sample, add_ts}
use otel_collector.Metrics.Fingerprint.{Fingerprint}
use otel_collector.Metrics.Process.{
  Source, Series, Loop, add_series, add_point, start_loop, each_point, add_resource_and_scope,
}
use otel_collector.Metrics.Process.Points.{
  count_suffix, sum_suffix, quantiles_suffix, when, number_value, any_nan, add_number,
  process_numbers, process_gauge, process_sum, add_buckets, add_bucket_sample, add_histogram_sample,
  add_histogram, add_summary_metadata, process_histogram, add_quantiles, add_summary_sample,
  add_summary, process_summary,
}
use otel_collector.Metrics.Process.Prepare.{
  process_points, process_metrics, process_scopes, process_resources, prepare_batch,
}

unfoldable written : {F : Type 0} → Batch F → ℕ
written b = length b.samples

-- A step that adds so many samples.
abbrev Adds : {F : Type 0} → ℕ → (Batch F → Batch F) → Type 0
Adds n f = (b : Batch _) → written (f b) ≡ written b + n

module _ {F : Type 0} where
  each_point-Adds :
      {P : Type 0} (Q : P → Type 0) (n : P → ℕ) (time : P → ℕ) (add : P → Batch F → Batch F)
      → ((dp : P) → Q dp → Adds (n dp) (add dp))
      → (dps : List P) (l : Loop F) → All Q dps
      → written (each_point time add dps l).batch ≡ written l.batch + total n dps
  unfolding each_point
  each_point-Adds Q n time add adds [] l q = omega arith
  each_point-Adds Q n time add adds (dp ∷ dps) l q =
      rw (λ (l' : Loop F). each_point-Adds Q n time add adds dps l' q.1, adds dp q.0 l.batch)
        (omega arith)

  when-Adds : (test : Bool) (f : Batch F → Batch F) → Adds 1 f → Adds (one_if test) (when test f)
  unfolding when
  when-Adds test f adds b = ground (arith, adds b)

  add_resource_and_scope-Adds :
      (src : Source) (suffix : Text) (typ : MetricType) (t : AggregationTemporality) (m : Bool)
      (l : Loop F)
      → written (add_resource_and_scope src suffix typ t m l).batch ≡ written l.batch
  unfolding written add_resource_and_scope add_metadata
  add_resource_and_scope-Adds src suffix typ t m l = refl

module _ {V F : Type 0} (p : Platform V F) where
  add_point-Adds :
      (src : Source) (s : Series V) (value : F) (flags : ℕ) → Adds 1 (add_point p src s value flags)
  unfolding written add_point add_series add_sample add_ts add_metadata
  add_point-Adds src s value flags b = length-append b.samples _

  -- A number that is written.
  abbrev pub IsNumber : NumberDataPoint V F → Type 0
  IsNumber dp = p.is_nan (number_value p dp.number) ≡ false

  -- A histogram without NaN and with one bucket more than bounds.
  abbrev pub IsHistogram : HistogramDataPoint V F → Type 0
  IsHistogram dp =
      ((p.is_nan dp.sum || p.is_nan dp.min || p.is_nan dp.max) ≡ false)
      × (length dp.bucket_counts ≡ suc (length dp.explicit_bounds))

  abbrev pub IsSummary : SummaryDataPoint V F → Type 0
  IsSummary dp = (p.is_nan dp.sum || any_nan p dp.quantile_values) ≡ false

  add_number-Adds :
      (src : Source) (typ : MetricType) (t : AggregationTemporality) (m : Bool)
      (dp : NumberDataPoint V F)
      → IsNumber dp
      → Adds 1 (add_number p src typ t m dp)
  unfolding add_number
  add_number-Adds src typ t m dp q b = rw (q, add_point-Adds) refl

  process_numbers-Adds :
      (src : Source) (typ : MetricType) (t : AggregationTemporality) (m : Bool)
      (dps : List (NumberDataPoint V F))
      → All IsNumber dps
      → Adds (total (λ dp. 1) dps) (process_numbers p src typ t m dps)
  unfolding process_numbers
  process_numbers-Adds src typ t m dps q b =
      rw
        (
          add_resource_and_scope-Adds,
          each_point-Adds IsNumber (λ dp. 1) _ _ (add_number-Adds src typ t m) dps (start_loop b) q,
        )
        refl

  -- A bucket for each bound, as long as there are counts for them.
  add_buckets-Adds :
      (src : Source) (t : AggregationTemporality) (dp : HistogramDataPoint V F) (bounds : List F)
      (so_far : ℕ) (counts : List ℕ)
      → length counts ≡ suc (length bounds)
      → Adds (length bounds) (add_buckets p src t dp so_far bounds counts)
  unfolding add_buckets
  add_buckets-Adds src t dp [] so_far counts q b = omega arith
  add_buckets-Adds src t dp (bound ∷ bounds) so_far [] q b = absurd (omega (arith, q))
  add_buckets-Adds src t dp (bound ∷ bounds) so_far (n ∷ counts) q b =
      rw
        (
          add_buckets-Adds src t dp bounds ((so_far + n) % 2 ^ 64) counts (omega (arith, q)),
          add_point-Adds,
        )
        (omega arith)

  add_histogram_sample-Adds :
      (src : Source) (suffix : Text) (typ : MetricType) (t : AggregationTemporality) (value : F)
      (dp : HistogramDataPoint V F)
      → Adds 1 (add_histogram_sample p src suffix typ t value dp)
  unfolding add_histogram_sample
  add_histogram_sample-Adds src suffix typ t value dp b = rw add_point-Adds refl

  add_histogram_sample-when :
      (test : Bool) (src : Source) (suffix : Text) (typ : MetricType) (t : AggregationTemporality)
      (value : F) (dp : HistogramDataPoint V F)
      → Adds (one_if test) (when test (add_histogram_sample p src suffix typ t value dp))
  add_histogram_sample-when test src suffix typ t value dp =
      when-Adds test _ (add_histogram_sample-Adds src suffix typ t value dp)

  add_histogram-Adds :
      (src : Source) (t : AggregationTemporality) (dp : HistogramDataPoint V F)
      → IsHistogram dp
      → Adds (count_histogram dp) (add_histogram p src t dp)
  unfolding add_histogram add_bucket_sample
  add_histogram-Adds src t dp q b =
      rw
        (
          q.0,
          add_point-Adds,
          add_buckets-Adds src t dp dp.explicit_bounds 0 dp.bucket_counts q.1,
          add_histogram_sample-when dp.has_max src,
          add_histogram_sample-when dp.has_min src,
          add_histogram_sample-when dp.has_sum src,
          add_histogram_sample-Adds,
        )
        (omega (arith, q.1))

  add_summary_metadata-Adds :
      (src : Source) (t : AggregationTemporality) (l : Loop F)
      → written (add_summary_metadata p src t l).batch ≡ written l.batch
  unfolding written add_summary_metadata add_resource_and_scope add_metadata
  add_summary_metadata-Adds src t l = refl

  process_histogram-Adds :
      (src : Source) (t : AggregationTemporality) (dps : List (HistogramDataPoint V F))
      → All IsHistogram dps
      → Adds (total count_histogram dps) (process_histogram p src t dps)
  unfolding process_histogram
  process_histogram-Adds src t dps q b =
      rw
        (
          add_resource_and_scope-Adds,
          add_summary_metadata-Adds,
          each_point-Adds IsHistogram count_histogram _ _ (add_histogram-Adds src t) dps
              (start_loop b) q,
        )
        refl

  add_quantiles-Adds :
      (src : Source) (dp : SummaryDataPoint V F) (quantiles : List (F × F))
      → Adds (length quantiles) (add_quantiles p src dp quantiles)
  unfolding add_quantiles
  add_quantiles-Adds src dp [] b = omega arith
  add_quantiles-Adds src dp (q ∷ quantiles) b =
      rw (add_quantiles-Adds src dp quantiles, add_point-Adds) (omega arith)

  add_summary_sample-Adds :
      (src : Source) (suffix : Text) (value : F) (dp : SummaryDataPoint V F)
      → Adds 1 (add_summary_sample p src suffix value dp)
  unfolding add_summary_sample
  add_summary_sample-Adds src suffix value dp b = rw add_point-Adds refl

  add_summary-Adds :
      (src : Source) (dp : SummaryDataPoint V F)
      → IsSummary dp
      → Adds (count_summary dp) (add_summary p src dp)
  unfolding add_summary
  add_summary-Adds src dp q b =
      rw
        (
          q,
          add_quantiles-Adds,
          add_summary_sample-Adds src sum_suffix,
          add_summary_sample-Adds src count_suffix,
        )
        (omega arith)

  process_summary-Adds :
      (src : Source) (dps : List (SummaryDataPoint V F))
      → All IsSummary dps
      → Adds (total count_summary dps) (process_summary p src dps)
  unfolding process_summary
  process_summary-Adds src dps q b =
      rw
        (
          add_resource_and_scope-Adds src quantiles_suffix,
          add_resource_and_scope-Adds src sum_suffix,
          add_resource_and_scope-Adds src count_suffix,
          each_point-Adds IsSummary count_summary _ _ (add_summary-Adds src) dps (start_loop b) q,
        )
        refl

total_one : {A : Type 0} (xs : List A) → total (λ x. 1) xs ≡ length xs
total_one [] = refl
total_one (x ∷ xs) = omega (arith, total_one xs)

module _ {V F : Type 0} (p : Platform V F) where
  -- Points that the exporter writes as they are counted: no exponential histograms, no NaN.
  abbrev pub ArePlain : MetricData V F → Type 0
  ArePlain empty = Unit
  ArePlain (gauge points) = All (IsNumber p) points
  ArePlain (sum temporality is_monotonic points) = All (IsNumber p) points
  ArePlain (histogram temporality points) = All (IsHistogram p) points
  ArePlain (exponential_histogram temporality points) = ⊥
  ArePlain (summary points) = All (IsSummary p) points

  -- A metric that is billed.
  abbrev pub IsPlain : Metric V F → Type 0
  IsPlain m = (is_excluded m.name ≡ false) × ArePlain m.points

module _ {V F : Type 0} (p : Platform V F) (enable_exp_hist : Bool) (now : ℤ) where
  process_points-Adds :
      (src : Source) (points : MetricData V F)
      → ArePlain p points
      → Adds (count_points points) (process_points p enable_exp_hist now src points)
  unfolding process_points process_gauge process_sum count_points
  process_points-Adds src empty q b = omega arith
  process_points-Adds src (gauge points) q b =
      rw (process_numbers-Adds p src _ _ _ points q b, total_one) refl
  process_points-Adds src (sum t m points) q b =
      rw (process_numbers-Adds p src _ t m points q b, total_one) refl
  process_points-Adds src (histogram t points) q b = process_histogram-Adds p src t points q b
  process_points-Adds src (exponential_histogram t points) q b = absurd q
  process_points-Adds src (summary points) q b = process_summary-Adds p src points q b

  process_metrics-Adds :
      (env : Text) (resource scope : Fingerprint) (ms : List (Metric V F))
      → All (IsPlain p) ms
      → Adds (total count_metric ms) (process_metrics p enable_exp_hist now env resource scope ms)
  unfolding process_metrics count_metric
  process_metrics-Adds env resource scope [] q b = omega arith
  process_metrics-Adds env resource scope (m ∷ ms) q b =
      rw
        (
          λ (b' : Batch F). process_metrics-Adds env resource scope ms q.1 b',
          λ (src : Source). process_points-Adds src m.points q.0.1,
          q.0.0,
        )
        (omega arith)

  process_scopes-Adds :
      (env : Text) (resource : Fingerprint) (sms : List (ScopeMetrics V F))
      → All (λ sm. All (IsPlain p) sm.metrics) sms
      → Adds
          (total (λ sm. total count_metric sm.metrics) sms)
          (process_scopes p enable_exp_hist now env resource sms)
  unfolding process_scopes
  process_scopes-Adds env resource [] q b = omega arith
  process_scopes-Adds env resource (sm ∷ sms) q b =
      rw
        (
          λ (b' : Batch F). process_scopes-Adds env resource sms q.1 b',
          λ (scope : Fingerprint). process_metrics-Adds env resource scope sm.metrics q.0,
        )
        (omega arith)

  process_resources-Adds :
      (rms : List (ResourceMetrics V F))
      → All (λ rm. All (λ sm. All (IsPlain p) sm.metrics) rm.scope_metrics) rms
      → Adds (total count_per_resource rms) (process_resources p enable_exp_hist now rms)
  unfolding process_resources count_per_resource
  process_resources-Adds [] q b = omega arith
  process_resources-Adds (rm ∷ rms) q b =
      rw
        (
          λ (b' : Batch F). process_resources-Adds rms q.1 b',
          λ (env : Text) (resource : Fingerprint).
              process_scopes-Adds env resource rm.scope_metrics q.0,
        )
        (omega arith)

  -- The exporter writes as many samples as the meter counts, for metrics whose names the meter does
  -- not exclude, without exponential histograms and without NaN, and with one bucket more than
  -- bounds in each histogram.
  pub prepare_batch-count :
      (md : List (ResourceMetrics V F))
      → All (λ rm. All (λ sm. All (IsPlain p) sm.metrics) rm.scope_metrics) md
      → length (prepare_batch p enable_exp_hist now md).samples ≡ count md
  unfolding prepare_batch count written
  prepare_batch-count md q = omega (arith, process_resources-Adds md q (new_batch F))
