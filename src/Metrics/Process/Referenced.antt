-- ===== src/Metrics/Process/Referenced.antt =====
-- The series of the samples of a batch (exporter/signozclickhousemetrics/exporter.go: prepareBatch).
use Prim.Native.Nat.{ℕ, ◌+◌, ◌%◌, ◌^◌}
use mathlib.Core.Bool.{Bool, true, false}
use mathlib.Core.List.{List, [], ◌∷◌, ◌++◌}
use mathlib.Core.Path.{◌≡◌, refl}
use otel_collector.Common.Int.{ℤ}
use otel_collector.Common.Lists.{All, All-append, All-map, Any, Any-append, Any-last}
use otel_collector.Common.Tests.{if◌then◌else◌}
use otel_collector.Common.Texts.{Text}
use otel_collector.Metrics.{
  AggregationTemporality, MetricType, MetricData, empty, gauge, sum, histogram,
  exponential_histogram, summary, Metric, ScopeMetrics, ResourceMetrics, NumberDataPoint,
  HistogramDataPoint, ExponentialHistogramDataPoint, SummaryDataPoint, Platform,
}
use otel_collector.Metrics.Batch.{
  Sample, ExponentialHistogramSample, Ts, Batch, Reported, new_batch, add_metadata, add_sample,
  add_ts, add_exp_hist,
}
use otel_collector.Metrics.Fingerprint.{Fingerprint}
use otel_collector.Metrics.Process.{
  Source, Series, Loop, add_series, add_point, each_point, add_resource_and_scope,
}
use otel_collector.Metrics.Process.Exponential.{
  add_exponential_sample, add_dd_sketch_sample, add_exponential, process_exponential_histogram,
}
use otel_collector.Metrics.Process.Points.{
  when, add_number, process_numbers, process_gauge, process_sum, add_buckets, add_bucket_sample,
  add_histogram_sample, add_histogram, add_summary_metadata, process_histogram, add_quantiles,
  add_summary_sample, add_summary, process_summary,
}
use otel_collector.Metrics.Process.Prepare.{
  process_points, process_metrics, process_scopes, process_resources, prepare_batch,
}

-- A row of a series with this name, fingerprint and time.
abbrev pub IsSeries : Text → ℕ → ℤ → Ts → Type 0
IsSeries name fingerprint time t =
    (t.metric_name ≡ name) × (t.fingerprint ≡ fingerprint) × (t.unix_milli ≡ time)

module _ {F : Type 0} where
  abbrev pub HasSeries : List Ts → Sample F → Type 0
  HasSeries ts s = Any (IsSeries s.metric_name s.fingerprint s.unix_milli) ts

  abbrev pub HasSketchSeries : List Ts → ExponentialHistogramSample F → Type 0
  HasSketchSeries ts e = Any (IsSeries e.metric_name e.fingerprint e.unix_milli) ts

  -- Every sample and every sketch has its series in the batch.
  unfoldable pub IsReferenced : Batch F → Type 0
  IsReferenced b = All (HasSeries b.ts) b.samples × All (HasSketchSeries b.ts) b.exp_hist

  abbrev Keeps : (Batch F → Batch F) → Type 0
  Keeps f = (b : Batch F) → IsReferenced b → IsReferenced (f b)

  add_metadata-Keeps : (now : ℤ) (r : Reported) (f : Fingerprint) → Keeps (add_metadata now r f)
  unfolding add_metadata IsReferenced
  add_metadata-Keeps now r f b h = h

  module _ (P : Type 0) (time : P → ℕ) (add : P → Batch F → Batch F) where
    each_point-Keeps :
        ((dp : P) → Keeps (add dp))
        → (dps : List P) (l : Loop F) → IsReferenced l.batch
        → IsReferenced (each_point time add dps l).batch
    unfolding each_point
    each_point-Keeps k [] l h = h
    each_point-Keeps k (dp ∷ dps) l h = each_point-Keeps k dps _ (k dp l.batch h)

  add_resource_and_scope-Keeps :
      (src : Source) (suffix : Text) (typ : MetricType) (t : AggregationTemporality) (m : Bool)
      (l : Loop F)
      → IsReferenced l.batch
      → IsReferenced (add_resource_and_scope src suffix typ t m l).batch
  unfolding add_resource_and_scope add_metadata IsReferenced
  add_resource_and_scope-Keeps src suffix typ t m l h = h

  -- Rows of series that follow leave every sample its series.
  more_series :
      (ts more : List Ts) (samples : List (Sample F))
      → All (HasSeries ts) samples
      → All (HasSeries (ts ++ more)) samples
  more_series ts more samples = All-map _ _ samples λ s. Any-append _ ts more

  more_sketch_series :
      (ts more : List Ts) (samples : List (ExponentialHistogramSample F))
      → All (HasSketchSeries ts) samples
      → All (HasSketchSeries (ts ++ more)) samples
  more_sketch_series ts more samples = All-map _ _ samples λ s. Any-append _ ts more

  when-Keeps : (test : Bool) (add : Batch F → Batch F) → Keeps add → Keeps (when test add)
  unfolding when
  when-Keeps true add k b h = k b h
  when-Keeps false add k b h = h

  if-Keeps :
      (test : Bool) (b c : Batch F)
      → IsReferenced b
      → IsReferenced c
      → IsReferenced (if test then b else c)
  if-Keeps true b c h k = h
  if-Keeps false b c h k = k

module _ {V F : Type 0} (p : Platform V F) where
  add_point-Keeps :
      (src : Source) (s : Series V) (value : F) (flags : ℕ) → Keeps (add_point p src s value flags)
  unfolding add_point add_series add_sample add_ts add_metadata IsReferenced
  add_point-Keeps src s value flags b h = (
    All-append _ b.samples _ (more_series b.ts _ b.samples h.0)
        (Any-last _ b.ts _ (refl, refl, refl), tt),
    more_sketch_series b.ts _ b.exp_hist h.1,
  )

  add_number-Keeps :
      (src : Source) (typ : MetricType) (t : AggregationTemporality) (m : Bool)
      (dp : NumberDataPoint V F)
      → Keeps (add_number p src typ t m dp)
  unfolding add_number
  add_number-Keeps src typ t m dp b h = search (if-Keeps, add_point-Keeps)

  process_numbers-Keeps :
      (src : Source) (typ : MetricType) (t : AggregationTemporality) (m : Bool)
      (dps : List (NumberDataPoint V F))
      → Keeps (process_numbers p src typ t m dps)
  unfolding process_numbers
  process_numbers-Keeps src typ t m dps b h =
      search (add_resource_and_scope-Keeps, each_point-Keeps, add_number-Keeps src typ t m)

  add_buckets-Keeps :
      (src : Source) (t : AggregationTemporality) (dp : HistogramDataPoint V F) (total : ℕ)
      (bounds : List F) (counts : List ℕ)
      → Keeps (add_buckets p src t dp total bounds counts)
  unfolding add_buckets
  add_buckets-Keeps src t dp total [] counts b h = h
  add_buckets-Keeps src t dp total (bound ∷ bounds) [] b h = h
  add_buckets-Keeps src t dp total (bound ∷ bounds) (n ∷ counts) b h =
      add_buckets-Keeps src t dp ((total + n) % 2 ^ 64) bounds counts _ (search (add_point-Keeps))

  add_histogram_sample-Keeps :
      (src : Source) (suffix : Text) (typ : MetricType) (t : AggregationTemporality) (value : F)
      (dp : HistogramDataPoint V F)
      → Keeps (add_histogram_sample p src suffix typ t value dp)
  unfolding add_histogram_sample
  add_histogram_sample-Keeps src suffix typ t value dp b h = search (add_point-Keeps)

  add_histogram-Keeps :
      (src : Source) (t : AggregationTemporality) (dp : HistogramDataPoint V F)
      → Keeps (add_histogram p src t dp)
  unfolding add_histogram add_bucket_sample
  add_histogram-Keeps src t dp b h =
      search (if-Keeps, when-Keeps, add_point-Keeps, add_buckets-Keeps, add_histogram_sample-Keeps)
        depth 9

  add_summary_metadata-Keeps :
      (src : Source) (t : AggregationTemporality) (l : Loop F)
      → IsReferenced l.batch
      → IsReferenced (add_summary_metadata p src t l).batch
  unfolding add_summary_metadata add_resource_and_scope add_metadata IsReferenced
  add_summary_metadata-Keeps src t l h = h

  process_histogram-Keeps :
      (src : Source) (t : AggregationTemporality) (dps : List (HistogramDataPoint V F))
      → Keeps (process_histogram p src t dps)
  unfolding process_histogram
  process_histogram-Keeps src t dps b h = search (
    add_resource_and_scope-Keeps,
    add_summary_metadata-Keeps,
    each_point-Keeps,
    add_histogram-Keeps src t,
  )

  add_quantiles-Keeps :
      (src : Source) (dp : SummaryDataPoint V F) (quantiles : List (F × F))
      → Keeps (add_quantiles p src dp quantiles)
  unfolding add_quantiles
  add_quantiles-Keeps src dp [] b h = h
  add_quantiles-Keeps src dp (q ∷ quantiles) b h =
      add_quantiles-Keeps src dp quantiles _ (search (add_point-Keeps))

  add_summary-Keeps : (src : Source) (dp : SummaryDataPoint V F) → Keeps (add_summary p src dp)
  unfolding add_summary add_summary_sample
  add_summary-Keeps src dp b h = search (if-Keeps, add_point-Keeps, add_quantiles-Keeps)

  process_summary-Keeps :
      (src : Source) (dps : List (SummaryDataPoint V F)) → Keeps (process_summary p src dps)
  unfolding process_summary
  process_summary-Keeps src dps b h =
      search (add_resource_and_scope-Keeps, each_point-Keeps, add_summary-Keeps src)

  add_dd_sketch_sample-Keeps :
      (src : Source) (t : AggregationTemporality) (dp : ExponentialHistogramDataPoint V F)
      → Keeps (add_dd_sketch_sample p src t dp)
  unfolding add_dd_sketch_sample add_series add_exp_hist add_ts add_metadata IsReferenced
  add_dd_sketch_sample-Keeps src t dp b h = (
    more_series b.ts _ b.samples h.0,
    All-append _ b.exp_hist _ (more_sketch_series b.ts _ b.exp_hist h.1)
        (Any-last _ b.ts _ (refl, refl, refl), tt),
  )

  add_exponential_sample-Keeps :
      (src : Source) (t : AggregationTemporality) (suffix : Text) (typ : MetricType)
      (sample_t : AggregationTemporality) (value : F) (dp : ExponentialHistogramDataPoint V F)
      → Keeps (add_exponential_sample p src t suffix typ sample_t value dp)
  unfolding add_exponential_sample
  add_exponential_sample-Keeps src t suffix typ sample_t value dp b h = search (add_point-Keeps)

  add_exponential-Keeps :
      (src : Source) (t : AggregationTemporality) (dp : ExponentialHistogramDataPoint V F)
      → Keeps (add_exponential p src t dp)
  unfolding add_exponential
  add_exponential-Keeps src t dp b h =
      search (if-Keeps, when-Keeps, add_dd_sketch_sample-Keeps, add_exponential_sample-Keeps) depth
        9

  process_exponential_histogram-Keeps :
      (enable_exp_hist : Bool) (src : Source) (t : AggregationTemporality)
      (dps : List (ExponentialHistogramDataPoint V F))
      → Keeps (process_exponential_histogram p enable_exp_hist src t dps)
  unfolding process_exponential_histogram
  process_exponential_histogram-Keeps enable_exp_hist src t dps b h =
      search (if-Keeps, add_summary_metadata-Keeps, each_point-Keeps, add_exponential-Keeps src t)

module _ {V F : Type 0} (p : Platform V F) (enable_exp_hist : Bool) (now : ℤ) where
  process_points-Keeps :
      (src : Source) (points : MetricData V F)
      → Keeps (process_points p enable_exp_hist now src points)
  unfolding process_points process_gauge process_sum
  process_points-Keeps src empty b h = h
  process_points-Keeps src (gauge points) b h = process_numbers-Keeps p src _ _ _ points b h
  process_points-Keeps src (sum t m points) b h = process_numbers-Keeps p src _ t m points b h
  process_points-Keeps src (histogram t points) b h = process_histogram-Keeps p src t points b h
  process_points-Keeps src (exponential_histogram t points) b h =
      process_exponential_histogram-Keeps p enable_exp_hist src t points b h
  process_points-Keeps src (summary points) b h = process_summary-Keeps p src points b h

  process_metrics-Keeps :
      (env : Text) (resource scope : Fingerprint) (ms : List (Metric V F))
      → Keeps (process_metrics p enable_exp_hist now env resource scope ms)
  unfolding process_metrics
  process_metrics-Keeps env resource scope [] b h = h
  process_metrics-Keeps env resource scope (m ∷ ms) b h =
      process_metrics-Keeps env resource scope ms _ (search (process_points-Keeps))

  process_scopes-Keeps :
      (env : Text) (resource : Fingerprint) (sms : List (ScopeMetrics V F))
      → Keeps (process_scopes p enable_exp_hist now env resource sms)
  unfolding process_scopes
  process_scopes-Keeps env resource [] b h = h
  process_scopes-Keeps env resource (sm ∷ sms) b h =
      process_scopes-Keeps env resource sms _ (search (process_metrics-Keeps))

  process_resources-Keeps :
      (rms : List (ResourceMetrics V F)) → Keeps (process_resources p enable_exp_hist now rms)
  unfolding process_resources
  process_resources-Keeps [] b h = h
  process_resources-Keeps (rm ∷ rms) b h =
      process_resources-Keeps rms _ (search (process_scopes-Keeps))

  -- Whatever metrics are pushed, every sample and every sketch of the batch has a series in the
  -- batch with its metric name, its fingerprint and its time.
  pub prepare_batch-IsReferenced :
      (md : List (ResourceMetrics V F)) → IsReferenced (prepare_batch p enable_exp_hist now md)
  unfolding prepare_batch
  prepare_batch-IsReferenced md =
      process_resources-Keeps md (new_batch F) (unfold IsReferenced in (tt, tt))
