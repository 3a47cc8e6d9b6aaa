-- ===== src/SpanMetrics/Histogram/Counts.antt =====
-- The counts of a histogram and of its buckets
-- (processor/signozspanmetricsprocessor/processor.go: updateHistogram).
use Prim.Native.Nat.{ℕ, zero, suc, ◌+◌, ◌≤◌, ◌<◌, ◌^◌}
use mathlib.Core.List.{List, [], ◌∷◌}
use mathlib.Core.Option.{some}
use mathlib.Core.Path.{◌≡◌, refl}
use native.Mathlib.Omega.{arith}
use otel_collector.Common.Lists.{length, replicate, length-replicate}
use otel_collector.SpanMetrics.Histogram.{
  Floats, HistogramData, new_histogram, search, bump, observe, with_latency,
}

pub total : List ℕ → ℕ
total [] = 0
total (n ∷ counts) = n + total counts

total-replicate : (n : ℕ) → total (replicate n 0) ≡ 0
unfolding total
total-replicate zero = refl
total-replicate (suc n) = omega (arith, total-replicate n)

-- A count in range is raised by one, as long as no count wraps around.
bump-total :
    (counts : List ℕ) (i : ℕ)
    → i < length counts
    → total counts + 1 < 2 ^ 64
    → (rest : List ℕ) × (bump counts i ≡ some rest)
      × (total rest ≡ total counts + 1)
      × (length rest ≡ length counts)
unfolding bump total
bump-total [] i h small = absurd (omega arith)
bump-total (n ∷ counts) zero h small = ((n + 1) ∷ counts, ground arith, omega arith, refl)
bump-total (n ∷ counts) (suc i) h small =
    let (rest, e, t, k) = bump-total counts i (omega arith) (omega arith) in
    (n ∷ rest, rw (e, bump) refl, omega (arith, t), omega (arith, k))

module _ (f : Floats) where
  search-le : (bounds : List f.Float) (x : f.Float) → search f bounds x ≤ length bounds
  unfolding search
  search-le [] x = omega arith
  search-le (b ∷ bounds) x = ground (arith, search-le bounds x)

  -- There is a bucket for each bound and one more, and the buckets hold what was counted.
  pub record IsValid (bounds : List f.Float) (h : HistogramData f) : Type 0 where
    pub buckets : length h.bucket_counts ≡ length bounds + 1
    pub counted : total h.bucket_counts ≡ h.count

  pub new_histogram-IsValid : (bounds : List f.Float) → IsValid bounds (new_histogram f bounds)
  unfolding new_histogram
  new_histogram-IsValid bounds = record {
    buckets = length-replicate (length bounds + 1) 0;
    counted = total-replicate (length bounds + 1);
  }

  -- A latency is observed without a panic if the histogram has a bucket for each bound and one more,
  -- its buckets add up to its count, and the count is below 2^64 - 1: the histogram keeps this, and
  -- counts one more.
  pub observe-IsValid :
      (bounds : List f.Float) (latency : f.Float) (trace_id span_id : ℕ) (h : HistogramData f)
      → IsValid bounds h
      → h.count + 1 < 2 ^ 64
      → (h' : HistogramData f) × (observe f bounds latency trace_id span_id h ≡ some h')
        × IsValid bounds h'
        × (h'.count ≡ h.count + 1)
  unfolding observe
  observe-IsValid bounds latency trace_id span_id h valid small =
      let here : search f bounds latency < length h.bucket_counts =
        omega (arith, search-le bounds latency, valid.buckets) in
      let (rest, e, t, k) =
        bump-total h.bucket_counts (search f bounds latency) here (omega (arith, valid.counted)) in
      (
        with_latency f latency trace_id span_id h rest,
        rw (e, observe) refl,
        record {
          buckets = omega (arith, k, valid.buckets);
          counted = ground (arith, t, valid.counted, small);
        },
        ground (arith, small),
      )
