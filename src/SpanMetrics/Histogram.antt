-- ===== src/SpanMetrics/Histogram.antt =====
-- The histogram of a metric key (processor/signozspanmetricsprocessor/processor.go: updateHistogram and
-- its four copies). Floats are a type with the operations that the code uses. The binary search of
-- the bounds is Go's `sort.SearchFloat64s`: the first bound that is not below the latency.
use Prim.Native.Nat.{ℕ, zero, suc, ◌+◌, ◌%◌, ◌^◌}
use mathlib.Core.Bool.{Bool, true, false}
use mathlib.Core.List.{List, [], ◌∷◌, ◌++◌}
use mathlib.Core.Option.{Option, none, some}
use otel_collector.Common.Lists.{length, replicate}
use otel_collector.Common.Tests.{if◌then◌else◌}
pub mod Counts
pub mod Sums

pub record Floats : Type 1 where
  pub Float : Type 0
  pub zero_float : Float
  pub add_float : Float → Float → Float
  pub at_most : Float → Float → Bool
  -- The milliseconds of a number of nanoseconds.
  pub millis : ℕ → Float

module _ (f : Floats) where
  open f use {Float, zero_float, add_float, at_most}

  pub record ExemplarData : Type 0 where
    pub trace_id : ℕ
    pub span_id : ℕ
    pub value : Float

  -- Counts are uint64.
  pub record HistogramData : Type 0 where
    pub count : ℕ
    pub sum : Float
    pub bucket_counts : List ℕ
    pub exemplars_data : List ExemplarData

  unfoldable pub new_histogram : List Float → HistogramData
  new_histogram bounds = record {
    count = 0;
    sum = zero_float;
    bucket_counts = replicate (length bounds + 1) 0;
    exemplars_data = [];
  }

  unfoldable pub search : List Float → Float → ℕ
  search [] x = 0
  search (b ∷ bounds) x = if at_most x b then 0 else suc (search bounds x)

-- `counts[i]++`; an index out of range panics.
unfoldable pub bump : List ℕ → ℕ → Option (List ℕ)
bump [] i = none
bump (n ∷ counts) zero = some ((n + 1) % 2 ^ 64 ∷ counts)
bump (n ∷ counts) (suc i) = elim (bump counts i) [ none ↦ none | some rest ↦ some (n ∷ rest) ]

module _ (f : Floats) where
  open f use {Float, add_float}

  -- The histogram with one latency more, the buckets given.
  abbrev pub with_latency : Float → ℕ → ℕ → HistogramData f → List ℕ → HistogramData f
  with_latency latency trace_id span_id h counts = record {
    count = (h.count + 1) % 2 ^ 64;
    sum = add_float h.sum latency;
    bucket_counts = counts;
    exemplars_data =
        h.exemplars_data ++ record { trace_id = trace_id; span_id = span_id; value = latency } ∷ [];
  }

  -- The update of the histogram that the map holds.
  unfoldable pub observe : List Float → Float → ℕ → ℕ → HistogramData f → Option (HistogramData f)
  observe bounds latency trace_id span_id h =
      elim (bump h.bucket_counts (search f bounds latency)) [
        | none ↦ none
        | some counts ↦ some (with_latency latency trace_id span_id h counts)
      ]
