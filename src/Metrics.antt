-- ===== src/Metrics.antt =====
-- The parts of pdata's metrics that the collector's own code reads. The representation of a pcommon
-- value and of a float64 are parameters.
pub mod Fingerprint
pub mod Labels
pub mod Batch
pub mod Process
pub mod Write
pub mod Tests
use Prim.Native.Nat.{ℕ, ◌-◌, ◌/◌, ◌^◌}
use mathlib.Core.Bool.{Bool}
use mathlib.Core.List.{List}
use otel_collector.Common.Int.{ℤ, pos, negsuc}
use otel_collector.Common.Tests.{if◌then◌else◌, ltb}
use otel_collector.Common.Texts.{Text}

-- pcommon.ValueType
pub data ValueType : Type 0 where
  empty_type str_type int_type double_type bool_type map_type slice_type bytes_type : ValueType

pub data AggregationTemporality : Type 0 where
  unspecified delta cumulative : AggregationTemporality

pub data MetricType : Type 0 where
  empty_metric gauge_metric sum_metric histogram_metric : MetricType
  exponential_histogram_metric summary_metric : MetricType

-- What the code asks of a pcommon value and of a float64.
pub record Platform (V F : Type 0) : Type 0 where
  pub value_type : V → ValueType
  pub as_string : V → Text
  pub is_nan : F → Bool
  pub from_int64 : ℤ → F
  pub from_uint64 : ℕ → F
  -- strconv.FormatFloat(f, 'f', -1, 64)
  pub format_float : F → Text
  pub pow : F → F → F
  pub temporality_string : AggregationTemporality → Text
  pub type_string : MetricType → Text
  -- semconv.AttributeDeploymentEnvironment
  pub deployment_environment : Text

-- The value of a number point: int64, float64 or not set.
pub data Number (F : Type 0) : Type 0 where
  no_number : Number F
  int_number : ℤ → Number F
  double_number : F → Number F

-- Times are nanoseconds as uint64.
pub record NumberDataPoint (V F : Type 0) : Type 0 where
  pub attributes : List (Text × V)
  pub timestamp : ℕ
  pub number : Number F
  pub flags : ℕ

-- `sum`, `min` and `max` read as the zero float where they are not set.
pub record HistogramDataPoint (V F : Type 0) : Type 0 where
  pub attributes : List (Text × V)
  pub timestamp : ℕ
  pub count : ℕ
  pub sum : F
  pub has_sum : Bool
  pub min : F
  pub has_min : Bool
  pub max : F
  pub has_max : Bool
  pub explicit_bounds : List F
  pub bucket_counts : List ℕ
  pub flags : ℕ

pub record Buckets : Type 0 where
  pub offset : ℤ
  pub bucket_counts : List ℕ

pub record ExponentialHistogramDataPoint (V F : Type 0) : Type 0 where
  pub attributes : List (Text × V)
  pub timestamp : ℕ
  pub count : ℕ
  pub sum : F
  pub has_sum : Bool
  pub min : F
  pub has_min : Bool
  pub max : F
  pub has_max : Bool
  pub scale : ℤ
  pub zero_count : ℕ
  pub positive : Buckets
  pub negative : Buckets
  pub flags : ℕ

pub record SummaryDataPoint (V F : Type 0) : Type 0 where
  pub attributes : List (Text × V)
  pub timestamp : ℕ
  pub count : ℕ
  pub sum : F
  -- Each quantile and its value.
  pub quantile_values : List (F × F)
  pub flags : ℕ

pub data MetricData (V F : Type 0) : Type 0 where
  empty : MetricData V F
  gauge : List (NumberDataPoint V F) → MetricData V F
  sum : AggregationTemporality → Bool → List (NumberDataPoint V F) → MetricData V F
  histogram : AggregationTemporality → List (HistogramDataPoint V F) → MetricData V F
  exponential_histogram :
      AggregationTemporality → List (ExponentialHistogramDataPoint V F) → MetricData V F
  summary : List (SummaryDataPoint V F) → MetricData V F

pub record Metric (V F : Type 0) : Type 0 where
  pub name : Text
  pub description : Text
  pub unit : Text
  pub points : MetricData V F

pub record ScopeMetrics (V F : Type 0) : Type 0 where
  pub scope_name : Text
  pub scope_version : Text
  pub schema_url : Text
  pub scope_attributes : List (Text × V)
  pub metrics : List (Metric V F)

pub record ResourceMetrics (V F : Type 0) : Type 0 where
  pub resource_attributes : List (Text × V)
  pub scope_metrics : List (ScopeMetrics V F)

-- `Timestamp().AsTime().UnixMilli()`: the nanoseconds are read as int64, and the milliseconds are
-- rounded down.
abbrev pub unix_milli : ℕ → ℤ
unix_milli n = if ltb n (2 ^ 63) then pos (n / 1000000) else negsuc ((2 ^ 64 - n - 1) / 1000000)
