-- ===== src/Metrics/Batch.antt =====
-- The rows of a batch and what adds them (exporter/signozclickhousemetrics: batch.go and the row types
-- of exporter.go).
use Prim.Native.Nat.{ℕ, ◌-◌, ◌^◌}
use mathlib.Core.Bool.{Bool}
use mathlib.Core.List.{List, [], ◌∷◌, ◌++◌}
use otel_collector.Common.Int.{ℤ, pos, int_eqb}
use otel_collector.Common.Tests.{if◌then◌else◌}
use otel_collector.Common.Texts.{Text}
use otel_collector.Metrics.{ValueType, AggregationTemporality, MetricType}
use otel_collector.Metrics.Fingerprint.{Attributes, Fingerprint, fingerprint_type_string}
use otel_collector.Metrics.Labels.{Labels}

pub record Sample (F : Type 0) : Type 0 where
  pub env : Text
  pub temporality : AggregationTemporality
  pub metric_name : Text
  pub fingerprint : ℕ
  pub unix_milli : ℤ
  pub value : F
  pub flags : ℕ

-- chproto.Store and chproto.DD: a sketch as the database takes it.
pub record SketchStore (F : Type 0) : Type 0 where
  pub contiguous_bin_index_offset : ℤ
  pub contiguous_bin_counts : List F

pub record Sketch (F : Type 0) : Type 0 where
  pub gamma : F
  pub positive_values : SketchStore F
  pub negative_values : SketchStore F
  pub zero_count : F

pub record ExponentialHistogramSample (F : Type 0) : Type 0 where
  pub env : Text
  pub temporality : AggregationTemporality
  pub metric_name : Text
  pub fingerprint : ℕ
  pub unix_milli : ℤ
  pub sketch : Sketch F
  pub count : F
  pub sum : F
  pub min : F
  pub max : F
  pub flags : ℕ

pub record Ts : Type 0 where
  pub env : Text
  pub temporality : AggregationTemporality
  pub metric_name : Text
  pub description : Text
  pub unit : Text
  pub typ : MetricType
  pub is_monotonic : Bool
  pub fingerprint : ℕ
  pub unix_milli : ℤ
  pub labels : Text
  pub attrs : Labels
  pub scope_attrs : Labels
  pub resource_attrs : Labels

pub record Metadata : Type 0 where
  pub metric_name : Text
  pub temporality : AggregationTemporality
  pub description : Text
  pub unit : Text
  pub typ : MetricType
  pub is_monotonic : Bool
  pub attr_name : Text
  pub attr_type : Text
  pub attr_datatype : ValueType
  pub attr_string_value : Text
  pub first_reported_unix_milli : ℤ
  pub last_reported_unix_milli : ℤ

pub record Batch (F : Type 0) : Type 0 where
  pub samples : List (Sample F)
  pub exp_hist : List (ExponentialHistogramSample F)
  pub ts : List Ts
  pub metadata : List Metadata

abbrev pub new_batch : (F : Type 0) → Batch F
new_batch F = record { samples = []; exp_hist = []; ts = []; metadata = [] }

-- math.MaxInt64
abbrev pub max_int64 : ℤ
max_int64 = pos (2 ^ 63 - 1)

-- What a metadata row says of the metric, and not of one attribute.
pub record Reported : Type 0 where
  pub name : Text
  pub description : Text
  pub unit : Text
  pub typ : MetricType
  pub temporality : AggregationTemporality
  pub is_monotonic : Bool
  pub first_seen : ℤ
  pub last_seen : ℤ

-- The rows for the attributes of a fingerprint.
unfoldable pub metadata_rows : Reported → Text → Attributes → List Metadata
metadata_rows r typ [] = []
metadata_rows r typ ((key, value) ∷ attributes) =
    record {
      metric_name = r.name;
      temporality = r.temporality;
      description = r.description;
      unit = r.unit;
      typ = r.typ;
      is_monotonic = r.is_monotonic;
      attr_name = key;
      attr_type = typ;
      attr_datatype = value.data_type;
      attr_string_value = value.val;
      first_reported_unix_milli = r.first_seen;
      last_reported_unix_milli = r.last_seen;
    }
    ∷ metadata_rows r typ attributes

module _ {F : Type 0} where
  -- A first time that was never set stands for now.
  unfoldable pub add_metadata : ℤ → Reported → Fingerprint → Batch F → Batch F
  unfolding metadata_rows
  add_metadata now r f b =
      let r' =
        if int_eqb r.first_seen max_int64
        then record r { first_seen = now; last_seen = now }
        else r in
      record b {
        metadata = b.metadata ++ metadata_rows r' (fingerprint_type_string f.typ) f.attributes;
      }

  unfoldable pub add_sample : Sample F → Batch F → Batch F
  add_sample s b = record b { samples = b.samples ++ s ∷ [] }

  unfoldable pub add_ts : Ts → Batch F → Batch F
  add_ts t b = record b { ts = b.ts ++ t ∷ [] }

  unfoldable pub add_exp_hist : ExponentialHistogramSample F → Batch F → Batch F
  add_exp_hist e b = record b { exp_hist = b.exp_hist ++ e ∷ [] }
