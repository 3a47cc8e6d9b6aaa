-- ===== src/Metrics/Process.antt =====
-- How the points of a metric become rows: the steps that every kind of metric shares
-- (exporter/signozclickhousemetrics/exporter.go).
pub mod Points
pub mod Exponential
pub mod Prepare
pub mod Referenced
use Prim.Native.Nat.{ℕ}
use mathlib.Core.Bool.{Bool}
use mathlib.Core.List.{List, [], ◌∷◌, ◌++◌}
use otel_collector.Common.Int.{ℤ, pos, int_ltb}
use otel_collector.Common.Tests.{if◌then◌else◌}
use otel_collector.Common.Texts.{Text, ascii}
use otel_collector.Metrics.{AggregationTemporality, MetricType, Platform, unix_milli}
use otel_collector.Metrics.Fingerprint.{
  Fingerprint, point_fingerprint, new_fingerprint, attributes_as_map, hash_with_name,
}
use otel_collector.Metrics.Labels.{new_labels_as_json_string}
use otel_collector.Metrics.Batch.{
  Sample, Ts, Batch, Reported, max_int64, add_metadata, add_sample, add_ts,
}

-- What the rows of one metric share. `now` is the clock, read once.
pub record Source : Type 0 where
  pub name : Text
  pub description : Text
  pub unit : Text
  pub env : Text
  pub resource : Fingerprint
  pub scope : Fingerprint
  pub now : ℤ

-- One series that a point has: the suffix of the metric's name, and what tells the series apart.
pub record Series (V : Type 0) : Type 0 where
  pub suffix : Text
  pub typ : MetricType
  pub temporality : AggregationTemporality
  pub is_monotonic : Bool
  pub point_attributes : List (Text × V)
  pub extras : List (Text × Text)
  pub time : ℤ

abbrev pub reported : Source → Text → MetricType → AggregationTemporality → Bool → ℤ → ℤ → Reported
reported src suffix typ temporality is_monotonic first_seen last_seen = record {
  name = src.name ++ suffix;
  description = src.description;
  unit = src.unit;
  typ = typ;
  temporality = temporality;
  is_monotonic = is_monotonic;
  first_seen = first_seen;
  last_seen = last_seen;
}

module _ {V F : Type 0} (p : Platform V F) where
  -- `map[string]string{"__temporality__": temporality.String()}`
  abbrev pub temporality_extra : AggregationTemporality → List (Text × Text)
  temporality_extra t = (ascii "__temporality__", p.temporality_string t) ∷ []

  unfoldable pub series_fingerprint : Source → Series V → Fingerprint
  unfolding new_fingerprint
  series_fingerprint src s =
      new_fingerprint p point_fingerprint src.scope.hash s.point_attributes s.extras

  unfoldable pub series_hash : Source → Series V → ℕ
  unfolding series_fingerprint hash_with_name
  series_hash src s = hash_with_name (series_fingerprint src s) (src.name ++ s.suffix)

  -- The metadata and the row of a series.
  unfoldable pub add_series : Source → Series V → Batch F → Batch F
  unfolding series_fingerprint series_hash add_metadata add_ts new_labels_as_json_string
  add_series src s b =
      let f = series_fingerprint src s in
      let attrs = attributes_as_map f in
      let scope_attrs = attributes_as_map src.scope in
      let resource_attrs = attributes_as_map src.resource in
      let meta = reported src s.suffix s.typ s.temporality s.is_monotonic s.time s.time in
      add_ts
        (record {
          env = src.env;
          temporality = s.temporality;
          metric_name = src.name ++ s.suffix;
          description = src.description;
          unit = src.unit;
          typ = s.typ;
          is_monotonic = s.is_monotonic;
          fingerprint = series_hash src s;
          unix_milli = s.time;
          labels =
              new_labels_as_json_string (src.name ++ s.suffix)
                (attrs ∷ scope_attrs ∷ resource_attrs ∷ []);
          attrs = attrs;
          scope_attrs = scope_attrs;
          resource_attrs = resource_attrs;
        })
        (add_metadata src.now meta f b)

  -- A sample with its series.
  unfoldable pub add_point : Source → Series V → F → ℕ → Batch F → Batch F
  unfolding add_sample series_hash add_series
  add_point src s value flags b = add_series src s (
      add_sample
        (record {
          env = src.env;
          temporality = s.temporality;
          metric_name = src.name ++ s.suffix;
          fingerprint = series_hash src s;
          unix_milli = s.time;
          value = value;
          flags = flags;
        })
        b)

-- The variables of the loop over the points.
pub record Loop (F : Type 0) : Type 0 where
  pub batch : Batch F
  pub first_seen : ℤ
  pub last_seen : ℤ

module _ {F : Type 0} where
  abbrev pub start_loop : Batch F → Loop F
  start_loop b = record { batch = b; first_seen = max_int64; last_seen = pos 0 }

  -- The first and last times are those of all points, also of the points that add nothing.
  unfoldable pub each_point :
      {P : Type 0} → (P → ℕ) → (P → Batch F → Batch F) → List P → Loop F → Loop F
  each_point time add [] l = l
  each_point time add (dp ∷ dps) l =
      let t = unix_milli (time dp) in
      each_point time add dps (record {
        batch = add dp l.batch;
        first_seen = if int_ltb t l.first_seen then t else l.first_seen;
        last_seen = if int_ltb l.last_seen t then t else l.last_seen;
      })

  -- The metadata of the resource and of the scope for one suffix, after the loop.
  unfoldable pub add_resource_and_scope :
      Source → Text → MetricType → AggregationTemporality → Bool → Loop F → Loop F
  unfolding add_metadata
  add_resource_and_scope src suffix typ temporality is_monotonic l =
      let meta = reported src suffix typ temporality is_monotonic l.first_seen l.last_seen in
      record l {
        batch =
            add_metadata src.now meta src.scope (add_metadata src.now meta src.resource l.batch);
      }
