-- ===== src/Metrics/Tests.antt =====
-- Runs of the metrics exporter.
use Prim.Native.Nat.{ℕ, ◌+◌, ◌^◌}
use mathlib.Core.Bool.{true, false}
use mathlib.Core.List.{List, [], ◌∷◌}
use mathlib.Core.List.Permᴰ.{nil, swap}
use mathlib.Core.Logic.{inl, inr}
use mathlib.Core.Option.{none, some}
use mathlib.Core.Path.{◌≡◌, refl}
use native.Mathlib.Omega.{arith}
use otel_collector.Common.Dict.{keys, lookup}
use otel_collector.Common.Int.{pos, negsuc}
use otel_collector.Common.Lists.{length, any, All}
use otel_collector.Common.Tests.{nat_eqb, Bool-cases}
use otel_collector.Common.Texts.{
  Text, ascii, comparable_text, sorted_insert, text_ltb, text_eqb, text_eqb_iff,
}
use otel_collector.Common.Texts.Sorted.{IsSorted}
use otel_collector.Metrics.{
  str_type, Platform, unspecified, delta, cumulative, gauge_metric, int_number, double_number,
  gauge, histogram, summary, Metric, ResourceMetrics,
}
use otel_collector.Metrics.Batch.{Ts}
use otel_collector.Metrics.Fingerprint.{point_fingerprint, new_fingerprint}
use otel_collector.Metrics.Fingerprint.Order.{new_fingerprint-Perm}
use otel_collector.Metrics.Labels.{Labels, marshal_labels}
use otel_collector.Metrics.Labels.Read.{read_labels}
use otel_collector.Metrics.Labels.RoundTrip.{read_labels-marshal_labels}
use otel_collector.Metrics.Process.Prepare.{prepare_batch}
use otel_collector.Metrics.Process.Referenced.{IsReferenced, prepare_batch-IsReferenced}
use otel_collector.Metrics.Write.{TsRow, Connection, SeriesCache, write_time_series}
use otel_collector.Metrics.Write.Series.{
  IsCache, Appends, AreSeen, AreNew, AreDistinct, IsHeld, write_time_series-once,
  write_time_series-retried,
}

-- Values are texts, and floats are numbers, of which 99 stands for NaN.
abbrev pub platform : Platform Text ℕ
platform = record {
  value_type = λ v. str_type;
  as_string = λ v. v;
  is_nan = λ f. nat_eqb f 99;
  from_int64 = λ n. elim n [ pos k ↦ k | negsuc k ↦ 0 ];
  from_uint64 = λ n. n;
  format_float = λ f. (48 + f) ∷ [];
  pow = λ a b. a ^ b;
  temporality_string = λ t. elim t [
    | unspecified ↦ ascii "Unspecified"
    | delta ↦ ascii "Delta"
    | cumulative ↦ ascii "Cumulative"
  ];
  type_string = λ t. ascii "Sum";
  deployment_environment = ascii "deployment.environment";
}

abbrev pub attributes : List (Text × Text)
attributes = (ascii "b", ascii "1") ∷ (ascii "a", ascii "2") ∷ []

abbrev two_points : Metric Text ℕ
two_points = record {
  name = ascii "load";
  description = [];
  unit = [];
  points = gauge (
      record {
        attributes = attributes;
        timestamp = 5000000;
        number = int_number (pos 3);
        flags = 0;
      }
      ∷ record { attributes = []; timestamp = 7000000; number = double_number 98; flags = 0 }
      ∷ []);
}

abbrev latencies : Metric Text ℕ
latencies = record {
  name = ascii "latency";
  description = [];
  unit = [];
  points = histogram delta (
      record {
        attributes = attributes;
        timestamp = 6000000;
        count = 7;
        sum = 12;
        has_sum = true;
        min = 1;
        has_min = false;
        max = 5;
        has_max = true;
        explicit_bounds = 2 ∷ 4 ∷ [];
        bucket_counts = 3 ∷ 2 ∷ 2 ∷ [];
        flags = 0;
      }
      ∷ []);
}

abbrev quantiles : Metric Text ℕ
quantiles = record {
  name = ascii "wait";
  description = [];
  unit = [];
  points = summary (
      record {
        attributes = [];
        timestamp = 6000000;
        count = 2;
        sum = 3;
        quantile_values = (5, 1) ∷ (9, 2) ∷ [];
        flags = 0;
      }
      ∷ []);
}

abbrev pub pushed_metrics : List (ResourceMetrics Text ℕ)
pushed_metrics =
    record {
      resource_attributes = (ascii "deployment.environment", ascii "prod") ∷ [];
      scope_metrics =
          record {
            scope_name = ascii "s";
            scope_version = [];
            schema_url = [];
            scope_attributes = [];
            metrics = two_points ∷ latencies ∷ quantiles ∷ [];
          }
          ∷ [];
    }
    ∷ []

prepare_batch-IsReferenced_example :
    IsReferenced (prepare_batch platform false (pos 9) pushed_metrics)
prepare_batch-IsReferenced_example =
    prepare_batch-IsReferenced platform false (pos 9) pushed_metrics

new_fingerprint-Perm_example :
    (new_fingerprint platform point_fingerprint 7 attributes []).hash
    ≡ (new_fingerprint platform point_fingerprint 7
        ((ascii "a", ascii "2") ∷ (ascii "b", ascii "1") ∷ [])
        []).hash
new_fingerprint-Perm_example =
    new_fingerprint-Perm platform point_fingerprint 7 attributes
      ((ascii "a", ascii "2") ∷ (ascii "b", ascii "1") ∷ []) [] [] (swap refl refl)
      (unfold lookup in (refl, (refl, tt))) nil tt

-- The value has a quote, a line end and a backslash.
abbrev quoted_labels : Labels
quoted_labels = (ascii "os", ascii "\"\n\\") ∷ (ascii "dc", ascii "eu") ∷ []

marshal_labels_text : marshal_labels quoted_labels ≡ ascii "{\"dc\":\"eu\",\"os\":\"\\\"\\n\\\\\"}"
unfolding marshal_labels sorted_insert text_ltb lookup
marshal_labels_text = refl

-- A value that is not a text.
read_labels-broken : read_labels (ascii "{\"a\":1}") ≡ none
unfolding read_labels
read_labels-broken = refl

-- A control byte is printed as it is, which is no JSON.
read_labels-control : read_labels (marshal_labels ((ascii "a", 1 ∷ []) ∷ [])) ≡ none
unfolding read_labels marshal_labels sorted_insert text_ltb lookup
read_labels-control = refl

read_labels-marshal_labels_example :
    (found : Labels) × (read_labels (marshal_labels quoted_labels) ≡ some found)
    × ((name : Text) → lookup name found ≡ lookup name quoted_labels)
    × (length found ≡ 2)
    × IsSorted (keys found)
read_labels-marshal_labels_example =
    read_labels-marshal_labels quoted_labels ((refl, (refl, tt)), ((refl, (refl, tt)), tt))
      ((refl, (refl, (refl, tt))), ((refl, (refl, tt)), tt))

-- The cache as the list of the keys that were set.
abbrev listed : SeriesCache (List Text)
listed = record { get = λ k c. any (text_eqb k) c; set = λ k c. k ∷ c }

listed-IsCache : IsCache listed
listed-IsCache = record {
  held = λ k c. rw ((text_eqb_iff k k).1 refl) refl;
  kept = λ j k c h. elim (Bool-cases (text_eqb j k)) [
    | inl same ↦ rw same refl
    | inr other ↦ rw (other, h) refl
  ];
  no_other = λ j k c h. elim (Bool-cases (text_eqb j k)) [
    | inl same ↦ inl ((text_eqb_iff j k).0 same)
    | inr other ↦ inr (rw other at h)
  ];
}

abbrev working : Connection TsRow ℕ
working = record { prepare = none; append = λ r. none; send = none }

abbrev broken : Connection TsRow ℕ
broken = record { prepare = none; append = λ r. none; send = some 5 }

working-Appends : Appends working
working-Appends = record { prepares = refl; appends = λ r. refl }

broken-Appends : Appends broken
broken-Appends = record { prepares = refl; appends = λ r. refl }

-- A series at a time of the first or of the second hour.
abbrev series_at : ℕ → Ts
series_at n = record {
  env = [];
  temporality = delta;
  metric_name = ascii "load";
  description = [];
  unit = [];
  typ = gauge_metric;
  is_monotonic = false;
  fingerprint = 17;
  unix_milli = pos n;
  labels = [];
  attrs = [];
  scope_attrs = [];
  resource_attrs = [];
}

abbrev two_hours : List Ts
two_hours = series_at 10 ∷ series_at 20 ∷ series_at 3600001 ∷ []

two_rows : length (write_time_series platform listed working two_hours []).0.sent ≡ 2
unfolding write_time_series
two_rows = refl

write_time_series-once_example :
    let w = write_time_series platform listed working two_hours [] in
    AreSeen listed [] two_hours w.0.sent
    × AreNew listed [] w.0.sent
    × AreDistinct w.0.sent
    × All (IsHeld listed w.1) two_hours
write_time_series-once_example =
    write_time_series-once platform listed listed-IsCache working working-Appends two_hours [] refl
      (
        (omega arith, omega arith, refl),
        ((omega arith, omega arith, refl), ((omega arith, omega arith, refl), tt)),
      )

write_time_series-retried_example :
    let first = write_time_series platform listed broken two_hours [] in
    let retried = write_time_series platform listed working two_hours first.1 in
    (first.0 ≡ record { sent = []; error = some 5 })
    × (retried.0 ≡ record { sent = []; error = none })
write_time_series-retried_example =
    write_time_series-retried platform listed listed-IsCache broken broken-Appends 5 refl working
      working-Appends refl (series_at 10) (series_at 20 ∷ series_at 3600001 ∷ []) []
