-- ===== src/Metering/Connector/Exported.antt =====
-- What an export of the connector hands on
-- (connectors/signozmeterconnector/connector.go).
use Prim.Native.Nat.{ℕ, ◌+◌, ◌^◌, ◌<◌}
use mathlib.Core.Bool.{true, false}
use mathlib.Core.List.{List, [], ◌∷◌, ◌++◌}
use mathlib.Core.Logic.{inl, inr}
use mathlib.Core.Option.{Option, none, some}
use mathlib.Core.Path.{◌≡◌, refl, sym, ◌∙◌}
use native.Mathlib.Omega.{arith}
use otel_collector.Common.Int.{pos, negsuc, from_bits64}
use otel_collector.Common.Lists.{total}
use otel_collector.Common.Tests.{if◌then◌else◌, nat_eqb, nat_eqb_iff, comparable_nat, Bool-cases}
use otel_collector.Common.Texts.{Text, text_eqb}
use otel_collector.Metering.Connector.{
  Signal, spans, data_points, logs, MeterMetric, tally_of, MeterMetrics, metric_name_count,
  metric_name_size, metric_desc_count, Values, meter, collect_meter_metrics, build_metrics,
  point_count, data_point_count, MeterConnector, Meters, export_meters,
}
use otel_collector.Metrics.{
  no_number, int_number, double_number, NumberDataPoint, MetricData, empty, gauge, sum, histogram,
  exponential_histogram, summary, Metric, ResourceMetrics,
}
use otel_collector.Metering.Connector.Held.{signal_eqb, held}

-- The names of the meters of counts differ from each other and from those of sizes.
abbrev AreNamed : Signal → Signal → Type 0
AreNamed s s' =
    (text_eqb (metric_name_count s) (metric_name_count s') ≡ signal_eqb s s')
    × (text_eqb (metric_name_size s) (metric_name_count s') ≡ false)

signals-AreNamed : (s s' : Signal) → AreNamed s s'
signals-AreNamed spans spans = (refl, refl)
signals-AreNamed spans data_points = (refl, refl)
signals-AreNamed spans logs = (refl, refl)
signals-AreNamed data_points spans = (refl, refl)
signals-AreNamed data_points data_points = (refl, refl)
signals-AreNamed data_points logs = (refl, refl)
signals-AreNamed logs spans = (refl, refl)
signals-AreNamed logs data_points = (refl, refl)
signals-AreNamed logs logs = (refl, refl)

signal_eqb_refl : (s : Signal) → signal_eqb s s ≡ true
signal_eqb_refl spans = refl
signal_eqb_refl data_points = refl
signal_eqb_refl logs = refl

-- What the points of a meter say.
module _ {V F : Type 0} where
  abbrev pub reading : NumberDataPoint V F → ℕ
  reading dp = elim dp.number [
    | no_number ↦ 0
    | int_number n ↦ elim n [ pos k ↦ k | negsuc k ↦ 0 ]
    | double_number f ↦ 0
  ]

  abbrev pub readings : MetricData V F → ℕ
  readings (sum temporality is_monotonic points) = total reading points
  readings _ = 0

  abbrev pub reading_of : Text → Metric V F → ℕ
  reading_of name m = if text_eqb m.name name then readings m.points else 0

  -- The sum of the points of the meters of this name.
  unfoldable pub exported : Text → List (ResourceMetrics V F) → ℕ
  exported name md =
      total (λ rm. total (λ sm. total (reading_of name) sm.metrics) rm.scope_metrics) md

from_bits64-small : (n : ℕ) → n < 2 ^ 63 → from_bits64 n ≡ pos n
from_bits64-small n h = ground arith

module _ {V : Type 0} (F : Type 0) (values : Values V) (now : ℕ) where
  -- A meter of this name says its value, and any other says nothing.
  reading-meter :
      (name description : Text) (n : ℕ) (attrs : List (Text × Text))
      → n < 2 ^ 63
      → readings (meter {F = F} values now name description n attrs).points ≡ n
  reading-meter name description n attrs h = rw (from_bits64-small n h) (omega arith)

  abbrev of_signal : Signal → Metric V F → ℕ
  of_signal s = reading_of (metric_name_count s)

  collect-same :
      (s : Signal) (m : MeterMetric)
      → (tally_of s m).count < 2 ^ 63
      → total (of_signal s) (collect_meter_metrics values now s m) ≡ (tally_of s m).count
  unfolding collect_meter_metrics
  collect-same s m h =
      let n = (tally_of s m).count in
      let (count, size) = signals-AreNamed s s in
      let same = signal_eqb_refl s in
      let value = reading-meter (metric_name_count s) (metric_desc_count s) n m.attrs h in
      elim (Bool-cases (nat_eqb n 0)) [
        | inl nothing ↦ rw nothing (sym ((nat_eqb_iff n 0).0 nothing))
        | inr there ↦ rw (there, count, size, same) (omega (arith, value))
      ]

  collect-apart :
      (s s' : Signal) (m : MeterMetric)
      → signal_eqb s' s ≡ false
      → total (of_signal s) (collect_meter_metrics values now s' m) ≡ 0
  unfolding collect_meter_metrics
  collect-apart s s' m apart =
      let (count, size) = signals-AreNamed s' s in
      elim (Bool-cases (nat_eqb (tally_of s' m).count 0)) [
        | inl nothing ↦ rw nothing refl
        | inr there ↦ rw (there, count, size, apart) refl
      ]

  total-append :
      (f : Metric V F → ℕ) (ms ns : List (Metric V F))
      → total f (ms ++ ns) ≡ total f ms + total f ns
  total-append f [] ns = omega arith
  total-append f (m ∷ ms) ns = omega (arith, total-append f ms ns)

  entry-reading :
      (s : Signal) (m : MeterMetric)
      → (tally_of s m).count < 2 ^ 63
      → total (of_signal s) (
          collect_meter_metrics values now logs m
          ++ (collect_meter_metrics values now spans m
              ++ collect_meter_metrics values now data_points m))
        ≡ (tally_of s m).count
  entry-reading s m h =
      let of_logs = collect_meter_metrics {F = F} values now logs m in
      let of_spans = collect_meter_metrics {F = F} values now spans m in
      let of_points = collect_meter_metrics {F = F} values now data_points m in
      rw (total-append (of_signal s) of_logs, total-append (of_signal s) of_spans of_points)
        (three s h)
    where
      three :
          (s : Signal)
          → (tally_of s m).count < 2 ^ 63
          → total (of_signal s) (collect_meter_metrics values now logs m)
              + (total (of_signal s) (collect_meter_metrics values now spans m)
                  + total (of_signal s) (collect_meter_metrics values now data_points m))
            ≡ (tally_of s m).count
      three spans h =
          rw
            (
              collect-same spans m h,
              collect-apart spans logs m refl,
              collect-apart spans data_points m refl,
            )
            (omega arith)
      three data_points h =
          rw
            (
              collect-same data_points m h,
              collect-apart data_points logs m refl,
              collect-apart data_points spans m refl,
            )
            (omega arith)
      three logs h =
          rw
            (
              collect-same logs m h,
              collect-apart logs spans m refl,
              collect-apart logs data_points m refl,
            )
            (omega arith)

  exported-build_metrics :
      (s : Signal) (id : Text) (agm : MeterMetrics)
      → held s agm < 2 ^ 63
      → exported (metric_name_count s) (build_metrics {F = F} values now id agm) ≡ held s agm
  unfolding exported build_metrics held
  exported-build_metrics s id [] h = refl
  exported-build_metrics s id ((key, m) ∷ agm) h =
      let first = entry-reading s m (omega (arith, h)) in
      let rest = exported-build_metrics s id agm (omega (arith, h)) in
      rw (first, rest) (omega arith)

-- No points say nothing.
total-zero :
    {A : Type 0} (f g : A → ℕ) (xs : List A)
    → ((x : A) → f x ≡ 0 → g x ≡ 0)
    → total f xs ≡ 0
    → total g xs ≡ 0
total-zero f g [] k h = refl
total-zero f g (x ∷ xs) k h =
    let first = k x (omega (arith, h)) in
    let rest = total-zero f g xs k (omega (arith, h)) in omega (arith, first, rest)

module _ {V F : Type 0} where
  readings-none : (points : MetricData V F) → point_count points ≡ 0 → readings points ≡ 0
  readings-none (sum t m []) h = refl
  readings-none (sum t m (dp ∷ dps)) h = absurd (omega (arith, h))
  readings-none empty h = refl
  readings-none (gauge points) h = refl
  readings-none (histogram t points) h = refl
  readings-none (exponential_histogram t points) h = refl
  readings-none (summary points) h = refl

  exported-none :
      (name : Text) (md : List (ResourceMetrics V F))
      → data_point_count md ≡ 0
      → exported name md ≡ 0
  unfolding exported
  exported-none name md =
      total-zero _ _ md
        λ rm. total-zero _ _ rm.scope_metrics λ sm. total-zero _ _ sm.metrics (reading-none name)
    where
      reading-none :
          (name : Text) (m : Metric V F) → point_count m.points ≡ 0 → reading_of name m ≡ 0
      reading-none name m h = elim (Bool-cases (text_eqb m.name name)) [
        | inl same ↦ rw same (readings-none m.points h)
        | inr other ↦ rw other refl
      ]

  -- What an export hands on, which may be nothing.
  abbrev pub handed : Text → Option (List (ResourceMetrics V F)) → ℕ
  handed name none = 0
  handed name (some md) = exported name md

module _ {V : Type 0} (F : Type 0) (x : Meters V) (s : Signal) where
  pub handed-export_meters :
      (now : ℕ) (c : MeterConnector)
      → held s c.aggregated_meter_metrics < 2 ^ 63
      → (handed (metric_name_count s) (export_meters {F = F} x now c).0
          ≡ held s c.aggregated_meter_metrics)
        × ((export_meters {F = F} x now c).1.aggregated_meter_metrics ≡ [])
  unfolding export_meters
  handed-export_meters now c h =
      let md = build_metrics {F = F} x.values now c.id c.aggregated_meter_metrics in
      let built = exported-build_metrics F x.values now s c.id c.aggregated_meter_metrics h in
      elim (Bool-cases (nat_eqb (data_point_count md) 0)) [
        | inl nothing ↦ rw nothing (
          sym (exported-none (metric_name_count s) md ((nat_eqb_iff _ 0).0 nothing)) ∙ built,
          refl,
        )
        | inr something ↦ rw something (built, refl)
      ]
