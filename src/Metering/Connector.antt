-- ===== src/Metering/Connector.antt =====
-- The connector that turns telemetry into meters (connectors/signozmeterconnector: connector.go,
-- meter_metrics.go). Each method holds the lock while it changes the map, and is one function here.
-- An int is its pattern of 64 bits. pdatautil.MapHash is a parameter.
pub mod Held
pub mod Exported
pub mod Conserved
use Prim.Native.Nat.{ℕ, ◌+◌, ◌%◌, ◌^◌}
use mathlib.Core.Bool.{Bool, true, false}
use mathlib.Core.List.{List, [], ◌∷◌, ◌++◌}
use mathlib.Core.Option.{Option, none, some}
use otel_collector.Common.Dict.{lookup, insert}
use otel_collector.Common.Int.{from_bits64}
use otel_collector.Common.Lists.{any, length, total}
use otel_collector.Common.Tests.{if◌then◌else◌, nat_eqb, comparable_nat}
use otel_collector.Common.Texts.{Text, ascii, text_eqb, comparable_text}
use otel_collector.Metering.{count_per_resource}
use otel_collector.Metering.Size.{
  Sizer, ResourceLogs, log_count_per_resource, log_size_per_resource, ResourceSpans,
  span_count_per_resource, span_size_per_resource,
}
use otel_collector.Metrics.{
  delta, int_number, NumberDataPoint, MetricData, empty, gauge, sum, histogram,
  exponential_histogram, summary, Metric, ScopeMetrics, ResourceMetrics,
}

pub data Signal : Type 0 where
  spans data_points logs : Signal

-- The count and the size of one signal.
pub record Tally : Type 0 where
  pub count : ℕ
  pub size : ℕ

-- `spanCount` and `spanSize` stand in `span_tally`, and so on.
pub record MeterMetric : Type 0 where
  pub span_tally : Tally
  pub metric_data_point_tally : Tally
  pub log_tally : Tally
  pub attrs : List (Text × Text)

abbrev pub tally_of : Signal → MeterMetric → Tally
tally_of spans m = m.span_tally
tally_of data_points m = m.metric_data_point_tally
tally_of logs m = m.log_tally

abbrev pub put_tally : Signal → Tally → MeterMetric → MeterMetric
put_tally spans t m = record m { span_tally = t }
put_tally data_points t m = record m { metric_data_point_tally = t }
put_tally logs t m = record m { log_tally = t }

abbrev pub no_tally : Tally
no_tally = record { count = 0; size = 0 }

abbrev pub new_meter_metric : List (Text × Text) → MeterMetric
new_meter_metric attrs = record {
  span_tally = no_tally;
  metric_data_point_tally = no_tally;
  log_tally = no_tally;
  attrs = attrs;
}

abbrev pub add_int : ℕ → ℕ → ℕ
add_int a b = (a + b) % 2 ^ 64

abbrev pub MeterMetrics : Type 0
MeterMetrics = List (ℕ × MeterMetric)

-- The entry of a key, or a new one.
abbrev pub entry_or : Option MeterMetric → List (Text × Text) → MeterMetric
entry_or none attrs = new_meter_metric attrs
entry_or (some m) attrs = m

-- UpdateSpanMeterMetrics, UpdateMetricDataPointsMeterMetrics and UpdateLogMeterMetrics.
unfoldable pub update_meter_metrics :
    (List (Text × Text) → ℕ) → Signal → List (Text × Text) → ℕ → ℕ → MeterMetrics → MeterMetrics
update_meter_metrics map_hash s attrs count size agm =
    let key = map_hash attrs in
    let m = entry_or (lookup key agm) attrs in
    let t = tally_of s m in
    insert key
      (put_tally s (record { count = add_int t.count count; size = add_int t.size size }) m) agm

-- The names of the meters.
abbrev pub metric_name_count : Signal → Text
metric_name_count spans = ascii "signoz.meter.span.count"
metric_name_count data_points = ascii "signoz.meter.metric.datapoint.count"
metric_name_count logs = ascii "signoz.meter.log.count"

abbrev pub metric_name_size : Signal → Text
metric_name_size spans = ascii "signoz.meter.span.size"
metric_name_size data_points = ascii "signoz.meter.metric.datapoint.size"
metric_name_size logs = ascii "signoz.meter.log.size"

abbrev pub metric_desc_count : Signal → Text
metric_desc_count spans = ascii "The number of spans observed."
metric_desc_count data_points = ascii "The number of data points observed."
metric_desc_count logs = ascii "The number of log records observed."

abbrev pub metric_desc_size : Signal → Text
metric_desc_size spans = ascii "The size of spans observed."
metric_desc_size data_points = ascii "The size of data points observed."
metric_desc_size logs = ascii "The size of log records observed."

-- What the connector reads of a pcommon value, and how it makes one.
pub record Values (V : Type 0) : Type 0 where
  pub as_string : V → Text
  pub put_str : Text → V

abbrev pub put_strings : {V : Type 0} → Values V → List (Text × Text) → List (Text × V)
put_strings values [] = []
put_strings values ((k, v) ∷ attrs) = (k, values.put_str v) ∷ put_strings values attrs

module _ {V F : Type 0} (values : Values V) (now : ℕ) where
  abbrev pub meter : Text → Text → ℕ → List (Text × Text) → Metric V F
  meter name description value attrs = record {
    name = name;
    description = description;
    unit = [];
    points = sum delta true (
        record {
          attributes = put_strings values attrs;
          timestamp = now;
          number = int_number (from_bits64 value);
          flags = 0;
        }
        ∷ []);
  }

  -- collectLogMeterMetrics, collectTraceMeterMetrics and collectMetricMeterMetrics.
  unfoldable pub collect_meter_metrics : Signal → MeterMetric → List (Metric V F)
  collect_meter_metrics s m =
      let t = tally_of s m in
      if nat_eqb t.count 0
      then []
      else meter (metric_name_count s) (metric_desc_count s) t.count m.attrs
        ∷ meter (metric_name_size s) (metric_desc_size s) t.size m.attrs
        ∷ []

  -- `id` is the connector's own.
  abbrev pub meter_resource : Text → MeterMetric → ResourceMetrics V F
  meter_resource id m = record {
    resource_attributes = [];
    scope_metrics =
        record {
          scope_name = ascii "signozmeterconnector";
          scope_version = [];
          schema_url = [];
          scope_attributes = (ascii "connector_id", values.put_str id) ∷ [];
          metrics =
              collect_meter_metrics logs m
              ++ (collect_meter_metrics spans m ++ collect_meter_metrics data_points m);
        }
        ∷ [];
  }

  unfoldable pub build_metrics : Text → MeterMetrics → List (ResourceMetrics V F)
  unfolding collect_meter_metrics
  build_metrics id [] = []
  build_metrics id ((key, m) ∷ agm) = meter_resource id m ∷ build_metrics id agm

-- `DataPointCount()`
module _ {V F : Type 0} where
  abbrev pub point_count : MetricData V F → ℕ
  point_count empty = 0
  point_count (gauge points) = length points
  point_count (sum temporality is_monotonic points) = length points
  point_count (histogram temporality points) = length points
  point_count (exponential_histogram temporality points) = length points
  point_count (summary points) = length points

  abbrev pub data_point_count : List (ResourceMetrics V F) → ℕ
  data_point_count md =
      total (λ rm. total (λ sm. total (λ m. point_count m.points) sm.metrics) rm.scope_metrics) md

pub record MeterConnector : Type 0 where
  pub id : Text
  pub dimensions : List Text
  pub aggregated_meter_metrics : MeterMetrics
  pub started : Bool

-- The attributes of a resource that are dimensions, as texts.
unfoldable pub build_dimensions_map :
    {V : Type 0} → Values V → List Text → List (Text × V) → List (Text × Text) → List (Text × Text)
build_dimensions_map values dimensions [] found = found
build_dimensions_map values dimensions ((k, v) ∷ attrs) found =
    build_dimensions_map values dimensions attrs
      (if any (text_eqb k) dimensions then insert k (values.as_string v) found else found)

-- What the connector uses that is not its own.
pub record Meters (V : Type 0) : Type 0 where
  pub values : Values V
  pub map_hash : List (Text × Text) → ℕ
  pub sizer : Sizer V
  pub flat_size : List (Text × V) → ℕ

module _ {V : Type 0} (x : Meters V) where
  -- One resource: its dimensions get its count and size.
  unfoldable pub aggregate : Signal → List (Text × V) → ℕ → ℕ → MeterConnector → MeterConnector
  unfolding update_meter_metrics build_dimensions_map
  aggregate s attrs count size c = record c {
    aggregated_meter_metrics =
        update_meter_metrics x.map_hash s (build_dimensions_map x.values c.dimensions attrs [])
          count size c.aggregated_meter_metrics;
  }

  unfoldable pub consume_traces : List (ResourceSpans V) → MeterConnector → MeterConnector
  unfolding aggregate span_count_per_resource span_size_per_resource
  consume_traces [] c = c
  consume_traces (r ∷ rs) c = consume_traces rs (
      aggregate spans r.attributes (span_count_per_resource r)
        (span_size_per_resource x.flat_size r) c)

  unfoldable pub consume_logs : List (ResourceLogs V) → MeterConnector → MeterConnector
  unfolding aggregate log_count_per_resource log_size_per_resource
  consume_logs [] c = c
  consume_logs (r ∷ rs) c =
      consume_logs rs
        (aggregate logs r.attributes (log_count_per_resource r) (log_size_per_resource x.sizer r) c)

module _ {V F : Type 0} (x : Meters V) where
  -- The size of metrics is 0.
  unfoldable pub consume_metrics : List (ResourceMetrics V F) → MeterConnector → MeterConnector
  unfolding aggregate count_per_resource
  consume_metrics [] c = c
  consume_metrics (r ∷ rs) c =
      consume_metrics rs (aggregate x data_points r.resource_attributes (count_per_resource r) 0 c)

  -- What is handed to the next consumer, if anything. The map is emptied before the consumer is asked,
  -- so its error changes nothing.
  unfoldable pub export_meters :
      ℕ → MeterConnector → Option (List (ResourceMetrics V F)) × MeterConnector
  unfolding build_metrics
  export_meters now c =
      let metrics = build_metrics x.values now c.id c.aggregated_meter_metrics in
      let c' = record c { aggregated_meter_metrics = [] } in
      if nat_eqb (data_point_count metrics) 0 then (none, c') else (some metrics, c')

  unfoldable pub shutdown :
      ℕ → MeterConnector → Option (List (ResourceMetrics V F)) × MeterConnector
  unfolding export_meters
  shutdown now c =
      if c.started
      then (let (out, c') = export_meters now c in (out, record c' { started = false }))
      else (none, c)
