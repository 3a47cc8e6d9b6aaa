-- ===== src/SpanMetrics/Processor/Traffic.antt =====
-- Batches of traces and exports, in turn
-- (processor/signozspanmetricsprocessor/processor.go: aggregateMetrics, buildMetrics, exportMetrics).
use Prim.Native.Nat.{ℕ}
use Prim.Native.String.{String}
use mathlib.Core.Bool.{Bool}
use mathlib.Core.List.{List, [], ◌∷◌}
use mathlib.Core.Option.{Option, none, some}
use otel_collector.Common.Dict.{lookup, insert}
use otel_collector.Common.Tests.{comparable_string}
use otel_collector.SpanMetrics.Cache.{Cache}
use otel_collector.SpanMetrics.Family.{Family, collect, settle}
use otel_collector.SpanMetrics.Histogram.{HistogramData}
use otel_collector.SpanMetrics.Key.{Attributes, Span}
use otel_collector.SpanMetrics.Processor.{
  Library, Config, Histograms, Processor, aggregate_metrics_for_span,
}
pub mod Recorded
pub mod Counted
pub mod Aggregated
pub mod Exported
pub mod Total
pub mod Complete
pub mod Conserved

module _ (lib : Library) where
  open lib use {Value, conventions, remote, floats, lru, Exp}

  pub record ResourceSpans : Type 0 where
    pub resource : Attributes Value
    pub scope_spans : List (List (Span Value))

  unfoldable pub aggregate_spans :
      Config lib
      → ℕ
      → String
      → Attributes Value
      → List (Span Value)
      → Processor lib
      → Option (Processor lib)
  aggregate_spans cfg now service resource [] p = some p
  aggregate_spans cfg now service resource (span ∷ spans) p =
      elim (aggregate_metrics_for_span lib cfg now service span resource p) [
        | none ↦ none
        | some p' ↦ aggregate_spans cfg now service resource spans p'
      ]

  unfoldable pub aggregate_scopes :
      Config lib
      → ℕ
      → String
      → Attributes Value
      → List (List (Span Value))
      → Processor lib
      → Option (Processor lib)
  aggregate_scopes cfg now service resource [] p = some p
  aggregate_scopes cfg now service resource (spans ∷ scopes) p =
      elim (aggregate_spans cfg now service resource spans p) [
        | none ↦ none
        | some p' ↦ aggregate_scopes cfg now service resource scopes p'
      ]

  -- A resource without a service name is passed over; another gets the name of the instance.
  unfoldable pub aggregate_resource :
      Config lib → ℕ → ResourceSpans → Processor lib → Option (Processor lib)
  aggregate_resource cfg now r p = elim (lookup conventions.service_name_key r.resource) [
    | none ↦ some p
    | some service ↦
        aggregate_scopes cfg now (remote.str service)
          (insert "signoz.collector.id" (conventions.value_str cfg.instance_id) r.resource)
          r.scope_spans p
  ]

  unfoldable pub aggregate_metrics :
      Config lib → ℕ → List ResourceSpans → Processor lib → Option (Processor lib)
  unfolding aggregate_resource
  aggregate_metrics cfg now [] p = some p
  aggregate_metrics cfg now (r ∷ rs) p = elim (aggregate_resource cfg now r p) [
    | none ↦ none
    | some p' ↦ aggregate_metrics cfg now rs p'
  ]

  -- The data points of an export, for each family.
  pub record Metrics : Type 0 where
    pub calls : List (HistogramData floats × Attributes Value)
    pub latency : List (HistogramData floats × Attributes Value)
    pub external_calls : List (HistogramData floats × Attributes Value)
    pub db_calls : List (HistogramData floats × Attributes Value)
    pub exp : List (Exp × Attributes Value)

  abbrev pub clear_exemplars :
      List (String × HistogramData floats) → List (String × HistogramData floats)
  clear_exemplars [] = []
  clear_exemplars ((key, h) ∷ histograms) =
      (key, record h { exemplars_data = [] }) ∷ clear_exemplars histograms

  abbrev pub without_exemplars : Histograms lib → Histograms lib
  without_exemplars x = record x { histograms = clear_exemplars x.histograms }

  unfoldable pub reset_exemplar_data : Processor lib → Processor lib
  reset_exemplar_data p = record p {
    latency = without_exemplars p.latency;
    calls = without_exemplars p.calls;
    db_calls = without_exemplars p.db_calls;
    external_calls = without_exemplars p.external_calls;
  }

  -- A family after its collection: the cache may have changed.
  abbrev pub collected : {H : Type 0} → Family lru H → Cache lru → Family lru H
  collected x c = record x { dimensions = c }

  -- What is left once all families are collected.
  unfoldable pub settled : Config lib → Processor lib → Processor lib
  unfolding reset_exemplar_data
  settled cfg p = reset_exemplar_data (record p {
    latency = settle lru cfg.delta p.latency;
    exp = settle lru cfg.delta p.exp;
    calls = settle lru cfg.delta p.calls;
    db_calls = settle lru cfg.delta p.db_calls;
    external_calls = settle lru cfg.delta p.external_calls;
  })

  -- The five collections, in their order; the first error ends them. The caches have changed by then.
  unfoldable pub collect_exp : Metrics → Processor lib → Option Metrics × Processor lib
  collect_exp m p =
      let (points, c) = collect lru p.exp.histograms p.exp.dimensions in
      (
        elim points [ none ↦ none | some ps ↦ some (record m { exp = ps }) ],
        record p { exp = collected p.exp c },
      )

  unfoldable pub collect_db_calls : Metrics → Processor lib → Option Metrics × Processor lib
  unfolding collect_exp
  collect_db_calls m p =
      let (points, c) = collect lru p.db_calls.histograms p.db_calls.dimensions in
      let p' : Processor lib = record p { db_calls = collected p.db_calls c } in
      elim points [ none ↦ (none, p') | some ps ↦ collect_exp (record m { db_calls = ps }) p' ]

  unfoldable pub collect_external_calls : Metrics → Processor lib → Option Metrics × Processor lib
  unfolding collect_db_calls
  collect_external_calls m p =
      let (points, c) = collect lru p.external_calls.histograms p.external_calls.dimensions in
      let p' : Processor lib = record p { external_calls = collected p.external_calls c } in
      elim points [
        | none ↦ (none, p')
        | some ps ↦ collect_db_calls (record m { external_calls = ps }) p'
      ]

  unfoldable pub collect_latency : Metrics → Processor lib → Option Metrics × Processor lib
  unfolding collect_external_calls
  collect_latency m p =
      let (points, c) = collect lru p.latency.histograms p.latency.dimensions in
      let p' : Processor lib = record p { latency = collected p.latency c } in
      elim points [
        | none ↦ (none, p')
        | some ps ↦ collect_external_calls (record m { latency = ps }) p'
      ]

  unfoldable pub collect_calls : Metrics → Processor lib → Option Metrics × Processor lib
  unfolding collect_latency
  collect_calls m p =
      let (points, c) = collect lru p.calls.histograms p.calls.dimensions in
      let p' : Processor lib = record p { calls = collected p.calls c } in
      elim points [ none ↦ (none, p') | some ps ↦ collect_latency (record m { calls = ps }) p' ]

  abbrev pub no_metrics : Metrics
  no_metrics = record { calls = []; latency = []; external_calls = []; db_calls = []; exp = [] }

  unfoldable pub build_metrics : Config lib → Processor lib → Option Metrics × Processor lib
  unfolding collect_calls settled
  build_metrics cfg p =
      let (m, p') = collect_calls no_metrics p in
      elim m [ none ↦ (none, p') | some ms ↦ (some ms, settled cfg p') ]

  unfoldable pub export_metrics : Config lib → Processor lib → Option Metrics × Processor lib
  unfolding build_metrics reset_exemplar_data
  export_metrics cfg p = ((build_metrics cfg p).0, reset_exemplar_data (build_metrics cfg p).1)

  -- A new processor, of the state of a new LRU cache.
  unfoldable pub new_processor : lru.State → Processor lib
  new_processor s = record {
    services = [];
    latency = record { histograms = []; dimensions = record { lru = s; evicted_items = [] } };
    exp = record { histograms = []; dimensions = record { lru = s; evicted_items = [] } };
    calls = record { histograms = []; dimensions = record { lru = s; evicted_items = [] } };
    db_calls = record { histograms = []; dimensions = record { lru = s; evicted_items = [] } };
    external_calls = record {
      histograms = [];
      dimensions = record { lru = s; evicted_items = [] };
    };
  }

  -- What happens to the processor: traces arrive at a time, or an export is due.
  pub data Event : Type 0 where
    traces : ℕ → List ResourceSpans → Event
    tick : Event

  -- The exports of a sequence of events, each with its metrics or its error; `none` is a panic.
  unfoldable pub run : Config lib → List Event → Processor lib → Option (List (Option Metrics))
  run cfg [] p = some []
  run cfg (traces now rs ∷ events) p = elim (aggregate_metrics cfg now rs p) [
    | none ↦ none
    | some p' ↦ run cfg events p'
  ]
  run cfg (tick ∷ events) p = elim (run cfg events (export_metrics cfg p).1) [
    | none ↦ none
    | some ms ↦ some ((export_metrics cfg p).0 ∷ ms)
  ]
