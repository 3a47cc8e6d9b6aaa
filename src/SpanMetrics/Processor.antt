-- ===== src/SpanMetrics/Processor.antt =====
-- The processor of span metrics: what a span adds to the five families of metrics, and what an export
-- collects and leaves (processor/signozspanmetricsprocessor/processor.go). What other packages give is
-- one record: values of attributes, floats, the LRU cache and the exponential histogram. Times are
-- nanoseconds; an outer `none` is a panic.
use Prim.Native.Nat.{ℕ, ◌+◌, ◌-◌}
use Prim.Native.String.{String}
use mathlib.Core.Bool.{Bool, true, false, ◌&&◌, ◌||◌}
use mathlib.Core.List.{List, [], ◌∷◌}
use mathlib.Core.Option.{Option, none, some}
use otel_collector.Common.Dict.{lookup, insert}
use otel_collector.Common.Lists.{any}
use otel_collector.Common.Tests.{if◌then◌else◌, ltb, ◌==◌, comparable_string}
use otel_collector.SpanMetrics.Address.{RemoteKeys, get_remote_address}
use otel_collector.SpanMetrics.Cache.{Lru}
use otel_collector.SpanMetrics.Family.{Family, record_span, collect, settle}
use otel_collector.SpanMetrics.Histogram.{Floats, HistogramData, new_histogram, observe}
use otel_collector.SpanMetrics.Key.{
  SpanKind, server, client, StatusCode, Attributes, Span, Dimension, Conventions, Services,
  Tracking, build_metric_key,
}
use otel_collector.SpanMetrics.Key.Custom.{build_custom_metric_key}
use otel_collector.SpanMetrics.Key.Labels.{build_dimension_kvs, build_custom_dimension_kvs}
pub mod Traffic

pub record Library : Type 1 where
  pub Value : Type 0
  pub conventions : Conventions Value
  pub remote : RemoteKeys Value
  pub floats : Floats
  pub lru : Lru String (Attributes Value)
  pub Exp : Type 0
  pub new_exp : Exp
  pub update_exp : floats.Float → Exp → Exp
  pub kind_string : SpanKind → String
  pub code_string : StatusCode → String

module _ (lib : Library) where
  open lib use {
    Value, conventions, remote, floats, lru, Exp, new_exp, update_exp, kind_string, code_string,
  }

  pub record Config : Type 0 where
    pub latency_bounds : List floats.Float
    pub dimensions : List (Dimension Value)
    pub exp_dimensions : List (Dimension Value)
    pub call_dimensions : List (Dimension Value)
    pub db_call_dimensions : List (Dimension Value)
    pub external_call_dimensions : List (Dimension Value)
    pub delta : Bool
    pub enable_exp_histogram : Bool
    pub tracking : Tracking
    pub span_skip_window : ℕ
    pub exclude_patterns : List (String × (String → Bool))
    pub instance_id : String

  abbrev pub Histograms : Type 0
  Histograms = Family lru (HistogramData floats)

  pub record Processor : Type 0 where
    pub services : Services
    pub latency : Histograms
    pub exp : Family lru Exp
    pub calls : Histograms
    pub db_calls : Histograms
    pub external_calls : Histograms

  -- One pattern of `shouldSkip`, against the span and its resource.
  unfoldable pub skips : String → Span Value → Attributes Value → String × (String → Bool) → Bool
  skips service span resource (key, matches) =
      ((key == conventions.service_name_key) && matches service)
      || ((key == "operation") && matches span.name)
      || ((key == "span.kind") && matches (kind_string span.kind))
      || ((key == "status.code") && matches (code_string span.status))
      || any (λ (a : String × Value). (key == a.0) && matches (conventions.as_string a.1))
          span.attributes
      || any (λ (a : String × Value). (key == a.0) && matches (conventions.as_string a.1)) resource

  unfoldable pub should_skip : Config → String → Span Value → Attributes Value → Bool
  unfolding skips
  should_skip cfg service span resource = any (skips service span resource) cfg.exclude_patterns

  unfoldable pub is_stale : Config → ℕ → Span Value → Bool
  is_stale cfg now span =
      ltb 0 cfg.span_skip_window && ltb (span.start_timestamp + cfg.span_skip_window) now

  -- The nanoseconds of a span, 0 if it ends before it starts.
  unfoldable pub latency_of : Span Value → ℕ
  latency_of span =
      if ltb span.start_timestamp span.end_timestamp
      then span.end_timestamp - span.start_timestamp
      else 0

  -- A latency into a family of histograms.
  unfoldable pub record_latency :
      Config → Span Value → String → Attributes Value → Histograms → Option Histograms
  unfolding latency_of
  record_latency cfg span key labels x =
      record_span lru (new_histogram floats cfg.latency_bounds)
        (observe floats cfg.latency_bounds (floats.millis (latency_of span)) span.trace_id
          span.span_id)
        key labels x

  -- A metric with the names of the span: its key, its labels, and the services tracked then.
  unfoldable pub named :
      Config
      → String
      → Span Value
      → List (Dimension Value)
      → Attributes Value
      → Services
      → String × Attributes Value × Services
  named cfg service span dims resource services =
      let (key, after) =
        build_metric_key conventions cfg.tracking cfg.delta service span dims resource services in
      (key, build_dimension_kvs conventions cfg.tracking service span dims resource after, after)

  -- A metric of calls: its key and its labels.
  unfoldable pub custom :
      Config
      → String
      → Span Value
      → List (Dimension Value)
      → Attributes Value
      → List String
      → Attributes Value
      → String × Attributes Value
  custom cfg service span dims resource extra_vals extra_dims = (
    build_custom_metric_key conventions cfg.delta service span dims resource extra_vals,
    build_custom_dimension_kvs conventions service span dims resource extra_dims,
  )

  unfoldable pub record_exp :
      Config
      → String
      → Span Value
      → Attributes Value
      → Services
      → Family lru Exp
      → Option (Family lru Exp) × Services
  unfolding named latency_of
  record_exp cfg service span resource services x =
      let (key, labels, after) = named cfg service span cfg.exp_dimensions resource services in
      let x' : Option (Family lru Exp) =
        record_span lru new_exp (λ e. some (update_exp (floats.millis (latency_of span)) e)) key
          labels x in
      if cfg.enable_exp_histogram then (x', after) else (some x, services)

  abbrev pub is_client : SpanKind → Bool
  is_client client = true
  is_client _ = false

  abbrev pub is_server : SpanKind → Bool
  is_server server = true
  is_server _ = false

  unfoldable pub record_external :
      Config → String → Span Value → Attributes Value → Histograms → Option Histograms
  unfolding custom record_latency
  record_external cfg service span resource x =
      if is_client span.kind
      then elim (get_remote_address remote span.attributes) [
        | none ↦ some x
        | some addr ↦
            let (key, labels) =
              custom cfg service span cfg.external_call_dimensions resource (addr ∷ [])
                (("address", conventions.value_str addr) ∷ []) in
            record_latency cfg span key labels x
      ]
      else some x

  unfoldable pub record_db :
      Config → String → Span Value → Attributes Value → Histograms → Option Histograms
  unfolding custom record_latency
  record_db cfg service span resource x =
      if is_server span.kind then some x else elim (lookup "db.system" span.attributes) [
        | none ↦ some x
        | some a ↦
            let (key, labels) = custom cfg service span cfg.db_call_dimensions resource [] [] in
            record_latency cfg span key labels x
      ]

  -- A processor of the parts that a span left, unless one panicked.
  abbrev pub assembled :
      Services
      → Option Histograms
      → Option (Family lru Exp)
      → Option Histograms
      → Option Histograms
      → Option Histograms
      → Option Processor
  assembled s (some l) (some e) (some c) (some x) (some d) =
      some
        (record { services = s; latency = l; exp = e; calls = c; external_calls = x; db_calls = d })
  assembled s _ _ _ _ _ = none

  unfoldable pub add_span :
      Config → String → Span Value → Attributes Value → Processor → Option Processor
  unfolding named record_latency record_exp record_external record_db
  add_span cfg service span resource p =
      let (key, labels, s₁) = named cfg service span cfg.dimensions resource p.services in
      let (exp', s₂) = record_exp cfg service span resource s₁ p.exp in
      let (call_key, call_labels, s₃) = named cfg service span cfg.call_dimensions resource s₂ in
      assembled s₃ (record_latency cfg span key labels p.latency) exp'
        (record_latency cfg span call_key call_labels p.calls)
        (record_external cfg service span resource p.external_calls)
        (record_db cfg service span resource p.db_calls)

  unfoldable pub aggregate_metrics_for_span :
      Config → ℕ → String → Span Value → Attributes Value → Processor → Option Processor
  unfolding is_stale should_skip add_span
  aggregate_metrics_for_span cfg now service span resource p =
      if is_stale cfg now span || should_skip cfg service span resource
      then some p
      else add_span cfg service span resource p
