-- ===== src/SpanMetrics/Processor/Traffic/Aggregated.antt =====
-- The families of metrics through a batch of traces
-- (processor/signozspanmetricsprocessor/processor.go: aggregateMetrics).
use Prim.Native.Nat.{ℕ, suc, ◌+◌, ◌≤◌, ◌<◌, ◌^◌}
use Prim.Native.String.{String}
use mathlib.Core.Bool.{◌||◌}
use mathlib.Core.List.{List, [], ◌∷◌}
use mathlib.Core.Logic.{inl, inr}
use mathlib.Core.Option.{some}
use mathlib.Core.Path.{◌≡◌, refl}
use native.Mathlib.Omega.{arith}
use otel_collector.Common.Dict.{lookup, insert}
use otel_collector.Common.Lists.{length}
use otel_collector.Common.Tests.{Option-cases, Bool-cases, comparable_string}
use otel_collector.SpanMetrics.Cache.{IsLru}
use otel_collector.SpanMetrics.Family.Sound.{IsSound-mono}
use otel_collector.SpanMetrics.Histogram.{HistogramData}
use otel_collector.SpanMetrics.Key.{Attributes, Span}
use otel_collector.SpanMetrics.Processor.{
  Library, Config, Processor, is_stale, should_skip, aggregate_metrics_for_span,
}
use otel_collector.SpanMetrics.Processor.Traffic.{
  ResourceSpans, aggregate_spans, aggregate_scopes, aggregate_resource, aggregate_metrics, Event,
  traces, tick,
}
use otel_collector.SpanMetrics.Processor.Traffic.Recorded.{IsCounted, IsGood, add_span-IsGood}

module _ (lib : Library) where
  open lib use {Value}

  -- The number of spans of a batch.
  abbrev pub spans_in : List (List (Span Value)) → ℕ
  spans_in [] = 0
  spans_in (spans ∷ scopes) = length spans + spans_in scopes

  abbrev pub spans_of : List (ResourceSpans lib) → ℕ
  spans_of [] = 0
  spans_of (r ∷ rs) = spans_in r.scope_spans + spans_of rs

  abbrev pub spans_in_events : List (Event lib) → ℕ
  spans_in_events [] = 0
  spans_in_events (traces now rs ∷ events) = spans_of rs + spans_in_events events
  spans_in_events (tick ∷ events) = spans_in_events events

  abbrev pub ticks : List (Event lib) → ℕ
  ticks [] = 0
  ticks (traces now rs ∷ events) = ticks events
  ticks (tick ∷ events) = suc (ticks events)

module _ (lib : Library) (laws : IsLru lib.lru) (cfg : Config lib) where
  open lib use {Value, floats, lru, Exp}

  pub IsGood-more :
      (n m : ℕ) (p : Processor lib) → n ≤ m → IsGood lib laws cfg n p → IsGood lib laws cfg m p
  IsGood-more n m p le good =
      let more = IsSound-mono lru (IsCounted lib laws cfg n) (IsCounted lib laws cfg m) in
      let step : (h : HistogramData floats)
          → IsCounted lib laws cfg n h
          → IsCounted lib laws cfg m h =
        λ h counted. (counted.0, omega (arith, counted.1, le)) in
      record {
        latency = more p.latency step good.latency;
        calls = more p.calls step good.calls;
        external_calls = more p.external_calls step good.external_calls;
        db_calls = more p.db_calls step good.db_calls;
        exp = good.exp;
      }

  pub aggregate_span-IsGood :
      (n now : ℕ) (service : String) (span : Span Value) (resource : Attributes Value)
      (p : Processor lib)
      → n + 1 < 2 ^ 64
      → IsGood lib laws cfg n p
      → (q : Processor lib) × (aggregate_metrics_for_span lib cfg now service span resource p
          ≡ some q)
        × IsGood lib laws cfg (n + 1) q
  unfolding aggregate_metrics_for_span
  aggregate_span-IsGood n now service span resource p small good =
      elim (Bool-cases (is_stale lib cfg now span || should_skip lib cfg service span resource)) [
        | inl out ↦ (
          p,
          rw (aggregate_metrics_for_span, out) refl,
          IsGood-more n (n + 1) p (omega arith) good,
        )
        | inr taken ↦
            let (q, done, kept) =
              add_span-IsGood lib laws cfg n service span resource p small good in
            (q, rw (aggregate_metrics_for_span, taken) done, kept)
      ]

  pub aggregate_spans-IsGood :
      (n now : ℕ) (service : String) (resource : Attributes Value) (spans : List (Span Value))
      (p : Processor lib)
      → n + length spans < 2 ^ 64
      → IsGood lib laws cfg n p
      → (q : Processor lib) × (aggregate_spans lib cfg now service resource spans p ≡ some q)
        × IsGood lib laws cfg (n + length spans) q
  unfolding aggregate_spans
  aggregate_spans-IsGood n now service resource [] p small good =
      (p, refl, IsGood-more n (n + 0) p (omega arith) good)
  aggregate_spans-IsGood n now service resource (span ∷ spans) p small good =
      let (p', done, kept) =
        aggregate_span-IsGood n now service span resource p (omega (arith, small)) good in
      let (q, rest, good') =
        aggregate_spans-IsGood (n + 1) now service resource spans p' (omega (arith, small)) kept in
      (
        q,
        rw (aggregate_spans, done) rest,
        IsGood-more (n + 1 + length spans) (n + length (span ∷ spans)) q (omega arith) good',
      )

  pub aggregate_scopes-IsGood :
      (n now : ℕ) (service : String) (resource : Attributes Value)
      (scopes : List (List (Span Value))) (p : Processor lib)
      → n + spans_in lib scopes < 2 ^ 64
      → IsGood lib laws cfg n p
      → (q : Processor lib) × (aggregate_scopes lib cfg now service resource scopes p ≡ some q)
        × IsGood lib laws cfg (n + spans_in lib scopes) q
  unfolding aggregate_scopes
  aggregate_scopes-IsGood n now service resource [] p small good =
      (p, refl, IsGood-more n (n + 0) p (omega arith) good)
  aggregate_scopes-IsGood n now service resource (spans ∷ scopes) p small good =
      let (p', done, kept) =
        aggregate_spans-IsGood n now service resource spans p (omega (arith, small)) good in
      let (q, rest, good') =
        aggregate_scopes-IsGood (n + length spans) now service resource scopes p'
          (omega (arith, small)) kept in
      (
        q,
        rw (aggregate_scopes, done) rest,
        IsGood-more (n + length spans + spans_in lib scopes) (n + spans_in lib (spans ∷ scopes)) q
            (omega arith) good',
      )

  pub aggregate_resource-IsGood :
      (n now : ℕ) (r : ResourceSpans lib) (p : Processor lib)
      → n + spans_in lib r.scope_spans < 2 ^ 64
      → IsGood lib laws cfg n p
      → (q : Processor lib) × (aggregate_resource lib cfg now r p ≡ some q)
        × IsGood lib laws cfg (n + spans_in lib r.scope_spans) q
  unfolding aggregate_resource
  aggregate_resource-IsGood n now r p small good =
      elim (Option-cases (lookup lib.conventions.service_name_key r.resource)) [
        | inl nameless ↦ (
          p,
          rw (aggregate_resource, nameless) refl,
          IsGood-more n (n + spans_in lib r.scope_spans) p (omega arith) good,
        )
        | inr (service, e) ↦
            let (q, done, kept) =
              aggregate_scopes-IsGood n now (lib.remote.str service)
                (insert "signoz.collector.id" (lib.conventions.value_str cfg.instance_id)
                  r.resource)
                r.scope_spans p small good in
            (q, rw (aggregate_resource, e) done, kept)
      ]

  pub aggregate_metrics-IsGood :
      (n now : ℕ) (rs : List (ResourceSpans lib)) (p : Processor lib)
      → n + spans_of lib rs < 2 ^ 64
      → IsGood lib laws cfg n p
      → (q : Processor lib) × (aggregate_metrics lib cfg now rs p ≡ some q)
        × IsGood lib laws cfg (n + spans_of lib rs) q
  unfolding aggregate_metrics
  aggregate_metrics-IsGood n now [] p small good =
      (p, refl, IsGood-more n (n + 0) p (omega arith) good)
  aggregate_metrics-IsGood n now (r ∷ rs) p small good =
      let (p', done, kept) = aggregate_resource-IsGood n now r p (omega (arith, small)) good in
      let (q, rest, good') =
        aggregate_metrics-IsGood (n + spans_in lib r.scope_spans) now rs p' (omega (arith, small))
          kept in
      (
        q,
        rw (aggregate_metrics, done) rest,
        IsGood-more (n + spans_in lib r.scope_spans + spans_of lib rs) (n + spans_of lib (r ∷ rs)) q
            (omega arith) good',
      )
