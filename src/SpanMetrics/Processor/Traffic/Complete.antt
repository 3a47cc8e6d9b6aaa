-- ===== src/SpanMetrics/Processor/Traffic/Complete.antt =====
-- The spans of a batch against the counts of the next export
-- (processor/signozspanmetricsprocessor/processor.go: aggregateMetrics, exportMetrics).
use Prim.Native.Nat.{ℕ, ◌+◌, ◌<◌, ◌^◌}
use Prim.Native.String.{String}
use mathlib.Core.List.{List, [], ◌∷◌}
use mathlib.Core.Logic.{inl, inr}
use mathlib.Core.Option.{none, some}
use mathlib.Core.Path.{◌≡◌}
use native.Mathlib.Omega.{arith}
use otel_collector.Common.Dict.{lookup, insert}
use otel_collector.Common.Lists.{length}
use otel_collector.Common.Tests.{Option-cases, comparable_string}
use otel_collector.SpanMetrics.Cache.{IsLru}
use otel_collector.SpanMetrics.Key.{Attributes, Span}
use otel_collector.SpanMetrics.Processor.{Library, Config, Processor}
use otel_collector.SpanMetrics.Processor.Traffic.{
  ResourceSpans, aggregate_spans, aggregate_scopes, aggregate_resource, aggregate_metrics,
}
use otel_collector.SpanMetrics.Processor.Traffic.Aggregated.{
  spans_in, spans_of, aggregate_span-IsGood, aggregate_spans-IsGood, aggregate_resource-IsGood,
}
use otel_collector.SpanMetrics.Processor.Traffic.Counted.{Grows, taken_span, aggregate_span-Grows}
use otel_collector.SpanMetrics.Processor.Traffic.Recorded.{IsGood}

module _ (lib : Library) (laws : IsLru lib.lru) (cfg : Config lib) where
  open lib use {Value, floats, lru}

  -- The number of spans that are counted: those that are neither stale nor skipped, of resources with
  -- a service name.
  abbrev pub taken_spans : ℕ → String → Attributes Value → List (Span Value) → ℕ
  taken_spans now service resource [] = 0
  taken_spans now service resource (span ∷ spans) =
      taken_span lib laws cfg now service resource span + taken_spans now service resource spans

  abbrev pub taken_scopes : ℕ → String → Attributes Value → List (List (Span Value)) → ℕ
  taken_scopes now service resource [] = 0
  taken_scopes now service resource (spans ∷ scopes) =
      taken_spans now service resource spans + taken_scopes now service resource scopes

  abbrev pub taken_resource : ℕ → ResourceSpans lib → ℕ
  taken_resource now r = elim (lookup lib.conventions.service_name_key r.resource) [
    | none ↦ 0
    | some service ↦
        taken_scopes now (lib.remote.str service)
          (insert "signoz.collector.id" (lib.conventions.value_str cfg.instance_id) r.resource)
          r.scope_spans
  ]

  abbrev pub taken_batch : ℕ → List (ResourceSpans lib) → ℕ
  taken_batch now [] = 0
  taken_batch now (r ∷ rs) = taken_resource now r + taken_batch now rs

  pub Grows-add :
      (j k : ℕ) (p q r : Processor lib)
      → Grows lib laws cfg j p q
      → Grows lib laws cfg k q r
      → Grows lib laws cfg (j + k) p r
  Grows-add j k p q r first next = (omega (arith, first.0, next.0), omega (arith, first.1, next.1))

  aggregate_spans-Grows :
      (n now : ℕ) (service : String) (resource : Attributes Value) (spans : List (Span Value))
      (p q : Processor lib)
      → n + length spans < 2 ^ 64
      → IsGood lib laws cfg n p
      → aggregate_spans lib cfg now service resource spans p ≡ some q
      → Grows lib laws cfg (taken_spans now service resource spans) p q
  unfolding aggregate_spans
  aggregate_spans-Grows n now service resource [] p q small good e =
      (ground (arith, e), ground (arith, e))
  aggregate_spans-Grows n now service resource (span ∷ spans) p q small good e =
      let (p', done, kept) =
        aggregate_span-IsGood lib laws cfg n now service span resource p (omega (arith, small))
          good in
      Grows-add (taken_span lib laws cfg now service resource span)
        (taken_spans now service resource spans) p p' q
        (aggregate_span-Grows lib laws cfg n now service span resource p p' (omega (arith, small))
          good done)
        (aggregate_spans-Grows (n + 1) now service resource spans p' q (omega (arith, small)) kept
          (ground (arith, done, e)))

  aggregate_scopes-Grows :
      (n now : ℕ) (service : String) (resource : Attributes Value)
      (scopes : List (List (Span Value))) (p q : Processor lib)
      → n + spans_in lib scopes < 2 ^ 64
      → IsGood lib laws cfg n p
      → aggregate_scopes lib cfg now service resource scopes p ≡ some q
      → Grows lib laws cfg (taken_scopes now service resource scopes) p q
  unfolding aggregate_scopes
  aggregate_scopes-Grows n now service resource [] p q small good e =
      (ground (arith, e), ground (arith, e))
  aggregate_scopes-Grows n now service resource (spans ∷ scopes) p q small good e =
      let (p', done, kept) =
        aggregate_spans-IsGood lib laws cfg n now service resource spans p (omega (arith, small))
          good in
      Grows-add (taken_spans now service resource spans) (taken_scopes now service resource scopes)
        p p' q
        (aggregate_spans-Grows n now service resource spans p p' (omega (arith, small)) good done)
        (aggregate_scopes-Grows (n + length spans) now service resource scopes p' q
          (omega (arith, small)) kept (ground (arith, done, e)))

  aggregate_resource-Grows :
      (n now : ℕ) (r : ResourceSpans lib) (p q : Processor lib)
      → n + spans_in lib r.scope_spans < 2 ^ 64
      → IsGood lib laws cfg n p
      → aggregate_resource lib cfg now r p ≡ some q
      → Grows lib laws cfg (taken_resource now r) p q
  unfolding aggregate_resource
  aggregate_resource-Grows n now r p q small good e =
      elim (Option-cases (lookup lib.conventions.service_name_key r.resource)) [
        | inl nameless ↦ (ground (arith, nameless, e), ground (arith, nameless, e))
        | inr (service, named) ↦
            let grown =
              aggregate_scopes-Grows n now (lib.remote.str service)
                (insert "signoz.collector.id" (lib.conventions.value_str cfg.instance_id)
                  r.resource)
                r.scope_spans p q small good (ground (arith, named, e)) in
            (ground (arith, named, grown.0), ground (arith, named, grown.1))
      ]

  pub aggregate_metrics-Grows :
      (n now : ℕ) (rs : List (ResourceSpans lib)) (p q : Processor lib)
      → n + spans_of lib rs < 2 ^ 64
      → IsGood lib laws cfg n p
      → aggregate_metrics lib cfg now rs p ≡ some q
      → Grows lib laws cfg (taken_batch now rs) p q
  unfolding aggregate_metrics
  aggregate_metrics-Grows n now [] p q small good e = (ground (arith, e), ground (arith, e))
  aggregate_metrics-Grows n now (r ∷ rs) p q small good e =
      let (p', done, kept) =
        aggregate_resource-IsGood lib laws cfg n now r p (omega (arith, small)) good in
      Grows-add (taken_resource now r) (taken_batch now rs) p p' q
        (aggregate_resource-Grows n now r p p' (omega (arith, small)) good done)
        (aggregate_metrics-Grows (n + spans_in lib r.scope_spans) now rs p' q (omega (arith, small))
          kept (ground (arith, done, e)))
