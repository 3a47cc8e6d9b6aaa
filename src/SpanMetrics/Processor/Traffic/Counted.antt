-- ===== src/SpanMetrics/Processor/Traffic/Counted.antt =====
-- The counts of calls and of latencies through spans and batches
-- (processor/signozspanmetricsprocessor/processor.go: aggregateMetricsForSpan, aggregateMetrics).
use Prim.Native.Nat.{ℕ, ◌+◌, ◌<◌, ◌^◌}
use Prim.Native.String.{String}
use mathlib.Core.Bool.{◌||◌}
use mathlib.Core.Logic.{inl, inr}
use mathlib.Core.Option.{Option, none, some}
use mathlib.Core.Path.{◌≡◌, refl}
use native.Mathlib.Omega.{arith}
use otel_collector.Common.Dict.{lookup}
use otel_collector.Common.Dict.Keys.{All-lookup}
use otel_collector.Common.Tests.{if◌then◌else◌, Option-cases, Bool-cases, comparable_string}
use otel_collector.SpanMetrics.Cache.{IsLru}
use otel_collector.SpanMetrics.Family.{Family, update_histogram, record_span}
use otel_collector.SpanMetrics.Family.Sound.{IsSound}
use otel_collector.SpanMetrics.Histogram.{new_histogram}
use otel_collector.SpanMetrics.Histogram.Counts.{new_histogram-IsValid, observe-IsValid}
use otel_collector.SpanMetrics.Histogram.Sums.{
  counts_of, counts_of-insert_new, counts_of-insert_old,
}
use otel_collector.SpanMetrics.Key.{Attributes, Span, Services}
use otel_collector.SpanMetrics.Processor.{
  Library, Config, Histograms, Processor, latency_of, named, record_latency, record_exp,
  record_external, record_db, assembled, add_span, is_stale, should_skip,
  aggregate_metrics_for_span,
}
use otel_collector.SpanMetrics.Processor.Traffic.Recorded.{IsCounted, IsGood}

module _ (lib : Library) (laws : IsLru lib.lru) (cfg : Config lib) where
  open lib use {Value, floats, lru, Exp}

  record_latency-counts :
      (n : ℕ) (span : Span Value) (key : String) (labels : Attributes Value) (x y : Histograms lib)
      → n + 1 < 2 ^ 64
      → IsSound lru (IsCounted lib laws cfg n) x
      → record_latency lib cfg span key labels x ≡ some y
      → counts_of floats y.histograms ≡ counts_of floats x.histograms + 1
  unfolding record_latency record_span update_histogram
  record_latency-counts n span key labels x y small sound e =
      let latency = floats.millis (latency_of lib span) in
      let fresh = new_histogram floats cfg.latency_bounds in
      elim (Option-cases (lookup key x.histograms)) [
        | inl new ↦
            let zero_count : fresh.count ≡ 0 = (unfold new_histogram in refl) in
            let (h, seen, valid, more) =
              observe-IsValid floats cfg.latency_bounds latency span.trace_id span.span_id fresh
                (new_histogram-IsValid floats cfg.latency_bounds)
                (omega (arith, zero_count, small)) in
            ground (
              arith,
              new,
              seen,
              e,
              more,
              zero_count,
              counts_of-insert_new floats key h x.histograms new,
            )
        | inr (old, here) ↦
            let counted =
              All-lookup (λ h. IsCounted lib laws cfg n h) key x.histograms sound.holding here in
            let (h, seen, valid, more) =
              observe-IsValid floats cfg.latency_bounds latency span.trace_id span.span_id old
                counted.0 (omega (arith, counted.1, small)) in
            ground
              (arith, here, seen, e, counts_of-insert_old floats key h old x.histograms here more)
      ]

  -- The counts grow by a number, for calls and for latencies.
  abbrev pub Grows : ℕ → Processor lib → Processor lib → Type 0
  Grows k p q =
      (counts_of floats q.calls.histograms ≡ counts_of floats p.calls.histograms + k)
      × (counts_of floats q.latency.histograms ≡ counts_of floats p.latency.histograms + k)

  assembled-parts :
      (s : Services) (l : Option (Histograms lib)) (e : Option (Family lru Exp))
      (c x d : Option (Histograms lib)) (q : Processor lib)
      → assembled lib s l e c x d ≡ some q
      → (l ≡ some q.latency) × (c ≡ some q.calls)
  assembled-parts s none e c x d q h = absurd (ground (arith, h))
  assembled-parts s (some l) none c x d q h = absurd (ground (arith, h))
  assembled-parts s (some l) (some e) none x d q h = absurd (ground (arith, h))
  assembled-parts s (some l) (some e) (some c) none d q h = absurd (ground (arith, h))
  assembled-parts s (some l) (some e) (some c) (some x) none q h = absurd (ground (arith, h))
  assembled-parts s (some l) (some e) (some c) (some x) (some d) q h =
      (ground (arith, h), ground (arith, h))

  pub add_span-Grows :
      (n : ℕ) (service : String) (span : Span Value) (resource : Attributes Value)
      (p q : Processor lib)
      → n + 1 < 2 ^ 64
      → IsGood lib laws cfg n p
      → add_span lib cfg service span resource p ≡ some q
      → Grows 1 p q
  unfolding add_span
  add_span-Grows n service span resource p q small good e =
      let (key, labels, s₁) = named lib cfg service span cfg.dimensions resource p.services in
      let (exp', s₂) = record_exp lib cfg service span resource s₁ p.exp in
      let (call_key, call_labels, s₃) =
        named lib cfg service span cfg.call_dimensions resource s₂ in
      let (l, c) =
        assembled-parts s₃ (record_latency lib cfg span key labels p.latency) exp'
          (record_latency lib cfg span call_key call_labels p.calls)
          (record_external lib cfg service span resource p.external_calls)
          (record_db lib cfg service span resource p.db_calls) q e in
      (
        record_latency-counts n span call_key call_labels p.calls q.calls small good.calls c,
        record_latency-counts n span key labels p.latency q.latency small good.latency l,
      )

  -- A span that is counted, or passed over.
  abbrev pub taken_span : ℕ → String → Attributes Value → Span Value → ℕ
  taken_span now service resource span =
      if is_stale lib cfg now span || should_skip lib cfg service span resource then 0 else 1

  pub aggregate_span-Grows :
      (n now : ℕ) (service : String) (span : Span Value) (resource : Attributes Value)
      (p q : Processor lib)
      → n + 1 < 2 ^ 64
      → IsGood lib laws cfg n p
      → aggregate_metrics_for_span lib cfg now service span resource p ≡ some q
      → Grows (taken_span now service resource span) p q
  unfolding aggregate_metrics_for_span
  aggregate_span-Grows n now service span resource p q small good e =
      elim (Bool-cases (is_stale lib cfg now span || should_skip lib cfg service span resource)) [
        | inl out ↦ (ground (arith, out, e), ground (arith, out, e))
        | inr taken ↦
            let grown =
              add_span-Grows n service span resource p q small good (ground (arith, taken, e)) in
            (ground (arith, taken, grown.0), ground (arith, taken, grown.1))
      ]
