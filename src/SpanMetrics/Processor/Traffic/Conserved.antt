-- ===== src/SpanMetrics/Processor/Traffic/Conserved.antt =====
-- All batches before an export against the export
-- (processor/signozspanmetricsprocessor/processor.go: ConsumeTraces, exportMetrics).
use Prim.Native.Nat.{ℕ, ◌+◌}
use mathlib.Core.List.{List, [], ◌∷◌}
use mathlib.Core.Option.{Option, none, some}
use otel_collector.Common.Tests.{comparable_string}
use otel_collector.SpanMetrics.Cache.{IsLru}
use otel_collector.SpanMetrics.Processor.{Library, Config, Processor}
use otel_collector.SpanMetrics.Processor.Traffic.{ResourceSpans, aggregate_metrics}
use otel_collector.SpanMetrics.Processor.Traffic.Aggregated.{spans_of}
use otel_collector.SpanMetrics.Processor.Traffic.Complete.{taken_batch}

module _ (lib : Library) where
  -- Batches that arrive, each at a time.
  unfoldable pub aggregate_batches :
      Config lib → List (ℕ × List (ResourceSpans lib)) → Processor lib → Option (Processor lib)
  aggregate_batches cfg [] p = some p
  aggregate_batches cfg ((now, rs) ∷ batches) p = elim (aggregate_metrics lib cfg now rs p) [
    | none ↦ none
    | some p' ↦ aggregate_batches cfg batches p'
  ]

  abbrev pub spans_of_batches : List (ℕ × List (ResourceSpans lib)) → ℕ
  spans_of_batches [] = 0
  spans_of_batches ((now, rs) ∷ batches) = spans_of lib rs + spans_of_batches batches

module _ (lib : Library) (laws : IsLru lib.lru) (cfg : Config lib) where
  abbrev pub taken_batches : List (ℕ × List (ResourceSpans lib)) → ℕ
  taken_batches [] = 0
  taken_batches ((now, rs) ∷ batches) = taken_batch lib laws cfg now rs + taken_batches batches
