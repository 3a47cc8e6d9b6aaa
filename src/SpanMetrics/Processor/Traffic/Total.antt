-- ===== src/SpanMetrics/Processor/Traffic/Total.antt =====
-- Batches and exports in any order
-- (processor/signozspanmetricsprocessor/processor.go: ConsumeTraces, exportMetrics).
use Prim.Native.Nat.{ℕ}
use mathlib.Core.List.{List}
use mathlib.Core.Option.{Option, some}
use mathlib.Core.Path.{◌≡◌}
use otel_collector.Common.Tests.{comparable_string}
use otel_collector.SpanMetrics.Cache.{IsLru}
use otel_collector.SpanMetrics.Processor.{Library, Config, Processor}
use otel_collector.SpanMetrics.Processor.Traffic.{Metrics, new_processor}
use otel_collector.SpanMetrics.Processor.Traffic.Exported.{AreCounted}
use otel_collector.SpanMetrics.Processor.Traffic.Recorded.{IsGood}

module _ (lib : Library) (laws : IsLru lib.lru) (cfg : Config lib) where
  -- An export that gave metrics.
  abbrev pub IsExported : ℕ → Option (Metrics lib) → Type 0
  IsExported n o = (m : Metrics lib) × (o ≡ some m) × AreCounted lib laws cfg n m

  pub new_processor-IsGood : (s : lib.lru.State) → IsGood lib laws cfg 0 (new_processor lib s)
  unfolding new_processor
  new_processor-IsGood s = record {
    latency = record { holding = tt; labelled = tt };
    calls = record { holding = tt; labelled = tt };
    external_calls = record { holding = tt; labelled = tt };
    db_calls = record { holding = tt; labelled = tt };
    exp = record { holding = tt; labelled = tt };
  }
