-- ===== src/SpanMetrics/Processor/Traffic/Exported.antt =====
-- The families of metrics through an export
-- (processor/signozspanmetricsprocessor/processor.go: aggregateMetrics, buildMetrics, exportMetrics).
use Prim.Native.Nat.{ℕ, ◌≤◌}
use Prim.Native.String.{String}
use mathlib.Core.List.{List, [], ◌∷◌}
use mathlib.Core.Option.{some}
use mathlib.Core.Path.{◌≡◌, refl, ap, subst, sym}
use native.Mathlib.Omega.{arith}
use otel_collector.Common.Lists.{All}
use otel_collector.Common.Tests.{comparable_string}
use otel_collector.SpanMetrics.Cache.{IsLru, Cache}
use otel_collector.SpanMetrics.Family.{collect, settle}
use otel_collector.SpanMetrics.Family.Labelled.{AreLabelled}
use otel_collector.SpanMetrics.Family.Sound.{Each, IsSound, settle-IsSound, collect-IsSound}
use otel_collector.SpanMetrics.Histogram.{HistogramData}
use otel_collector.SpanMetrics.Histogram.Sums.{counts_of, point_counts, point_counts-collect}
use otel_collector.SpanMetrics.Key.{Attributes}
use otel_collector.SpanMetrics.Processor.{Library, Config, Histograms, Processor}
use otel_collector.SpanMetrics.Processor.Traffic.{
  Metrics, clear_exemplars, without_exemplars, reset_exemplar_data, settled, collected, collect_exp,
  collect_db_calls, collect_external_calls, collect_latency, collect_calls, no_metrics,
  build_metrics, export_metrics,
}
use otel_collector.SpanMetrics.Processor.Traffic.Recorded.{IsCounted, IsAny, IsGood}

module _ (lib : Library) (laws : IsLru lib.lru) (cfg : Config lib) where
  open lib use {Value, floats, lru, Exp}

  clear_exemplars-Each :
      (n : ℕ) (hs : List (String × HistogramData floats))
      → Each (IsCounted lib laws cfg n) hs
      → Each (IsCounted lib laws cfg n) (clear_exemplars lib hs)
  clear_exemplars-Each n [] all = tt
  clear_exemplars-Each n ((key, h) ∷ hs) all = (
    (record { buckets = all.0.0.buckets; counted = all.0.0.counted }, all.0.1),
    clear_exemplars-Each n hs all.1,
  )

  clear_exemplars-AreLabelled :
      (hs : List (String × HistogramData floats)) (x : Cache lru)
      → AreLabelled lru hs x
      → AreLabelled lru (clear_exemplars lib hs) x
  clear_exemplars-AreLabelled [] x all = tt
  clear_exemplars-AreLabelled ((key, h) ∷ hs) x all =
      (all.0, clear_exemplars-AreLabelled hs x all.1)

  without_exemplars-IsSound :
      (n : ℕ) (x : Histograms lib)
      → IsSound lru (IsCounted lib laws cfg n) x
      → IsSound lru (IsCounted lib laws cfg n) (without_exemplars lib x)
  without_exemplars-IsSound n x sound = record {
    holding = clear_exemplars-Each n x.histograms sound.holding;
    labelled = clear_exemplars-AreLabelled x.histograms x.dimensions sound.labelled;
  }

  reset_exemplar_data-IsGood :
      (n : ℕ) (p : Processor lib)
      → IsGood lib laws cfg n p
      → IsGood lib laws cfg n (reset_exemplar_data lib p)
  unfolding reset_exemplar_data
  reset_exemplar_data-IsGood n p good = record {
    latency = without_exemplars-IsSound n p.latency good.latency;
    calls = without_exemplars-IsSound n p.calls good.calls;
    external_calls = without_exemplars-IsSound n p.external_calls good.external_calls;
    db_calls = without_exemplars-IsSound n p.db_calls good.db_calls;
    exp = good.exp;
  }

  settled-IsGood :
      (n : ℕ) (p : Processor lib)
      → IsGood lib laws cfg n p
      → IsGood lib laws cfg n (settled lib cfg p)
  unfolding settled
  settled-IsGood n p good =
      let counted = IsCounted lib laws cfg n in
      reset_exemplar_data-IsGood n
        (record p {
          latency = settle lru cfg.delta p.latency;
          exp = settle lru cfg.delta p.exp;
          calls = settle lru cfg.delta p.calls;
          db_calls = settle lru cfg.delta p.db_calls;
          external_calls = settle lru cfg.delta p.external_calls;
        })
        record {
          latency = settle-IsSound lru laws counted cfg.delta p.latency good.latency;
          calls = settle-IsSound lru laws counted cfg.delta p.calls good.calls;
          external_calls =
              settle-IsSound lru laws counted cfg.delta p.external_calls good.external_calls;
          db_calls = settle-IsSound lru laws counted cfg.delta p.db_calls good.db_calls;
          exp = settle-IsSound lru laws (IsAny lib laws cfg) cfg.delta p.exp good.exp;
        }

  abbrev all_collected : Processor lib → Processor lib
  all_collected p = record p {
    calls = collected lib p.calls (collect lru p.calls.histograms p.calls.dimensions).1;
    latency = collected lib p.latency (collect lru p.latency.histograms p.latency.dimensions).1;
    external_calls =
        collected lib p.external_calls
          (collect lru p.external_calls.histograms p.external_calls.dimensions).1;
    db_calls = collected lib p.db_calls (collect lru p.db_calls.histograms p.db_calls.dimensions).1;
    exp = collected lib p.exp (collect lru p.exp.histograms p.exp.dimensions).1;
  }

  abbrev pub EachPoint : ℕ → List (HistogramData floats × Attributes Value) → Type 0
  EachPoint n points =
      All (λ (q : HistogramData floats × Attributes Value). IsCounted lib laws cfg n q.0) points

  EachPoint-mono :
      (n m : ℕ) (points : List (HistogramData floats × Attributes Value))
      → n ≤ m
      → EachPoint n points
      → EachPoint m points
  EachPoint-mono n m [] le all = tt
  EachPoint-mono n m (q ∷ points) le all =
      ((all.0.0, omega (arith, all.0.1, le)), EachPoint-mono n m points le all.1)

  -- The counts of the data points.
  pub record AreCounted (n : ℕ) (m : Metrics lib) : Type 0 where
    pub calls : EachPoint n m.calls
    pub latency : EachPoint n m.latency
    pub external_calls : EachPoint n m.external_calls
    pub db_calls : EachPoint n m.db_calls

  pub AreCounted-mono : (n m : ℕ) (x : Metrics lib) → n ≤ m → AreCounted n x → AreCounted m x
  AreCounted-mono n m x le all = record {
    calls = EachPoint-mono n m x.calls le all.calls;
    latency = EachPoint-mono n m x.latency le all.latency;
    external_calls = EachPoint-mono n m x.external_calls le all.external_calls;
    db_calls = EachPoint-mono n m x.db_calls le all.db_calls;
  }

  -- The data points of calls and latencies hold what was counted.
  abbrev pub IsComplete : Metrics lib → Processor lib → Type 0
  IsComplete m p =
      (point_counts floats m.calls ≡ counts_of floats p.calls.histograms)
      × (point_counts floats m.latency ≡ counts_of floats p.latency.histograms)

  collect_calls-IsGood :
      (n : ℕ) (p : Processor lib)
      → IsGood lib laws cfg n p
      → (m : Metrics lib) × ((collect_calls lib (no_metrics lib) p).0 ≡ some m)
        × AreCounted n m
        × IsGood lib laws cfg n (collect_calls lib (no_metrics lib) p).1
        × IsComplete m p
  unfolding collect_calls
  collect_calls-IsGood n p good =
      let counted = IsCounted lib laws cfg n in
      let (c, c_done, c_all, c_kept) = collect-IsSound lru laws counted p.calls good.calls in
      let (l, l_done, l_all, l_kept) = collect-IsSound lru laws counted p.latency good.latency in
      let (x, x_done, x_all, x_kept) =
        collect-IsSound lru laws counted p.external_calls good.external_calls in
      let (d, d_done, d_all, d_kept) = collect-IsSound lru laws counted p.db_calls good.db_calls in
      let (e, e_done, e_all, e_kept) =
        collect-IsSound lru laws (IsAny lib laws cfg) p.exp good.exp in
      let m : Metrics lib = record {
        calls = c;
        latency = l;
        external_calls = x;
        db_calls = d;
        exp = e;
      } in
      let done : collect_calls lib (no_metrics lib) p ≡ (some m, all_collected p) =
        rw
          (
            collect_calls, c_done, collect_latency, l_done, collect_external_calls, x_done,
            collect_db_calls, d_done, collect_exp, e_done,
          )
          refl in
      (
        m,
        ap (λ r. r.0) done,
        record { calls = c_all; latency = l_all; external_calls = x_all; db_calls = d_all },
        subst (λ (q : Processor lib). IsGood lib laws cfg n q) (sym (ap (λ r. r.1) done))
            record {
              latency = l_kept;
              calls = c_kept;
              external_calls = x_kept;
              db_calls = d_kept;
              exp = e_kept;
            },
        (
          point_counts-collect floats lru p.calls.histograms p.calls.dimensions c c_done,
          point_counts-collect floats lru p.latency.histograms p.latency.dimensions l l_done,
        ),
      )

  pub export_metrics-IsGood :
      (n : ℕ) (p : Processor lib)
      → IsGood lib laws cfg n p
      → (m : Metrics lib) × ((export_metrics lib cfg p).0 ≡ some m)
        × AreCounted n m
        × IsGood lib laws cfg n (export_metrics lib cfg p).1
        × IsComplete m p
  unfolding export_metrics build_metrics
  export_metrics-IsGood n p good =
      let (m, done, counted, kept, whole) = collect_calls-IsGood n p good in
      let built : build_metrics lib cfg p
          ≡ (some m, settled lib cfg (collect_calls lib (no_metrics lib) p).1) =
        rw (build_metrics, done) refl in
      (
        m,
        ap (λ r. r.0) built,
        counted,
        reset_exemplar_data-IsGood n (build_metrics lib cfg p).1 (
            subst (λ (q : Processor lib). IsGood lib laws cfg n q) (sym (ap (λ r. r.1) built))
              (settled-IsGood n (collect_calls lib (no_metrics lib) p).1 kept)),
        whole,
      )
