-- ===== src/SpanMetrics/Histogram/Sums.antt =====
-- The latencies that the histograms of a family have counted, and the data points made of them
-- (processor/signozspanmetricsprocessor/processor.go: updateHistogram, collectLatencyMetrics).
use Prim.Native.Nat.{ℕ, ◌+◌}
use Prim.Native.String.{String}
use mathlib.Core.List.{List, [], ◌∷◌}
use mathlib.Core.Logic.{inl, inr}
use mathlib.Core.Option.{none, some}
use mathlib.Core.Path.{◌≡◌, refl, subst}
use native.Mathlib.Omega.{arith}
use otel_collector.Common.Dict.{lookup, insert}
use otel_collector.Common.Tests.{Bool-cases, Option-cases, ◌==◌, comparable_string}
use otel_collector.SpanMetrics.Cache.{Lru, Cache, get}
use otel_collector.SpanMetrics.Family.{collect}
use otel_collector.SpanMetrics.Histogram.{Floats, HistogramData}

module _ (f : Floats) where
  abbrev pub counts_of : List (String × HistogramData f) → ℕ
  counts_of [] = 0
  counts_of ((key, h) ∷ histograms) = h.count + counts_of histograms

  abbrev pub point_counts : {L : Type 0} → List (HistogramData f × L) → ℕ
  point_counts [] = 0
  point_counts ((h, labels) ∷ points) = h.count + point_counts points

  pub counts_of-insert_new :
      (key : String) (h : HistogramData f) (histograms : List (String × HistogramData f))
      → lookup key histograms ≡ none
      → counts_of (insert key h histograms) ≡ counts_of histograms + h.count
  unfolding insert lookup
  counts_of-insert_new key h [] new = omega arith
  counts_of-insert_new key h ((k, old) ∷ histograms) new = elim (Bool-cases (k == key)) [
    | inl same ↦ absurd (ground (arith, same, new))
    | inr other ↦
        let ih = counts_of-insert_new key h histograms (ground (arith, other, new)) in
        ground (arith, other, ih)
  ]

  pub counts_of-insert_old :
      (key : String) (h old : HistogramData f) (histograms : List (String × HistogramData f))
      → lookup key histograms ≡ some old
      → h.count ≡ old.count + 1
      → counts_of (insert key h histograms) ≡ counts_of histograms + 1
  unfolding insert lookup
  counts_of-insert_old key h old [] here more = absurd (ground (arith, here))
  counts_of-insert_old key h old ((k, o) ∷ histograms) here more = elim (Bool-cases (k == key)) [
    | inl same ↦ ground (arith, same, here, more)
    | inr other ↦
        let ih = counts_of-insert_old key h old histograms (ground (arith, other, here)) more in
        ground (arith, other, ih)
  ]

  pub point_counts-collect :
      {L : Type 0} (l : Lru String L) (histograms : List (String × HistogramData f)) (x : Cache l)
      (points : List (HistogramData f × L))
      → (collect l histograms x).0 ≡ some points
      → point_counts points ≡ counts_of histograms
  unfolding collect
  point_counts-collect l [] x [] e = refl
  point_counts-collect l [] x (q ∷ points) e = absurd (ground (arith, e))
  point_counts-collect l ((key, h) ∷ histograms) x points e = elim (Option-cases (get l key x).0) [
    | inl lost ↦ absurd (ground (arith, e, lost))
    | inr (labels, found) ↦ elim (Option-cases (collect l histograms (get l key x).1).0) [
      | inl failed ↦ absurd (ground (arith, e, found, failed))
      | inr (ps, done) ↦
          let same : (h, labels) ∷ ps ≡ points = ground (arith, e, found, done) in
          subst (λ qs. point_counts qs ≡ counts_of ((key, h) ∷ histograms)) same
            (omega (arith, point_counts-collect l histograms (get l key x).1 ps done))
    ]
  ]
