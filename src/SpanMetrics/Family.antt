-- ===== src/SpanMetrics/Family.antt =====
-- One family of metrics of the processor: its histograms by key, and the labels of the keys
-- (processor/signozspanmetricsprocessor/processor.go: the map and the cache of each of the five metrics).
use Prim.Native.String.{String}
use mathlib.Core.Bool.{Bool, true, false}
use mathlib.Core.List.{List, [], ◌∷◌}
use mathlib.Core.Option.{Option, none, some}
use otel_collector.Common.Dict.{lookup, insert}
use otel_collector.Common.Tests.{if◌then◌else◌, comparable_string}
use otel_collector.SpanMetrics.Cache.{Lru, Cache, add, get, contains, remove_evicted_items, purge}
pub mod Labelled
pub mod Sound

module _ {L : Type 0} (l : Lru String L) where
  pub record Family (H : Type 0) : Type 0 where
    pub histograms : List (String × H)
    pub dimensions : Cache l

  -- The labels are cached if there is a cache miss.
  unfoldable pub cache_labels : String → L → Cache l → Cache l
  cache_labels key labels x = elim (get l key x).0 [
    | some old ↦ (get l key x).1
    | none ↦ (add l key labels (get l key x).1).0
  ]

module _ {H : Type 0} where
  -- The histogram of a key, made if there is none, takes one more latency; `none` is a panic.
  unfoldable pub update_histogram :
      H → (H → Option H) → String → List (String × H) → Option (List (String × H))
  update_histogram fresh observe key histograms =
      let h : H = elim (lookup key histograms) [ none ↦ fresh | some old ↦ old ] in
      elim (observe h) [ none ↦ none | some h' ↦ some (insert key h' histograms) ]

module _ {L H : Type 0} (l : Lru String L) where
  unfoldable pub record_span : H → (H → Option H) → String → L → Family l H → Option (Family l H)
  unfolding cache_labels update_histogram
  record_span fresh observe key labels x = elim (update_histogram fresh observe key x.histograms) [
    | none ↦ none
    | some hs ↦
        some (record { histograms = hs; dimensions = cache_labels l key labels x.dimensions })
  ]

  -- A data point for each histogram, with its labels; `none` is the error for a key without labels,
  -- at which the loop stops.
  unfoldable pub collect : List (String × H) → Cache l → Option (List (H × L)) × Cache l
  collect [] x = (some [], x)
  collect ((key, h) ∷ histograms) x =
      let (found, x') = get l key x in
      let rest = collect histograms x' in
      elim found [
        | none ↦ (none, x')
        | some labels ↦
            (elim rest.0 [ none ↦ none | some points ↦ some ((h, labels) ∷ points) ], rest.1)
      ]

  -- Histograms of keys that the cache has lost are deleted.
  unfoldable pub sweep : Cache l → List (String × H) → List (String × H)
  sweep x [] = []
  sweep x ((key, h) ∷ histograms) =
      let rest = sweep x histograms in if contains l key x then (key, h) ∷ rest else rest

  -- What `buildMetrics` leaves of a family, once all are collected.
  unfoldable pub settle : Bool → Family l H → Family l H
  unfolding sweep
  settle delta x =
      let kept = remove_evicted_items l x.dimensions in
      if delta
      then record { histograms = []; dimensions = purge l kept }
      else record { histograms = sweep kept x.histograms; dimensions = kept }
