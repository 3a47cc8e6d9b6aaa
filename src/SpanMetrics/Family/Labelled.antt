-- ===== src/SpanMetrics/Family/Labelled.antt =====
-- The labels of the histograms of a family
-- (processor/signozspanmetricsprocessor/processor.go: cache, collectLatencyMetrics, buildMetrics).
use Prim.Native.String.{String}
use mathlib.Core.Bool.{Bool, true, false}
use mathlib.Core.List.{List, [], ◌∷◌}
use mathlib.Core.Logic.{◌≢◌, inl, inr}
use mathlib.Core.Option.{Option, none, some}
use mathlib.Core.Path.{◌≡◌, refl, sym, ◌∙◌}
use native.Mathlib.Omega.{arith}
use text.Mathlib.TextPositions.{eq_refl}
use otel_collector.Common.Dict.{insert}
use otel_collector.Common.Lists.{All}
use otel_collector.Common.Tests.{Option-cases, Bool-cases, ◌==◌, comparable_string}
use otel_collector.SpanMetrics.Cache.{Lru, IsLru, Cache, get, contains, remove_evicted_items}
use otel_collector.SpanMetrics.Cache.Retained.{find, find-add, get-find}
use otel_collector.SpanMetrics.Family.{Family, cache_labels, collect, sweep, settle}

module _ {L H : Type 0} (l : Lru String L) where
  -- Every key of some histograms is found in the cache.
  abbrev pub AreLabelled : List (String × H) → Cache l → Type 0
  AreLabelled histograms x = All (λ (p : String × H). find l p.0 x ≢ none) histograms

  AreLabelled-more :
      (histograms : List (String × H)) (x y : Cache l)
      → ((key : String) → find l key x ≢ none → find l key y ≢ none)
      → AreLabelled histograms x
      → AreLabelled histograms y
  AreLabelled-more [] x y more all = tt
  AreLabelled-more ((key, h) ∷ histograms) x y more all =
      (more key all.0, AreLabelled-more histograms x y more all.1)

  AreLabelled-insert :
      (key : String) (h : H) (histograms : List (String × H)) (x : Cache l)
      → find l key x ≢ none
      → AreLabelled histograms x
      → AreLabelled (insert key h histograms) x
  unfolding insert
  AreLabelled-insert key h [] x here all = (here, tt)
  AreLabelled-insert key h ((k, old) ∷ histograms) x here all = elim (Bool-cases (k == key)) [
    | inl same ↦ rw (same, insert) (all.0, all.1)
    | inr other ↦ rw (other, insert) (all.0, AreLabelled-insert key h histograms x here all.1)
  ]

module _ {L : Type 0} (l : Lru String L) (laws : IsLru l) where
  -- After a span came, its key has labels, and no other key has lost its own.
  find-cache_labels :
      (key read : String) (labels : L) (x : Cache l)
      → (find l key (cache_labels l key labels x) ≢ none)
        × (find l read x ≢ none → find l read (cache_labels l key labels x) ≢ none)
  unfolding cache_labels
  find-cache_labels key read labels x = elim (Option-cases (get l key x).0) [
    | inr (old, hit) ↦ (
      λ e. absurd (ground (arith, e, hit, get-find l laws key key x)),
      λ here e. absurd (ground (arith, e, hit, here, get-find l laws key read x)),
    )
    | inl miss ↦ (
      λ e.
          absurd
            (ground (arith, e, miss, find-add l laws key key labels (get l key x).1, eq_refl key)),
      λ here e. absurd (
          ground (
            arith,
            e,
            miss,
            here,
            find-add l laws key read labels (get l key x).1,
            get-find l laws key read x,
          )),
    )
  ]

  pub cache_labels-AreLabelled :
      {H : Type 0} (key : String) (h : H) (labels : L) (histograms : List (String × H))
      (x : Cache l)
      → AreLabelled l histograms x
      → AreLabelled l (insert key h histograms) (cache_labels l key labels x)
  cache_labels-AreLabelled key h labels histograms x all =
      AreLabelled-insert l key h histograms (cache_labels l key labels x)
        (find-cache_labels key key labels x).0
        (AreLabelled-more l histograms x (cache_labels l key labels x)
          (λ k here. (find-cache_labels key k labels x).1 here) all)

-- What a family's histograms and labels are, before and after a loop.
abbrev pub with_labels {ℓ} : {H L : Type ℓ} → List (H × L) → List (H × Option L)
with_labels [] = []
with_labels ((h, labels) ∷ points) = (h, some labels) ∷ with_labels points

module _ {L H : Type 0} (l : Lru String L) where
  abbrev pub found_labels : List (String × H) → Cache l → List (H × Option L)
  found_labels [] x = []
  found_labels ((key, h) ∷ histograms) x = (h, find l key x) ∷ found_labels histograms x

  found_labels-cong :
      (histograms : List (String × H)) (x y : Cache l)
      → ((key : String) → find l key x ≡ find l key y)
      → found_labels histograms x ≡ found_labels histograms y
  found_labels-cong [] x y same = refl
  found_labels-cong ((key, h) ∷ histograms) x y same =
      cc (same key, found_labels-cong histograms x y same)

module _ {L H : Type 0} (l : Lru String L) (laws : IsLru l) where
  -- If every key is found, no data point fails, each has the labels of its key, and the cache is left
  -- with what it holds.
  pub collect-AreLabelled :
      (histograms : List (String × H)) (x : Cache l)
      → AreLabelled l histograms x
      → (points : List (H × L)) × ((collect l histograms x).0 ≡ some points)
        × (with_labels points ≡ found_labels l histograms x)
        × ((key : String) → find l key (collect l histograms x).1 ≡ find l key x)
  unfolding collect
  collect-AreLabelled [] x all = ([], refl, refl, λ key. refl)
  collect-AreLabelled ((k, h) ∷ histograms) x all =
      let same : (key : String) → find l key (get l k x).1 ≡ find l key x =
        λ key. (get-find l laws k key x).1 in
      let rest = collect-AreLabelled histograms (get l k x).1 (
        AreLabelled-more l histograms x (get l k x).1 (λ key here e. here (sym (same key) ∙ e))
          all.1) in
      elim (Option-cases (get l k x).0) [
        | inl lost ↦ absurd (all.0 (sym (get-find l laws k k x).0 ∙ lost))
        | inr (labels, hit) ↦
            let is_found : find l k x ≡ some labels = sym (get-find l laws k k x).0 ∙ hit in
            (
              (h, labels) ∷ rest.0,
              ground (arith, hit, rest.1),
              cc (is_found, rest.2, found_labels-cong l histograms (get l k x).1 x same),
              λ key. ground (arith, hit, rest.3 key, same key),
            )
      ]

  sweep-AreLabelled :
      (histograms : List (String × H)) (x : Cache l) → AreLabelled l (sweep l x histograms) x
  unfolding sweep
  sweep-AreLabelled [] x = tt
  sweep-AreLabelled ((k, h) ∷ histograms) x = elim (Bool-cases (contains l k x)) [
    | inl here ↦
        rw (here, sweep)
          (
            λ e. absurd (unfold contains find in ground (arith, here, e)),
            sweep-AreLabelled histograms x,
          )
    | inr gone ↦ rw (gone, sweep) (sweep-AreLabelled histograms x)
  ]

  pub settle-AreLabelled :
      (delta : Bool) (x : Family l H)
      → AreLabelled l (settle l delta x).histograms (settle l delta x).dimensions
  unfolding settle
  settle-AreLabelled true x = tt
  settle-AreLabelled false x = sweep-AreLabelled x.histograms (remove_evicted_items l x.dimensions)
