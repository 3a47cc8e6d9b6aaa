-- ===== src/SpanMetrics/Family/Sound.antt =====
-- What holds of each histogram of a family, and the labels, through a span and an export
-- (processor/signozspanmetricsprocessor/processor.go: updateHistogram, cache, buildMetrics).
use Prim.Native.String.{String}
use mathlib.Core.Bool.{Bool, true, false}
use mathlib.Core.List.{List, [], ◌∷◌}
use mathlib.Core.Logic.{inl, inr}
use mathlib.Core.Option.{Option, some}
use mathlib.Core.Path.{◌≡◌, refl, sym, subst, ◌∙◌}
use native.Mathlib.Omega.{arith}
use otel_collector.Common.Dict.{lookup, insert}
use otel_collector.Common.Dict.Keys.{All-insert, All-lookup}
use otel_collector.Common.Lists.{All}
use otel_collector.Common.Tests.{Option-cases, Bool-cases, comparable_string}
use otel_collector.SpanMetrics.Cache.{Lru, IsLru, Cache, get, remove_evicted_items, contains}
use otel_collector.SpanMetrics.Cache.Retained.{find}
use otel_collector.SpanMetrics.Family.{
  Family, cache_labels, update_histogram, record_span, collect, sweep, settle,
}
use otel_collector.SpanMetrics.Family.Labelled.{
  AreLabelled, cache_labels-AreLabelled, collect-AreLabelled, settle-AreLabelled,
}

module _ {H : Type 0} where
  abbrev pub Each : (H → Type 0) → List (String × H) → Type 0
  Each P histograms = All (λ (e : String × H). P e.1) histograms

  pub Each-mono :
      (P Q : H → Type 0) (histograms : List (String × H))
      → ((h : H) → P h → Q h)
      → Each P histograms
      → Each Q histograms
  Each-mono P Q [] more all = tt
  Each-mono P Q (e ∷ histograms) more all = (more e.1 all.0, Each-mono P Q histograms more all.1)

  -- If a histogram with the property can be updated, and the update has the next property, so has
  -- the map.
  update_histogram-Each :
      (P Q : H → Type 0) (fresh : H) (observe : H → Option H) (key : String)
      (histograms : List (String × H))
      → P fresh
      → ((h : H) → P h → (h' : H) × (observe h ≡ some h') × Q h')
      → ((h : H) → P h → Q h)
      → Each P histograms
      → (h : H) × (update_histogram fresh observe key histograms ≡ some (insert key h histograms))
        × Each Q (insert key h histograms)
  unfolding update_histogram
  update_histogram-Each P Q fresh observe key histograms start step more all =
      let later = Each-mono P Q histograms more all in
      elim (Option-cases (lookup key histograms)) [
        | inl new ↦
            let (h, e, q) = step fresh start in
            (h, rw (update_histogram, new, e) refl, All-insert Q key h histograms later q)
        | inr (old, here) ↦
            let (h, e, q) = step old (All-lookup P key histograms all here) in
            (h, rw (update_histogram, here, e) refl, All-insert Q key h histograms later q)
      ]

module _ {L H : Type 0} (l : Lru String L) where
  -- Each histogram of a family has the property, and its labels.
  pub record IsSound (P : H → Type 0) (x : Family l H) : Type 0 where
    pub holding : Each P x.histograms
    pub labelled : AreLabelled l x.histograms x.dimensions

  pub IsSound-mono :
      (P Q : H → Type 0) (x : Family l H) → ((h : H) → P h → Q h) → IsSound P x → IsSound Q x
  IsSound-mono P Q x more sound = record {
    holding = Each-mono P Q x.histograms more sound.holding;
    labelled = sound.labelled;
  }

  sweep-Each :
      (P : H → Type 0) (x : Cache l) (histograms : List (String × H))
      → Each P histograms
      → Each P (sweep l x histograms)
  unfolding sweep
  sweep-Each P x [] all = tt
  sweep-Each P x ((key, h) ∷ histograms) all = elim (Bool-cases (contains l key x)) [
    | inl here ↦ rw (here, sweep) (all.0, sweep-Each P x histograms all.1)
    | inr gone ↦ rw (gone, sweep) (sweep-Each P x histograms all.1)
  ]

  settle-Each :
      (P : H → Type 0) (delta : Bool) (x : Family l H)
      → Each P x.histograms
      → Each P (settle l delta x).histograms
  unfolding settle
  settle-Each P true x all = tt
  settle-Each P false x all = sweep-Each P (remove_evicted_items l x.dimensions) x.histograms all

module _ {L H : Type 0} (l : Lru String L) (laws : IsLru l) where
  pub settle-IsSound :
      (P : H → Type 0) (delta : Bool) (x : Family l H)
      → IsSound l P x
      → IsSound l P (settle l delta x)
  settle-IsSound P delta x sound = record {
    holding = settle-Each l P delta x sound.holding;
    labelled = settle-AreLabelled l laws delta x;
  }

  -- A span is recorded without a panic.
  pub record_span-IsSound :
      (P Q : H → Type 0) (fresh : H) (observe : H → Option H) (key : String) (labels : L)
      (x : Family l H)
      → P fresh
      → ((h : H) → P h → (h' : H) × (observe h ≡ some h') × Q h')
      → ((h : H) → P h → Q h)
      → IsSound l P x
      → (y : Family l H) × (record_span l fresh observe key labels x ≡ some y) × IsSound l Q y
  unfolding record_span
  record_span-IsSound P Q fresh observe key labels x start step more sound =
      let (h, e, all) =
        update_histogram-Each P Q fresh observe key x.histograms start step more sound.holding in
      (
        record {
          histograms = insert key h x.histograms;
          dimensions = cache_labels l key labels x.dimensions;
        },
        rw (record_span, e) refl,
        record {
          holding = all;
          labelled =
              cache_labels-AreLabelled l laws key h labels x.histograms x.dimensions sound.labelled;
        },
      )

  -- The data points are of histograms with the property.
  pub collect-Each :
      (P : H → Type 0) (histograms : List (String × H)) (x : Cache l) (points : List (H × L))
      → Each P histograms
      → (collect l histograms x).0 ≡ some points
      → All (λ (q : H × L). P q.0) points
  unfolding collect
  collect-Each P [] x [] all e = tt
  collect-Each P [] x (q ∷ points) all e = absurd (ground (arith, e))
  collect-Each P ((key, h) ∷ histograms) x points all e = elim (Option-cases (get l key x).0) [
    | inl lost ↦ absurd (ground (arith, e, lost))
    | inr (labels, found) ↦ elim (Option-cases (collect l histograms (get l key x).1).0) [
      | inl failed ↦ absurd (ground (arith, e, found, failed))
      | inr (ps, done) ↦
          let same : (h, labels) ∷ ps ≡ points = ground (arith, e, found, done) in
          subst (λ (qs : List (H × L)). All (λ (q : H × L). P q.0) qs) same
            (all.0, collect-Each P histograms (get l key x).1 ps all.1 done)
    ]
  ]

  AreLabelled-same :
      (histograms : List (String × H)) (x y : Cache l)
      → ((key : String) → find l key y ≡ find l key x)
      → AreLabelled l histograms x
      → AreLabelled l histograms y
  AreLabelled-same [] x y same all = tt
  AreLabelled-same ((key, h) ∷ histograms) x y same all =
      (λ e. all.0 (sym (same key) ∙ e), AreLabelled-same histograms x y same all.1)

  -- Its data points are collected without an error.
  pub collect-IsSound :
      (P : H → Type 0) (x : Family l H)
      → IsSound l P x
      → (points : List (H × L)) × ((collect l x.histograms x.dimensions).0 ≡ some points)
        × All (λ (q : H × L). P q.0) points
        × IsSound l P (record x { dimensions = (collect l x.histograms x.dimensions).1 })
  collect-IsSound P x sound =
      let (points, e, labels, same) =
        collect-AreLabelled l laws x.histograms x.dimensions sound.labelled in
      (
        points,
        e,
        collect-Each P x.histograms x.dimensions points sound.holding e,
        record {
          holding = sound.holding;
          labelled =
              AreLabelled-same x.histograms x.dimensions (collect l x.histograms x.dimensions).1
                same sound.labelled;
        },
      )
