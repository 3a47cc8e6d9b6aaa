-- ===== src/SpanMetrics/Cache/Retained.antt =====
-- What a reader finds in the cache
-- (processor/signozspanmetricsprocessor/internal/cache/cache.go: Add, Get).
use mathlib.Core.List.{List, [], ◌∷◌}
use mathlib.Core.Logic.{inl, inr}
use mathlib.Core.Option.{Option, none, some}
use mathlib.Core.Path.{◌≡◌, refl, ◌∙◌}
use native.Mathlib.Omega.{arith}
use otel_collector.Common.Dict.{lookup, insert, remove, lookup-insert, lookup-remove}
use otel_collector.Common.Tests.{if◌then◌else◌, Option-cases, Comparable, ◌==◌}
use otel_collector.SpanMetrics.Cache.{Lru, IsLru, Cache, add, revive, get}

module _ {K V : Type 0} ⦃c : Comparable K⦄ (l : Lru K V) where
  -- What `Get` would give.
  unfoldable pub find : K → Cache l → Option V
  find key x = elim (l.peek key x.lru) [ some v ↦ some v | none ↦ lookup key x.evicted_items ]

module _ {K V : Type 0} ⦃c : Comparable K⦄ (l : Lru K V) (laws : IsLru l) where
  pub find-add :
      (key read : K) (value : V) (x : Cache l)
      → find l read (add l key value x).0 ≡ (if key == read then some value else find l read x)
  unfolding find add
  find-add key read value x = elim (Option-cases (l.put key value x.lru).1) [
    | inl kept ↦ ground (arith, kept, laws.peek-put key read value x.lru)
    | inr ((e, w), out) ↦ ground (
      arith,
      out,
      laws.peek-put key read value x.lru,
      laws.dropped_value key e value w x.lru out,
      laws.dropped_other key e value w x.lru out,
      lookup-insert x.evicted_items e read w,
      c.same_iff e read,
      c.same_iff key read,
    )
  ]

  find-revive :
      (key read : K) (value : V) (x : Cache l)
      → l.peek key x.lru ≡ none
      → lookup key x.evicted_items ≡ some value
      → find l read (revive l key value x) ≡ find l read x
  unfolding revive
  find-revive key read value x gone kept =
      let less : Cache l = record x { evicted_items = remove key x.evicted_items } in
      find-add key read value less
      ∙ (unfold find in
          ground (arith, gone, kept, lookup-remove x.evicted_items key read, c.same_iff key read))

  -- A read gives what is found, and what is found stays.
  pub get-find :
      (key read : K) (x : Cache l)
      → ((get l key x).0 ≡ find l key x) × (find l read (get l key x).1 ≡ find l read x)
  unfolding get
  get-find key read x = elim (Option-cases (l.peek key x.lru)) [
    | inl gone ↦ elim (Option-cases (lookup key x.evicted_items)) [
      | inl lost ↦
          (unfold find in ground (arith, gone, lost), unfold find in ground (arith, gone, lost))
      | inr (v, kept) ↦ (
        unfold find in ground (arith, gone, kept),
        ground (arith, gone, kept, find-revive key read v x gone kept),
      )
    ]
    | inr (v, here) ↦ (
      unfold find in ground (arith, here),
      unfold find in ground (arith, here, laws.peek-touch key read x.lru),
    )
  ]

-- What a user of the cache does between two removals of the evicted items.
pub data Access (K V : Type 0) : Type 0 where
  read : K → Access K V
  write : K → V → Access K V

module _ {K V : Type 0} ⦃c : Comparable K⦄ (l : Lru K V) where
  -- The results of the reads, in turn.
  unfoldable pub run : List (Access K V) → Cache l → List (Option V)
  run [] x = []
  run (read k ∷ accesses) x = (get l k x).0 ∷ run accesses (get l k x).1
  run (write k v ∷ accesses) x = run accesses (add l k v x).0

module _ {K V : Type 0} ⦃c : Comparable K⦄ where
  -- The same reads of a map without a bound.
  unfoldable pub run_unbounded : List (Access K V) → List (K × V) → List (Option V)
  run_unbounded [] m = []
  run_unbounded (read k ∷ accesses) m = lookup k m ∷ run_unbounded accesses m
  run_unbounded (write k v ∷ accesses) m = run_unbounded accesses (insert k v m)

-- Until the evicted items are removed, each read of the cache gives what a map without a bound gives
-- that began with the same contents, however small the library's cache is, if that cache does what it
-- documents.
pub run-run_unbounded :
    {K V : Type 0} ⦃c : Comparable K⦄ (l : Lru K V) (accesses : List (Access K V)) (x : Cache l)
    (m : List (K × V))
    → IsLru l
    → ((k : K) → find l k x ≡ lookup k m)
    → run l accesses x ≡ run_unbounded accesses m
unfolding run run_unbounded
run-run_unbounded l [] x m laws same = refl
run-run_unbounded l (read k ∷ accesses) x m laws same =
    let now = (get-find l laws k k x).0 ∙ same k in
    let later =
      run-run_unbounded l accesses (get l k x).1 m laws (λ j. (get-find l laws k j x).1 ∙ same j) in
    cc (now, later)
run-run_unbounded l (write k v ∷ accesses) x m laws same =
    run-run_unbounded l accesses (add l k v x).0 (insert k v m) laws
      (λ j. ground (arith, find-add l laws k j v x, lookup-insert m k j v, same j))
