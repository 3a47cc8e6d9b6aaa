-- ===== src/SpanMetrics/Cache.antt =====
-- The LRU cache that keeps what it evicts
-- (processor/signozspanmetricsprocessor/internal/cache/cache.go). The LRU cache itself is a library's,
-- simplelru, and an interface here; the pairs that it hands to the callback are results of its
-- methods.
use mathlib.Core.Bool.{Bool, true, false}
use mathlib.Core.List.{List, [], ◌∷◌}
use mathlib.Core.Option.{Option, none, some}
use mathlib.Core.Path.{◌≡◌}
use otel_collector.Common.Dict.{lookup, insert, remove}
use otel_collector.Common.Tests.{if◌then◌else◌, Comparable, ◌==◌}
pub mod Retained

-- The methods of the library's cache of a fixed size.
pub record Lru (K V : Type 0) : Type 1 where
  pub State : Type 0
  pub peek : K → State → Option V
  pub touch : K → State → State
  pub put : K → V → State → State × Option (K × V)
  pub drop_all : State → State × List (K × V)

-- Whether a pair that was evicted has the key.
abbrev pub dropped {ℓ} : {K V : Type ℓ} ⦃c : Comparable K⦄ → Option (K × V) → K → Bool
dropped none key = false
dropped (some (k, v)) key = k == key

module _ {K V : Type 0} ⦃c : Comparable K⦄ where
  -- What the library documents: `Get` changes only how recent a key is, and `Add` writes its key and
  -- evicts at most one other key, of which it hands out the value.
  pub record IsLru (l : Lru K V) : Type 0 where
    pub peek-touch : (k j : K) (s : l.State) → l.peek j (l.touch k s) ≡ l.peek j s
    pub peek-put :
        (k j : K) (v : V) (s : l.State)
        → l.peek j (l.put k v s).0
          ≡ (if k == j then some v else if dropped (l.put k v s).1 j then none else l.peek j s)
    pub dropped_value :
        (k e : K) (v w : V) (s : l.State) → (l.put k v s).1 ≡ some (e, w) → l.peek e s ≡ some w
    pub dropped_other :
        (k e : K) (v w : V) (s : l.State) → (l.put k v s).1 ≡ some (e, w) → (k == e) ≡ false

module _ {K V : Type 0} (l : Lru K V) where
  pub record Cache : Type 0 where
    pub lru : l.State
    pub evicted_items : List (K × V)

module _ {K V : Type 0} ⦃c : Comparable K⦄ (l : Lru K V) where
  -- The callback for an evicted pair.
  abbrev pub note_evicted : Option (K × V) → List (K × V) → List (K × V)
  note_evicted none m = m
  note_evicted (some (k, v)) m = insert k v m

  abbrev pub note_all : List (K × V) → List (K × V) → List (K × V)
  note_all [] m = m
  note_all ((k, v) ∷ pairs) m = note_all pairs (insert k v m)

  unfoldable pub remove_evicted_items : Cache l → Cache l
  remove_evicted_items x = record x { evicted_items = [] }

  unfoldable pub add : K → V → Cache l → Cache l × Bool
  add key value x =
      let (s, out) = l.put key value x.lru in
      (
        record { lru = s; evicted_items = note_evicted out x.evicted_items },
        elim out [ none ↦ false | some p ↦ true ],
      )

  -- A value that was evicted goes back into the cache.
  unfoldable pub revive : K → V → Cache l → Cache l
  unfolding add
  revive key value x = (add key value (record x { evicted_items = remove key x.evicted_items })).0

  unfoldable pub get : K → Cache l → Option V × Cache l
  unfolding revive
  get key x = elim (l.peek key x.lru) [
    | some v ↦ (some v, record x { lru = l.touch key x.lru })
    | none ↦ elim (lookup key x.evicted_items) [
      | some v ↦ (some v, revive key v x)
      | none ↦ (none, x)
    ]
  ]

  unfoldable pub contains : K → Cache l → Bool
  contains key x = elim (l.peek key x.lru) [ none ↦ false | some v ↦ true ]

  unfoldable pub purge : Cache l → Cache l
  unfolding remove_evicted_items
  purge x =
      let (s, pairs) = l.drop_all x.lru in
      remove_evicted_items (record { lru = s; evicted_items = note_all pairs x.evicted_items })
