-- ===== src/Stanza/Cache/Laws.antt =====
-- What a cache holds, and how much of it.
use Prim.Native.Nat.{ℕ, suc, ◌≤◌, ◌<◌}
use Prim.Native.String.{String}
use mathlib.Core.Bool.{Bool, true, false}
use mathlib.Core.List.{List, [], ◌∷◌, ◌++◌}
use mathlib.Core.Option.{none, some}
use mathlib.Core.Path.{◌≡◌, refl}
use native.Mathlib.Omega.{arith}
use text.Mathlib.TextEquality.{eq_iff}
use otel_collector.Common.Dict.{lookup, remove, IsDistinct, lookup-insert, lookup-remove}
use otel_collector.Common.Dict.Keys.{remove-IsDistinct, length-remove, insert-IsDistinct}
use otel_collector.Common.Lists.{length, length-append}
use otel_collector.Common.Tests.{if◌then◌else◌, nat_eqb, ◌==◌, comparable_string, Bool-cases}
use mathlib.Core.Logic.{◌⊎◌, inl, inr}
use otel_collector.Stanza.Cache.{
  Limiter, increment, throttled, MemoryCache, new_memory_cache, cached, store, add,
}

-- Whether a key is in the queue.
unfoldable pub queued : List String → String → Bool
queued [] key = false
queued (k ∷ ks) key = if k == key then true else queued ks key

-- The keys wait for at most the capacity of the channel; the map holds a key once, and only a key
-- that waits, so that it has no more entries than the channel has room for.
pub record IsValid {ℓ} {V : Type ℓ} (m : MemoryCache V) : Type ℓ where
  pub room : length m.keys ≤ m.capacity
  pub distinct : IsDistinct m.cache
  pub waits : (key : String) → queued m.keys key ≡ false → lookup key m.cache ≡ none

queued-append :
    (ks : List String) (k key : String)
    → queued (ks ++ k ∷ []) key ≡ (if queued ks key then true else k == key)
unfolding queued
queued-append [] k key = ground arith
queued-append (j ∷ ks) k key = ground (arith, queued-append ks k key)

module _ {ℓ} {V : Type ℓ} where
  -- A map that holds a key once, and only keys of a list, is no longer than the list.
  pub length-le-keys :
      (ks : List String) (m : List (String × V))
      → IsDistinct m
      → ((key : String) → queued ks key ≡ false → lookup key m ≡ none)
      → length m ≤ length ks
  unfolding queued
  length-le-keys [] [] d w = omega arith
  length-le-keys [] ((k, v) ∷ m) d w =
      absurd (unfold lookup in ground (arith, w k refl, eq_iff k k))
  length-le-keys (k ∷ ks) m d w =
      let rest =
        length-le-keys ks (remove k m) (remove-IsDistinct k m d)
          (λ key out. ground (arith, lookup-remove m k key, w key, out)) in
      omega (arith, rest, length-remove k m d)

  pub new_memory_cache-IsValid :
      (max_size interval : ℕ) → IsValid (new_memory_cache {V = V} max_size interval)
  unfolding new_memory_cache lookup
  new_memory_cache-IsValid max_size interval = record {
    room = omega arith;
    distinct = tt;
    waits = λ key out. refl;
  }

  pub store-IsValid :
      (key : String) (value : V) (m : MemoryCache V)
      → IsValid m
      → suc (length m.keys) ≤ m.capacity
      → IsValid (store key value m)
  unfolding store
  store-IsValid key value m valid room = record {
    room = omega (arith, room, length-append m.keys (key ∷ []));
    distinct = insert-IsDistinct key value m.cache valid.distinct;
    waits = λ k out.
        ground (
          arith,
          out,
          queued-append m.keys key k,
          lookup-insert m.cache key k value,
          valid.waits k,
        );
  }

  evict-IsValid :
      (oldest : String) (rest : List String) (m : MemoryCache V)
      → m.keys ≡ oldest ∷ rest
      → IsValid m
      → IsValid
          (record m { cache = remove oldest m.cache; keys = rest; limiter = increment m.limiter })
  unfolding queued
  evict-IsValid oldest rest m e valid = record {
    room = ground (arith, e, valid.room);
    distinct = remove-IsDistinct oldest m.cache valid.distinct;
    waits = λ k out. ground (arith, out, e, lookup-remove m.cache oldest k, valid.waits k);
  }

-- The key that makes way for a new one: the oldest, in a full channel.
abbrev pub makes_way {ℓ} : {V : Type ℓ} → MemoryCache V → String → Bool
makes_way m key = elim m.keys [
  | [] ↦ false
  | oldest ∷ rest ↦ if nat_eqb (length m.keys) m.capacity then oldest == key else false
]

-- The limiter after a key was added: an eviction counts.
abbrev pub counted {ℓ} : {V : Type ℓ} → MemoryCache V → Limiter
counted m = if nat_eqb (length m.keys) m.capacity then increment m.limiter else m.limiter

-- What a cache is after a key was added.
pub record Added {ℓ} {V : Type ℓ} (key : String) (value : V) (m m' : MemoryCache V) : Type ℓ where
  pub result : add key value m ≡ some (m', true)
  pub valid : IsValid m'
  pub capacity : m'.capacity ≡ m.capacity
  pub limiter : m'.limiter ≡ counted m
  pub reads :
      (read : String)
      → cached m' read
        ≡ (if key == read then some value else if makes_way m read then none else cached m read)

module _ {ℓ} {V : Type ℓ} where
  Added-room :
      (key : String) (value : V) (m : MemoryCache V)
      → IsValid m
      → nat_eqb (length m.keys) m.capacity ≡ false
      → throttled m.limiter ≡ false
      → Added key value m (store key value m)
  unfolding cached
  Added-room key value m valid room awake =
      let fits : suc (length m.keys) ≤ m.capacity = ground (arith, room, valid.room) in
      record {
        result = unfold add in ground (arith, awake, room);
        valid = store-IsValid key value m valid fits;
        capacity = unfold store in refl;
        limiter = unfold store in ground (arith, room);
        reads = λ read. unfold store in ground (arith, room, lookup-insert m.cache key read value);
      }

  Added-full :
      (key : String) (value : V) (m : MemoryCache V) (oldest : String) (rest : List String)
      → IsValid m
      → m.keys ≡ oldest ∷ rest
      → nat_eqb (length m.keys) m.capacity ≡ true
      → throttled m.limiter ≡ false
      → (m' : MemoryCache V) × Added key value m m'
  unfolding cached
  Added-full key value m oldest rest valid e full awake =
      let less : MemoryCache V = record m {
        cache = remove oldest m.cache;
        keys = rest;
        limiter = increment m.limiter;
      } in
      let fits : suc (length rest) ≤ m.capacity = ground (arith, e, valid.room) in
      (
        store key value less,
        record {
          result = unfold add in ground (arith, awake, full, e);
          valid = store-IsValid key value less (evict-IsValid oldest rest m e valid) fits;
          capacity = unfold store in refl;
          limiter = unfold store in ground (arith, full);
          reads = λ read.
              unfold store in
              ground (
                arith,
                full,
                e,
                lookup-insert (remove oldest m.cache) key read value,
                lookup-remove m.cache oldest read,
              );
        },
      )

  Added-awake :
      (key : String) (value : V) (m : MemoryCache V) (ks : List String)
      → m.keys ≡ ks
      → IsValid m
      → 0 < m.capacity
      → throttled m.limiter ≡ false
      → (m' : MemoryCache V) × Added key value m m'
  Added-awake key value m [] e valid positive awake =
      (store key value m, Added-room key value m valid (ground (arith, e, positive)) awake)
  Added-awake key value m (oldest ∷ rest) e valid positive awake =
      elim (Bool-cases (nat_eqb (length m.keys) m.capacity)) [
        | inr room ↦ (store key value m, Added-room key value m valid room awake)
        | inl full ↦ Added-full key value m oldest rest valid e full awake
      ]

  -- A key is added to a valid cache that has room for one, unless the limiter throttles: the cache
  -- stays valid, the key reads its new value, only the oldest key gives way and only if the cache was
  -- full, which the limiter counts, and all others read what they did. A throttled cache is left as
  -- it is.
  pub add-Added :
      (key : String) (value : V) (m : MemoryCache V)
      → IsValid m
      → 0 < m.capacity
      → ((throttled m.limiter ≡ true) × (add key value m ≡ some (m, false)))
        ⊎ ((m' : MemoryCache V) × (throttled m.limiter ≡ false) × Added key value m m')
  add-Added key value m valid positive = elim (Bool-cases (throttled m.limiter)) [
    | inl asleep ↦ inl (asleep, unfold add in ground (arith, asleep))
    | inr awake ↦
        let (m', added) = Added-awake key value m m.keys refl valid positive awake in
        inr (m', awake, added)
  ]
