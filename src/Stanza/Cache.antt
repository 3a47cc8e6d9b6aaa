-- ===== src/Stanza/Cache.antt =====
-- The memory cache of the regex parser and the limiter of its evictions
-- (processor/signozlogspipelineprocessor/stanza/operator/operators/regex/cache.go, and the users of
-- the cache in parser.go and config.go beside it). pkg/parser/grok/cache.go is a copy of it. The channel of keys is a queue, oldest first; a receive
-- that blocks for ever is `none`. A method is one step, as under its lock. What a float that is below
-- 0 becomes as a uint64 differs between platforms and is a parameter, and so is `MatchValues`.
use Prim.Native.Nat.{ℕ, zero, suc, ◌+◌, ◌-◌, ◌/◌, ◌%◌, ◌^◌}
use Prim.Native.String.{String}
use mathlib.Core.Bool.{Bool, true, false}
use mathlib.Core.List.{List, [], ◌∷◌, ◌++◌}
use mathlib.Core.Option.{Option, none, some}
use otel_collector.Common.Dict.{lookup, insert, remove}
use otel_collector.Common.Int.{ℤ, pos, negsuc}
use otel_collector.Common.Lists.{length}
use otel_collector.Common.Tests.{ltb, leb, nat_eqb, if◌then◌else◌, comparable_string}
use otel_collector.Stanza.Value.{Value, string}
pub mod Laws
pub mod Parse
pub mod Throttle
mod Tests

-- `atomicLimiter`; `count` is a uint64 and the interval is in seconds.
pub record Limiter : Type 0 where
  pub count : ℕ
  pub limit : ℕ
  pub interval : ℕ

unfoldable pub new_started_atomic_limiter : ℕ → ℕ → Limiter
new_started_atomic_limiter limit interval = record {
  count = 0;
  limit = limit;
  interval = if nat_eqb interval 0 then 5 else interval;
}

unfoldable pub increment : Limiter → Limiter
increment l = if nat_eqb l.count l.limit then l else record l { count = (l.count + 1) % 2 ^ 64 }

unfoldable pub throttled : Limiter → Bool
throttled l = leb l.limit l.count

-- A tenth, rounded to the nearest, and a half away from 0.
abbrev pub tenth : ℕ → ℕ
tenth n = (n + 5) / 10

-- `math.Round(-0.10 * float64(l.max))`, as a whole number.
abbrev pub minus_tenth : ℕ → ℤ
minus_tenth n = if nat_eqb (tenth n) 0 then pos 0 else negsuc (tenth n - 1)

-- One tick of the goroutine that `init` starts: `count.Add(^uint64(x))`.
unfoldable pub reset_tick : (ℤ → ℕ) → Limiter → Limiter
reset_tick to_uint64 l =
    if ltb 0 l.count
    then record l { count = (l.count + (2 ^ 64 - 1 - to_uint64 (minus_tenth l.limit))) % 2 ^ 64 }
    else l

pub record MemoryCache {ℓ} (V : Type ℓ) : Type ℓ where
  pub cache : List (String × V)
  pub keys : List String
  pub capacity : ℕ
  pub limiter : Limiter

module _ {ℓ} {V : Type ℓ} where
  unfoldable pub new_memory_cache : ℕ → ℕ → MemoryCache V
  unfolding new_started_atomic_limiter
  new_memory_cache max_size interval = record {
    cache = [];
    keys = [];
    capacity = max_size;
    limiter = new_started_atomic_limiter (max_size + 1) interval;
  }

  unfoldable pub cached : MemoryCache V → String → Option V
  cached m key = lookup key m.cache

  -- The write of a key for which the channel has room.
  unfoldable pub store : String → V → MemoryCache V → MemoryCache V
  store key value m = record m { cache = insert key value m.cache; keys = m.keys ++ key ∷ [] }

  -- The oldest key gives way; with no key in a full channel the receive blocks for ever.
  unfoldable pub evict : List String → MemoryCache V → Option (MemoryCache V)
  evict [] m = none
  evict (oldest ∷ rest) m =
      some (record m { cache = remove oldest m.cache; keys = rest; limiter = increment m.limiter })

  unfoldable pub add : String → V → MemoryCache V → Option (MemoryCache V × Bool)
  unfolding store evict
  add key value m =
      if throttled m.limiter
      then some (m, false)
      else if nat_eqb (length m.keys) m.capacity
      then elim (evict m.keys m) [ none ↦ none | some m' ↦ some (store key value m', true) ]
      else some (store key value m, true)

  unfoldable pub max_size : MemoryCache V → ℕ
  max_size m = m.capacity % 2 ^ 16

-- What parsing a value gives; `not_text` is the error for a value that is no string.
pub data Parsed {ℓ} (V : Type ℓ) : Type ℓ where
  parsed : V → Parsed V
  no_match not_text : Parsed V

module _ {ℓ} {V : Type ℓ} (match_values : String → Option V) where
  -- A match of the expression, noted in the cache if there is one.
  unfoldable pub match_fresh :
      String → Option (MemoryCache V) → Option (Parsed V × Option (MemoryCache V))
  match_fresh value c = elim (match_values value) [
    | none ↦ some (no_match, c)
    | some v ↦ elim c [
      | none ↦ some (parsed v, none)
      | some m ↦ elim (add value v m) [ none ↦ none | some (m', added) ↦ some (parsed v, some m') ]
    ]
  ]

  unfoldable pub match_text :
      String → Option (MemoryCache V) → Option (Parsed V × Option (MemoryCache V))
  unfolding match_fresh cached
  match_text value none = match_fresh value none
  match_text value (some m) = elim (cached m value) [
    | some x ↦ some (parsed x, some m)
    | none ↦ match_fresh value (some m)
  ]

  unfoldable pub parse : Value → Option (MemoryCache V) → Option (Parsed V × Option (MemoryCache V))
  unfolding match_text
  parse (string raw) c = match_text raw c
  parse _ c = some (not_text, c)

-- The cache that `Build` gives the parser: none of size 0.
unfoldable pub built_cache {ℓ} : {V : Type ℓ} → ℕ → Option (MemoryCache V)
unfolding new_memory_cache
built_cache size = if ltb 0 size then some (new_memory_cache size 0) else none
