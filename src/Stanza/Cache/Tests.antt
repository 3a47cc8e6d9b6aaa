-- ===== src/Stanza/Cache/Tests.antt =====
-- Runs of the cache of the regex parser.
use Prim.Native.Nat.{ℕ}
use Prim.Native.String.{String}
use mathlib.Core.List.{List, [], ◌∷◌}
use mathlib.Core.Option.{Option, none, some}
use mathlib.Core.Path.{◌≡◌}
use native.Mathlib.Omega.{arith}
use Prim.Native.Nat.{◌≤◌}
use otel_collector.Common.Int.{bits64}
use otel_collector.Common.Lists.{length}
use otel_collector.Common.Tests.{if◌then◌else◌, ◌==◌, comparable_string}
use otel_collector.Stanza.Cache.{Limiter, MemoryCache, new_memory_cache, store, built_cache}
use otel_collector.Stanza.Cache.Laws.{IsValid, store-IsValid, new_memory_cache-IsValid}
use otel_collector.Stanza.Cache.Parse.{Event, parse_value, tick, run, plain_run, run-plain_run}
use otel_collector.Stanza.Value.{string, nil}

-- A cache with room for one match, which it holds.
abbrev full_cache : MemoryCache ℕ
full_cache = store "a" 1 (new_memory_cache 1 0)

full_cache-IsValid : IsValid full_cache
full_cache-IsValid =
    store-IsValid "a" 1 (new_memory_cache 1 0) (new_memory_cache-IsValid 1 0)
      (unfold new_memory_cache in omega arith)

full_cache_room : 1 ≤ full_cache.capacity
unfolding store new_memory_cache
full_cache_room = omega arith

abbrev words : String → Option ℕ
words s = if s == "a" then some 1 else if s == "b" then some 2 else none

abbrev traffic : List Event
traffic =
    parse_value (string "a")
    ∷ parse_value (string "b")
    ∷ tick
    ∷ parse_value (string "?")
    ∷ parse_value nil
    ∷ parse_value (string "a")
    ∷ []

run-plain_run_example :
    (m : MemoryCache ℕ) × (run words bits64 traffic (built_cache 1)
      ≡ some (plain_run words traffic, some m))
    × (length m.cache ≤ 1)
run-plain_run_example = run-plain_run words bits64 traffic 1 (omega arith)

-- The limiter of a cache of size 100, throttled.
abbrev hot : Limiter
hot = record { count = 101; limit = 101; interval = 5 }
