-- ===== src/Stanza/Cache/Throttle.antt =====
-- The ticks of the limiter
-- (processor/signozlogspipelineprocessor/stanza/operator/operators/regex/cache.go: init).
use Prim.Native.Nat.{ℕ, zero, suc, ◌-◌, ◌^◌, ◌<◌}
use mathlib.Core.Path.{◌≡◌}
use otel_collector.Common.Int.{ℤ, negsuc}
use otel_collector.Stanza.Cache.{Limiter, reset_tick}

unfoldable pub ticks : (ℤ → ℕ) → ℕ → Limiter → Limiter
ticks to_uint64 zero l = l
ticks to_uint64 (suc n) l = ticks to_uint64 n (reset_tick to_uint64 l)

-- A conversion of integers below 0 by wrap-around, for those that a limiter converts.
abbrev pub Wraps : (ℤ → ℕ) → Type 0
Wraps to_uint64 = (n : ℕ) → n < 2 ^ 16 → to_uint64 (negsuc n) ≡ 2 ^ 64 - 1 - n
