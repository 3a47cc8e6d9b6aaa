-- ===== src/TailSampler/Limits/Rate.antt =====
-- How many spans the rate limiter lets through in each second, over a run with a clock that does
-- not go back (processor/signoztailsampler/internal/sampling/rate_limiting.go).
use Prim.Native.Nat.{ℕ, ◌+◌, ◌-◌, ◌^◌, ◌≤◌, ◌<◌}
use mathlib.Core.Bool.{true, false, ◌&&◌}
use mathlib.Core.List.{List, [], ◌∷◌}
use mathlib.Core.Option.{none}
use mathlib.Core.Path.{◌≡◌, refl}
use native.Mathlib.Omega.{arith}
use otel_collector.Common.Int.{pos, negsuc, add_int64_pos}
use mathlib.Core.Logic.{inl, inr}
use otel_collector.Common.Tests.{if◌then◌else◌, nat_eqb, ltb, ltb→lt, Bool-cases}
use otel_collector.TailSampler.Limits.{
  accepts, RateLimiting, new_rate_limiting, rate_tick, rate_evaluate,
}
use otel_collector.TailSampler.Trace.{TraceData, Outcome, sampled, not_sampled}

-- The number of spans of a trace whose count is not negative.
abbrev pub spans_of : TraceData → ℕ
spans_of trace = elim trace.span_count [ pos n ↦ n | negsuc n ↦ 0 ]

-- The evaluations of a run: the clock's second, and the trace.
abbrev pub Schedule : Type 0
Schedule = List (ℕ × TraceData)

-- The second does not fall, and no trace has 2^62 spans.
abbrev pub IsSchedule : ℕ → Schedule → Type 0
IsSchedule now [] = Unit
IsSchedule now ((u, trace) ∷ rest) =
    (now ≤ u)
    × (trace.span_count ≡ pos (spans_of trace))
    × (spans_of trace < 2 ^ 62)
    × IsSchedule u rest

-- How many spans of the traces evaluated in second `t` the limiter samples.
unfoldable pub sampled_in : ℕ → RateLimiting → Schedule → ℕ
sampled_in t r [] = 0
sampled_in t r ((u, trace) ∷ rest) =
    let (outcome, r') = rate_evaluate (pos u) r 0 trace in
    (if nat_eqb u t && accepts outcome.0 then spans_of trace else 0) + sampled_in t r' rest

abbrev state : ℕ → ℕ → ℕ → RateLimiting
state now used limit = record {
  current_second = pos now;
  spans_in_current_second = pos used;
  spans_per_second = pos limit;
}

-- What is used up when the clock shows second `u`.
abbrev used_at : ℕ → ℕ → ℕ → ℕ
used_at now used u = if nat_eqb now u then used else 0

step_fits :
    (now used limit u : ℕ) (trace : TraceData)
    → used + 1 < 2 ^ 62
    → trace.span_count ≡ pos (spans_of trace)
    → spans_of trace < 2 ^ 62
    → ltb (used_at now used u + spans_of trace) limit ≡ true
    → rate_evaluate (pos u) (state now used limit) 0 trace
      ≡ ((sampled, none), state u (used_at now used u + spans_of trace) limit)
unfolding rate_evaluate rate_tick
step_fits now used limit u trace hu hc hn fits =
    ground (arith, add_int64_pos used (spans_of trace), add_int64_pos 0 (spans_of trace))

step_full :
    (now used limit u : ℕ) (trace : TraceData)
    → used + 1 < 2 ^ 62
    → trace.span_count ≡ pos (spans_of trace)
    → spans_of trace < 2 ^ 62
    → ltb (used_at now used u + spans_of trace) limit ≡ false
    → rate_evaluate (pos u) (state now used limit) 0 trace
      ≡ ((not_sampled, none), state u (used_at now used u) limit)
unfolding rate_evaluate rate_tick
step_full now used limit u trace hu hc hn full =
    ground (arith, add_int64_pos used (spans_of trace), add_int64_pos 0 (spans_of trace))

-- The state after an evaluation in second `u`, and the bounds it keeps.
step_state :
    (now used limit u : ℕ) (trace : TraceData)
    → limit < 2 ^ 62
    → used ≤ limit - 1
    → trace.span_count ≡ pos (spans_of trace)
    → spans_of trace < 2 ^ 62
    → (used' : ℕ) × (outcome : Outcome) × (rate_evaluate (pos u) (state now used limit) 0 trace
        ≡ (outcome, state u used' limit))
      × (used' ≤ limit - 1)
      × (used' ≡ used_at now used u + (if accepts outcome.0 then spans_of trace else 0))
step_state now used limit u trace hl hu hc hn =
    let n = used_at now used u + spans_of trace in
    elim (Bool-cases (ltb n limit)) [
      | inl fits ↦ (
        n,
        (sampled, none),
        step_fits now used limit u trace (omega arith) hc hn fits,
        omega (arith, ltb→lt n limit fits),
        omega arith,
      )
      | inr full ↦ (
        used_at now used u,
        (not_sampled, none),
        step_full now used limit u trace (omega arith) hc hn full,
        ground arith,
        omega arith,
      )
    ]

sampled_in-past :
    (t now used limit : ℕ) (rest : Schedule)
    → limit < 2 ^ 62
    → used ≤ limit - 1
    → IsSchedule now rest
    → t < now
    → sampled_in t (state now used limit) rest ≡ 0
unfolding sampled_in
sampled_in-past t now used limit [] hl hu hs past = refl
sampled_in-past t now used limit ((u, trace) ∷ rest) hl hu hs past =
    let (used', outcome, e, bound, _) = step_state now used limit u trace hl hu hs.1 hs.2 in
    rw e (ground (arith, sampled_in-past t u used' limit rest hl bound hs.3 (omega arith)))

sampled_in-le :
    (t now used limit : ℕ) (rest : Schedule)
    → limit < 2 ^ 62
    → used ≤ limit - 1
    → IsSchedule now rest
    → sampled_in t (state now used limit) rest + used_at now used t ≤ limit - 1
unfolding sampled_in
sampled_in-le t now used limit [] hl hu hs = ground arith
sampled_in-le t now used limit ((u, trace) ∷ rest) hl hu hs =
    let (used', outcome, e, bound, total) = step_state now used limit u trace hl hu hs.1 hs.2 in
    rw e (
      ground (
        arith,
        total,
        sampled_in-le t u used' limit rest hl bound hs.3,
        sampled_in-past t u used' limit rest hl bound hs.3,
      ))

-- In every second of a run the rate limiter samples at most one span less than its limit, provided
-- the clock does not go back, no trace has 2^62 spans and the limit is below 2^62.
pub sampled_in-new_rate_limiting :
    (t limit : ℕ) (run : Schedule)
    → limit < 2 ^ 62
    → IsSchedule 0 run
    → sampled_in t (new_rate_limiting (pos limit)) run ≤ limit - 1
unfolding new_rate_limiting
sampled_in-new_rate_limiting t limit run hl hs =
    omega (arith, sampled_in-le t 0 0 limit run hl (omega arith) hs)
