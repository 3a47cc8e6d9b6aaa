-- ===== src/TailSampler/Limits/Budget.antt =====
-- The budgets of the composite evaluator and its counters
-- (processor/signoztailsampler/internal/sampling/composite.go).
use Prim.Native.Nat.{ℕ, ◌+◌, ◌^◌, ◌≤◌, ◌<◌}
use mathlib.Core.Bool.{true}
use mathlib.Core.List.{List, [], ◌∷◌, map}
use mathlib.Core.Logic.{◌⊎◌, inl, inr}
use mathlib.Core.Path.{◌≡◌, refl, ◌∙◌}
use native.Mathlib.Omega.{arith}
use otel_collector.Common.Int.{ℤ, pos, negsuc, int_leb, int_eqb, add_int64, add_int64_pos}
use otel_collector.Common.Lists.{All}
use otel_collector.Common.Tests.{if◌then◌else◌, Bool-cases}
use otel_collector.TailSampler.Limits.{
  accepts, Subpolicy, Composite, reset, composite_tick, composite_loop, composite_evaluate,
}
use otel_collector.TailSampler.Limits.Rate.{spans_of}
use otel_collector.TailSampler.Trace.{TraceId, TraceData, Outcome}

abbrev pub count_of : ℤ → ℕ
count_of z = elim z [ pos n ↦ n | negsuc n ↦ 0 ]

abbrev pub spans_if_sampled : Outcome → TraceData → ℕ
spans_if_sampled outcome trace = if accepts outcome.0 then spans_of trace else 0

module _ {S : Type 0} where
  -- A counter is 0, or within the subpolicy's allocation and the total.
  pub record Within (max_total : ℕ) (sub : Subpolicy S) : Type 0 where
    pub counted : sub.sampled_sps ≡ pos (count_of sub.sampled_sps)
    pub in_total : count_of sub.sampled_sps ≤ max_total
    pub in_allocation :
        (count_of sub.sampled_sps ≡ 0) ⊎ (int_leb sub.sampled_sps sub.allocated_sps ≡ true)

  abbrev pub total : List (Subpolicy S) → ℕ
  total [] = 0
  total (sub ∷ subs) = count_of sub.sampled_sps + total subs

  -- What one run of the loop over the subpolicies promises.
  pub record Kept (max_total : ℕ) (trace : TraceData) (subs : List (Subpolicy S))
      (r : Outcome × List (Subpolicy S) × S) : Type 0 where
    pub within : All (Within max_total) (r.1)
    pub accounted : total (r.1) ≡ total subs + spans_if_sampled r.0 trace
    pub allocations : map (λ sub. sub.allocated_sps) (r.1) ≡ map (λ sub. sub.allocated_sps) subs

  add_count :
      (max_total : ℕ) (sub : Subpolicy S) (trace : TraceData)
      → max_total < 2 ^ 62
      → Within max_total sub
      → trace.span_count ≡ pos (spans_of trace)
      → spans_of trace < 2 ^ 62
      → add_int64 sub.sampled_sps trace.span_count ≡ pos (count_of sub.sampled_sps + spans_of trace)
  add_count max_total sub trace hm w hc hn =
      rw (w.counted, hc) (add_int64_pos (count_of sub.sampled_sps) (spans_of trace) (omega arith))

  composite_loop-Kept :
      (max_total : ℕ) (subs : List (Subpolicy S)) (s : S) (trace_id : TraceId) (trace : TraceData)
      → max_total < 2 ^ 62
      → All (Within max_total) subs
      → trace.span_count ≡ pos (spans_of trace)
      → spans_of trace < 2 ^ 62
      → Kept max_total trace subs (composite_loop (pos max_total) subs s trace_id trace)
  unfolding composite_loop
  composite_loop-Kept max_total [] s trace_id trace hm w hc hn = ground arith
  composite_loop-Kept max_total (sub ∷ subs) s trace_id trace hm w hc hn =
      let rest =
        composite_loop-Kept max_total subs (sub.evaluator s trace_id trace).1 trace_id trace hm w.1
          hc hn in
      ground (arith, rest, add_count max_total sub trace hm w.0 hc hn)

  total-reset : (subs : List (Subpolicy S)) → total (map reset subs) ≡ 0
  unfolding reset
  total-reset [] = refl
  total-reset (sub ∷ subs) = omega (arith, total-reset subs)

  Within-reset :
      (max_total : ℕ) (subs : List (Subpolicy S)) → All (Within max_total) (map reset subs)
  unfolding reset
  Within-reset max_total [] = tt
  Within-reset max_total (sub ∷ subs) = (
    record { counted = refl; in_total = omega arith; in_allocation = inl refl },
    Within-reset max_total subs,
  )

  composite_tick-Within :
      (max_total : ℕ) (now : ℤ) (c : Composite S)
      → All (Within max_total) c.subpolicies
      → All (Within max_total) (composite_tick now c).subpolicies
        × (total (composite_tick now c).subpolicies
            ≡ (if int_eqb c.current_second now then total c.subpolicies else 0))
        × ((composite_tick now c).max_total_sps ≡ c.max_total_sps)
  unfolding composite_tick
  composite_tick-Within max_total now c w = elim (Bool-cases (int_eqb c.current_second now)) [
    | inl same ↦ rw (same, if◌then◌else◌) (w, refl, refl)
    | inr new ↦
        rw (new, if◌then◌else◌)
          (Within-reset max_total c.subpolicies, total-reset c.subpolicies, refl)
  ]

  -- Whatever the subpolicies decide, every counter of the composite stays within its allocation and
  -- the total, and the counters grow by exactly the spans of the trace if it is sampled, and by
  -- nothing if not; in a new second they start from 0. No trace and no total reaches 2^62.
  pub composite_evaluate-Within :
      (max_total : ℕ) (now : ℤ) (c : Composite S) (s : S) (trace_id : TraceId) (trace : TraceData)
      → max_total < 2 ^ 62
      → c.max_total_sps ≡ pos max_total
      → All (Within max_total) c.subpolicies
      → trace.span_count ≡ pos (spans_of trace)
      → spans_of trace < 2 ^ 62
      → let (outcome, c', s') = composite_evaluate now c s trace_id trace in
        All (Within max_total) c'.subpolicies
        × (total c'.subpolicies
            ≡ (if int_eqb c.current_second now then total c.subpolicies else 0)
              + spans_if_sampled outcome trace)
        × (c'.max_total_sps ≡ pos max_total)
  unfolding composite_evaluate
  composite_evaluate-Within max_total now c s trace_id trace hm e w hc hn =
      let (w', t', e') = composite_tick-Within max_total now c w in
      let kept =
        composite_loop-Kept max_total (composite_tick now c).subpolicies s trace_id trace hm w' hc
          hn in
      rw (e' ∙ e) (kept.within, rw (← t') kept.accounted, refl)
