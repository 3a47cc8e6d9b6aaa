-- ===== src/TailSampler/Limits.antt =====
-- The evaluators that combine others or count spans against a rate
-- (processor/signoztailsampler/internal/sampling/{and,composite,rate_limiting}.go).
-- A subpolicy may have a state of its own: it reads and returns a state `S` that all share.
-- The clock's second is an argument. Counters are int64 and wrap as Go's do.
use Prim.Native.Nat.{ℕ}
use Prim.Native.String.{String}
use mathlib.Core.Bool.{Bool, true, false, not, ◌&&◌}
use mathlib.Core.List.{List, [], ◌∷◌, map}
use mathlib.Core.Option.{Option, none, some}
use otel_collector.Common.Int.{ℤ, pos, int_leb, int_ltb, int_eqb, add_int64}
use otel_collector.Common.Tests.{if◌then◌else◌}
use otel_collector.TailSampler.Trace.{
  Decision, unspecified, sampled, not_sampled, invert_sampled, invert_not_sampled, TraceId,
  TraceData, Outcome,
}
pub mod Rate
pub mod Budget

-- `decision == NotSampled || decision == InvertNotSampled`
abbrev pub refuses : Decision → Bool
refuses not_sampled = true
refuses invert_not_sampled = true
refuses _ = false

-- `decision == Sampled || decision == InvertSampled`
abbrev pub accepts : Decision → Bool
accepts sampled = true
accepts invert_sampled = true
accepts _ = false

module _ {S : Type 0} where
  unfoldable pub and_evaluate :
      List (S → TraceId → TraceData → Outcome × S) → S → TraceId → TraceData → Outcome × S
  and_evaluate [] s trace_id trace = ((sampled, none), s)
  and_evaluate (sub ∷ subs) s trace_id trace =
      let ((decision, err), s') = sub s trace_id trace in
      let rest = and_evaluate subs s' trace_id trace in
      elim err [
        | some e ↦ ((unspecified, some e), s')
        | none ↦ if refuses decision then ((not_sampled, none), s') else rest
      ]

pub record RateLimiting : Type 0 where
  pub current_second : ℤ
  pub spans_in_current_second : ℤ
  pub spans_per_second : ℤ

unfoldable pub new_rate_limiting : ℤ → RateLimiting
new_rate_limiting spans_per_second = record {
  current_second = pos 0;
  spans_in_current_second = pos 0;
  spans_per_second = spans_per_second;
}

-- The counter restarts when the second changes.
unfoldable pub rate_tick : ℤ → RateLimiting → RateLimiting
rate_tick now r =
    if not (int_eqb r.current_second now)
    then record r { current_second = now; spans_in_current_second = pos 0 }
    else r

unfoldable pub rate_evaluate : ℤ → RateLimiting → TraceId → TraceData → Outcome × RateLimiting
unfolding rate_tick
rate_evaluate now r trace_id trace =
    let r' = rate_tick now r in
    let spans_in_second_if_sampled = add_int64 r'.spans_in_current_second trace.span_count in
    if int_ltb spans_in_second_if_sampled r'.spans_per_second
    then ((sampled, none), record r' { spans_in_current_second = spans_in_second_if_sampled })
    else ((not_sampled, none), r')

pub record Subpolicy (S : Type 0) : Type 0 where
  pub evaluator : S → TraceId → TraceData → Outcome × S
  pub allocated_sps : ℤ
  pub sampled_sps : ℤ

pub record Composite (S : Type 0) : Type 0 where
  pub subpolicies : List (Subpolicy S)
  pub max_total_sps : ℤ
  pub current_second : ℤ

module _ {S : Type 0} where
  unfoldable pub new_subpolicy : (S → TraceId → TraceData → Outcome × S) × ℤ → Subpolicy S
  new_subpolicy (evaluator, max_spans_per_second) = record {
    evaluator = evaluator;
    allocated_sps = max_spans_per_second;
    sampled_sps = pos 0;
  }

  unfoldable pub new_composite :
      ℤ → List ((S → TraceId → TraceData → Outcome × S) × ℤ) → Composite S
  unfolding new_subpolicy
  new_composite max_total sub_policy_params = record {
    subpolicies = map new_subpolicy sub_policy_params;
    max_total_sps = max_total;
    current_second = pos 0;
  }

  unfoldable pub reset : Subpolicy S → Subpolicy S
  reset sub = record sub { sampled_sps = pos 0 }

  unfoldable pub composite_tick : ℤ → Composite S → Composite S
  unfolding reset
  composite_tick now c =
      if not (int_eqb c.current_second now)
      then record c { current_second = now; subpolicies = map reset c.subpolicies }
      else c

  -- The loop over the subpolicies: the first that accepts decides, within its budget.
  unfoldable pub composite_loop :
      ℤ → List (Subpolicy S) → S → TraceId → TraceData → Outcome × List (Subpolicy S) × S
  composite_loop max_total [] s trace_id trace = ((not_sampled, none), [], s)
  composite_loop max_total (sub ∷ subs) s trace_id trace =
      let ((decision, err), s') = sub.evaluator s trace_id trace in
      let (outcome, subs', s'') = composite_loop max_total subs s' trace_id trace in
      let spans_in_second_if_sampled = add_int64 sub.sampled_sps trace.span_count in
      elim err [
        | some e ↦ ((unspecified, some e), sub ∷ subs, s')
        | none ↦
            if accepts decision
            then (if int_leb spans_in_second_if_sampled sub.allocated_sps
                  && int_leb spans_in_second_if_sampled max_total
                then (
                  (sampled, none),
                  record sub { sampled_sps = spans_in_second_if_sampled } ∷ subs,
                  s',
                )
                else ((not_sampled, none), sub ∷ subs, s'))
            else (outcome, sub ∷ subs', s'')
      ]

  unfoldable pub composite_evaluate :
      ℤ → Composite S → S → TraceId → TraceData → Outcome × Composite S × S
  composite_evaluate now c s trace_id trace =
      let c' = composite_tick now c in
      let (outcome, subs, s') = composite_loop c'.max_total_sps c'.subpolicies s trace_id trace in
      (outcome, record c' { subpolicies = subs }, s')
