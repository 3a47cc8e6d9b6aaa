-- ===== src/TailSampler/Processor/Decide.antt =====
-- What is decided on a trace, and what becomes of its spans before and after
-- (processor/signoztailsampler/processor.go: makeDecision, samplingPolicyOnTick, processTraces).
use Prim.Native.Nat.{ℕ, ◌+◌}
use mathlib.Core.List.{List, [], ◌∷◌, ◌++◌, map}
use mathlib.Core.Logic.{◌⊎◌, ◌≢◌}
use mathlib.Core.Option.{some}
use mathlib.Core.Path.{◌≡◌, refl}
use native.Mathlib.Omega.{arith}
use otel_collector.Common.Dict.{lookup}
use otel_collector.Common.Dict.Keys.{lookup-modify}
use otel_collector.Common.Lists.{All, set}
use otel_collector.Common.Tests.{if◌then◌else◌, comparable_nat, nat_eqb_iff}
use otel_collector.TailSampler.Processor.{
  Policy, Processor, PolicyMetrics, is_final, count_error, policy_loop, or_sampled, make_decision,
  decide_trace,
}
use otel_collector.TailSampler.Trace.{
  Decision, unspecified, pending, sampled, not_sampled, dropped, error, invert_sampled,
  invert_not_sampled, no_result, TraceId, Traces, TraceData,
}

-- The evaluator does not read which decisions are noted on the trace so far.
abbrev pub IgnoresDecisions : TraceId → TraceData → Policy → Type 0
IgnoresDecisions id trace p =
    (ds : List Decision) → p.evaluator id (record trace { decisions = ds }) ≡ p.evaluator id trace

-- The first sampled or not_sampled of some decisions, and sampled if there is neither.
unfoldable pub first_final : List Decision → Decision
first_final [] = sampled
first_final (sampled ∷ ds) = sampled
first_final (not_sampled ∷ ds) = not_sampled
first_final (_ ∷ ds) = first_final ds

-- What each policy says of a trace.
abbrev pub decisions_of : List Policy → TraceId → TraceData → List Decision
decisions_of ps id trace = map (λ p. (p.evaluator id trace).0) ps

first_final-cons :
    (d : Decision) (ds : List Decision)
    → (if is_final d then or_sampled d else first_final ds) ≡ first_final (d ∷ ds)
unfolding first_final
first_final-cons unspecified ds = refl
first_final-cons pending ds = refl
first_final-cons sampled ds = refl
first_final-cons not_sampled ds = refl
first_final-cons dropped ds = refl
first_final-cons error ds = refl
first_final-cons invert_sampled ds = refl
first_final-cons invert_not_sampled ds = refl
first_final-cons no_result ds = refl

policy_loop-first_final :
    (ps : List Policy) (i : ℕ) (id : TraceId) (trace : TraceData) (ds : List Decision)
    (metrics : PolicyMetrics)
    → All (IgnoresDecisions id trace) ps
    → or_sampled (policy_loop ps i id (record trace { decisions = ds }) metrics).0
      ≡ first_final (decisions_of ps id trace)
unfolding policy_loop first_final
policy_loop-first_final [] i id trace ds metrics h = refl
policy_loop-first_final (p ∷ ps) i id trace ds metrics h =
    let d = (p.evaluator id trace).0 in
    let m = count_error (p.evaluator id trace).1 metrics in
    ground (
      arith,
      h.0 ds,
      first_final-cons d (decisions_of ps id trace),
      policy_loop-first_final ps (i + 1) id trace (set ds i d) m h.1,
    )

-- If no policy reads the decisions noted so far, the decision on a trace is the first sampled or
-- not_sampled that a policy says of it, in the order of the policies, and sampled if none says
-- either.
pub make_decision-first_final :
    (ps : List Policy) (id : TraceId) (trace : TraceData) (metrics : PolicyMetrics)
    → All (IgnoresDecisions id trace) ps
    → (make_decision ps id trace metrics).0 ≡ first_final (decisions_of ps id trace)
unfolding make_decision
make_decision-first_final ps id trace metrics h =
    policy_loop-first_final ps 0 id trace trace.decisions metrics h

policy_loop-final :
    (ps : List Policy) (i : ℕ) (id : TraceId) (trace : TraceData) (metrics : PolicyMetrics)
    → let (d, trace', m) = policy_loop ps i id trace metrics in
      ((d ≡ sampled) ⊎ (d ≡ not_sampled) ⊎ (d ≡ no_result))
      × (trace'.received_batches ≡ trace.received_batches)
      × (trace'.span_count ≡ trace.span_count)
      × (m.decision_sampled ≡ metrics.decision_sampled)
      × (m.decision_not_sampled ≡ metrics.decision_not_sampled)
      × (m.id_not_found_on_map_count ≡ metrics.id_not_found_on_map_count)
unfolding policy_loop
policy_loop-final [] i id trace metrics = ground arith
policy_loop-final (p ∷ ps) i id trace metrics =
    let d = (p.evaluator id trace).0 in
    let m = count_error (p.evaluator id trace).1 metrics in
    let rest =
      policy_loop-final ps (i + 1) id (record trace { decisions = set trace.decisions i d }) m in
    ground (arith, rest)

-- Every trace is decided one way or the other, is counted once, and keeps its spans.
pub make_decision-final :
    (ps : List Policy) (id : TraceId) (trace : TraceData) (metrics : PolicyMetrics)
    → let (d, trace', m) = make_decision ps id trace metrics in
      ((d ≡ sampled)
          × (m.decision_sampled ≡ metrics.decision_sampled + 1)
          × (m.decision_not_sampled ≡ metrics.decision_not_sampled)
        ⊎ (d ≡ not_sampled)
          × (m.decision_sampled ≡ metrics.decision_sampled)
          × (m.decision_not_sampled ≡ metrics.decision_not_sampled + 1))
      × (trace'.received_batches ≡ trace.received_batches)
      × (trace'.span_count ≡ trace.span_count)
unfolding make_decision
make_decision-final ps id trace metrics =
    let loop = policy_loop-final ps 0 id trace metrics in ground (arith, loop)

-- What a decision sends on.
abbrev pub sent_on : Decision → Traces → List Traces → List Traces
sent_on sampled batches sent = sent ++ batches ∷ []
sent_on _ batches sent = sent

-- Deciding on a trace of the map leaves it there with the decision and with its spans, forwards
-- those spans exactly if the decision is sampled, and leaves every other trace as it was.
pub lookup-decide_trace :
    (now : ℕ) (id : TraceId) (tsp : Processor) (metrics : PolicyMetrics) {trace : TraceData}
    → lookup id tsp.id_to_trace ≡ some trace
    → let d = (make_decision tsp.policies id (record trace { decision_time = now }) metrics).0 in
      let tsp' = (decide_trace now id tsp metrics).0 in
      ((decided : TraceData) × (lookup id tsp'.id_to_trace ≡ some decided)
        × (decided.final_decision ≡ d)
        × (decided.received_batches ≡ trace.received_batches))
      × (tsp'.forwarded ≡ sent_on d trace.received_batches tsp.forwarded)
      × ((other : TraceId)
          → other ≢ id
          → lookup other tsp'.id_to_trace ≡ lookup other tsp.id_to_trace)
unfolding decide_trace
lookup-decide_trace now id tsp metrics {trace} found =
    let made = make_decision tsp.policies id (record trace { decision_time = now }) metrics in
    let kept = make_decision-final tsp.policies id (record trace { decision_time = now }) metrics in
    let decided = record (made.1) { final_decision = made.0 } in
    rw (found, decide_trace)
      (
        (
          decided,
          ground
              (arith, lookup-modify id id (λ _. decided) tsp.id_to_trace, nat_eqb_iff id id, found),
          refl,
          kept.1,
        ),
        ground (arith, kept),
        λ other ne.
            ground
              (arith, lookup-modify id other (λ _. decided) tsp.id_to_trace, nat_eqb_iff id other),
      )
