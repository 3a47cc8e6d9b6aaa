-- ===== src/TailSampler/Policy/Verdict.antt =====
-- When a policy applies to a trace, and what it then decides
-- (processor/signoztailsampler/evaluator.go, Evaluate).
use Prim.Native.String.{String}
use mathlib.Core.Bool.{Bool, true, false, not, ◌&&◌, ◌||◌}
use mathlib.Core.List.{List, [], ◌∷◌, ◌++◌, map}
use mathlib.Core.Option.{Option, none, some}
use mathlib.Core.Path.{◌≡◌, refl, ap, ◌∙◌}
use native.Mathlib.Omega.{arith}
use otel_collector.Common.Lists.{any, All}
use otel_collector.Common.Tests.{if◌then◌else◌}
use otel_collector.TailSampler.Filters.{StringAttributeFilter, string_evaluate, bytes}
use otel_collector.TailSampler.Filters.Match.{string_evaluate-value_in}
use otel_collector.TailSampler.Policy.Outcomes.{
  has_sampled, has_refusal, spells_and, first_result, is_sampled-cons, is_not_sampled-cons,
  first_result-cons, is_and-spells_and,
}
use otel_collector.TailSampler.Policy.{
  DefaultEvaluator, is_and, stop, go_on, is_sampled, is_not_sampled, filter_loop, sub_loop,
  after_filters, default_evaluate,
}
use otel_collector.TailSampler.Trace.{
  Decision, error, no_result, TraceId, TraceData, Outcome, Evaluator,
}

module _ (trace_id : TraceId) (trace : TraceData) where
  abbrev pub says : (Decision → Bool) → Evaluator → Bool
  says p fe = p (fe trace_id trace).0

  -- Every filter gives a decision, none an error.
  abbrev pub NoError : List Evaluator → Type 0
  NoError = All (λ fe. (fe trace_id trace).1 ≡ none)

  -- Some filter matches; under "and", none refuses either.
  abbrev pub applies : String → List Evaluator → Bool
  applies op fes = any (says is_sampled) fes && not (is_and op && any (says is_not_sampled) fes)

  filter_loop_lem :
      (op : String) (fes : List Evaluator) (matched : Bool)
      → NoError fes
      → filter_loop op fes matched trace_id trace ≡ (
          if is_and op && any (says is_not_sampled) fes
          then stop (no_result, none)
          else go_on (matched || any (says is_sampled) fes))
  unfolding filter_loop
  filter_loop_lem op [] matched h = ground arith
  filter_loop_lem op (fe ∷ fes) matched h = ground (
    arith,
    h,
    filter_loop_lem op fes (if is_sampled (fe trace_id trace).0 then true else matched) h.1,
  )

  -- The same by the loops of the code.
  pub default_evaluate_lem :
      (de : DefaultEvaluator)
      → NoError de.filters
      → default_evaluate de trace_id trace ≡ (
          if applies de.filter_operator de.filters
          then (elim (sub_loop de.sub_evaluators trace_id trace) [
            | some outcome ↦ outcome
            | none ↦ de.sampler trace_id trace
          ])
          else (no_result, none))
  unfolding default_evaluate after_filters
  default_evaluate_lem de h = ground (arith, filter_loop_lem de.filter_operator de.filters false h)

  -- What the filters decide.
  abbrev pub decisions : List Evaluator → List Decision
  decisions fes = map (λ fe. (fe trace_id trace).0) fes

  -- What the sub-policies that are there say.
  abbrev pub outcomes : List (Option Evaluator) → List Outcome
  outcomes [] = []
  outcomes (none ∷ sps) = outcomes sps
  outcomes (some sp ∷ sps) = sp trace_id trace ∷ outcomes sps

  any-has_sampled : (fes : List Evaluator) → any (says is_sampled) fes ≡ has_sampled (decisions fes)
  unfolding has_sampled
  any-has_sampled [] = refl
  any-has_sampled (fe ∷ fes) =
      ap (λ b. is_sampled (fe trace_id trace).0 || b) (any-has_sampled fes)
      ∙ is_sampled-cons (fe trace_id trace).0 (decisions fes)

  any-has_refusal :
      (fes : List Evaluator) → any (says is_not_sampled) fes ≡ has_refusal (decisions fes)
  unfolding has_refusal
  any-has_refusal [] = refl
  any-has_refusal (fe ∷ fes) =
      ap (λ b. is_not_sampled (fe trace_id trace).0 || b) (any-has_refusal fes)
      ∙ is_not_sampled-cons (fe trace_id trace).0 (decisions fes)

  sub_loop-first_result :
      (sps : List (Option Evaluator)) (own : Outcome)
      → (elim (sub_loop sps trace_id trace) [ some outcome ↦ outcome | none ↦ own ])
        ≡ first_result (outcomes sps) own
  unfolding sub_loop first_result
  sub_loop-first_result [] own = refl
  sub_loop-first_result (none ∷ sps) own = sub_loop-first_result sps own
  sub_loop-first_result (some sp ∷ sps) own =
      let (decision, err) = sp trace_id trace in
      ground
        (arith, first_result-cons decision err (outcomes sps) own, sub_loop-first_result sps own)

  -- A policy whose filters give no error says no_result unless it applies: some filter is matched
  -- and, when the operator is "and", no filter is refused. If it applies, the first sub-policy with
  -- a result decides, and the policy's own sampler if there is none.
  pub default_evaluate-applies :
      (de : DefaultEvaluator)
      → NoError de.filters
      → let ds = decisions de.filters in
        default_evaluate de trace_id trace ≡ (
          if has_sampled ds && not (spells_and (bytes de.filter_operator) && has_refusal ds)
          then first_result (outcomes de.sub_evaluators) (de.sampler trace_id trace)
          else (no_result, none))
  default_evaluate-applies de h =
      default_evaluate_lem de h
      ∙ rw
          (
            any-has_sampled de.filters,
            any-has_refusal de.filters,
            is_and-spells_and de.filter_operator,
            sub_loop-first_result de.sub_evaluators (de.sampler trace_id trace),
          )
          refl

  filter_loop-error :
      (op : String) (before after : List Evaluator) (fe : Evaluator) (e : String) (m : Bool)
      → NoError before
      → (is_and op && any (says is_not_sampled) before) ≡ false
      → (fe trace_id trace).1 ≡ some e
      → filter_loop op (before ++ (fe ∷ after)) m trace_id trace ≡ stop (error, none)
  unfolding filter_loop
  filter_loop-error op [] after fe e m ok o err = ground arith
  filter_loop-error op (b ∷ bs) after fe e m ok o err = ground (
    arith,
    ok,
    filter_loop-error op bs after fe e (if is_sampled (b trace_id trace).0 then true else m) ok.1,
  )

  -- A filter that errs ends the evaluation with the decision error and no error, provided that no
  -- filter before it errs and, under "and", none before it refuses.
  pub default_evaluate-error :
      (de : DefaultEvaluator) (before after : List Evaluator) (fe : Evaluator) {e : String}
      → de.filters ≡ before ++ (fe ∷ after)
      → NoError before
      → (is_and de.filter_operator && any (says is_not_sampled) before) ≡ false
      → (fe trace_id trace).1 ≡ some e
      → default_evaluate de trace_id trace ≡ (error, none)
  unfolding default_evaluate
  default_evaluate-error de before after fe {e} eq ok o err =
      ground (arith, eq, filter_loop-error de.filter_operator before after fe e false ok o err)

  not_sampled-inverted :
      (fs : List StringAttributeFilter)
      → All (λ f. f.invert_match ≡ true) fs
      → any (says is_sampled) (map string_evaluate fs) ≡ false
  not_sampled-inverted [] h = refl
  not_sampled-inverted (f ∷ fs) h =
      ground (arith, string_evaluate-value_in f trace_id trace, h, not_sampled-inverted fs h.1)

  pub NoError-string : (fs : List StringAttributeFilter) → NoError (map string_evaluate fs)
  NoError-string [] = tt
  NoError-string (f ∷ fs) =
      (ground (arith, string_evaluate-value_in f trace_id trace), NoError-string fs)

  -- A policy whose filters are all inverted string filters says no_result on every trace.
  pub default_evaluate-inverted :
      (de : DefaultEvaluator) (fs : List StringAttributeFilter)
      → de.filters ≡ map string_evaluate fs
      → All (λ f. f.invert_match ≡ true) fs
      → default_evaluate de trace_id trace ≡ (no_result, none)
  default_evaluate-inverted de fs eq h =
      default_evaluate_lem de (rw eq (NoError-string fs)) ∙ rw (eq, not_sampled-inverted fs h)
