-- ===== src/TailSampler/Tests.antt =====
-- Runs of the tail sampler on small inputs, and its theorems at such inputs.
mod Pipeline
use Prim.Native.Nat.{ℕ, ◌+◌, ◌≤◌}
use Prim.Native.String.{String}
use mathlib.Core.Bool.{Bool, true, false}
use mathlib.Core.List.{List, [], ◌∷◌}
use mathlib.Core.Logic.{inl}
use mathlib.Core.Option.{none, some}
use mathlib.Core.Path.{◌≡◌, refl}
use native.Mathlib.Omega.{arith}
use text.Mathlib.Text.{◌==◌ as str_eq}
use otel_collector.Common.Int.{pos, add_int64}
use otel_collector.Common.Lists.{any, All}
use otel_collector.Common.Tests.{if◌then◌else◌, comparable_nat, comparable_string}
use otel_collector.TailSampler.Batcher
use otel_collector.TailSampler.Filters.{
  always_sample, never_sample, StringAttributeFilter, string_evaluate, exact_matcher,
}
use otel_collector.TailSampler.Filters.Match.{
  value_in, listed, exact_matcher-listed, string_evaluate-value_in,
}
use otel_collector.TailSampler.Limits.{
  new_rate_limiting, rate_evaluate, Composite, composite_evaluate,
}
use otel_collector.TailSampler.Limits.Budget.{
  Within, total, spans_if_sampled, composite_evaluate-Within,
}
use otel_collector.TailSampler.Limits.Rate.{Schedule, sampled_in, sampled_in-new_rate_limiting}
use otel_collector.TailSampler.Policy.{DefaultEvaluator, default_evaluate, sub_loop, is_and}
use otel_collector.TailSampler.Policy.Outcomes.{has_sampled, has_refusal, spells_and, first_result}
use otel_collector.TailSampler.Policy.Verdict.{
  default_evaluate-applies, default_evaluate-inverted, default_evaluate-error,
}
use otel_collector.TailSampler.Trace.{
  unspecified, pending, sampled, invert_sampled, invert_not_sampled, no_result, error,
  AttributeValue, code_unset, TraceId, Attributes, Span, ResourceSpans, TraceData, Outcome,
  Evaluator,
}

abbrev pub no_attributes : Attributes
no_attributes key = none

abbrev pub attribute : String → AttributeValue → Attributes
attribute key v k = if str_eq k key then some v else none

abbrev pub get_span : ℕ → Span
get_span id = record {
  trace_id = id;
  attributes = attribute "http.method" (record { int = pos 0; str = "GET" });
  status = code_unset;
  start_timestamp = 10;
  end_timestamp = 20;
}

abbrev pub one_batch : ℕ → ResourceSpans
one_batch id = record { resource = no_attributes; scope_spans = (get_span id ∷ []) ∷ [] }

abbrev pub one_trace : TraceData
one_trace = record {
  decisions = pending ∷ [];
  arrival_time = 0;
  decision_time = 0;
  span_count = pos 1;
  received_batches = one_batch 7 ∷ [];
  final_decision = unspecified;
}

abbrev get_filter : Bool → StringAttributeFilter
get_filter invert = record {
  key = "http.method";
  matcher = exact_matcher ("GET" ∷ []);
  invert_match = invert;
}

abbrev evaluator_of : List Evaluator → DefaultEvaluator
evaluator_of filters = record {
  name = "p";
  sampler = never_sample;
  filter_operator = "AND";
  filters = filters;
  sub_evaluators = some always_sample ∷ [];
}

abbrev failing : Evaluator
failing id trace = (unspecified, some "no")

-- One filter matches and one refuses, which "or" does not mind. A sub-policy that errs and one that is
-- not there are passed over.
abbrev get_policy_evaluator : DefaultEvaluator
get_policy_evaluator = record {
  name = "p";
  sampler = never_sample;
  filter_operator = "or";
  filters = always_sample ∷ never_sample ∷ [];
  sub_evaluators = some failing ∷ none ∷ some always_sample ∷ [];
}

default_evaluate-applies_example :
    default_evaluate get_policy_evaluator 7 one_trace ≡ (sampled, none)
unfolding has_sampled has_refusal spells_and first_result always_sample never_sample
default_evaluate-applies_example =
    default_evaluate-applies 7 one_trace get_policy_evaluator (refl, (refl, tt))

default_evaluate-inverted_example :
    default_evaluate (evaluator_of (string_evaluate (get_filter true) ∷ [])) 7 one_trace
    ≡ (no_result, none)
default_evaluate-inverted_example =
    default_evaluate-inverted 7 one_trace (evaluator_of (string_evaluate (get_filter true) ∷ []))
      (get_filter true ∷ []) refl (refl, tt)

abbrev busy : Schedule
busy = (5, one_trace) ∷ (5, one_trace) ∷ (5, one_trace) ∷ (6, one_trace) ∷ []

busy_runs :
    (sampled_in 5 (new_rate_limiting (pos 3)) busy ≡ 2)
    × (sampled_in 6 (new_rate_limiting (pos 3)) busy ≡ 1)
unfolding sampled_in new_rate_limiting rate_evaluate add_int64
busy_runs = (refl, refl)

sampled_in-new_rate_limiting_example : sampled_in 5 (new_rate_limiting (pos 3)) busy ≤ 2
sampled_in-new_rate_limiting_example = sampled_in-new_rate_limiting 5 3 busy (omega arith) (
  omega arith,
  refl,
  omega arith,
  (
    omega arith,
    refl,
    omega arith,
    (omega arith, refl, omega arith, (omega arith, refl, omega arith, tt)),
  ),
)

abbrev always : Unit {0} → TraceId → TraceData → Outcome × Unit {0}
always s id trace = ((sampled, none), s)

abbrev budget : Composite (Unit {0})
budget = record {
  subpolicies = record { evaluator = always; allocated_sps = pos 2; sampled_sps = pos 0 } ∷ [];
  max_total_sps = pos 5;
  current_second = pos 1;
}

composite_evaluate-Within_example :
    let (outcome, c', s') = composite_evaluate (pos 1) budget tt 7 one_trace in
    All (Within 5) c'.subpolicies
    × (total c'.subpolicies ≡ 0 + spans_if_sampled outcome one_trace)
    × (c'.max_total_sps ≡ pos 5)
composite_evaluate-Within_example =
    composite_evaluate-Within 5 (pos 1) budget tt 7 one_trace (omega arith) refl
      (record { counted = refl; in_total = omega arith; in_allocation = inl refl }, tt) refl
      (omega arith)
