-- ===== src/TailSampler/Policy.antt =====
-- The evaluator of a configured policy: filters, sub-policies, then the policy's own sampling
-- (processor/signoztailsampler/evaluator.go, and NewStringAttributeFilter of
-- internal/sampling/string_tag_filter.go). The filters keep no state but the verdict cache, which
-- Memo shows to change no verdict, so their evaluators are functions of the trace.
-- `sort.Slice` may order equal priorities in any way; the sort here keeps their order.
pub mod Outcomes
pub mod Verdict
pub mod Configured
use Prim.Native.Nat.{ℕ, ◌+◌}
use Prim.Native.String.{String}
use mathlib.Core.Bool.{Bool, true, false, ◌&&◌}
use mathlib.Core.List.{List, [], ◌∷◌, ◌++◌, map}
use mathlib.Core.Option.{Option, none, some}
use otel_collector.Common.Int.{int_ltb}
use otel_collector.Common.Tests.{if◌then◌else◌, leb, nat_eqb}
use otel_collector.TailSampler.Config.{StringAttributeCfg, PolicyFilterCfg, BasePolicy}
use otel_collector.TailSampler.Filters.{
  always_sample, never_sample, numeric_evaluate, StringAttributeFilter, exact_matcher,
  string_evaluate, Percentage, new_probabilistic_sampler, probabilistic_evaluate, bytes,
}
use otel_collector.TailSampler.Memo.{Regexp, add_filters, matches}
use otel_collector.TailSampler.Trace.{
  Decision, sampled, not_sampled, error, no_result, TraceId, TraceData, Outcome, Evaluator,
}

pub record DefaultEvaluator : Type 0 where
  pub name : String
  pub sampler : Evaluator
  pub filter_operator : String
  pub filters : List Evaluator
  pub sub_evaluators : List (Option Evaluator)

-- `strings.ToLower(s) == "and"`: no letter outside ASCII has one of these as its lower case.
unfoldable pub lower : ℕ → ℕ
lower c = if leb b'A' c && leb c b'Z' then c + 32 else c

unfoldable pub is_and_bytes : List ℕ → Bool
unfolding lower
is_and_bytes (x ∷ y ∷ z ∷ []) =
    nat_eqb (lower x) b'a' && nat_eqb (lower y) b'n' && nat_eqb (lower z) b'd'
is_and_bytes _ = false

unfoldable pub is_and : String → Bool
unfolding is_and_bytes
is_and s = is_and_bytes (bytes s)

pub data FilterResult : Type 0 where
  stop : Outcome → FilterResult
  go_on : Bool → FilterResult

-- `decision == Sampled`, `decision == NotSampled`, `decision != NoResult`
abbrev pub is_sampled : Decision → Bool
is_sampled sampled = true
is_sampled _ = false

abbrev pub is_not_sampled : Decision → Bool
is_not_sampled not_sampled = true
is_not_sampled _ = false

abbrev pub is_result : Decision → Bool
is_result no_result = false
is_result _ = true

-- The loop over the filters; the flag is `filterMatched`.
unfoldable pub filter_loop : String → List Evaluator → Bool → TraceId → TraceData → FilterResult
filter_loop op [] matched trace_id trace = go_on matched
filter_loop op (fe ∷ fes) matched trace_id trace =
    let (result, err) = fe trace_id trace in
    let rest = filter_loop op fes (if is_sampled result then true else matched) trace_id trace in
    elim err [
      | some e ↦ stop (error, none)
      | none ↦ if is_not_sampled result && is_and op then stop (no_result, none) else rest
    ]

-- The loop over the sub-policies: the first result of any kind, or none.
unfoldable pub sub_loop : List (Option Evaluator) → TraceId → TraceData → Option Outcome
sub_loop [] trace_id trace = none
sub_loop (none ∷ sps) trace_id trace = sub_loop sps trace_id trace
sub_loop (some sp ∷ sps) trace_id trace =
    let (decision, err) = sp trace_id trace in
    let rest = sub_loop sps trace_id trace in
    elim err [ some e ↦ rest | none ↦ if is_result decision then some (decision, none) else rest ]

-- What `Evaluate` does once the filters are through.
unfoldable pub after_filters : DefaultEvaluator → Bool → Evaluator
after_filters de matched trace_id trace =
    if matched
    then (elim (sub_loop de.sub_evaluators trace_id trace) [
      | some outcome ↦ outcome
      | none ↦ de.sampler trace_id trace
    ])
    else (no_result, none)

unfoldable pub default_evaluate : DefaultEvaluator → Evaluator
default_evaluate de trace_id trace =
    elim (filter_loop de.filter_operator de.filters false trace_id trace) [
      | stop outcome ↦ outcome
      | go_on matched ↦ after_filters de matched trace_id trace
    ]

-- `sort.Slice` by priority.
unfoldable pub insert_policy : BasePolicy → List BasePolicy → List BasePolicy
insert_policy p [] = p ∷ []
insert_policy p (q ∷ qs) =
    if int_ltb q.priority p.priority then q ∷ insert_policy p qs else p ∷ q ∷ qs

unfoldable pub sort_policies : List BasePolicy → List BasePolicy
unfolding insert_policy
sort_policies [] = []
sort_policies (p ∷ ps) = insert_policy p (sort_policies ps)

-- The sampler for a percentage.
unfoldable pub choose_sampler : Percentage → Evaluator
choose_sampler p =
    if p.is_zero
    then never_sample
    else if p.is_hundred
    then always_sample
    else probabilistic_evaluate (new_probabilistic_sampler "" p)

module _ (regexp : Regexp) where
  -- `NewStringAttributeFilter`; `none` is the panic on a regular expression that does not compile.
  unfoldable pub new_string_attribute_filter : StringAttributeCfg → Option StringAttributeFilter
  new_string_attribute_filter s =
      if s.enabled_regex_matching
      then (elim (add_filters regexp s.values) [
        | none ↦ none
        | some rules ↦
            some (record {
              key = s.key;
              matcher = matches regexp rules;
              invert_match = s.invert_match;
            })
      ])
      else some
          (record { key = s.key; matcher = exact_matcher s.values; invert_match = s.invert_match })

  unfoldable pub string_evaluators : List StringAttributeCfg → Option (List Evaluator)
  string_evaluators [] = some []
  string_evaluators (s ∷ ss) = elim (new_string_attribute_filter s) [
    | none ↦ none
    | some f ↦ elim (string_evaluators ss) [ none ↦ none | some fs ↦ some (string_evaluate f ∷ fs) ]
  ]

  unfoldable pub prepare_filter_evaluators : PolicyFilterCfg → Option (List Evaluator)
  prepare_filter_evaluators cfg = elim (string_evaluators cfg.string_attribute_cfgs) [
    | none ↦ none
    | some fs ↦ some (fs ++ map numeric_evaluate cfg.numeric_attribute_cfgs)
  ]

  -- The part of `NewDefaultEvaluator` after the sub-policies' evaluators are made.
  unfoldable pub build_evaluator : BasePolicy → List (Option Evaluator) → Option DefaultEvaluator
  build_evaluator policy subs = elim (prepare_filter_evaluators policy.policy_filter_cfg) [
    | none ↦ none
    | some filters ↦ some (record {
      name = policy.name;
      sampler = choose_sampler policy.sampling_percentage;
      filter_operator = policy.policy_filter_cfg.filter_op;
      filters = filters;
      sub_evaluators = subs;
    })
  ]

  -- Sub-policies have no sub-policies of their own.
  unfoldable pub sub_evaluators_of : List BasePolicy → Option (List (Option Evaluator))
  sub_evaluators_of [] = some []
  sub_evaluators_of (rule ∷ rules) = elim (build_evaluator rule []) [
    | none ↦ none
    | some de ↦ elim (sub_evaluators_of rules) [
      | none ↦ none
      | some des ↦ some (some (default_evaluate de) ∷ des)
    ]
  ]

  unfoldable pub new_default_evaluator : BasePolicy → List BasePolicy → Option DefaultEvaluator
  new_default_evaluator policy subpolicies = elim (sub_evaluators_of (sort_policies subpolicies)) [
    | none ↦ none
    | some subs ↦ build_evaluator policy subs
  ]
