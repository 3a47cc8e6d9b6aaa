-- ===== src/TailSampler/Policy/Configured.antt =====
-- What a policy made from a configuration can decide
-- (processor/signoztailsampler/evaluator.go, NewDefaultEvaluator and Evaluate together).
use mathlib.Core.List.{List, [], ◌∷◌, ◌++◌, map}
use mathlib.Core.Logic.{◌⊎◌, inl, inr}
use mathlib.Core.Option.{Option, none, some}
use mathlib.Core.Path.{◌≡◌, refl, subst}
use native.Mathlib.Omega.{arith}
use otel_collector.Common.Lists.{All}
use otel_collector.Common.Tests.{Bool-cases, Option-cases}
use otel_collector.TailSampler.Config.{BasePolicy, StringAttributeCfg}
use otel_collector.TailSampler.Filters.{
  NumericAttributeFilter, StringAttributeFilter, numeric_evaluate, string_evaluate, always_sample,
  never_sample, probabilistic_evaluate, Percentage,
}
use otel_collector.TailSampler.Filters.Match.{numeric_evaluate-any}
use otel_collector.TailSampler.Memo.{Regexp}
use otel_collector.TailSampler.Policy.{
  DefaultEvaluator, sub_loop, default_evaluate, choose_sampler, new_string_attribute_filter,
  string_evaluators, prepare_filter_evaluators, build_evaluator, sub_evaluators_of,
  new_default_evaluator, sort_policies,
}
use otel_collector.TailSampler.Policy.Verdict.{
  NoError, NoError-string, applies, default_evaluate_lem,
}
use otel_collector.TailSampler.Trace.{
  sampled, not_sampled, no_result, TraceId, TraceData, Outcome, Evaluator,
}

-- A verdict, or no opinion; no error.
pub record IsSettled (o : Outcome) : Type 0 where
  pub no_error : o.1 ≡ none
  pub verdict : (o.0 ≡ sampled) ⊎ (o.0 ≡ not_sampled) ⊎ (o.0 ≡ no_result)

module _ (trace_id : TraceId) (trace : TraceData) where
  abbrev pub Settles : Evaluator → Type 0
  Settles fe = IsSettled (fe trace_id trace)

  abbrev AllSettle : List (Option Evaluator) → Type 0
  AllSettle = All (λ o. elim o [ none ↦ Unit {0} | some fe ↦ Settles fe ])

  choose_sampler-Settles : (p : Percentage) → Settles (choose_sampler p)
  unfolding choose_sampler always_sample never_sample probabilistic_evaluate
  choose_sampler-Settles p = ground arith

  sub_loop-IsSettled :
      (subs : List (Option Evaluator)) {o : Outcome}
      → AllSettle subs
      → sub_loop subs trace_id trace ≡ some o
      → IsSettled o
  unfolding sub_loop
  sub_loop-IsSettled [] h e = cc
  sub_loop-IsSettled (none ∷ subs) h e = sub_loop-IsSettled subs h.1 e
  sub_loop-IsSettled (some sp ∷ subs) {o} h e =
      ground (arith, h, sub_loop-IsSettled subs {o = o} h.1)

  default_evaluate-Settles :
      (de : DefaultEvaluator)
      → NoError trace_id trace de.filters
      → AllSettle de.sub_evaluators
      → Settles de.sampler
      → Settles (default_evaluate de)
  default_evaluate-Settles de ne subs own =
      rw (default_evaluate_lem trace_id trace de ne)
        (elim (Bool-cases (applies trace_id trace de.filter_operator de.filters)) [
          | inl yes' ↦ rw yes' (decide' (sub_loop de.sub_evaluators trace_id trace) refl)
          | inr no' ↦ rw no' (ground arith)
        ])
    where
      decide' :
          (r : Option Outcome)
          → sub_loop de.sub_evaluators trace_id trace ≡ r
          → IsSettled (elim r [ some outcome ↦ outcome | none ↦ de.sampler trace_id trace ])
      decide' none e = own
      decide' (some o) e = sub_loop-IsSettled de.sub_evaluators subs e

  NoError-numeric :
      (ns : List NumericAttributeFilter) → NoError trace_id trace (map numeric_evaluate ns)
  NoError-numeric [] = tt
  NoError-numeric (n ∷ ns) =
      (ground (arith, numeric_evaluate-any n trace_id trace), NoError-numeric ns)

  NoError-append :
      (fs gs : List Evaluator)
      → NoError trace_id trace fs
      → NoError trace_id trace gs
      → NoError trace_id trace (fs ++ gs)
  NoError-append [] gs hf hg = hg
  NoError-append (f ∷ fs) gs hf hg = (hf.0, NoError-append fs gs hf.1 hg)

module _ (regexp : Regexp) where
  string_evaluators-map :
      (ss : List StringAttributeCfg) {fs : List Evaluator}
      → string_evaluators regexp ss ≡ some fs
      → (sf : List StringAttributeFilter) × (fs ≡ map string_evaluate sf)
  unfolding string_evaluators
  string_evaluators-map [] e = ([], ground arith)
  string_evaluators-map (s ∷ ss) {fs} e =
      elim (Option-cases (new_string_attribute_filter regexp s)) [
        | inl n ↦ absurd (ground arith)
        | inr (f, ef) ↦ elim (Option-cases (string_evaluators regexp ss)) [
          | inl n ↦ absurd (ground arith)
          | inr (gs, eg) ↦
              let (sf, eq) = string_evaluators-map ss eg in (f ∷ sf, ground (arith, ef, eg, e, eq))
        ]
      ]

  filters_of :
      (policy : BasePolicy) (subs : List (Option Evaluator)) {de : DefaultEvaluator}
      → build_evaluator regexp policy subs ≡ some de
      → (sf : List StringAttributeFilter) × (de.filters
          ≡ map string_evaluate sf
            ++ map numeric_evaluate policy.policy_filter_cfg.numeric_attribute_cfgs)
        × (de.sub_evaluators ≡ subs)
        × (de.sampler ≡ choose_sampler policy.sampling_percentage)
  unfolding build_evaluator prepare_filter_evaluators
  filters_of policy subs {de} e =
      elim (Option-cases
        (string_evaluators regexp policy.policy_filter_cfg.string_attribute_cfgs)) [
          | inl n ↦ absurd (ground arith)
          | inr (fs, ef) ↦
              let (sf, eq) =
                string_evaluators-map policy.policy_filter_cfg.string_attribute_cfgs ef in
              (sf, ground (arith, ef, e, eq), ground arith, ground arith)
        ]

  module _ (trace_id : TraceId) (trace : TraceData) where
    build_evaluator-Settles :
        (policy : BasePolicy) (subs : List (Option Evaluator)) {de : DefaultEvaluator}
        → build_evaluator regexp policy subs ≡ some de
        → AllSettle trace_id trace subs
        → Settles trace_id trace (default_evaluate de)
    build_evaluator-Settles policy subs {de} e h =
        let (sf, filters, se, sampler) = filters_of policy subs e in
        default_evaluate-Settles trace_id trace de
          (rw filters (
            NoError-append trace_id trace _ _ (NoError-string trace_id trace sf)
              (NoError-numeric trace_id trace _)))
          (rw se h) (rw sampler (choose_sampler-Settles trace_id trace _))

    sub_evaluators_of-AllSettle :
        (rules : List BasePolicy) {subs : List (Option Evaluator)}
        → sub_evaluators_of regexp rules ≡ some subs
        → AllSettle trace_id trace subs
    unfolding sub_evaluators_of
    sub_evaluators_of-AllSettle [] {subs} e =
        let eq : [] ≡ subs = ground arith in subst (AllSettle trace_id trace) eq tt
    sub_evaluators_of-AllSettle (rule ∷ rules) {subs} e =
        elim (Option-cases (build_evaluator regexp rule [])) [
          | inl n ↦ absurd (ground arith)
          | inr (de, ed) ↦ elim (Option-cases (sub_evaluators_of regexp rules)) [
            | inl n ↦ absurd (ground arith)
            | inr (des, es) ↦
                let eq : some (default_evaluate de) ∷ des ≡ subs = ground (arith, ed, es, e) in
                subst (AllSettle trace_id trace) eq
                  (build_evaluator-Settles rule [] ed tt, sub_evaluators_of-AllSettle rules es)
          ]
        ]

    -- A policy made from a configuration never errs on a trace: it says sampled, not_sampled or
    -- no_result, whatever its filters, its percentage and its sub-policies are.
    pub new_default_evaluator-IsSettled :
        (policy : BasePolicy) (subpolicies : List BasePolicy) {de : DefaultEvaluator}
        → new_default_evaluator regexp policy subpolicies ≡ some de
        → IsSettled (default_evaluate de trace_id trace)
    unfolding new_default_evaluator
    new_default_evaluator-IsSettled policy subpolicies {de} e =
        elim (Option-cases (sub_evaluators_of regexp (sort_policies subpolicies))) [
          | inl n ↦ absurd (ground arith)
          | inr (subs, es) ↦
              build_evaluator-Settles policy subs (ground (arith, es, e))
                (sub_evaluators_of-AllSettle (sort_policies subpolicies) es)
        ]
