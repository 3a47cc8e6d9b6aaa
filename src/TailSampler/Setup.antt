-- ===== src/TailSampler/Setup.antt =====
-- Making a processor from its configuration
-- (processor/signoztailsampler/processor.go, newTracesProcessor). The number of CPUs and package
-- regexp are parameters. `tag.New` is not modelled: it fails only on a tag key that is not ASCII.
pub mod Made
use Prim.Native.Nat.{ℕ, ◌*◌, ◌≤◌}
use Prim.Native.String.{String}
use mathlib.Core.Bool.{Bool, true, false}
use mathlib.Core.List.{List, [], ◌∷◌}
use mathlib.Core.Logic.{◌⊎◌, inl, inr, ◌≢◌}
use mathlib.Core.Option.{Option, none, some}
use mathlib.Core.Path.{◌≡◌, refl}
use native.Mathlib.Omega.{arith}
use otel_collector.Common.Int.{int_ltb}
use otel_collector.Common.Lists.{length, length-replicate}
use otel_collector.Common.Tests.{if◌then◌else◌, ltb}
use otel_collector.TailSampler.Batcher
use otel_collector.TailSampler.Batcher.{Batcher, BatcherError, NewResult}
use otel_collector.TailSampler.Config.{PolicyGroupCfg, Config, validate}
use otel_collector.TailSampler.Memo.{Regexp}
use otel_collector.TailSampler.Policy.{default_evaluate, new_default_evaluator}
use otel_collector.TailSampler.Processor.{
  Policy, Processor, PolicyMetrics, make_decision, policy_loop,
}
use otel_collector.TailSampler.Processor.Room.{IsValid}
use otel_collector.TailSampler.Trace.{Decision, sampled, TraceId, TraceData}

-- Go's `copy(dst, src)`: it writes over the members that `dst` has, and adds none.
unfoldable pub go_copy {ℓ} : {A : Type ℓ} → List A → List A → List A
go_copy [] src = []
go_copy (d ∷ dst) [] = d ∷ dst
go_copy (d ∷ dst) (s ∷ src) = s ∷ go_copy dst src

-- `sort.Slice` by priority; equal priorities keep their order here.
unfoldable pub insert_group : PolicyGroupCfg → List PolicyGroupCfg → List PolicyGroupCfg
insert_group p [] = p ∷ []
insert_group p (q ∷ qs) =
    if int_ltb q.base_policy.priority p.base_policy.priority
    then q ∷ insert_group p qs
    else p ∷ q ∷ qs

unfoldable pub sort_groups : List PolicyGroupCfg → List PolicyGroupCfg
unfolding insert_group
sort_groups [] = []
sort_groups (p ∷ ps) = insert_group p (sort_groups ps)

pub data SetupResult : Type 0 where
  made : Processor → SetupResult
  config_invalid : List String → SetupResult
  batcher_error : BatcherError → SetupResult
  regexp_panic : SetupResult

module _ (regexp : Regexp) (num_cpu : ℕ) where
  unfoldable pub policies_of : List PolicyGroupCfg → Option (List Policy)
  policies_of [] = some []
  policies_of (g ∷ gs) = elim (new_default_evaluator regexp g.base_policy g.sub_policies) [
    | none ↦ none
    | some eval ↦ elim (policies_of gs) [
      | none ↦ none
      | some ps ↦
          some (record { name = g.base_policy.name; evaluator = default_evaluate eval } ∷ ps)
    ]
  ]

  -- The processor made once the batcher and the policies are there.
  unfoldable pub assemble : Config → Batcher → List Policy → Processor
  assemble cfg in_batcher policies = record {
    policies = policies;
    id_to_trace = [];
    decision_batcher = in_batcher;
    delete_chan = [];
    delete_cap = cfg.num_traces;
    num_traces_on_map = 0;
    forwarded = [];
  }

  -- `policyGroups` starts as an empty slice, and the configured groups are copied into it.
  unfoldable pub policy_groups : Config → List PolicyGroupCfg
  policy_groups cfg = sort_groups (go_copy [] cfg.policy_cfgs)

  unfoldable pub with_batcher : Config → NewResult → SetupResult
  with_batcher cfg (NewResult.err e) = batcher_error e
  with_batcher cfg (NewResult.ok in_batcher) = elim (policies_of (policy_groups cfg)) [
    | none ↦ regexp_panic
    | some policies ↦ made (assemble cfg in_batcher policies)
  ]

  unfoldable pub new_traces_processor : Config → SetupResult
  new_traces_processor cfg = elim (validate cfg) [
    | e ∷ es ↦ config_invalid (e ∷ es)
    | [] ↦
        with_batcher cfg
          (Batcher.new cfg.decision_wait cfg.expected_new_traces_per_sec (2 * num_cpu))
  ]
