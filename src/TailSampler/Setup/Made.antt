-- ===== src/TailSampler/Setup/Made.antt =====
-- What holds of every processor that newTracesProcessor makes
-- (processor/signoztailsampler/processor.go).
use Prim.Native.Nat.{ℕ, ◌+◌, ◌*◌, ◌^◌, ◌<◌}
use mathlib.Core.List.{[]}
use mathlib.Core.Path.{◌≡◌, refl}
use native.Mathlib.Omega.{arith}
use otel_collector.Common.Lists.{replicate}
use otel_collector.TailSampler.Batcher
use otel_collector.TailSampler.Batcher.{Batcher, NewResult}
use otel_collector.TailSampler.Config.{Config}
use otel_collector.TailSampler.Memo.{Regexp}
use otel_collector.TailSampler.Processor.{Processor, PolicyMetrics, make_decision, policy_loop}
use otel_collector.TailSampler.Processor.Room.{IsValid}
use otel_collector.TailSampler.Setup.{
  go_copy, sort_groups, made, policies_of, assemble, policy_groups, with_batcher,
  new_traces_processor,
}
use otel_collector.TailSampler.Trace.{sampled, TraceId, TraceData}

module _ (regexp : Regexp) (num_cpu : ℕ) where
  made_lem :
      (cfg : Config) {tsp : Processor}
      → new_traces_processor regexp num_cpu cfg ≡ made tsp
      → (b : Batcher) × (Batcher.new cfg.decision_wait cfg.expected_new_traces_per_sec (2 * num_cpu)
          ≡ NewResult.ok b)
        × (tsp ≡ assemble regexp num_cpu cfg b [])
  unfolding new_traces_processor with_batcher policies_of policy_groups go_copy sort_groups
  made_lem cfg {tsp} e = ground arith

  batches_lem :
      (wait per_sec size : ℕ) {b : Batcher}
      → Batcher.new wait per_sec size ≡ NewResult.ok b
      → (b.batches ≡ replicate wait []) × (b.current_batch ≡ []) × (0 < wait)
  unfolding Batcher.new
  batches_lem wait per_sec size e = ground (arith, e)

  -- A processor starts valid if its number of traces is below 2^64 - 1: with no trace, with room for
  -- as many as configured, with one empty batch in the pipe for each second of the decision wait,
  -- which is not 0, and with no id in the batch that is being built.
  pub new_traces_processor-IsValid :
      (cfg : Config) {tsp : Processor}
      → cfg.num_traces + 1 < 2 ^ 64
      → new_traces_processor regexp num_cpu cfg ≡ made tsp
      → IsValid tsp
        × (tsp.id_to_trace ≡ [])
        × (tsp.delete_cap ≡ cfg.num_traces)
        × (tsp.decision_batcher.batches ≡ replicate cfg.decision_wait [])
        × (tsp.decision_batcher.current_batch ≡ [])
        × (0 < cfg.decision_wait)
  unfolding assemble
  new_traces_processor-IsValid cfg {tsp} range e =
      let (b, eb, et) = made_lem cfg e in
      let (empty, none_yet, pos_wait) = batches_lem cfg.decision_wait _ _ eb in
      rw et (
        record {
          tracked = refl;
          distinct = tt;
          counted = refl;
          bounded = omega arith;
          in_range = range;
        },
        refl,
        refl,
        empty,
        none_yet,
        pos_wait,
      )

  -- Whatever policies are configured, a processor made by newTracesProcessor samples every trace:
  -- the configured groups are copied into an empty slice, which takes none of them.
  pub new_traces_processor-samples_all :
      (cfg : Config) {tsp : Processor}
      → new_traces_processor regexp num_cpu cfg ≡ made tsp
      → (id : TraceId) (trace : TraceData) (metrics : PolicyMetrics)
      → (make_decision tsp.policies id trace metrics).0 ≡ sampled
  unfolding assemble make_decision policy_loop
  new_traces_processor-samples_all cfg {tsp} e id trace metrics =
      let (b, eb, et) = made_lem cfg e in rw et refl
