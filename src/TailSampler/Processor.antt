-- ===== src/TailSampler/Processor.antt =====
-- The tail sampling processor (processor/signoztailsampler/processor.go): traces wait in a map until
-- the batch of their ids comes out of the batcher, are then decided on, and leave the map when newer
-- traces need the room. Methods run one at a time here, and the batcher's goroutine takes no id from
-- its channel within one: a method that sends more ids than the channel has room for is `none`, like
-- one that blocks for ever. `forwarded` is what the next consumer was given, oldest first; the code
-- ignores its errors.
-- Timings, statistics and logs are left out, but for the counts of one tick.
pub mod Room
pub mod Decide
pub mod Late
pub mod Live
use Prim.Native.Nat.{ℕ, suc, ◌+◌, ◌-◌, ◌*◌, ◌%◌, ◌^◌}
use Prim.Native.String.{String}
use mathlib.Core.Bool.{Bool, true, false}
use mathlib.Core.List.{List, [], ◌∷◌, ◌++◌}
use mathlib.Core.Option.{Option, none, some}
use otel_collector.Common.Dict.{lookup, insert, remove, modify}
use otel_collector.Common.Int.{ℤ, pos, add_int64, int_ltb}
use otel_collector.Common.Lists.{length, replicate, set}
use otel_collector.Common.Tests.{if◌then◌else◌, ltb, comparable_nat}
use otel_collector.TailSampler.Batcher.{
  Batch, Batcher, add_to_current_batch, close_current_and_take_first_batch,
}
use otel_collector.TailSampler.Trace.{
  Decision, unspecified, pending, sampled, not_sampled, no_result, TraceId, Span, ScopeSpans,
  ResourceSpans, Traces, TraceData, Evaluator,
}

pub record Policy : Type 0 where
  pub name : String
  pub evaluator : Evaluator

pub record Processor : Type 0 where
  pub policies : List Policy
  pub id_to_trace : List (TraceId × TraceData)
  pub decision_batcher : Batcher
  pub delete_chan : List TraceId
  pub delete_cap : ℕ
  pub num_traces_on_map : ℕ
  pub forwarded : List Traces

pub record PolicyMetrics : Type 0 where
  pub id_not_found_on_map_count : ℕ
  pub evaluate_error_count : ℕ
  pub decision_sampled : ℕ
  pub decision_not_sampled : ℕ

-- `decision == sampling.Sampled || decision == sampling.NotSampled`
abbrev pub is_final : Decision → Bool
is_final sampled = true
is_final not_sampled = true
is_final _ = false

abbrev pub count_error : Option String → PolicyMetrics → PolicyMetrics
count_error none m = m
count_error (some e) m = record m { evaluate_error_count = m.evaluate_error_count + 1 }

-- The loop over the policies from index `i`, up to the first final decision. Each decision is
-- noted on the trace, where the next policy could read it.
unfoldable pub policy_loop :
    List Policy → ℕ → TraceId → TraceData → PolicyMetrics → Decision × TraceData × PolicyMetrics
policy_loop [] i trace_id trace metrics = (no_result, trace, metrics)
policy_loop (p ∷ ps) i trace_id trace metrics =
    let (decision, err) = p.evaluator trace_id trace in
    let trace' = record trace { decisions = set trace.decisions i decision } in
    let metrics' = count_error err metrics in
    let rest = policy_loop ps (i + 1) trace_id trace' metrics' in
    if is_final decision then (decision, trace', metrics') else rest

abbrev pub count_decision : Decision → PolicyMetrics → PolicyMetrics
count_decision sampled m = record m { decision_sampled = m.decision_sampled + 1 }
count_decision not_sampled m = record m { decision_not_sampled = m.decision_not_sampled + 1 }
count_decision _ m = m

-- A trace on which no policy has a final decision is sampled.
abbrev pub or_sampled : Decision → Decision
or_sampled no_result = sampled
or_sampled d = d

unfoldable pub make_decision :
    List Policy → TraceId → TraceData → PolicyMetrics → Decision × TraceData × PolicyMetrics
make_decision policies trace_id trace metrics =
    let (decision, trace', metrics') = policy_loop policies 0 trace_id trace metrics in
    let final_decision = or_sampled decision in
    (final_decision, trace', count_decision final_decision metrics')

-- One round of the loop over the batch: the trace keeps the decision and its spans.
unfoldable pub decide_trace : ℕ → TraceId → Processor → PolicyMetrics → Processor × PolicyMetrics
decide_trace now id tsp metrics = elim (lookup id tsp.id_to_trace) [
  | none ↦
      (tsp, record metrics { id_not_found_on_map_count = metrics.id_not_found_on_map_count + 1 })
  | some trace ↦
      let (decision, trace', metrics') =
        make_decision tsp.policies id (record trace { decision_time = now }) metrics in
      let all_spans = trace'.received_batches in
      (
        record tsp {
          id_to_trace =
              modify id (λ _. record trace' { final_decision = decision }) tsp.id_to_trace;
          forwarded = elim decision [
            | sampled ↦ tsp.forwarded ++ all_spans ∷ []
            | _ ↦ tsp.forwarded
          ];
        },
        metrics',
      )
]

unfoldable pub decide_batch : ℕ → Batch → Processor → PolicyMetrics → Processor × PolicyMetrics
decide_batch now [] tsp metrics = (tsp, metrics)
decide_batch now (id ∷ ids) tsp metrics =
    let (tsp', metrics') = decide_trace now id tsp metrics in decide_batch now ids tsp' metrics'

abbrev pub no_metrics : PolicyMetrics
no_metrics = record {
  id_not_found_on_map_count = 0;
  evaluate_error_count = 0;
  decision_sampled = 0;
  decision_not_sampled = 0;
}

unfoldable pub sampling_policy_on_tick : ℕ → Processor → Option (Processor × PolicyMetrics)
sampling_policy_on_tick now tsp = elim (close_current_and_take_first_batch tsp.decision_batcher) [
  | none ↦ none
  | some (batch, _, batcher) ↦
      some (decide_batch now batch (record tsp { decision_batcher = batcher }) no_metrics)
]

-- The spans of a batch by trace id, an id in the order of its first span. (Go visits the ids of
-- this map in any order.)
unfoldable pub add_span : Span → List (TraceId × List Span) → List (TraceId × List Span)
add_span span id_to_spans = elim (lookup span.trace_id id_to_spans) [
  | none ↦ insert span.trace_id (span ∷ []) id_to_spans
  | some spans ↦ insert span.trace_id (spans ++ span ∷ []) id_to_spans
]

unfoldable pub group_scope : ScopeSpans → List (TraceId × List Span) → List (TraceId × List Span)
unfolding add_span
group_scope [] id_to_spans = id_to_spans
group_scope (span ∷ spans) id_to_spans = group_scope spans (add_span span id_to_spans)

unfoldable pub group_scopes :
    List ScopeSpans → List (TraceId × List Span) → List (TraceId × List Span)
unfolding group_scope
group_scopes [] id_to_spans = id_to_spans
group_scopes (spans ∷ ilss) id_to_spans = group_scopes ilss (group_scope spans id_to_spans)

unfoldable pub group_spans_by_trace_key : ResourceSpans → List (TraceId × List Span)
unfolding group_scopes
group_spans_by_trace_key resource_spans = group_scopes resource_spans.scope_spans []

unfoldable pub append_to_traces : Traces → ResourceSpans → List Span → Traces
append_to_traces dest rss spans =
    dest ++ record { resource = rss.resource; scope_spans = spans ∷ [] } ∷ []

-- `numTracesOnMap.Add(^uint64(0))` adds 2^64 - 1, modulo 2^64.
unfoldable pub drop_trace : TraceId → Processor → Processor
drop_trace id tsp = elim (lookup id tsp.id_to_trace) [
  | none ↦ tsp
  | some _ ↦ record tsp {
    id_to_trace = remove id tsp.id_to_trace;
    num_traces_on_map = (tsp.num_traces_on_map + (2 ^ 64 - 1)) % 2 ^ 64;
  }
]

-- The loop that sends a new id to `deleteChan`, whose contents are the first argument: while the
-- channel is full it takes the oldest id out and drops its trace. Without any room it blocks.
unfoldable pub post_deletion : List TraceId → TraceId → Processor → Option Processor
post_deletion [] id tsp =
    if ltb 0 tsp.delete_cap then some (record tsp { delete_chan = id ∷ [] }) else none
post_deletion (oldest ∷ chan) id tsp =
    if ltb (length (oldest ∷ chan)) tsp.delete_cap
    then some (record tsp { delete_chan = (oldest ∷ chan) ++ id ∷ [] })
    else post_deletion chan id (drop_trace oldest tsp)

abbrev pub new_trace : ℕ → List Policy → List Span → TraceData
new_trace now policies spans = record {
  decisions = replicate (length policies) pending;
  arrival_time = now;
  decision_time = 0;
  span_count = pos (length spans);
  received_batches = [];
  final_decision = unspecified;
}

-- A trace id that is not on the map: the trace is stored, announced to the batcher and queued for
-- deletion.
unfoldable pub admit_trace : ℕ → TraceId → List Span → Processor → Option Processor
admit_trace now id spans tsp = elim (add_to_current_batch id tsp.decision_batcher) [
  | none ↦ none
  | some batcher ↦ post_deletion tsp.delete_chan id (record tsp {
    id_to_trace = insert id (new_trace now tsp.policies spans) tsp.id_to_trace;
    decision_batcher = batcher;
    num_traces_on_map = (tsp.num_traces_on_map + 1) % 2 ^ 64;
  })
]

-- What becomes of spans once their trace is on the map: they wait with it, or follow its decision.
unfoldable pub deliver_spans :
    ResourceSpans → TraceId → List Span → Decision → Processor → Processor
deliver_spans rss id spans unspecified tsp = record tsp {
  id_to_trace =
      modify id
        (λ trace. record trace {
          received_batches = append_to_traces trace.received_batches rss spans;
        })
        tsp.id_to_trace;
}
deliver_spans rss id spans sampled tsp = record tsp {
  forwarded = tsp.forwarded ++ append_to_traces [] rss spans ∷ [];
}
deliver_spans rss id spans _ tsp = tsp

abbrev pub add_spans : List Span → TraceData → TraceData
add_spans spans trace = record trace {
  span_count = add_int64 trace.span_count (pos (length spans));
}

unfoldable pub process_group :
    ℕ → ResourceSpans → TraceId × List Span → Processor → Option Processor
process_group now rss (id, spans) tsp = elim (lookup id tsp.id_to_trace) [
  | some trace ↦ some (
      deliver_spans rss id spans trace.final_decision
        (record tsp { id_to_trace = modify id (add_spans spans) tsp.id_to_trace }))
  | none ↦ elim (admit_trace now id spans tsp) [
    | none ↦ none
    | some tsp' ↦ some (deliver_spans rss id spans unspecified tsp')
  ]
]

unfoldable pub process_groups :
    ℕ → ResourceSpans → List (TraceId × List Span) → Processor → Option Processor
process_groups now rss [] tsp = some tsp
process_groups now rss (group ∷ groups) tsp = elim (process_group now rss group tsp) [
  | none ↦ none
  | some tsp' ↦ process_groups now rss groups tsp'
]

unfoldable pub process_traces : ℕ → ResourceSpans → Processor → Option Processor
process_traces now resource_spans tsp =
    process_groups now resource_spans (group_spans_by_trace_key resource_spans) tsp

unfoldable pub consume_traces : ℕ → Traces → Processor → Option Processor
consume_traces now [] tsp = some tsp
consume_traces now (rs ∷ td) tsp = elim (process_traces now rs tsp) [
  | none ↦ none
  | some tsp' ↦ consume_traces now td tsp'
]
