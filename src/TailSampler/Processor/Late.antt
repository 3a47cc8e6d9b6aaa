-- ===== src/TailSampler/Processor/Late.antt =====
-- Spans of a trace that the processor knows, before and after its decision, and of one that it does
-- not know (processor/signoztailsampler/processor.go, processTraces).
use Prim.Native.Nat.{ℕ, ◌+◌, ◌%◌, ◌^◌, ◌<◌}
use mathlib.Core.Bool.{false}
use mathlib.Core.List.{List, [], ◌∷◌, ◌++◌}
use mathlib.Core.Logic.{inl, inr}
use mathlib.Core.Option.{some}
use mathlib.Core.Path.{◌≡◌}
use native.Mathlib.Omega.{arith}
use otel_collector.Common.Dict.{lookup, insert, modify}
use otel_collector.Common.Dict.Keys.{lookup-modify}
use otel_collector.Common.Int.{pos, add_int64}
use otel_collector.Common.Lists.{length}
use otel_collector.Common.Tests.{ltb, lt→ltb, comparable_nat, nat_eqb_iff, Bool-cases, Option-cases}
use otel_collector.TailSampler.Batcher.{add_to_current_batch}
use otel_collector.TailSampler.Processor.{
  Processor, deliver_spans, add_spans, process_group, append_to_traces, post_deletion, drop_trace,
  admit_trace, new_trace,
}
use otel_collector.TailSampler.Processor.Decide.{sent_on}
use otel_collector.TailSampler.Trace.{
  Decision, unspecified, TraceId, Span, ResourceSpans, Traces, TraceData,
}

-- The batches that a trace holds once new spans have come.
abbrev pub kept_batches : Decision → Traces → ResourceSpans → List Span → Traces
kept_batches unspecified batches rss spans = append_to_traces batches rss spans
kept_batches _ batches rss spans = batches

-- Spans of a trace on the map are counted and never block. Before a decision they are kept with the
-- trace and nothing is sent; after sampled they are sent on at once and not kept; after not_sampled
-- they are neither sent nor kept.
pub process_group-known :
    (now : ℕ) (rss : ResourceSpans) (id : TraceId) (spans : List Span) (tsp : Processor)
    {trace : TraceData}
    → lookup id tsp.id_to_trace ≡ some trace
    → (tsp' : Processor) × (process_group now rss (id, spans) tsp ≡ some tsp')
      × (lookup id tsp'.id_to_trace
          ≡ some (record trace {
            span_count = add_int64 trace.span_count (pos (length spans));
            received_batches = kept_batches trace.final_decision trace.received_batches rss spans;
          }))
      × (tsp'.forwarded
          ≡ sent_on trace.final_decision (append_to_traces [] rss spans) tsp.forwarded)
unfolding process_group deliver_spans
process_group-known now rss id spans tsp {trace} found =
    let t = record tsp { id_to_trace = modify id (add_spans spans) tsp.id_to_trace } in
    (
      deliver_spans rss id spans trace.final_decision t,
      rw (found, process_group),
      ground (
        arith,
        found,
        nat_eqb_iff id id,
        lookup-modify id id (add_spans spans) tsp.id_to_trace,
        lookup-modify id id
            (λ (trace' : TraceData). record trace' {
              received_batches = append_to_traces trace'.received_batches rss spans;
            })
            t.id_to_trace,
      ),
      ground arith,
    )

post_deletion-total :
    (chan : List TraceId) (id : TraceId) (tsp : Processor)
    → 0 < tsp.delete_cap
    → (tsp' : Processor) × (post_deletion chan id tsp ≡ some tsp')
unfolding post_deletion
post_deletion-total [] id tsp room =
    (record tsp { delete_chan = id ∷ [] }, ground (arith, lt→ltb 0 tsp.delete_cap room))
post_deletion-total (oldest ∷ chan) id tsp room =
    elim (Bool-cases (ltb (length (oldest ∷ chan)) tsp.delete_cap)) [
      | inl fits ↦ (record tsp { delete_chan = (oldest ∷ chan) ++ id ∷ [] }, rw fits)
      | inr full ↦
          let (t, e) = post_deletion-total chan id (drop_trace oldest tsp) (drop_room oldest) in
          (t, rw full e)
    ]
  where
    drop_room : (k : TraceId) → 0 < (drop_trace k tsp).delete_cap
    drop_room k = unfold drop_trace in ground arith

admit_trace-total :
    (now : ℕ) (id : TraceId) (spans : List Span) (tsp : Processor)
    → 0 < tsp.delete_cap
    → tsp.decision_batcher.stopped ≡ false
    → length tsp.decision_batcher.pending_ids < tsp.decision_batcher.pending_cap
    → (tsp' : Processor) × (admit_trace now id spans tsp ≡ some tsp')
unfolding admit_trace add_to_current_batch
admit_trace-total now id spans tsp room runs free =
    let b = record (tsp.decision_batcher) {
      pending_ids = tsp.decision_batcher.pending_ids ++ id ∷ [];
    } in
    let added : add_to_current_batch id tsp.decision_batcher ≡ some b =
      ground (arith, lt→ltb _ _ free) in
    let (t, e) =
      post_deletion-total tsp.delete_chan id
        (record tsp {
          id_to_trace = insert id (new_trace now tsp.policies spans) tsp.id_to_trace;
          decision_batcher = b;
          num_traces_on_map = (tsp.num_traces_on_map + 1) % 2 ^ 64;
        })
        room in
    (t, ground (arith, added, e))

-- With room for one trace, and with the batcher running and its channel not full, any group of
-- spans is taken in: the loop that makes room ends.
pub process_group-total :
    (now : ℕ) (rss : ResourceSpans) (id : TraceId) (spans : List Span) (tsp : Processor)
    → 0 < tsp.delete_cap
    → tsp.decision_batcher.stopped ≡ false
    → length tsp.decision_batcher.pending_ids < tsp.decision_batcher.pending_cap
    → (tsp' : Processor) × (process_group now rss (id, spans) tsp ≡ some tsp')
unfolding process_group
process_group-total now rss id spans tsp room runs free =
    elim (Option-cases (lookup id tsp.id_to_trace)) [
      | inl fresh ↦
          let (t, e) = admit_trace-total now id spans tsp room runs free in
          (deliver_spans rss id spans unspecified t, ground (arith, fresh, e))
      | inr (trace, found) ↦
          let (t, e, _, _) = process_group-known now rss id spans tsp found in
          (t, unfold process_group in e)
    ]
