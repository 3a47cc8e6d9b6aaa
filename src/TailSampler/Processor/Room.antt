-- ===== src/TailSampler/Processor/Room.antt =====
-- The traces that the processor holds, their count, and the room for more (processor/signoztailsampler/processor.go: processTraces,
-- dropTrace, ConsumeTraces, samplingPolicyOnTick).
use Prim.Native.Nat.{ℕ, ◌+◌, ◌-◌, ◌%◌, ◌^◌, ◌≤◌, ◌<◌}
use mathlib.Core.List.{List, [], ◌∷◌, ◌++◌}
use mathlib.Core.Logic.{inl, inr}
use mathlib.Core.Option.{none, some}
use mathlib.Core.Path.{◌≡◌, subst}
use native.Mathlib.Omega.{arith}
use otel_collector.Common.Dict.{lookup, insert, modify, keys, IsDistinct}
use otel_collector.Common.Dict.Keys.{
  keys-insert_new, keys-modify, insert_new-IsDistinct, modify-IsDistinct, remove_first,
  lookup_first,
}
use otel_collector.Common.Lists.{length, length-append}
use otel_collector.Common.Tests.{ltb, comparable_nat, Bool-cases, Option-cases}
use otel_collector.TailSampler.Batcher.{
  Batch, add_to_current_batch, close_current_and_take_first_batch,
}
use otel_collector.TailSampler.Processor.{
  Processor, PolicyMetrics, decide_trace, decide_batch, no_metrics, sampling_policy_on_tick,
  drop_trace, post_deletion, admit_trace, new_trace, deliver_spans, add_spans, process_group,
  process_groups, process_traces, consume_traces, group_spans_by_trace_key,
}
use otel_collector.TailSampler.Trace.{
  Decision, unspecified, sampled, TraceId, Span, ResourceSpans, Traces, TraceData,
}

pub record IsValid (tsp : Processor) : Type 0 where
  pub tracked : keys tsp.id_to_trace ≡ tsp.delete_chan
  pub distinct : IsDistinct tsp.id_to_trace
  pub counted : tsp.num_traces_on_map ≡ length tsp.delete_chan
  pub bounded : length tsp.delete_chan ≤ tsp.delete_cap
  pub in_range : tsp.delete_cap + 1 < 2 ^ 64

keys-cons :
    (m : List (TraceId × TraceData)) (k : TraceId) (ks : List TraceId)
    → keys m ≡ k ∷ ks
    → (v : TraceData) × (m' : List (TraceId × TraceData)) × (m ≡ (k, v) ∷ m') × (keys m' ≡ ks)
keys-cons [] k ks e = absurd (ground arith)
keys-cons ((j, v) ∷ m) k ks e = (v, m, ground arith, ground arith)

drop_trace_first :
    (k : TraceId) (v : TraceData) (m : List (TraceId × TraceData)) (tsp : Processor)
    → tsp.id_to_trace ≡ (k, v) ∷ m
    → lookup k m ≡ none
    → 0 < tsp.num_traces_on_map
    → tsp.num_traces_on_map < 2 ^ 64
    → drop_trace k tsp
      ≡ record tsp { id_to_trace = m; num_traces_on_map = tsp.num_traces_on_map - 1 }
unfolding drop_trace
drop_trace_first k v m tsp e fresh some_ range =
    ground (arith, e, lookup_first k v m, remove_first k v m fresh)

-- The loop of the deletion queue, on a map that holds one trace more than the queue.
post_deletion-IsValid :
    (chan : List TraceId) (id : TraceId) (tsp : Processor) {tsp' : Processor}
    → keys tsp.id_to_trace ≡ chan ++ id ∷ []
    → IsDistinct tsp.id_to_trace
    → tsp.num_traces_on_map ≡ length chan + 1
    → length chan ≤ tsp.delete_cap
    → tsp.delete_cap + 1 < 2 ^ 64
    → post_deletion chan id tsp ≡ some tsp'
    → IsValid tsp'
unfolding post_deletion
post_deletion-IsValid [] id tsp {tsp'} tracked d n b r e = ground arith
post_deletion-IsValid (oldest ∷ chan) id tsp {tsp'} tracked d n b r e =
    elim (Bool-cases (ltb (length (oldest ∷ chan)) tsp.delete_cap)) [
      | inl fits ↦ ground (arith, length-append chan (id ∷ []))
      | inr full ↦
          let (v, m, em, ks) = keys-cons tsp.id_to_trace oldest (chan ++ id ∷ []) tracked in
          let d' : IsDistinct ((oldest, v) ∷ m) = subst (λ l. IsDistinct l) em d in
          let dropped' = record tsp {
            id_to_trace = m;
            num_traces_on_map = tsp.num_traces_on_map - 1;
          } in
          let step : drop_trace oldest tsp ≡ dropped' =
            drop_trace_first oldest v m tsp em d'.0 (omega arith) (omega arith) in
          post_deletion-IsValid chan id dropped' ks d'.1 (omega arith) (omega arith) r
            (ground (arith, step, e, full))
    ]

admit_trace-IsValid :
    (now : ℕ) (id : TraceId) (spans : List Span) (tsp : Processor) {tsp' : Processor}
    → IsValid tsp
    → lookup id tsp.id_to_trace ≡ none
    → admit_trace now id spans tsp ≡ some tsp'
    → IsValid tsp'
unfolding admit_trace
admit_trace-IsValid now id spans tsp {tsp'} h fresh e =
    elim (Option-cases (add_to_current_batch id tsp.decision_batcher)) [
      | inl blocks ↦ absurd (ground arith)
      | inr (b, eb) ↦
          let trace = new_trace now tsp.policies spans in
          post_deletion-IsValid tsp.delete_chan id
            (record tsp {
              id_to_trace = insert id trace tsp.id_to_trace;
              decision_batcher = b;
              num_traces_on_map = (tsp.num_traces_on_map + 1) % 2 ^ 64;
            })
            (rw (keys-insert_new id trace tsp.id_to_trace fresh, h.tracked))
            (insert_new-IsDistinct id trace tsp.id_to_trace fresh h.distinct) (omega arith)
            h.bounded h.in_range (ground arith)
    ]

IsValid-modify :
    (id : TraceId) (f : TraceData → TraceData) (tsp : Processor) (sent : List Traces)
    → IsValid tsp
    → IsValid (record tsp { id_to_trace = modify id f tsp.id_to_trace; forwarded = sent })
IsValid-modify id f tsp sent h = record {
  tracked = rw (keys-modify id f tsp.id_to_trace) h.tracked;
  distinct = modify-IsDistinct id f tsp.id_to_trace h.distinct;
  counted = h.counted;
  bounded = h.bounded;
  in_range = h.in_range;
}

deliver_spans-IsValid :
    (rss : ResourceSpans) (id : TraceId) (spans : List Span) (d : Decision) (tsp : Processor)
    → IsValid tsp
    → IsValid (deliver_spans rss id spans d tsp)
unfolding deliver_spans
deliver_spans-IsValid rss id spans unspecified tsp h = IsValid-modify id _ tsp tsp.forwarded h
deliver_spans-IsValid rss id spans sampled tsp h = ground arith
deliver_spans-IsValid rss id spans _ tsp h = h

process_group-IsValid :
    (now : ℕ) (rss : ResourceSpans) (group : TraceId × List Span) (tsp : Processor)
    {tsp' : Processor}
    → IsValid tsp
    → process_group now rss group tsp ≡ some tsp'
    → IsValid tsp'
unfolding process_group
process_group-IsValid now rss (id, spans) tsp {tsp'} h e =
    elim (Option-cases (lookup id tsp.id_to_trace)) [
      | inl fresh ↦ elim (Option-cases (admit_trace now id spans tsp)) [
        | inl blocks ↦ absurd (ground arith)
        | inr (t, et) ↦
            let r : deliver_spans rss id spans unspecified t ≡ tsp' = ground arith in
            subst IsValid r (
              deliver_spans-IsValid rss id spans unspecified t
                (admit_trace-IsValid now id spans tsp h fresh et))
      ]
      | inr (trace, found) ↦
          let t = record tsp { id_to_trace = modify id (add_spans spans) tsp.id_to_trace } in
          let r : deliver_spans rss id spans trace.final_decision t ≡ tsp' = ground arith in
          subst IsValid r (
            deliver_spans-IsValid rss id spans trace.final_decision t
              (IsValid-modify id (add_spans spans) tsp tsp.forwarded h))
    ]

process_groups-IsValid :
    (now : ℕ) (rss : ResourceSpans) (groups : List (TraceId × List Span)) (tsp : Processor)
    {tsp' : Processor}
    → IsValid tsp
    → process_groups now rss groups tsp ≡ some tsp'
    → IsValid tsp'
unfolding process_groups
process_groups-IsValid now rss [] tsp h e = let r : tsp ≡ _ = ground arith in subst IsValid r h
process_groups-IsValid now rss (group ∷ groups) tsp h e =
    elim (Option-cases (process_group now rss group tsp)) [
      | inl blocks ↦ absurd (ground arith)
      | inr (t, et) ↦
          process_groups-IsValid now rss groups t (process_group-IsValid now rss group tsp h et)
            (ground arith)
    ]

-- Whatever batches of spans arrive, a valid processor stays valid: its map holds each trace once, in
-- the order of the deletion queue, its counter is the number of traces on the map, and that number
-- does not exceed the configured one.
pub consume_traces-IsValid :
    (now : ℕ) (td : Traces) (tsp : Processor) {tsp' : Processor}
    → IsValid tsp
    → consume_traces now td tsp ≡ some tsp'
    → IsValid tsp'
unfolding consume_traces process_traces
consume_traces-IsValid now [] tsp h e = let r : tsp ≡ _ = ground arith in subst IsValid r h
consume_traces-IsValid now (rs ∷ td) tsp h e = elim (Option-cases (process_traces now rs tsp)) [
  | inl blocks ↦ absurd (ground arith)
  | inr (t, et) ↦
      consume_traces-IsValid now td t
        (process_groups-IsValid now rs (group_spans_by_trace_key rs) tsp h et) (ground arith)
]

decide_trace-IsValid :
    (now : ℕ) (id : TraceId) (tsp : Processor) (metrics : PolicyMetrics)
    → IsValid tsp
    → IsValid (decide_trace now id tsp metrics).0
unfolding decide_trace
decide_trace-IsValid now id tsp metrics h = elim (Option-cases (lookup id tsp.id_to_trace)) [
  | inl missing ↦ rw (missing, decide_trace) h
  | inr (trace, found) ↦ rw (found, decide_trace) (IsValid-modify id _ tsp _ h)
]

decide_batch-IsValid :
    (now : ℕ) (batch : Batch) (tsp : Processor) (metrics : PolicyMetrics)
    → IsValid tsp
    → IsValid (decide_batch now batch tsp metrics).0
unfolding decide_batch
decide_batch-IsValid now [] tsp metrics h = h
decide_batch-IsValid now (id ∷ ids) tsp metrics h =
    decide_batch-IsValid now ids (decide_trace now id tsp metrics).0
      (decide_trace now id tsp metrics).1 (decide_trace-IsValid now id tsp metrics h)

-- A tick keeps a valid processor valid, with the map and the deletion queue in step.
pub sampling_policy_on_tick-IsValid :
    (now : ℕ) (tsp : Processor) {tsp' : Processor} {metrics : PolicyMetrics}
    → IsValid tsp
    → sampling_policy_on_tick now tsp ≡ some (tsp', metrics)
    → IsValid tsp'
unfolding sampling_policy_on_tick
sampling_policy_on_tick-IsValid now tsp {tsp'} h e =
    elim (Option-cases (close_current_and_take_first_batch tsp.decision_batcher)) [
      | inl blocks ↦ absurd (ground arith)
      | inr ((batch, more, b), eb) ↦
          let t = record tsp { decision_batcher = b } in
          let r : (decide_batch now batch t no_metrics).0 ≡ tsp' = ground arith in
          subst IsValid r (decide_batch-IsValid now batch t no_metrics (ground arith))
    ]
