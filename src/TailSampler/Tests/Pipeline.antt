-- ===== src/TailSampler/Tests/Pipeline.antt =====
-- Runs of the batcher and of the processor, from its configuration to its decisions.
use Prim.Native.Nat.{◌^◌, ◌<◌}
use Prim.Native.String.{String}
use mathlib.Core.Bool.{true, false}
use mathlib.Core.List.{List, [], ◌∷◌, ◌++◌, map}
use mathlib.Core.Logic.{inl, inr, ◌≢◌}
use mathlib.Core.Option.{none, some}
use mathlib.Core.Path.{◌≡◌, refl}
use native.Mathlib.Omega.{arith}
use text.Mathlib.Text.{◌==◌ as str_eq}
use otel_collector.Common.Dict.{lookup, insert, remove, modify}
use otel_collector.Common.Int.{pos, add_int64}
use otel_collector.Common.Tests.{comparable_nat, comparable_string}
use otel_collector.TailSampler.Batcher
use otel_collector.TailSampler.Batcher.{
  Batcher, Batch, add_to_current_batch, collect_pending, close_current_and_take_first_batch,
}
use otel_collector.TailSampler.Batcher.Order.{
  Runs, here, added, collected, closed, contents, Runs-contents,
}
use otel_collector.TailSampler.Config.{BasePolicy, Config, validate}
use otel_collector.TailSampler.Filters.{never_sample, Percentage, string_evaluate}
use otel_collector.TailSampler.Memo.{
  Regexp, LruCache, RegexStrSetting, new_regex_setting, match_all, matches, match_all-matches,
  add_filters,
}
use otel_collector.TailSampler.Policy.{
  DefaultEvaluator, default_evaluate, new_default_evaluator, choose_sampler, sub_evaluators_of,
  sort_policies, build_evaluator, prepare_filter_evaluators, string_evaluators,
  new_string_attribute_filter,
}
use otel_collector.TailSampler.Policy.Configured.{IsSettled, new_default_evaluator-IsSettled}
use otel_collector.TailSampler.Processor.{
  Policy, Processor, PolicyMetrics, no_metrics, make_decision, decide_trace, process_group,
  consume_traces, sampling_policy_on_tick, append_to_traces, process_traces, policy_loop,
  decide_batch, group_spans_by_trace_key, process_groups, admit_trace, post_deletion, drop_trace,
  deliver_spans,
}
use otel_collector.TailSampler.Processor.Decide.{
  first_final, make_decision-first_final, sent_on, lookup-decide_trace,
}
use otel_collector.TailSampler.Processor.Late.{
  kept_batches, process_group-known, process_group-total,
}
use otel_collector.TailSampler.Processor.Live.{ticks, IsDecided, ticks-IsDecided}
use otel_collector.TailSampler.Processor.Room.{
  IsValid, consume_traces-IsValid, sampling_policy_on_tick-IsValid,
}
use otel_collector.TailSampler.Setup.{
  made, new_traces_processor, with_batcher, policy_groups, go_copy, sort_groups, policies_of,
  assemble,
}
use otel_collector.TailSampler.Setup.Made.{
  new_traces_processor-IsValid, new_traces_processor-samples_all,
}
use otel_collector.TailSampler.Tests.{get_span, one_batch, one_trace}
use otel_collector.TailSampler.Trace.{
  unspecified, pending, sampled, not_sampled, no_result, TraceId, TraceData,
}

-- Regular expressions that are plain texts.
abbrev plain : Regexp
plain = record { Expr = String; compile = some; match_string = str_eq }

-- A cache that remembers nothing, as after an eviction of all.
abbrev forgetful : LruCache
forgetful = record {
  Cache = Unit {0};
  new = λ size. tt;
  get = λ c k. (none, c);
  add = λ c k v. c;
  get-new = λ size k. refl;
  get-get = λ c k j. refl;
  get-add = λ c k j v. inl refl;
}

abbrev plain_setting : RegexStrSetting plain forgetful
plain_setting = record { matched_attrs = tt; filter_list = "GET" ∷ "PUT" ∷ [] }

match_all-matches_example :
    match_all plain forgetful plain_setting ("PUT" ∷ "POST" ∷ [])
    ≡ map (matches plain ("GET" ∷ "PUT" ∷ [])) ("PUT" ∷ "POST" ∷ [])
unfolding new_regex_setting
match_all-matches_example =
    match_all-matches plain forgetful ("GET" ∷ "PUT" ∷ []) (pos 0) {s = plain_setting} refl
      ("PUT" ∷ "POST" ∷ [])

abbrev half : Percentage
half = record { is_zero = false; is_hundred = false; threshold = 2 ^ 63 }

abbrev get_policy : BasePolicy
get_policy = record {
  name = "get";
  priority = pos 1;
  sampling_percentage = half;
  policy_filter_cfg = record {
    filter_op = "or";
    string_attribute_cfgs =
        record {
          key = "http.method";
          values = "GET" ∷ [];
          enabled_regex_matching = true;
          cache_max_size = pos 0;
          invert_match = false;
        }
        ∷ [];
    numeric_attribute_cfgs = [];
  };
}

abbrev get_leaf : DefaultEvaluator
get_leaf = record {
  name = "get";
  sampler = choose_sampler half;
  filter_operator = "or";
  filters =
      string_evaluate
        (record { key = "http.method"; matcher = matches plain ("GET" ∷ []); invert_match = false })
      ∷ [];
  sub_evaluators = [];
}

abbrev get_evaluator : DefaultEvaluator
get_evaluator = record get_leaf { sub_evaluators = some (default_evaluate get_leaf) ∷ [] }

new_default_evaluator-IsSettled_example : IsSettled (default_evaluate get_evaluator 7 one_trace)
unfolding new_default_evaluator sub_evaluators_of sort_policies build_evaluator
    prepare_filter_evaluators string_evaluators new_string_attribute_filter add_filters
new_default_evaluator-IsSettled_example =
    new_default_evaluator-IsSettled plain 7 one_trace get_policy (get_policy ∷ [])
      {de = get_evaluator} refl

abbrev pipe : Batcher
pipe = record {
  pending_ids = [];
  pending_cap = 4;
  batches = [] ∷ (3 ∷ []) ∷ [];
  batches_cap = 2;
  current_batch = 4 ∷ 5 ∷ [];
  stopped = false;
}

abbrev sent_pipe : Batcher
sent_pipe = record pipe { pending_ids = 9 ∷ [] }

abbrev collected_pipe : Batcher
collected_pipe = record pipe { current_batch = 4 ∷ 5 ∷ 9 ∷ [] }

abbrev closed_pipe : Batcher
closed_pipe = record pipe { batches = (3 ∷ []) ∷ (4 ∷ 5 ∷ 9 ∷ []) ∷ []; current_batch = [] }

pipe_run : Runs pipe (9 ∷ []) [] closed_pipe
unfolding add_to_current_batch collect_pending close_current_and_take_first_batch
pipe_run =
    closed {b = collected_pipe} [] true (collected {b = sent_pipe} (added 9 (here) refl refl) refl)
      refl refl

Runs-contents_example : [] ++ contents closed_pipe ≡ contents pipe ++ 9 ∷ []
Runs-contents_example = Runs-contents (λ e. cc) pipe_run

abbrev policies : List Policy
policies =
    record { name = "none"; evaluator = λ id trace. (no_result, none) }
    ∷ record { name = "never"; evaluator = never_sample }
    ∷ []

abbrev small : Processor
small = record {
  policies = policies;
  id_to_trace = (7, one_trace) ∷ [];
  decision_batcher = pipe;
  delete_chan = 7 ∷ [];
  delete_cap = 1;
  num_traces_on_map = 1;
  forwarded = [];
}

small-IsValid : IsValid small
unfolding lookup
small-IsValid = record {
  tracked = refl;
  distinct = (refl, tt);
  counted = refl;
  bounded = omega arith;
  in_range = omega arith;
}

found_seven : lookup 7 small.id_to_trace ≡ some one_trace
unfolding lookup
found_seven = refl

make_decision-first_final_example : (make_decision policies 7 one_trace no_metrics).0 ≡ not_sampled
unfolding first_final never_sample
make_decision-first_final_example =
    make_decision-first_final policies 7 one_trace no_metrics ((λ ds. refl), ((λ ds. refl), tt))

abbrev second_trace : TraceData
second_trace = record one_trace {
  decisions = pending ∷ pending ∷ [];
  arrival_time = 3;
  received_batches = one_batch 8 ∷ [];
}

-- Spans of a new trace push the old trace out.
abbrev after_span : Processor
after_span = record small {
  id_to_trace = (8, second_trace) ∷ [];
  delete_chan = 8 ∷ [];
  decision_batcher = record pipe { pending_ids = 8 ∷ [] };
}

consume_traces_runs : consume_traces 3 (one_batch 8 ∷ []) small ≡ some after_span
unfolding consume_traces process_traces group_spans_by_trace_key process_groups process_group
    admit_trace add_to_current_batch post_deletion drop_trace deliver_spans append_to_traces lookup
    insert remove modify
consume_traces_runs = refl

consume_traces-IsValid_example : IsValid after_span
consume_traces-IsValid_example =
    consume_traces-IsValid 3 (one_batch 8 ∷ []) small small-IsValid consume_traces_runs

abbrev ready : Processor
ready = record small { decision_batcher = record pipe { batches = (7 ∷ 6 ∷ []) ∷ [] } }

-- The tick decides on trace 7, and misses trace 6.
abbrev ticked : Processor × PolicyMetrics
ticked = (
  record small {
    id_to_trace =
        (
          7,
          record one_trace {
            decisions = not_sampled ∷ [];
            decision_time = 9;
            final_decision = not_sampled;
          },
        )
        ∷ [];
    decision_batcher = record pipe { batches = (4 ∷ 5 ∷ []) ∷ []; current_batch = [] };
  },
  record no_metrics { decision_not_sampled = 1; id_not_found_on_map_count = 1 },
)

abbrev never_only : Processor
never_only = record ready { policies = record { name = "never"; evaluator = never_sample } ∷ [] }

ready-IsValid : IsValid never_only
unfolding lookup
ready-IsValid = record {
  tracked = refl;
  distinct = (refl, tt);
  counted = refl;
  bounded = omega arith;
  in_range = omega arith;
}

abbrev after_tick : Processor
after_tick = record (ticked.0) { policies = never_only.policies }

tick_runs : sampling_policy_on_tick 9 never_only ≡ some (after_tick, ticked.1)
unfolding sampling_policy_on_tick close_current_and_take_first_batch decide_batch decide_trace
    make_decision policy_loop never_sample lookup modify
tick_runs = refl

sampling_policy_on_tick-IsValid_example : IsValid after_tick
sampling_policy_on_tick-IsValid_example =
    sampling_policy_on_tick-IsValid 9 never_only {metrics = ticked.1} ready-IsValid tick_runs

lookup-decide_trace_example :
    let d = (make_decision policies 7 (record one_trace { decision_time = 9 }) no_metrics).0 in
    let tsp' = (decide_trace 9 7 small no_metrics).0 in
    ((decided : TraceData) × (lookup 7 tsp'.id_to_trace ≡ some decided)
      × (decided.final_decision ≡ d)
      × (decided.received_batches ≡ one_batch 7 ∷ []))
    × (tsp'.forwarded ≡ sent_on d (one_batch 7 ∷ []) [])
    × ((other : TraceId)
        → other ≢ 7
        → lookup other tsp'.id_to_trace ≡ lookup other small.id_to_trace)
lookup-decide_trace_example =
    lookup-decide_trace 9 7 small no_metrics {trace = one_trace} found_seven

process_group-known_example :
    (tsp' : Processor) × (process_group 9 (one_batch 7) (7, get_span 7 ∷ []) small ≡ some tsp')
    × (lookup 7 tsp'.id_to_trace
        ≡ some (record one_trace {
          span_count = add_int64 (pos 1) (pos 1);
          received_batches =
              kept_batches unspecified (one_batch 7 ∷ []) (one_batch 7) (get_span 7 ∷ []);
        }))
    × (tsp'.forwarded ≡ [])
process_group-known_example =
    process_group-known 9 (one_batch 7) 7 (get_span 7 ∷ []) small {trace = one_trace} found_seven

process_group-total_example :
    (tsp' : Processor) × (process_group 9 (one_batch 8) (8, get_span 8 ∷ []) small ≡ some tsp')
process_group-total_example =
    process_group-total 9 (one_batch 8) 8 (get_span 8 ∷ []) small (omega arith) refl (omega arith)

abbrev config : Config
config = record {
  decision_wait = 2;
  num_traces = 10;
  expected_new_traces_per_sec = 4;
  policy_cfgs =
      record {
        base_policy = record get_policy {
          sampling_percentage = record { is_zero = true; is_hundred = false; threshold = 0 };
        };
        sub_policies = [];
      }
      ∷ [];
}

abbrev made_processor : Processor
made_processor = record {
  policies = [];
  id_to_trace = [];
  decision_batcher = record {
    pending_ids = [];
    pending_cap = 8;
    batches = [] ∷ [] ∷ [];
    batches_cap = 2;
    current_batch = [];
    stopped = false;
  };
  delete_chan = [];
  delete_cap = 10;
  num_traces_on_map = 0;
  forwarded = [];
}

config_runs : new_traces_processor plain 4 config ≡ made made_processor
unfolding new_traces_processor validate with_batcher policy_groups go_copy sort_groups policies_of
    assemble Batcher.new
config_runs = refl

new_traces_processor-IsValid_example :
    IsValid made_processor
    × (made_processor.id_to_trace ≡ [])
    × (made_processor.delete_cap ≡ 10)
    × (made_processor.decision_batcher.batches ≡ [] ∷ [] ∷ [])
    × (made_processor.decision_batcher.current_batch ≡ [])
    × (0 < 2)
new_traces_processor-IsValid_example =
    new_traces_processor-IsValid plain 4 config (omega arith) config_runs

new_traces_processor-samples_all_example : (make_decision [] 7 one_trace no_metrics).0 ≡ sampled
new_traces_processor-samples_all_example =
    new_traces_processor-samples_all plain 4 config {tsp = made_processor} config_runs 7 one_trace
      no_metrics

-- A trace in the batch that is being built, behind two batches in the pipe.
abbrev waiting : Processor
waiting = record small { decision_batcher = record pipe { current_batch = 4 ∷ 7 ∷ [] } }

ticks-IsDecided_example :
    (tsp' : Processor) × (ticks (10 ∷ 11 ∷ 12 ∷ []) waiting ≡ some tsp') × IsDecided 7 tsp'
unfolding lookup
ticks-IsDecided_example =
    ticks-IsDecided (10 ∷ 11 ∷ 12 ∷ []) 7 [] ((3 ∷ []) ∷ []) waiting refl refl refl
      (one_trace, refl) (inr (inr (inl (inr (inl refl)))))
