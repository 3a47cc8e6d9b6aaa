-- ===== src/TailSampler/Processor/Live.antt =====
-- When the traces on the map are decided
-- (processor/signoztailsampler/processor.go: samplingPolicyOnTick).
use Prim.Native.Nat.{ℕ, suc}
use mathlib.Core.Bool.{false}
use mathlib.Core.List.{List, [], ◌∷◌, ◌++◌, append-nil, append_assoc}
use mathlib.Core.Logic.{◌⊎◌, inl, inr, ◌≢◌}
use mathlib.Core.Option.{Option, none, some}
use mathlib.Core.Path.{◌≡◌, refl, sym, ap, subst, ◌∙◌}
use native.Mathlib.Omega.{arith}
use otel_collector.Common.Dict.{lookup}
use otel_collector.Common.Lists.{Any, length, length-append}
use otel_collector.Common.Tests.{comparable_nat, Bool-cases, Option-cases, nat_eqb, nat_eqb_iff}
use otel_collector.TailSampler.Batcher.{Batch, Batcher, close_current_and_take_first_batch}
use otel_collector.TailSampler.Processor.{
  Processor, PolicyMetrics, no_metrics, decide_trace, decide_batch, sampling_policy_on_tick,
}
use otel_collector.TailSampler.Processor.Decide.{make_decision-final, lookup-decide_trace}
use otel_collector.TailSampler.Trace.{sampled, not_sampled, TraceId, TraceData}

-- The processor after a tick at each of the times.
unfoldable pub ticks : List ℕ → Processor → Option Processor
ticks [] tsp = some tsp
ticks (now ∷ times) tsp = elim (sampling_policy_on_tick now tsp) [
  | none ↦ none
  | some (tsp', _) ↦ ticks times tsp'
]

abbrev pub IsOnMap : TraceId → Processor → Type 0
IsOnMap id tsp = (trace : TraceData) × (lookup id tsp.id_to_trace ≡ some trace)

-- The trace is on the map with a decision.
abbrev pub IsDecided : TraceId → Processor → Type 0
IsDecided id tsp =
    (trace : TraceData) × (lookup id tsp.id_to_trace ≡ some trace)
    × ((trace.final_decision ≡ sampled) ⊎ (trace.final_decision ≡ not_sampled))

decide_trace-missing :
    (now : ℕ) (id : TraceId) (tsp : Processor) (metrics : PolicyMetrics)
    → lookup id tsp.id_to_trace ≡ none
    → (decide_trace now id tsp metrics).0 ≡ tsp
unfolding decide_trace
decide_trace-missing now id tsp metrics e = rw (decide_trace, e) refl

decide_trace-batcher :
    (now : ℕ) (id : TraceId) (tsp : Processor) (metrics : PolicyMetrics)
    → (decide_trace now id tsp metrics).0.decision_batcher ≡ tsp.decision_batcher
unfolding decide_trace
decide_trace-batcher now id tsp metrics = elim (Option-cases (lookup id tsp.id_to_trace)) [
  | inl missing ↦ rw (decide_trace, missing) refl
  | inr (trace, found) ↦ rw (decide_trace, found) refl
]

decide_trace-IsDecided :
    (now : ℕ) (id : TraceId) (tsp : Processor) (metrics : PolicyMetrics)
    → IsOnMap id tsp
    → IsDecided id (decide_trace now id tsp metrics).0
decide_trace-IsDecided now id tsp metrics (trace, found) =
    let decided = (lookup-decide_trace now id tsp metrics found).0 in
    let final =
      make_decision-final tsp.policies id (record trace { decision_time = now }) metrics in
    (decided.0, decided.1, ground (arith, decided.2, final.0))

-- Another trace of the map stays as it is.
decide_trace-other :
    (now : ℕ) (id other : TraceId) (tsp : Processor) (metrics : PolicyMetrics)
    → other ≢ id
    → lookup other (decide_trace now id tsp metrics).0.id_to_trace ≡ lookup other tsp.id_to_trace
decide_trace-other now id other tsp metrics ne = elim (Option-cases (lookup id tsp.id_to_trace)) [
  | inl missing ↦
      ap (λ t. lookup other t.id_to_trace) (decide_trace-missing now id tsp metrics missing)
  | inr (trace, found) ↦ (lookup-decide_trace now id tsp metrics found).2 other ne
]

same_id : (j id : TraceId) → (j ≡ id) ⊎ (j ≢ id)
same_id j id = elim (Bool-cases (nat_eqb j id)) [
  | inl yes_same ↦ inl ((nat_eqb_iff j id).0 yes_same)
  | inr other ↦ inr λ e. ground (arith, nat_eqb_iff j id, other, e)
]

decide_trace-stays :
    (now : ℕ) (id other : TraceId) (tsp : Processor) (metrics : PolicyMetrics)
    → IsOnMap other tsp
    → IsOnMap other (decide_trace now id tsp metrics).0
decide_trace-stays now id other tsp metrics on = elim (same_id other id) [
  | inl same ↦
      let on' = subst (λ i. IsOnMap i tsp) same on in
      let decided = decide_trace-IsDecided now id tsp metrics on' in
      subst (λ i. IsOnMap i (decide_trace now id tsp metrics).0) (sym same) (decided.0, decided.1)
  | inr ne ↦ (on.0, decide_trace-other now id other tsp metrics ne ∙ on.1)
]

decide_trace-keeps :
    (now : ℕ) (id other : TraceId) (tsp : Processor) (metrics : PolicyMetrics)
    → IsDecided other tsp
    → IsDecided other (decide_trace now id tsp metrics).0
decide_trace-keeps now id other tsp metrics on = elim (same_id other id) [
  | inl same ↦
      subst (λ i. IsDecided i (decide_trace now id tsp metrics).0) (sym same)
        (decide_trace-IsDecided now id tsp metrics (subst (λ i. IsOnMap i tsp) same (on.0, on.1)))
  | inr ne ↦ (on.0, decide_trace-other now id other tsp metrics ne ∙ on.1, on.2)
]

decide_batch-batcher :
    (now : ℕ) (ids : Batch) (tsp : Processor) (metrics : PolicyMetrics)
    → (decide_batch now ids tsp metrics).0.decision_batcher ≡ tsp.decision_batcher
unfolding decide_batch
decide_batch-batcher now [] tsp metrics = refl
decide_batch-batcher now (id ∷ ids) tsp metrics =
    decide_batch-batcher now ids _ _ ∙ decide_trace-batcher now id tsp metrics

decide_batch-keeps :
    (now : ℕ) (ids : Batch) (other : TraceId) (tsp : Processor) (metrics : PolicyMetrics)
    → IsDecided other tsp
    → IsDecided other (decide_batch now ids tsp metrics).0
unfolding decide_batch
decide_batch-keeps now [] other tsp metrics d = d
decide_batch-keeps now (id ∷ ids) other tsp metrics d =
    decide_batch-keeps now ids other _ _ (decide_trace-keeps now id other tsp metrics d)

decide_batch-stays :
    (now : ℕ) (ids : Batch) (other : TraceId) (tsp : Processor) (metrics : PolicyMetrics)
    → IsOnMap other tsp
    → IsOnMap other (decide_batch now ids tsp metrics).0
unfolding decide_batch
decide_batch-stays now [] other tsp metrics d = d
decide_batch-stays now (id ∷ ids) other tsp metrics d =
    decide_batch-stays now ids other _ _ (decide_trace-stays now id other tsp metrics d)

decide_batch-IsDecided :
    (now : ℕ) (ids : Batch) (id : TraceId) (tsp : Processor) (metrics : PolicyMetrics)
    → Any (λ i. i ≡ id) ids
    → IsOnMap id tsp
    → IsDecided id (decide_batch now ids tsp metrics).0
unfolding decide_batch
decide_batch-IsDecided now [] id tsp metrics inside on = absurd inside
decide_batch-IsDecided now (i ∷ ids) id tsp metrics (inl here) on =
    decide_batch-keeps now ids id _ _ (
      subst (λ j. IsDecided j (decide_trace now i tsp metrics).0) here
        (decide_trace-IsDecided now i tsp metrics (subst (λ j. IsOnMap j tsp) (sym here) on)))
decide_batch-IsDecided now (i ∷ ids) id tsp metrics (inr there) on =
    decide_batch-IsDecided now ids id _ _ there (decide_trace-stays now i id tsp metrics on)

-- The batcher after the first batch was taken from the pipe.
abbrev taken_from : List Batch → Batcher → Batcher
taken_from rest b = record b { batches = rest ++ b.current_batch ∷ []; current_batch = [] }

abbrev after_tick : ℕ → Batch → List Batch → Processor → Processor
after_tick now first rest tsp =
    (decide_batch now first (record tsp { decision_batcher = taken_from rest tsp.decision_batcher })
      no_metrics).0

ticks-tick :
    (now : ℕ) (times : List ℕ) (first : Batch) (rest : List Batch) (tsp : Processor)
    → tsp.decision_batcher.stopped ≡ false
    → tsp.decision_batcher.batches ≡ first ∷ rest
    → ticks (now ∷ times) tsp ≡ ticks times (after_tick now first rest tsp)
unfolding ticks sampling_policy_on_tick close_current_and_take_first_batch
ticks-tick now times first rest tsp live pipe =
    rw (ticks, sampling_policy_on_tick, close_current_and_take_first_batch, pipe, live) refl

-- The trace is decided, or its id is in one of the batches.
abbrev IsDue : TraceId → List Batch → Processor → Type 0
IsDue id ps tsp = IsDecided id tsp ⊎ Any (Any (λ i. i ≡ id)) ps

IsDue-after :
    (now : ℕ) (first : Batch) (ps rest : List Batch) (id : TraceId) (tsp : Processor)
    → IsOnMap id tsp
    → IsDue id (first ∷ ps) tsp
    → IsDue id ps (after_tick now first rest tsp)
IsDue-after now first ps rest id tsp on (inl done) = inl (decide_batch-keeps now first id _ _ done)
IsDue-after now first ps rest id tsp on (inr (inl here)) =
    inl (decide_batch-IsDecided now first id _ _ here on)
IsDue-after now first ps rest id tsp on (inr (inr there)) = inr there

ticks-due :
    (times : List ℕ) (ps qs : List Batch) (id : TraceId) (tsp : Processor)
    → tsp.decision_batcher.stopped ≡ false
    → tsp.decision_batcher.batches ≡ ps ++ qs
    → length times ≡ length ps
    → IsOnMap id tsp
    → IsDue id ps tsp
    → (tsp' : Processor) × (ticks times tsp ≡ some tsp') × IsDecided id tsp'
unfolding ticks
ticks-due [] [] qs id tsp live pipe n on (inl done) = (tsp, refl, done)
ticks-due [] [] qs id tsp live pipe n on (inr none_due) = absurd none_due
ticks-due [] (p ∷ ps) qs id tsp live pipe n on due = absurd (omega (arith, n))
ticks-due (now ∷ times) [] qs id tsp live pipe n on due = absurd (omega (arith, n))
ticks-due (now ∷ times) (p ∷ ps) qs id tsp live pipe n on due =
    let tsp1 = after_tick now p (ps ++ qs) tsp in
    let batcher =
      decide_batch-batcher now p
        (record tsp { decision_batcher = taken_from (ps ++ qs) tsp.decision_batcher }) no_metrics in
    let current = tsp.decision_batcher.current_batch ∷ [] in
    let (tsp', run, decided) =
      ticks-due times ps (qs ++ current) id tsp1 (ap (λ b. b.stopped) batcher ∙ live)
        (ap (λ b. b.batches) batcher ∙ append_assoc ps qs current) (omega (arith, n))
        (decide_batch-stays now p id _ _ on) (IsDue-after now p ps (ps ++ qs) id tsp on due) in
    (tsp', ticks-tick now times p (ps ++ qs) tsp live pipe ∙ run, decided)

-- While the batcher runs and its pipe is not empty, after one tick for each batch in the pipe and
-- one more, none of which blocks, a trace on the map whose id is in the pipe or in the batch that is
-- being built is on the map with the decision sampled or not_sampled.
pub ticks-IsDecided :
    (times : List ℕ) (id : TraceId) (first : Batch) (rest : List Batch) (tsp : Processor)
    → tsp.decision_batcher.stopped ≡ false
    → tsp.decision_batcher.batches ≡ first ∷ rest
    → length times ≡ suc (length tsp.decision_batcher.batches)
    → IsOnMap id tsp
    → Any
        (Any (λ i. i ≡ id))
        (tsp.decision_batcher.batches ++ tsp.decision_batcher.current_batch ∷ [])
    → (tsp' : Processor) × (ticks times tsp ≡ some tsp') × IsDecided id tsp'
ticks-IsDecided [] id first rest tsp live pipe n on due = absurd (omega (arith, n))
ticks-IsDecided (now ∷ times) id first rest tsp live pipe n on due =
    let tsp1 = after_tick now first rest tsp in
    let batcher =
      decide_batch-batcher now first
        (record tsp { decision_batcher = taken_from rest tsp.decision_batcher }) no_metrics in
    let current = tsp.decision_batcher.current_batch ∷ [] in
    let due' : Any (Any (λ i. i ≡ id)) (first ∷ (rest ++ current)) =
      subst (λ bs. Any (Any (λ i. i ≡ id)) (bs ++ current)) pipe due in
    let n' : length times ≡ suc (length rest) = omega (arith, n, ap length pipe) in
    let (tsp', run, decided) =
      ticks-due times (rest ++ current) [] id tsp1 (ap (λ b. b.stopped) batcher ∙ live)
        (ap (λ b. b.batches) batcher ∙ sym (append-nil (rest ++ current)))
        (omega (arith, n', length-append rest current)) (decide_batch-stays now first id _ _ on)
        (IsDue-after now first (rest ++ current) rest id tsp on (inr due')) in
    (tsp', ticks-tick now times first rest tsp live pipe ∙ run, decided)
