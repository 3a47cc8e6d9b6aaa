-- ===== src/TailSampler/Batcher/Order.antt =====
-- The order of the ids in the pipe
-- (processor/signoztailsampler/internal/idbatcher/id_batcher.go).
use mathlib.Core.Bool.{Bool, true, false}
use mathlib.Core.List.{List, [], ◌∷◌, ◌++◌, append_assoc, append-nil}
use mathlib.Core.Logic.{◌⊎◌, inl, inr}
use mathlib.Core.Option.{some}
use mathlib.Core.Path.{◌≡◌, refl, ◌∙◌, sym, ap}
use native.Mathlib.Omega.{arith}
use otel_collector.Common.Tests.{Bool-cases}
use otel_collector.TailSampler.Batcher.{
  Batch, Batcher, add_to_current_batch, collect_pending, close_current_and_take_first_batch, stop,
}
use otel_collector.TailSampler.Trace.{TraceId}

-- The steps of the processor and of the goroutine, in the order in which they happen. The lists
-- are the ids that were sent and those that were handed out so far.
pub data Runs (start : Batcher) : List TraceId → List TraceId → Batcher → Type 0 where
  here : Runs start [] [] start
  added :
      {sent taken sent' : List TraceId} {b b' : Batcher} (id : TraceId)
      → Runs start sent taken b
      → add_to_current_batch id b ≡ some b'
      → sent' ≡ sent ++ id ∷ []
      → Runs start sent' taken b'
  collected :
      {sent taken : List TraceId} {b b' : Batcher}
      → Runs start sent taken b
      → collect_pending b ≡ some b'
      → Runs start sent taken b'
  closed :
      {sent taken taken' : List TraceId} {b b' : Batcher} (batch : Batch) (more : Bool)
      → Runs start sent taken b
      → close_current_and_take_first_batch b ≡ some (batch, more, b')
      → taken' ≡ taken ++ batch
      → Runs start sent taken' b'
  halted :
      {sent taken : List TraceId} {b b' : Batcher}
      → Runs start sent taken b
      → stop b ≡ some b'
      → Runs start sent taken b'

-- The ids in the batcher, in the order in which they will be handed out.
abbrev pub concat : List Batch → List TraceId
concat [] = []
concat (b ∷ bs) = b ++ concat bs

abbrev pub contents : Batcher → List TraceId
contents b = concat b.batches ++ (b.current_batch ++ b.pending_ids)

List-cases {ℓ} : {A : Type ℓ} (xs : List A) → (xs ≡ []) ⊎ ((y : A) × (ys : List A) × (xs ≡ y ∷ ys))
List-cases [] = inl refl
List-cases (y ∷ ys) = inr (y, ys, refl)

concat-append : (bs cs : List Batch) → concat (bs ++ cs) ≡ concat bs ++ concat cs
concat-append [] cs = refl
concat-append (b ∷ bs) cs = simp (concat-append bs cs, append_assoc)

contents-add :
    (id : TraceId) (b : Batcher) {b' : Batcher}
    → add_to_current_batch id b ≡ some b'
    → contents b' ≡ contents b ++ id ∷ []
unfolding add_to_current_batch
contents-add id b {b'} e =
    let pending : b'.pending_ids ≡ b.pending_ids ++ id ∷ [] = ground arith in
    let current : b'.current_batch ≡ b.current_batch = ground arith in
    let pipe : b'.batches ≡ b.batches = ground arith in
    rw (pending, current, pipe) (simp append_assoc)

contents-collect :
    (b : Batcher) {b' : Batcher} → collect_pending b ≡ some b' → contents b' ≡ contents b
unfolding collect_pending
contents-collect b {b'} e = elim (List-cases b.pending_ids) [
  | inl n ↦ absurd (ground arith)
  | inr (id, ids, c) ↦
      let pending : b'.pending_ids ≡ ids = ground arith in
      let current : b'.current_batch ≡ b.current_batch ++ id ∷ [] = ground arith in
      let pipe : b'.batches ≡ b.batches = ground arith in
      rw (pending, current, pipe, c) (simp append_assoc)
]

contents-close :
    (b : Batcher) {batch : Batch} {more : Bool} {b' : Batcher}
    → b.stopped ≡ false
    → close_current_and_take_first_batch b ≡ some (batch, more, b')
    → contents b ≡ batch ++ contents b'
unfolding close_current_and_take_first_batch
contents-close b {batch} {b' = b'} live e = elim (List-cases b.batches) [
  | inl n ↦ absurd (ground arith)
  | inr (x, xs, c) ↦
      let first : x ≡ batch = ground arith in
      let pipe : b'.batches ≡ xs ++ b.current_batch ∷ [] = ground arith in
      let current : b'.current_batch ≡ [] = ground arith in
      let pending : b'.pending_ids ≡ b.pending_ids = ground arith in
      rw (c, pending, current, pipe, ← first) (simp (concat-append, append_assoc, append-nil))
]

contents-close_stopped :
    (b : Batcher) {batch : Batch} {more : Bool} {b' : Batcher}
    → b.stopped ≡ true
    → b.pending_ids ≡ []
    → close_current_and_take_first_batch b ≡ some (batch, more, b')
    → contents b ≡ batch ++ contents b'
unfolding close_current_and_take_first_batch
contents-close_stopped b {batch} {b' = b'} halt empty e = elim (List-cases b.batches) [
  | inl n ↦
      let first : b.current_batch ≡ batch = ground arith in
      let pipe : b'.batches ≡ [] = ground arith in
      let current : b'.current_batch ≡ [] = ground arith in
      let pending : b'.pending_ids ≡ [] = ground arith in
      rw (n, empty, pending, current, pipe, first) (simp append-nil)
  | inr (x, xs, c) ↦
      let first : x ≡ batch = ground arith in
      let pipe : b'.batches ≡ xs = ground arith in
      let current : b'.current_batch ≡ b.current_batch = ground arith in
      let pending : b'.pending_ids ≡ b.pending_ids = ground arith in
      rw (c, pending, current, pipe, ← first) (simp append_assoc)
]

contents-stop : (b : Batcher) {b' : Batcher} → stop b ≡ some b' → contents b' ≡ contents b
unfolding stop
contents-stop b {b'} e =
    let current : b'.current_batch ≡ b.current_batch ++ b.pending_ids = ground arith in
    let pipe : b'.batches ≡ b.batches = ground arith in
    let pending : b'.pending_ids ≡ [] = ground arith in
    rw (current, pipe, pending) (simp append-nil)

-- After a stop no id waits to be collected.
abbrev pub IsDrained : Batcher → Type 0
IsDrained b = b.stopped ≡ true → b.pending_ids ≡ []

Runs-IsDrained :
    {start b : Batcher} {sent taken : List TraceId}
    → IsDrained start
    → Runs start sent taken b
    → IsDrained b
unfolding add_to_current_batch collect_pending close_current_and_take_first_batch stop
Runs-IsDrained h here = h
Runs-IsDrained h (added id r e _) = let ih = Runs-IsDrained h r in λ halt. ground arith
Runs-IsDrained h (collected r e) = let ih = Runs-IsDrained h r in λ halt. ground arith
Runs-IsDrained h (closed batch more r e _) = let ih = Runs-IsDrained h r in λ halt. ground arith
Runs-IsDrained h (halted r e) = λ halt. ground arith

-- Over any sequence of the batcher's steps from a drained start, the ids handed out followed by
-- those still inside are those inside at the start followed by those sent, in order: none is lost,
-- repeated or overtaken, also across a stop.
pub Runs-contents :
    {start b : Batcher} {sent taken : List TraceId}
    → IsDrained start
    → Runs start sent taken b
    → taken ++ contents b ≡ contents start ++ sent
Runs-contents {start} h here = sym (append-nil (contents start))
Runs-contents {start} h (added {sent = sent} {taken = taken} {b = b} id r e s) =
    rw (contents-add id b e, s) (rw (← append_assoc, Runs-contents h r) (simp append_assoc))
Runs-contents h (collected {b = b} r e) = rw (contents-collect b e) (Runs-contents h r)
Runs-contents {start} h (closed {sent = sent} {taken = taken} {b = b} {b' = b'} batch more r e t) =
    rw t (
      append_assoc taken batch (contents b')
      ∙ (ap (◌++◌ taken) (sym (close_either (Bool-cases b.stopped))) ∙ Runs-contents h r))
  where
    close_either : (b.stopped ≡ true) ⊎ (b.stopped ≡ false) → contents b ≡ batch ++ contents b'
    close_either (inl halt) = contents-close_stopped b halt (Runs-IsDrained h r halt) e
    close_either (inr live) = contents-close b live e
Runs-contents h (halted {b = b} r e) = rw (contents-stop b e) (Runs-contents h r)
