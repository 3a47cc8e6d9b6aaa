-- ===== src/TailSampler/Batcher.antt =====
-- The pipeline of batches of trace ids
-- (processor/signoztailsampler/internal/idbatcher/id_batcher.go). Channels are queues, oldest first.
-- Each critical section is one step: sending an id, the goroutine's move of an id to the current
-- batch, closing a batch, and stopping. A send or receive that blocks is `none`.
use Prim.Native.Nat.{ℕ, ◌-◌}
use mathlib.Core.Bool.{Bool, true, false}
use mathlib.Core.List.{List, [], ◌∷◌, ◌++◌}
use mathlib.Core.Option.{Option, none, some}
use otel_collector.Common.Lists.{length, replicate}
use otel_collector.Common.Tests.{if◌then◌else◌, ltb}
use otel_collector.TailSampler.Trace.{TraceId}
pub mod Order
pub mod Delay

abbrev pub Batch : Type 0
Batch = List TraceId

pub record Batcher : Type 0 where
  pub pending_ids : List TraceId
  pub pending_cap : ℕ
  pub batches : List Batch
  pub batches_cap : ℕ
  pub current_batch : Batch
  pub stopped : Bool

pub data BatcherError : Type 0 where
  err_invalid_num_batches err_invalid_batch_channel_size : BatcherError

pub data NewResult : Type 0 where
  ok : Batcher → NewResult
  err : BatcherError → NewResult

-- The initial capacity of a batch is a hint for its allocation only.
unfoldable pub new : ℕ → ℕ → ℕ → NewResult
new num_batches new_batches_initial_capacity batch_channel_size =
    if ltb num_batches 1
    then err err_invalid_num_batches
    else if ltb batch_channel_size 1
    then err err_invalid_batch_channel_size
    else ok (record {
      pending_ids = [];
      pending_cap = batch_channel_size;
      batches = replicate num_batches [];
      batches_cap = num_batches;
      current_batch = [];
      stopped = false;
    })

-- A send blocks while the channel is full; after a stop it panics, as the channel is closed.
unfoldable pub add_to_current_batch : TraceId → Batcher → Option Batcher
add_to_current_batch id b =
    if b.stopped
    then none
    else if ltb (length b.pending_ids) b.pending_cap
    then some (record b { pending_ids = b.pending_ids ++ id ∷ [] })
    else none

-- The goroutine takes one id from the channel; it blocks while there is none.
unfoldable pub collect_pending : Batcher → Option Batcher
collect_pending b = elim b.pending_ids [
  | [] ↦ none
  | id ∷ ids ↦ some (record b { pending_ids = ids; current_batch = b.current_batch ++ id ∷ [] })
]

-- The batch that was first, whether there was one, and the batcher after. With the pipe empty the
-- receive blocks until the pipe is closed, which only a stop does.
unfoldable pub close_current_and_take_first_batch : Batcher → Option (Batch × Bool × Batcher)
close_current_and_take_first_batch b = elim b.batches [
  | read_batch ∷ rest ↦
      if b.stopped
      then some (read_batch, true, record b { batches = rest })
      else some (
        read_batch,
        true,
        record b { batches = rest ++ b.current_batch ∷ []; current_batch = [] },
      )
  | [] ↦ if b.stopped then some (b.current_batch, false, record b { current_batch = [] }) else none
]

-- `Stop` closes the channel of ids, waits until the goroutine has emptied it, and closes the pipe.
-- A second stop panics, as it closes a closed channel.
unfoldable pub stop : Batcher → Option Batcher
stop b =
    if b.stopped
    then none
    else some (record b {
      pending_ids = [];
      current_batch = b.current_batch ++ b.pending_ids;
      stopped = true;
    })
