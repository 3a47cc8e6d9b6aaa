-- ===== src/TailSampler/Batcher/Delay.antt =====
-- The delay of a batch in the pipe
-- (processor/signoztailsampler/internal/idbatcher/id_batcher.go).
use Prim.Native.Nat.{ℕ, zero, suc}
use mathlib.Core.Bool.{false}
use mathlib.Core.List.{List, [], ◌∷◌, ◌++◌, append_assoc, append-nil}
use mathlib.Core.Logic.{◌≢◌}
use mathlib.Core.Option.{Option, none, some}
use mathlib.Core.Path.{◌≡◌, refl}
use native.Mathlib.Omega.{arith}
use otel_collector.Common.Lists.{length, length-append}
use otel_collector.TailSampler.Batcher.{Batch, Batcher, close_current_and_take_first_batch}

-- The batches that a number of closes in a row hand out.
unfoldable pub close_times : ℕ → Batcher → Option (List Batch)
close_times zero b = some []
close_times (suc k) b = elim (close_current_and_take_first_batch b) [
  | none ↦ none
  | some (batch, _, b') ↦ elim (close_times k b') [ none ↦ none | some rest ↦ some (batch ∷ rest) ]
]

close_times-prefix :
    (ps qs : List Batch) (b : Batcher)
    → b.stopped ≡ false
    → b.batches ≡ ps ++ qs
    → close_times (length ps) b ≡ some ps
unfolding close_times close_current_and_take_first_batch
close_times-prefix [] qs b live e = refl
close_times-prefix (p ∷ ps) qs b live e =
    let b' = record b { batches = (ps ++ qs) ++ b.current_batch ∷ []; current_batch = [] } in
    let pipe : b'.batches ≡ ps ++ (qs ++ b.current_batch ∷ []) = append_assoc ps qs _ in
    ground (arith, e, close_times-prefix ps (qs ++ b.current_batch ∷ []) b' live pipe)

-- A batcher that runs and whose pipe is not empty hands out, over one close for each batch in the
-- pipe and one more, the batches of the pipe in order and then the batch that was being built.
pub close_times-batches :
    (b : Batcher)
    → b.stopped ≡ false
    → b.batches ≢ []
    → close_times (suc (length b.batches)) b ≡ some (b.batches ++ b.current_batch ∷ [])
unfolding close_times close_current_and_take_first_batch
close_times-batches b live full = go b.batches refl
  where
    go :
        (ps : List Batch)
        → b.batches ≡ ps
        → close_times (suc (length ps)) b ≡ some (ps ++ b.current_batch ∷ [])
    go [] e = absurd (full e)
    go (p ∷ ps) e =
        let b' = record b { batches = ps ++ b.current_batch ∷ []; current_batch = [] } in
        ground (
          arith,
          e,
          close_times-prefix (ps ++ b.current_batch ∷ []) [] b' live
              (rw (append-nil (ps ++ b.current_batch ∷ []))),
          length-append ps (b.current_batch ∷ []),
        )
