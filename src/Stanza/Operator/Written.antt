-- ===== src/Stanza/Operator/Written.antt =====
-- What a batch of entries writes, against the steps of one entry
-- (processor/signozlogspipelineprocessor/stanza/operator/helper: transformer.go and parser.go).
use mathlib.Core.Bool.{Bool, true, false}
use mathlib.Core.List.{List}
use mathlib.Core.Option.{none, some}
use mathlib.Core.Path.{◌≡◌}
use native.Mathlib.Omega.{arith}
use otel_collector.Stanza.Operator.{
  OnError, Run, Outcome, fails, gives, handle_entry_error, write, ParserOperator, parse_if,
  parse_parts,
}
use otel_collector.Stanza.Operator.Steps.{
  Transform, Result, both_run, optional, parts_parsed, written_of,
}

module _ (Entry Value Err : Type 0) where
  run_of : OnError → (Result Entry Value Err) → Run Entry Value Err
  unfolding written_of
  run_of mode r = record { written = written_of Entry Value Err mode r; error = r.0; entry = r.1 }

  -- The result of a step that may be skipped.
  abbrev on_skipped :
      (Transform Entry Value Err) → Outcome Entry Value Err Bool → (Transform Entry Value Err)
  on_skipped f (fails err) e = (some err, e)
  on_skipped f (gives true) e = (none, e)
  on_skipped f (gives false) e = f e

  step_run : OnError → (Transform Entry Value Err) → Entry → Run Entry Value Err
  step_run mode f e = elim (f e).0 [
    | some err ↦ handle_entry_error Entry Value Err mode (f e).1 err
    | none ↦ write Entry Value Err (f e).1
  ]

  parse_parts-parts_parsed :
      (p : ParserOperator Entry Value Err) (e : Entry)
      → parse_parts Entry Value Err p e ≡ parts_parsed Entry Value Err p e
  unfolding parse_parts parse_if parts_parsed optional both_run
  parse_parts-parts_parsed p e = ground arith
