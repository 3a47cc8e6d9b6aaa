-- ===== src/Stanza/Operator/Steps.antt =====
-- What becomes of one entry in a transformer or a parser, step by step, and what is written of it
-- (processor/signozlogspipelineprocessor/stanza/operator/helper: transformer.go and parser.go).
use mathlib.Core.Bool.{Bool, true, false}
use mathlib.Core.List.{List, [], ◌∷◌, ◌++◌}
use mathlib.Core.Option.{Option, none, some}
use otel_collector.Stanza.Operator.{
  OnError, send, send_quiet, drop, drop_quiet, TransformFunction, Outcome, fails, gives,
  TransformerOperator, ParserOperator,
}

module _ (Entry Value Err : Type 0) where
  abbrev pub Transform : Type 0
  Transform = TransformFunction Entry Value Err

  -- An error, if there is one, and the entry after it.
  abbrev pub Result : Type 0
  Result = Option Err × Entry

  -- A second step after a first one: not after an error.
  unfoldable pub then_run : Transform → Result → Result
  then_run next (some err, e) = (some err, e)
  then_run next (none, e) = next e

  -- Two steps that both run; the first error counts.
  unfoldable pub both_run : Transform → Result → Result
  both_run next (some err, e) = (some err, (next e).1)
  both_run next (none, e) = next e

  -- What becomes of an entry by a condition: an error of the condition is its own, and an entry that
  -- does not meet it stays as it is.
  unfoldable pub on_condition : Transform → Outcome Entry Value Err Bool → Transform
  on_condition f (fails err) e = (some err, e)
  on_condition f (gives true) e = f e
  on_condition f (gives false) e = (none, e)

  unfoldable pub guarded :
      Option (Entry → Outcome Entry Value Err Bool × Entry) → Transform → Transform
  unfolding on_condition
  guarded none f e = f e
  guarded (some condition) f e = let (met, e') = condition e in on_condition f met e'

  unfoldable pub transformed : TransformerOperator Entry Value Err → Transform → Transform
  unfolding guarded
  transformed t f e = guarded t.if_expr f e

  -- The parsed value is put into the entry.
  unfoldable pub stored : ParserOperator Entry Value Err → Outcome Entry Value Err Value → Transform
  stored p (fails err) e = (some err, e)
  stored p (gives value) e = p.parse_to value e

  unfoldable pub value_parsed :
      ParserOperator Entry Value Err
      → (Value → Outcome Entry Value Err Value)
      → Option Value
      → Transform
  unfolding stored
  value_parsed p parse none e = (some p.missing, e)
  value_parsed p parse (some value) e = stored p (parse value) e

  unfoldable pub optional : Option Transform → Transform
  optional none e = (none, e)
  optional (some parser) e = parser e

  -- The field that is to be the body, if there is one and it is found.
  unfoldable pub body_set : ParserOperator Entry Value Err → Option Value → Transform
  body_set p none e = (none, e)
  body_set p (some body) e = (none, p.set_body body e)

  unfoldable pub body_moved :
      ParserOperator Entry Value Err → Option (Entry → Option Value × Entry) → Transform
  unfolding body_set
  body_moved p none e = (none, e)
  body_moved p (some field) e = let (found, e') = field e in body_set p found e'

  -- Time, severity, trace and scope name, each of which runs.
  unfoldable pub parts_parsed : ParserOperator Entry Value Err → Transform
  unfolding optional both_run
  parts_parsed p e =
      both_run
        (λ e₁.
          both_run (λ e₂. both_run (optional p.scope_name_parser) (optional p.trace_parser e₂))
            (optional p.severity_parser e₁))
        (optional p.time_parser e)

  -- The steps of a parser: an error of one ends them.
  unfoldable pub entry_parsed :
      ParserOperator Entry Value Err → (Value → Outcome Entry Value Err Value) → Transform
  unfolding value_parsed then_run parts_parsed body_moved
  entry_parsed p parse e =
      let (found, e') = p.parse_from e in
      then_run (parts_parsed p)
        (then_run (body_moved p p.body_field) (value_parsed p parse found e'))

  unfoldable pub parsed :
      ParserOperator Entry Value Err → (Value → Outcome Entry Value Err Value) → Transform
  unfolding guarded entry_parsed
  parsed p parse e = guarded p.transformer.if_expr (entry_parsed p parse) e

  -- What is written of a result, by the mode.
  unfoldable pub written_of : OnError → Result → List Entry
  written_of mode (none, e) = e ∷ []
  written_of send (some err, e) = e ∷ []
  written_of send_quiet (some err, e) = e ∷ []
  written_of drop (some err, e) = []
  written_of drop_quiet (some err, e) = []

  unfoldable pub all_written : OnError → List Result → List Entry
  unfolding written_of
  all_written mode [] = []
  all_written mode (r ∷ rs) = written_of mode r ++ all_written mode rs

  unfoldable pub errors_of : List Result → List Err
  errors_of [] = []
  errors_of ((none, e) ∷ rs) = errors_of rs
  errors_of ((some err, e) ∷ rs) = err ∷ errors_of rs
