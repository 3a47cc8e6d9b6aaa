-- ===== src/Stanza/Operator.antt =====
-- What an operator of the log pipeline does with an entry
-- (processor/signozlogspipelineprocessor/stanza/operator/helper: transformer.go and parser.go). An entry
-- is any type, and the fields, expressions and parsers that an operator holds are functions on it: each
-- gives the entry as it leaves it. `Write` hands an entry to the next operators, so what is written is
-- a list. Logging is left out.
use mathlib.Core.Bool.{Bool, true, false, not}
use mathlib.Core.List.{List, [], ◌∷◌, ◌++◌}
use mathlib.Core.Option.{Option, none, some}
use otel_collector.Common.Tests.{if◌then◌else◌}
pub mod Steps
pub mod Written
mod Tests

pub data OnError : Type 0 where
  send send_quiet drop drop_quiet : OnError

-- `t.OnError == SendOnError || t.OnError == SendOnErrorQuiet`
abbrev pub sends : OnError → Bool
sends send = true
sends send_quiet = true
sends _ = false

module _ (Entry Value Err : Type 0) where
  -- A method's error, if any, and the entry after it.
  abbrev pub TransformFunction : Type 0
  TransformFunction = Entry → Option Err × Entry

  -- What became of an entry: what was written of it, its error, and the entry.
  pub record Run : Type 0 where
    pub written : List Entry
    pub error : Option Err
    pub entry : Entry

  pub data Outcome (A : Type 0) : Type 0 where
    fails : Err → Outcome A
    gives : A → Outcome A

  -- The condition reads the entry, and may leave the parsed body in it.
  pub record TransformerOperator : Type 0 where
    pub on_error : OnError
    pub if_expr : Option (Entry → Outcome Bool × Entry)

  unfoldable pub handle_entry_error : OnError → Entry → Err → Run
  handle_entry_error on_error e err = record {
    written = if sends on_error then e ∷ [] else [];
    error = some err;
    entry = e;
  }

  unfoldable pub skip : TransformerOperator → Entry → Outcome Bool × Entry
  skip t e = elim t.if_expr [
    | none ↦ (gives false, e)
    | some run ↦
        let (outcome, e') = run e in
        elim outcome [ fails err ↦ (fails err, e') | gives matches ↦ (gives (not matches), e') ]
  ]

  abbrev pub write : Entry → Run
  write e = record { written = e ∷ []; error = none; entry = e }

  unfoldable pub process_with : TransformerOperator → TransformFunction → Entry → Run
  unfolding skip handle_entry_error
  process_with t transform e =
      let (skipped, e') = skip t e in
      let (failed, e'') = transform e' in
      elim skipped [
        | fails err ↦ handle_entry_error t.on_error e' err
        | gives true ↦ write e'
        | gives false ↦ elim failed [
          | some err ↦ handle_entry_error t.on_error e'' err
          | none ↦ write e''
        ]
      ]

  pub record ParserOperator : Type 0 where
    pub transformer : TransformerOperator
    pub parse_from : Entry → Option Value × Entry
    pub missing : Err
    pub parse_to : Value → TransformFunction
    pub body_field : Option (Entry → Option Value × Entry)
    pub set_body : Value → Entry → Entry
    pub time_parser : Option TransformFunction
    pub severity_parser : Option TransformFunction
    pub trace_parser : Option TransformFunction
    pub scope_name_parser : Option TransformFunction

  -- An optional parser: nothing happens if there is none.
  unfoldable pub parse_if : Option TransformFunction → TransformFunction
  parse_if none e = (none, e)
  parse_if (some parser) e = parser e

  unfoldable pub move_body : ParserOperator → Entry → Entry
  move_body p e = elim p.body_field [
    | none ↦ e
    | some field ↦
        let (found, e') = field e in elim found [ none ↦ e' | some body ↦ p.set_body body e' ]
  ]

  -- All four parsers run; the first of their errors counts.
  unfoldable pub parse_parts : ParserOperator → TransformFunction
  unfolding parse_if
  parse_parts p e =
      let (time_err, e₁) = parse_if p.time_parser e in
      let (severity_err, e₂) = parse_if p.severity_parser e₁ in
      let (trace_err, e₃) = parse_if p.trace_parser e₂ in
      let (scope_err, e₄) = parse_if p.scope_name_parser e₃ in
      elim time_err [
        | some err ↦ (some err, e₄)
        | none ↦ elim severity_err [
          | some err ↦ (some err, e₄)
          | none ↦ elim trace_err [ some err ↦ (some err, e₄) | none ↦ (scope_err, e₄) ]
        ]
      ]

  -- Up to the error that `ParseWith` handles.
  unfoldable pub parse_entry : ParserOperator → (Value → Outcome Value) → TransformFunction
  unfolding parse_parts move_body
  parse_entry p parse e =
      let (found, e') = p.parse_from e in
      elim found [
        | none ↦ (some p.missing, e')
        | some value ↦ elim (parse value) [
          | fails err ↦ (some err, e')
          | gives new_value ↦
              let (failed, e'') = p.parse_to new_value e' in
              elim failed [ some err ↦ (some err, e'') | none ↦ parse_parts p (move_body p e'') ]
        ]
      ]

  -- An error has been handled, and written if it is to be, when this returns.
  unfoldable pub parse_with : ParserOperator → (Value → Outcome Value) → Entry → Run
  unfolding parse_entry handle_entry_error
  parse_with p parse e =
      let (failed, e') = parse_entry p parse e in
      elim failed [
        | some err ↦ handle_entry_error p.transformer.on_error e' err
        | none ↦ record { written = []; error = none; entry = e' }
      ]

  -- The callback may be nil.
  unfoldable pub process_with_callback :
      ParserOperator → (Value → Outcome Value) → Option TransformFunction → Entry → Run
  unfolding skip parse_with
  process_with_callback p parse cb e =
      let (skipped, e') = skip p.transformer e in
      let parsed = parse_with p parse e' in
      elim skipped [
        | fails err ↦ handle_entry_error p.transformer.on_error e' err
        | gives true ↦ write e'
        | gives false ↦ elim parsed.error [
          | some err ↦ parsed
          | none ↦ elim cb [
            | none ↦ write parsed.entry
            | some callback ↦
                let (failed, e'') = callback parsed.entry in
                elim failed [
                  | some err ↦ record { written = []; error = some err; entry = e'' }
                  | none ↦ write e''
                ]
          ]
        ]
      ]

  unfoldable pub parser_process_with : ParserOperator → (Value → Outcome Value) → Entry → Run
  unfolding process_with_callback
  parser_process_with p parse e = process_with_callback p parse none e

  -- What a batch writes, and its errors.
  pub record Batch : Type 0 where
    pub written : List Entry
    pub errors : List Err

  abbrev pub append_error : Option Err → List Err → List Err
  append_error none errs = errs
  append_error (some err) errs = err ∷ errs

  unfoldable pub process_batch_with : (Entry → Run) → List Entry → Batch
  process_batch_with process [] = record { written = []; errors = [] }
  process_batch_with process (e ∷ entries) =
      let r = process e in
      let rest = process_batch_with process entries in
      record { written = r.written ++ rest.written; errors = append_error r.error rest.errors }
