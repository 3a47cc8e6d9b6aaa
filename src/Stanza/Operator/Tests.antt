-- ===== src/Stanza/Operator/Tests.antt =====
-- A run of a batch through an operator. An entry is a list of numbers.
use Prim.Native.Nat.{ℕ, zero, suc}
use Prim.Native.String.{String}
use mathlib.Core.List.{List, [], ◌∷◌}
use mathlib.Core.Option.{Option, none, some}
use otel_collector.Stanza.Operator.{
  drop, Run, Outcome, fails, gives, process_with, ParserOperator, parser_process_with,
}

abbrev Entry : Type 0
Entry = List ℕ

-- The first number, if there is one.
abbrev first : Entry → Option ℕ × Entry
first [] = (none, [])
first (n ∷ e) = (some n, n ∷ e)

abbrev less_one : ℕ → Outcome Entry ℕ String ℕ
less_one zero = fails "zero"
less_one (suc n) = gives n

abbrev add_one : Entry → Option String × Entry
add_one [] = (some "empty", [])
add_one e = (none, 1 ∷ e)

abbrev parser : ParserOperator Entry ℕ String
parser = record {
  transformer = record { on_error = drop; if_expr = none };
  parse_from = first;
  missing = "missing";
  parse_to = λ n e. (none, n ∷ e);
  body_field = some first;
  set_body = λ n e. e;
  time_parser = some add_one;
  severity_parser = none;
  trace_parser = none;
  scope_name_parser = none;
}

abbrev entries : List Entry
entries = [] ∷ (2 ∷ []) ∷ (0 ∷ []) ∷ []

abbrev transforms : Entry → Run Entry ℕ String
transforms = process_with Entry ℕ String parser.transformer add_one

abbrev parses : Entry → Run Entry ℕ String
parses = parser_process_with Entry ℕ String parser less_one
