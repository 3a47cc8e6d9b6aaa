-- ===== src/TailSampler/Trace.antt =====
-- The data that the tail sampler keeps of a trace
-- (processor/signoztailsampler/internal/sampling/policy.go), and what it reads of a batch of spans.
-- A span is one of the pdata library, of which the fields here are what the accessors used by the
-- sampler return: `Attributes().Get`, `Status().Code()`, `StartTimestamp()`, `EndTimestamp()`.
use Prim.Native.Nat.{ℕ}
use Prim.Native.String.{String}
use mathlib.Core.List.{List}
use mathlib.Core.Option.{Option}
use otel_collector.Common.Int.{ℤ}

-- The verdict of one policy, or of all.
pub data Decision : Type 0 where
  unspecified pending sampled not_sampled dropped error invert_sampled invert_not_sampled : Decision
  no_result : Decision

-- What `v.Int()` and `v.Str()` return of an attribute.
pub record AttributeValue : Type 0 where
  pub int : ℤ
  pub str : String

pub data StatusCode : Type 0 where
  code_unset code_ok code_error : StatusCode

-- A trace id is read as one number of 16 bytes.
abbrev pub TraceId : Type 0
TraceId = ℕ

abbrev pub Attributes : Type 0
Attributes = String → Option AttributeValue

pub record Span : Type 0 where
  pub trace_id : TraceId
  pub attributes : Attributes
  pub status : StatusCode
  pub start_timestamp : ℕ
  pub end_timestamp : ℕ

abbrev pub ScopeSpans : Type 0
ScopeSpans = List Span

pub record ResourceSpans : Type 0 where
  pub resource : Attributes
  pub scope_spans : List ScopeSpans

abbrev pub Traces : Type 0
Traces = List ResourceSpans

pub record TraceData : Type 0 where
  pub decisions : List Decision
  pub arrival_time : ℕ
  pub decision_time : ℕ
  pub span_count : ℤ
  pub received_batches : Traces
  pub final_decision : Decision

-- A decision, and the error if there is one.
abbrev pub Outcome : Type 0
Outcome = Decision × Option String

-- What a policy evaluator computes; one with a state of its own is modelled with that state.
abbrev pub Evaluator : Type 0
Evaluator = TraceId → TraceData → Outcome
