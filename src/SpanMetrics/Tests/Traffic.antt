-- ===== src/SpanMetrics/Tests/Traffic.antt =====
-- A run of the span metrics processor, with batches and exports.
use Prim.Native.Nat.{ℕ, ◌+◌}
use Prim.Native.String.{String}
use mathlib.Core.Bool.{true, false}
use mathlib.Core.List.{List, [], ◌∷◌}
use mathlib.Core.Option.{Option}
use otel_collector.Common.Tests.{◌==◌, comparable_string, comparable_nat}
use otel_collector.SpanMetrics.Key.{span_kind_str, status_code_str}
use otel_collector.SpanMetrics.Processor.{Processor, Library, Config}
use otel_collector.SpanMetrics.Processor.Traffic.{
  ResourceSpans, Event, traces, tick, run as run_events,
}
use otel_collector.SpanMetrics.Tests.{
  one_slot, conventions, remote_keys, milliseconds, bounds, one_of_each, span, dimension, with_x,
  with_y, over_pipe,
}

abbrev library : Library
library = record {
  Value = String;
  conventions = conventions;
  remote = remote_keys;
  floats = milliseconds;
  lru = one_slot;
  Exp = ℕ;
  new_exp = 0;
  update_exp = λ x e. x + e;
  kind_string = span_kind_str;
  code_string = status_code_str;
}

abbrev config : Config library
config = record {
  latency_bounds = bounds;
  dimensions = dimension "x" ∷ [];
  exp_dimensions = [];
  call_dimensions = [];
  db_call_dimensions = [];
  external_call_dimensions = [];
  delta = false;
  enable_exp_histogram = true;
  tracking = one_of_each;
  span_skip_window = 0;
  exclude_patterns = ("operation", λ s. s == "skipped") ∷ [];
  instance_id = "1";
}

abbrev events : List (Event library)
events =
    traces 10 (
      record {
        resource = ("service.name", "a") ∷ [];
        scope_spans = (with_x ∷ with_y ∷ span "skipped" [] ∷ span "g" over_pipe ∷ []) ∷ [];
      }
      ∷ [])
    ∷ tick
    ∷ traces 20 (record { resource = []; scope_spans = (with_x ∷ []) ∷ [] } ∷ [])
    ∷ tick
    ∷ []

abbrev batches : List (ℕ × List (ResourceSpans library))
batches =
    (
      10,
      record {
        resource = ("service.name", "a") ∷ [];
        scope_spans = (with_x ∷ with_y ∷ span "skipped" [] ∷ []) ∷ [];
      }
          ∷ [],
    )
    ∷ (20, record { resource = []; scope_spans = (with_x ∷ []) ∷ [] } ∷ [])
    ∷ []
