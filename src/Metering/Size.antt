-- ===== src/Metering/Size.antt =====
-- The sizes of logs and spans (pkg/metering/v1: logs.go, traces.go; pkg/metering/json.go). What the
-- JSON of a map and of the parts of a span measures is a parameter.
use Prim.Native.Nat.{ℕ, ◌+◌, ◌-◌}
use Prim.Native.String.{String}
use mathlib.Core.Bool.{Bool}
use mathlib.Core.List.{List, [], ◌∷◌}
use otel_collector.Common.Lists.{length, total}
use otel_collector.Common.Tests.{if◌then◌else◌, leb, nat_eqb}
use otel_collector.Common.Texts.{Text, ascii}

-- `SizeOfMapStringAny`: keys that match the pattern to exclude are left out.
unfoldable pub kept_attributes : {V : Type 0} → (Text → Bool) → List (Text × V) → List (Text × V)
kept_attributes excluded [] = []
kept_attributes excluded ((k, v) ∷ attrs) =
    let rest = kept_attributes excluded attrs in if excluded k then rest else (k, v) ∷ rest

pub record Sizer (V : Type 0) : Type 0 where
  pub excluded : Text → Bool
  pub json_size : List (Text × V) → ℕ

unfoldable pub size_of_map_string_any : {V : Type 0} → Sizer V → List (Text × V) → ℕ
unfolding kept_attributes
size_of_map_string_any sizer attrs = sizer.json_size (kept_attributes sizer.excluded attrs)

-- `body_size` is the length of the body as a text.
pub record LogRecord (V : Type 0) : Type 0 where
  pub attributes : List (Text × V)
  pub body_size : ℕ

pub record ResourceLogs (V : Type 0) : Type 0 where
  pub attributes : List (Text × V)
  pub scope_logs : List (List (LogRecord V))

module _ {V : Type 0} where
  unfoldable pub log_count_per_resource : ResourceLogs V → ℕ
  log_count_per_resource rld = total length rld.scope_logs

  abbrev pub log_record_size : Sizer V → ResourceLogs V → LogRecord V → ℕ
  log_record_size sizer rld r =
      size_of_map_string_any sizer rld.attributes
      + size_of_map_string_any sizer r.attributes
      + r.body_size

  unfoldable pub log_size_per_resource : Sizer V → ResourceLogs V → ℕ
  unfolding size_of_map_string_any
  log_size_per_resource sizer rld =
      total (λ records. total (log_record_size sizer rld) records) rld.scope_logs

-- The sizes of the parts of a span, which are 0 for a part that cannot be encoded.
pub record SpanSizes : Type 0 where
  pub start_time : ℕ
  pub span_id : ℕ
  pub trace_id : ℕ
  pub trace_state : ℕ
  pub parent_span_id : ℕ
  pub flags : ℕ
  pub name : ℕ
  pub kind : ℕ
  pub span_kind : ℕ
  pub string_attributes : ℕ
  pub bool_attributes : ℕ
  pub number_attributes : ℕ
  pub service_name : ℕ
  pub events : ℕ
  pub references : ℕ

-- The length of a quoted key.
abbrev pub key_size : String → ℕ
key_size key = length (ascii key) + 2

unfoldable pub total_size_if_key_exists : ℕ → ℕ → ℕ → ℕ
total_size_if_key_exists key value extra = if nat_eqb value 0 then 0 else key + value + extra

unfoldable pub total_size_if_key_exists_and_value_is_map_or_slice : ℕ → ℕ → ℕ → ℕ
total_size_if_key_exists_and_value_is_map_or_slice key value extra =
    if leb value 2 then 0 else key + value + extra

-- `resources` is the size of the attributes of the resource.
unfoldable pub span_size : ℕ → SpanSizes → ℕ
unfolding total_size_if_key_exists total_size_if_key_exists_and_value_is_map_or_slice
span_size resources s =
    2
    + total_size_if_key_exists_and_value_is_map_or_slice (key_size "resources_string") resources 2
    + total_size_if_key_exists (key_size "startTimeUnixNano") s.start_time 2
    + total_size_if_key_exists (key_size "spanId") s.span_id 4
    + total_size_if_key_exists (key_size "traceId") s.trace_id 4
    + total_size_if_key_exists (key_size "traceState") s.trace_state 4
    + total_size_if_key_exists (key_size "parentSpanId") s.parent_span_id 4
    + total_size_if_key_exists (key_size "flags") s.flags 2
    + total_size_if_key_exists (key_size "name") s.name 4
    + total_size_if_key_exists (key_size "kind") s.kind 2
    + total_size_if_key_exists (key_size "spanKind") s.span_kind 4
    + total_size_if_key_exists_and_value_is_map_or_slice (key_size "attributes_string")
        s.string_attributes 2
    + total_size_if_key_exists_and_value_is_map_or_slice (key_size "attributes_bool")
        s.bool_attributes 2
    + total_size_if_key_exists_and_value_is_map_or_slice (key_size "attributes_number")
        s.number_attributes 2
    + total_size_if_key_exists (key_size "serviceName") s.service_name 2
    + total_size_if_key_exists_and_value_is_map_or_slice (key_size "event") s.events 2
    + total_size_if_key_exists_and_value_is_map_or_slice (key_size "references") s.references 4
    - 1

pub record ResourceSpans (V : Type 0) : Type 0 where
  pub attributes : List (Text × V)
  pub scope_spans : List (List SpanSizes)

module _ {V : Type 0} where
  unfoldable pub span_count_per_resource : ResourceSpans V → ℕ
  span_count_per_resource rtd = total length rtd.scope_spans

  -- `flat_size` is what the flattened attributes of a resource measure.
  unfoldable pub span_size_per_resource : (List (Text × V) → ℕ) → ResourceSpans V → ℕ
  unfolding span_size
  span_size_per_resource flat_size rtd =
      total (λ spans. total (span_size (flat_size rtd.attributes)) spans) rtd.scope_spans
