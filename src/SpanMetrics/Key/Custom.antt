-- ===== src/SpanMetrics/Key/Custom.antt =====
-- The keys of the metrics of external calls and of database calls
-- (processor/signozspanmetricsprocessor/processor.go: buildCustomMetricKey, buildCustomKey).
use Prim.Native.String.{String, ◌++◌}
use mathlib.Core.Bool.{Bool, true, false}
use mathlib.Core.List.{List, [], ◌∷◌}
use mathlib.Core.Option.{Option, none, some}
use otel_collector.Common.Tests.{if◌then◌else◌, comparable_string}
use otel_collector.SpanMetrics.Key.{
  Attributes, Span, Dimension, Conventions, resource_prefix, concat_dimension_value,
  concat_dimension, key_prefix, status_code_str, get_dimension_value_with_resource,
}

module _ {V : Type 0} (v : Conventions V) where
  -- The second text of a dimension that the resource has too.
  unfoldable pub concat_custom : String → Option V × Bool → String
  unfolding concat_dimension_value concat_dimension
  concat_custom dest (none, found) = dest
  concat_custom dest (some a, found) =
      let dest' = concat_dimension v dest (some a) in
      if found then concat_dimension_value dest' (resource_prefix ++ v.as_string a) true else dest'

  unfoldable pub concat_custom_dimensions :
      String → Span V → List (Dimension V) → Attributes V → String
  unfolding concat_custom
  concat_custom_dimensions dest span [] resource = dest
  concat_custom_dimensions dest span (d ∷ dims) resource =
      concat_custom_dimensions
        (concat_custom dest (get_dimension_value_with_resource v d span.attributes resource)) span
        dims resource

  unfoldable pub concat_values : String → List String → String
  unfolding concat_dimension_value
  concat_values dest [] = dest
  concat_values dest (val ∷ vals) = concat_values (concat_dimension_value dest val true) vals

  unfoldable pub build_custom_metric_key :
      Bool → String → Span V → List (Dimension V) → Attributes V → List String → String
  unfolding key_prefix concat_values concat_custom_dimensions
  build_custom_metric_key delta service span dims resource extra_vals =
      let dest = concat_dimension_value (key_prefix v delta span) service false in
      let dest' = concat_dimension_value dest (status_code_str span.status) true in
      concat_custom_dimensions (concat_values dest' extra_vals) span dims resource
