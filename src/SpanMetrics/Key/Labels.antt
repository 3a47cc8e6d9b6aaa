-- ===== src/SpanMetrics/Key/Labels.antt =====
-- The labels that belong to a key
-- (processor/signozspanmetricsprocessor/processor.go: buildDimensionKVs, buildCustomDimensionKVs).
use Prim.Native.String.{String, ◌++◌}
use mathlib.Core.Bool.{Bool}
use mathlib.Core.List.{List, [], ◌∷◌}
use mathlib.Core.Option.{Option, none, some}
use otel_collector.Common.Dict.{insert}
use otel_collector.Common.Tests.{if◌then◌else◌, comparable_string}
use otel_collector.SpanMetrics.Key.{
  Attributes, Span, Dimension, Conventions, Tracking, Services, resource_prefix, tracked_service,
  tracked_operation, span_kind_str, status_code_str, get_dimension_value_with_resource,
}

module _ {V : Type 0} (v : Conventions V) where
  -- The labels of one optional dimension.
  unfoldable pub put_dimension : Dimension V → Option V × Bool → Attributes V → Attributes V
  put_dimension d (none, found) m = m
  put_dimension d (some a, found) m =
      let m' = insert d.name a m in if found then insert (resource_prefix ++ d.name) a m' else m'

  unfoldable pub put_dimensions :
      Span V → List (Dimension V) → Attributes V → Attributes V → Attributes V
  unfolding put_dimension
  put_dimensions span [] resource m = m
  put_dimensions span (d ∷ dims) resource m =
      put_dimensions span dims resource
        (put_dimension d (get_dimension_value_with_resource v d span.attributes resource) m)

  unfoldable pub build_dimension_kvs :
      Tracking → String → Span V → List (Dimension V) → Attributes V → Services → Attributes V
  unfolding put_dimensions
  build_dimension_kvs t service span dims resource services =
      let service' = tracked_service t services service in
      let name' = tracked_operation t services service' span.name in
      put_dimensions span dims resource (
        insert "status.code" (v.value_str (status_code_str span.status)) (
          insert "span.kind" (v.value_str (span_kind_str span.kind)) (
            insert "operation" (v.value_str name')
              (insert v.service_name_key (v.value_str service') []))))

  -- The extra labels are a map, whose order changes nothing.
  unfoldable pub put_all : Attributes V → Attributes V → Attributes V
  put_all [] m = m
  put_all ((k, a) ∷ extra) m = put_all extra (insert k a m)

  unfoldable pub build_custom_dimension_kvs :
      String → Span V → List (Dimension V) → Attributes V → Attributes V → Attributes V
  unfolding put_dimensions put_all
  build_custom_dimension_kvs service span dims resource extra_dims =
      put_dimensions span dims resource (
        insert "status.code" (v.value_str (status_code_str span.status))
          (put_all extra_dims (insert v.service_name_key (v.value_str service) [])))
