-- ===== src/TailSampler/Filters/Match.antt =====
-- When the attribute filters match a trace.
use Prim.Native.String.{String}
use mathlib.Core.Bool.{Bool, not, ◌&&◌, ◌||◌}
use mathlib.Core.List.{List, [], ◌∷◌}
use mathlib.Core.Option.{none}
use mathlib.Core.Path.{◌≡◌, refl}
use native.Mathlib.Omega.{arith}
use text.Mathlib.TextEquality.{eq_iff}
use otel_collector.Common.Dict.{lookup, lookup-insert}
use otel_collector.Common.Lists.{any}
use otel_collector.Common.Tests.{if◌then◌else◌, ◌==◌, comparable_string}
use otel_collector.TailSampler.Filters.{
  NumericAttributeFilter, numeric_span_matches, numeric_evaluate, StringAttributeFilter, values_map,
  exact_matcher, resource_matches, span_matches, resource_passes, span_passes, string_evaluate,
}
use otel_collector.TailSampler.Scan.Any.{
  any_span, has_span-any, has_resource_or_span-any, invert_has_resource_or_span-any,
}
use otel_collector.TailSampler.Trace.{
  sampled, not_sampled, invert_sampled, invert_not_sampled, Attributes, Span, ResourceSpans,
  TraceId, TraceData,
}

-- Whether a listed value is the text sought, empty values aside.
abbrev pub listed : String → String → Bool
listed to_match value = not (value == "") && value == to_match

-- The exact matcher accepts a text exactly if it is one of the configured values and not empty.
pub exact_matcher-listed :
    (values : List String) (to_match : String)
    → exact_matcher values to_match ≡ any (listed to_match) values
unfolding exact_matcher values_map lookup
exact_matcher-listed [] to_match = refl
exact_matcher-listed (value ∷ values) to_match = ground (
  arith,
  eq_iff value "",
  eq_iff value to_match,
  lookup-insert (values_map values) value to_match tt,
  exact_matcher-listed values to_match,
)

-- Whether the filter's value stands in a batch: on its resource, or on a span and not empty.
abbrev pub value_in : StringAttributeFilter → ResourceSpans → Bool
value_in saf rs = resource_matches saf rs.resource || any_span (span_matches saf) rs

resource_passes_lem :
    (saf : StringAttributeFilter) (a : Attributes)
    → resource_passes saf a ≡ not (resource_matches saf a)
unfolding resource_passes resource_matches
resource_passes_lem saf a = ground arith

span_passes_lem :
    (saf : StringAttributeFilter) (s : Span) → span_passes saf s ≡ not (span_matches saf s)
unfolding span_passes span_matches
span_passes_lem saf s = ground arith

-- A string filter looks for its value on every resource and span of the trace: a plain one says
-- sampled if it is found and not_sampled if not, an inverted one invert_not_sampled if it is found
-- and invert_sampled if not, and there is never an error.
pub string_evaluate-value_in :
    (saf : StringAttributeFilter) (trace_id : TraceId) (trace : TraceData)
    → string_evaluate saf trace_id trace ≡ (
        if saf.invert_match
        then (
          if any (value_in saf) trace.received_batches then invert_not_sampled else invert_sampled,
          none,
        )
        else (if any (value_in saf) trace.received_batches then sampled else not_sampled, none))
unfolding string_evaluate
string_evaluate-value_in saf trace_id trace = ground (
  arith,
  has_resource_or_span-any trace.received_batches (resource_matches saf) (span_matches saf),
  invert_has_resource_or_span-any (resource_passes saf) (resource_matches saf) (span_passes saf)
      (span_matches saf) (resource_passes_lem saf) (span_passes_lem saf) trace.received_batches,
)

-- A numeric filter samples a trace exactly if some span has the attribute with a value in range.
pub numeric_evaluate-any :
    (naf : NumericAttributeFilter) (trace_id : TraceId) (trace : TraceData)
    → numeric_evaluate naf trace_id trace ≡ (
      if any (any_span (numeric_span_matches naf)) trace.received_batches
          then sampled
          else not_sampled,
      none,
    )
unfolding numeric_evaluate
numeric_evaluate-any naf trace_id trace =
    rw (has_span-any trace.received_batches (numeric_span_matches naf))
