-- ===== src/TailSampler/Scan.antt =====
-- The scans over the batches of a trace (processor/signoztailsampler/internal/sampling/util.go).
pub mod Any
use mathlib.Core.Bool.{Bool, true, false, not}
use mathlib.Core.List.{List, [], ◌∷◌}
use otel_collector.Common.Tests.{if◌then◌else◌}
use otel_collector.TailSampler.Trace.{
  Decision, sampled, not_sampled, invert_sampled, invert_not_sampled, Attributes, Span, ScopeSpans,
  Traces,
}

-- The inner loop over the spans of one scope: it returns at the first span that passes.
unfoldable pub some_span : (Span → Bool) → ScopeSpans → Bool
some_span check [] = false
some_span check (span ∷ spans) = if check span then true else some_span check spans

unfoldable pub has_instrumentation_library_span_with_condition :
    List ScopeSpans → (Span → Bool) → Bool
has_instrumentation_library_span_with_condition [] check = false
has_instrumentation_library_span_with_condition (ils ∷ ilss) check =
    if some_span check ils then true else has_instrumentation_library_span_with_condition ilss check

-- The inner loop of the inverted scan: it returns at the first span that fails.
unfoldable pub every_span : (Span → Bool) → ScopeSpans → Bool
every_span check [] = true
every_span check (span ∷ spans) = if not (check span) then false else every_span check spans

unfoldable pub invert_has_instrumentation_library_span_with_condition :
    List ScopeSpans → (Span → Bool) → Bool
invert_has_instrumentation_library_span_with_condition [] check = true
invert_has_instrumentation_library_span_with_condition (ils ∷ ilss) check =
    if every_span check ils
    then invert_has_instrumentation_library_span_with_condition ilss check
    else false

unfoldable pub has_resource_or_span_with_condition :
    Traces → (Attributes → Bool) → (Span → Bool) → Decision
has_resource_or_span_with_condition [] should_sample_resource should_sample_span = not_sampled
has_resource_or_span_with_condition (rs ∷ td) should_sample_resource should_sample_span =
    if should_sample_resource rs.resource
    then sampled
    else if has_instrumentation_library_span_with_condition rs.scope_spans should_sample_span
    then sampled
    else has_resource_or_span_with_condition td should_sample_resource should_sample_span

unfoldable pub invert_has_resource_or_span_with_condition :
    Traces → (Attributes → Bool) → (Span → Bool) → Decision
invert_has_resource_or_span_with_condition [] should_sample_resource should_sample_span =
    invert_sampled
invert_has_resource_or_span_with_condition (rs ∷ td) should_sample_resource should_sample_span =
    if not (should_sample_resource rs.resource)
    then invert_not_sampled
    else if not
        (invert_has_instrumentation_library_span_with_condition rs.scope_spans should_sample_span)
    then invert_not_sampled
    else invert_has_resource_or_span_with_condition td should_sample_resource should_sample_span

unfoldable pub has_span_with_condition : Traces → (Span → Bool) → Decision
has_span_with_condition [] should_sample = not_sampled
has_span_with_condition (rs ∷ td) should_sample =
    if has_instrumentation_library_span_with_condition rs.scope_spans should_sample
    then sampled
    else has_span_with_condition td should_sample
