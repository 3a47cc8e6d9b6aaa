-- ===== src/TailSampler/Scan/Any.antt =====
-- What the scans of util.go look for: any span, or any resource, that passes.
use mathlib.Core.Bool.{Bool, not, ◌||◌}
use mathlib.Core.List.{List, [], ◌∷◌}
use mathlib.Core.Path.{◌≡◌, refl}
use native.Mathlib.Omega.{arith}
use otel_collector.Common.Lists.{any}
use otel_collector.Common.Tests.{if◌then◌else◌}
use otel_collector.TailSampler.Scan.{
  some_span, every_span, has_instrumentation_library_span_with_condition,
  invert_has_instrumentation_library_span_with_condition, has_resource_or_span_with_condition,
  invert_has_resource_or_span_with_condition, has_span_with_condition,
}
use otel_collector.TailSampler.Trace.{
  sampled, not_sampled, invert_sampled, invert_not_sampled, Attributes, Span, ScopeSpans,
  ResourceSpans, Traces,
}

pub some_span-any : (check : Span → Bool) (ils : ScopeSpans) → some_span check ils ≡ any check ils
unfolding some_span
some_span-any check [] = refl
some_span-any check (span ∷ spans) = ground (arith, some_span-any check spans)

-- Whether a resource's batch holds a span that passes.
abbrev pub any_span : (Span → Bool) → ResourceSpans → Bool
any_span check rs = any (any check) rs.scope_spans

library-any :
    (check : Span → Bool) (ilss : List ScopeSpans)
    → has_instrumentation_library_span_with_condition ilss check ≡ any (any check) ilss
unfolding has_instrumentation_library_span_with_condition
library-any check [] = refl
library-any check (ils ∷ ilss) = ground (arith, some_span-any check ils, library-any check ilss)

pub has_span-any :
    (td : Traces) (check : Span → Bool)
    → has_span_with_condition td check ≡ (if any (any_span check) td then sampled else not_sampled)
unfolding has_span_with_condition
has_span-any [] check = refl
has_span-any (rs ∷ td) check =
    ground (arith, library-any check rs.scope_spans, has_span-any td check)

pub has_resource_or_span-any :
    (td : Traces) (on_resource : Attributes → Bool) (on_span : Span → Bool)
    → has_resource_or_span_with_condition td on_resource on_span ≡ (
        if any (λ rs. on_resource rs.resource || any_span on_span rs) td
        then sampled
        else not_sampled)
unfolding has_resource_or_span_with_condition
has_resource_or_span-any [] on_resource on_span = refl
has_resource_or_span-any (rs ∷ td) on_resource on_span =
    ground
      (arith, library-any on_span rs.scope_spans, has_resource_or_span-any td on_resource on_span)

every_span-any :
    (check veto : Span → Bool)
    → ((s : Span) → check s ≡ not (veto s))
    → (ils : ScopeSpans) → every_span check ils ≡ not (any veto ils)
unfolding every_span
every_span-any check veto h [] = refl
every_span-any check veto h (span ∷ spans) =
    ground (arith, h span, every_span-any check veto h spans)

invert_library-any :
    (check veto : Span → Bool)
    → ((s : Span) → check s ≡ not (veto s))
    → (ilss : List ScopeSpans)
    → invert_has_instrumentation_library_span_with_condition ilss check ≡ not (any (any veto) ilss)
unfolding invert_has_instrumentation_library_span_with_condition
invert_library-any check veto h [] = refl
invert_library-any check veto h (ils ∷ ilss) =
    ground (arith, every_span-any check veto h ils, invert_library-any check veto h ilss)

pub invert_has_resource_or_span-any :
    (on_resource veto_resource : Attributes → Bool) (on_span veto_span : Span → Bool)
    → ((a : Attributes) → on_resource a ≡ not (veto_resource a))
    → ((s : Span) → on_span s ≡ not (veto_span s))
    → (td : Traces)
    → invert_has_resource_or_span_with_condition td on_resource on_span ≡ (
        if any (λ rs. veto_resource rs.resource || any_span veto_span rs) td
        then invert_not_sampled
        else invert_sampled)
unfolding invert_has_resource_or_span_with_condition
invert_has_resource_or_span-any on_r veto_r on_s veto_s hr hs [] = refl
invert_has_resource_or_span-any on_r veto_r on_s veto_s hr hs (rs ∷ td) = ground (
  arith,
  hr rs.resource,
  invert_library-any on_s veto_s hs rs.scope_spans,
  invert_has_resource_or_span-any on_r veto_r on_s veto_s hr hs td,
)
