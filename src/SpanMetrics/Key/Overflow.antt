-- ===== src/SpanMetrics/Key/Overflow.antt =====
-- Keys against labels: the service at the bound, and keys that meet
-- (processor/signozspanmetricsprocessor/processor.go: buildKey, buildDimensionKVs, getDimensionValue).
use Prim.Native.Nat.{suc, ◌≤◌}
use Prim.Native.String.{String, ◌++◌}
use mathlib.Core.Bool.{Bool, false}
use mathlib.Core.List.{List, [], ◌∷◌}
use mathlib.Core.Logic.{◌≢◌}
use mathlib.Core.Option.{Option, none, some}
use mathlib.Core.Path.{◌≡◌, refl, ◌∙◌}
use native.Mathlib.Omega.{arith}
use text.Mathlib.TextEquality.{eq_iff}
use text.Mathlib.TextPositions.{eq_refl}
use otel_collector.Common.Dict.{lookup, insert, lookup-insert}
use otel_collector.Common.Dict.Keys.{length-insert_new}
use otel_collector.Common.Lists.{length, All}
use otel_collector.Common.Tests.{comparable_string}
use otel_collector.SpanMetrics.Key.{
  Span, Dimension, Attributes, Conventions, Tracking, Services, overflow_service_name,
  resource_prefix, operations_of, tracked_service, tracked_operation, track, span_kind_str,
  status_code_str, get_dimension_value, get_dimension_value_with_resource, build_metric_key,
}
use otel_collector.SpanMetrics.Key.Labels.{put_dimension, put_dimensions, build_dimension_kvs}

module _ {V : Type 0} (v : Conventions V) where
  -- The name of the service label is not that of another label that every span has.
  pub record AreApart : Type 0 where
    pub not_operation : v.service_name_key ≢ "operation"
    pub not_kind : v.service_name_key ≢ "span.kind"
    pub not_status : v.service_name_key ≢ "status.code"

  -- The optional dimensions leave that label alone.
  abbrev pub SpareKey : List (Dimension V) → Type 0
  SpareKey =
      All (λ d. (d.name ≢ v.service_name_key) × (resource_prefix ++ d.name ≢ v.service_name_key))

  lookup-put_dimension :
      (d : Dimension V) (o : Option V) (found : Bool) (m : Attributes V)
      → d.name ≢ v.service_name_key
      → resource_prefix ++ d.name ≢ v.service_name_key
      → lookup v.service_name_key (put_dimension v d (o, found) m) ≡ lookup v.service_name_key m
  unfolding put_dimension
  lookup-put_dimension d none found m ne ne' = refl
  lookup-put_dimension d (some a) found m ne ne' = ground (
    arith,
    lookup-insert m d.name v.service_name_key a,
    lookup-insert (insert d.name a m) (resource_prefix ++ d.name) v.service_name_key a,
    eq_iff d.name v.service_name_key,
    eq_iff (resource_prefix ++ d.name) v.service_name_key,
  )

  lookup-put_dimensions :
      (span : Span V) (dims : List (Dimension V)) (resource m : Attributes V)
      → SpareKey dims
      → lookup v.service_name_key (put_dimensions v span dims resource m)
        ≡ lookup v.service_name_key m
  unfolding put_dimensions
  lookup-put_dimensions span [] resource m spare = refl
  lookup-put_dimensions span (d ∷ dims) resource m spare =
      let (o, found) = get_dimension_value_with_resource v d span.attributes resource in
      lookup-put_dimensions span dims resource (put_dimension v d (o, found) m) spare.1
      ∙ lookup-put_dimension d o found m spare.0.0 spare.0.1

  -- The label of the service is the name that it goes by when the labels are made.
  lookup-build_dimension_kvs :
      (t : Tracking) (service : String) (span : Span V) (dims : List (Dimension V))
      (resource : Attributes V) (services : Services)
      → AreApart
      → SpareKey dims
      → lookup v.service_name_key (build_dimension_kvs v t service span dims resource services)
        ≡ some (v.value_str (tracked_service t services service))
  unfolding build_dimension_kvs
  lookup-build_dimension_kvs t service span dims resource services apart spare =
      let s = tracked_service t services service in
      let key = v.service_name_key in
      let m₀ : Attributes V = insert key (v.value_str s) [] in
      let m₁ : Attributes V =
        insert "operation" (v.value_str (tracked_operation t services s span.name)) m₀ in
      let m₂ : Attributes V = insert "span.kind" (v.value_str (span_kind_str span.kind)) m₁ in
      lookup-put_dimensions span dims resource
        (insert "status.code" (v.value_str (status_code_str span.status)) m₂) spare
      ∙ ground (
        arith,
        lookup-insert m₂ "status.code" key (v.value_str (status_code_str span.status)),
        lookup-insert m₁ "span.kind" key (v.value_str (span_kind_str span.kind)),
        lookup-insert m₀ "operation" key (v.value_str (tracked_operation t services s span.name)),
        lookup-insert {V = V} [] key key (v.value_str s),
        eq_refl key,
        eq_iff "status.code" key,
        eq_iff "span.kind" key,
        eq_iff "operation" key,
        apart.not_operation,
        apart.not_kind,
        apart.not_status,
      )

new_service_key :
    (t : Tracking) (service name : String) (services : Services)
    → length services ≤ t.max_services
    → lookup service services ≡ none
    → (tracked_service t services service ≡ service)
      × (tracked_operation t services service name ≡ name)
unfolding tracked_service tracked_operation operations_of
new_service_key t service name services room new =
    (ground (arith, room), rw (new, operations_of) (ground arith))

-- When as many services are tracked as configured and a span of another one comes, its key is the key
-- that it would have with no service tracked, with its own name, but the labels that are made for the
-- key say the service of the overflow, whatever the temporality, provided that no optional dimension
-- writes to the label of the service.
pub build_dimension_kvs-build_metric_key :
    {V : Type 0} (v : Conventions V) (t : Tracking) (delta : Bool) (service : String)
    (span : Span V) (dims : List (Dimension V)) (resource : Attributes V) (services : Services)
    → AreApart v
    → SpareKey v dims
    → length services ≡ t.max_services
    → lookup service services ≡ none
    → let built = build_metric_key v t delta service span dims resource services in
      (built.0 ≡ (build_metric_key v t delta service span dims resource []).0)
      × (lookup v.service_name_key (build_dimension_kvs v t service span dims resource built.1)
          ≡ some (v.value_str overflow_service_name))
unfolding build_metric_key
build_dimension_kvs-build_metric_key v t delta service span dims resource services apart spare full
      new =
    let own = new_service_key t service span.name services (omega arith) new in
    let alone = new_service_key t service span.name [] (omega arith) (unfold lookup in refl) in
    let name' = tracked_operation t services service span.name in
    let after : Services = track service name' services in
    let more : length after ≡ suc (length services) =
      (unfold track in length-insert_new service _ services new) in
    (
      rw (own.0, own.1, alone.0, alone.1) refl,
      rw own.0 (
          lookup-build_dimension_kvs v t service span dims resource after apart spare
          ∙ (unfold tracked_service in ground (arith, more, full))),
    )

-- Two spans of one name, kind and status have one key, in cumulative temporality, if the first has a
-- value only for one of two dimensions, and the second the same value only for the other: a key does
-- not say which dimension a value belongs to.
pub build_metric_key-meet :
    {V : Type 0} (v : Conventions V) (t : Tracking) (service : String) (span other : Span V)
    (d e : Dimension V) (resource : Attributes V) (services : Services) (a : V)
    → span.name ≡ other.name
    → span.kind ≡ other.kind
    → span.status ≡ other.status
    → get_dimension_value v d span.attributes resource ≡ some a
    → get_dimension_value v e span.attributes resource ≡ none
    → get_dimension_value v d other.attributes resource ≡ none
    → get_dimension_value v e other.attributes resource ≡ some a
    → (build_metric_key v t false service span (d ∷ e ∷ []) resource services).0
      ≡ (build_metric_key v t false service other (d ∷ e ∷ []) resource services).0
unfolding build_metric_key
build_metric_key-meet v t service span other d e resource services a n k s sd se od oe =
    ground (arith, n, k, s, sd, se, od, oe)
