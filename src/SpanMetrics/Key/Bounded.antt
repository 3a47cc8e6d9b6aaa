-- ===== src/SpanMetrics/Key/Bounded.antt =====
-- How many services and operations are tracked
-- (processor/signozspanmetricsprocessor/processor.go: buildKey).
use Prim.Native.Nat.{ℕ, ◌+◌, ◌≤◌}
use Prim.Native.String.{String}
use mathlib.Core.Bool.{Bool, false}
use mathlib.Core.List.{List, [], ◌∷◌}
use mathlib.Core.Logic.{◌≢◌, ◌⊎◌, inl, inr}
use mathlib.Core.Option.{none}
use mathlib.Core.Path.{◌≡◌}
use native.Mathlib.Omega.{arith}
use text.Mathlib.TextPositions.{eq_refl}
use otel_collector.Common.Dict.{lookup, insert, lookup-insert}
use otel_collector.Common.Dict.Keys.{length-insert_new, length-insert_old, All-insert, All-lookup}
use otel_collector.Common.Lists.{length, All}
use otel_collector.Common.Tests.{if◌then◌else◌, ltb, Bool-cases, Option-cases, comparable_string}
use otel_collector.SpanMetrics.Key.{
  Span, Dimension, Attributes, Conventions, Tracking, Operations, Services, overflow_service_name,
  overflow_operation, operations_of, tracked_service, tracked_operation, track, build_metric_key,
}

-- A map that is full up to the overflow: one name more than the bound, and then the overflow's.
abbrev pub Fits {ℓ} : {A : Type ℓ} → ℕ → String → List (String × A) → Type ℓ
Fits n overflow m = (length m ≤ n + 1) ⊎ ((length m ≡ n + 2) × (lookup overflow m ≢ none))

module _ {ℓ} {A : Type ℓ} (n : ℕ) (overflow name : String) (a : A) (m : List (String × A)) where
  lookup-insert_self : lookup overflow (insert overflow a m) ≢ none
  lookup-insert_self e = ground (arith, e, lookup-insert m overflow overflow a, eq_refl overflow)

  Fits-insert_new :
      Fits n overflow m → lookup overflow m ≡ none → Fits n overflow (insert overflow a m)
  Fits-insert_new (inr full) absent = absurd (full.1 absent)
  Fits-insert_new (inl room) absent = elim (Bool-cases (ltb n (length m))) [
    | inl over ↦
        inr (ground (arith, room, over, length-insert_new overflow a m absent), lookup-insert_self)
    | inr under ↦ inl (ground (arith, under, length-insert_new overflow a m absent))
  ]

  Fits-insert_old :
      Fits n overflow m → lookup overflow m ≢ none → Fits n overflow (insert overflow a m)
  Fits-insert_old (inl room) there = inl (omega (arith, length-insert_old overflow a m there))
  Fits-insert_old (inr full) there =
      inr (omega (arith, length-insert_old overflow a m there), lookup-insert_self)

  Fits-insert_name : ltb n (length m) ≡ false → Fits n overflow (insert name a m)
  Fits-insert_name under = elim (Option-cases (lookup name m)) [
    | inl absent ↦ inl (ground (arith, under, length-insert_new name a m absent))
    | inr (b, there) ↦
        inl (
          ground
            (arith, under, length-insert_old name a m (λ e. absurd (ground (arith, e, there)))))
  ]

  -- The name is the overflow's if there are more than `n`.
  Fits-insert :
      Fits n overflow m → Fits n overflow (insert (if ltb n (length m) then overflow else name) a m)
  Fits-insert fits = elim (Bool-cases (ltb n (length m))) [
    | inr under ↦ rw under (Fits-insert_name under)
    | inl over ↦ rw over (elim (Option-cases (lookup overflow m)) [
      | inl absent ↦ Fits-insert_new fits absent
      | inr (b, there) ↦ Fits-insert_old fits (λ e. absurd (ground (arith, e, there)))
    ])
  ]

-- The services and the operations of each fit.
pub record IsBounded (t : Tracking) (services : Services) : Type 0 where
  pub services_fit : Fits t.max_services overflow_service_name services
  pub operations_fit :
      All (λ (p : String × Operations). Fits t.max_operations overflow_operation p.1) services

operations_of-Fits :
    (t : Tracking) (services : Services) (service : String)
    → IsBounded t services
    → Fits t.max_operations overflow_operation (operations_of services service)
unfolding operations_of
operations_of-Fits t services service b = elim (Option-cases (lookup service services)) [
  | inl absent ↦ rw (absent, operations_of) (inl (omega arith))
  | inr (ops, there) ↦
      rw (there, operations_of)
        (All-lookup (Fits t.max_operations overflow_operation) service services b.operations_fit
          there)
]

track-IsBounded :
    (t : Tracking) (services : Services) (service name : String)
    → IsBounded t services
    → let s = tracked_service t services service in
      IsBounded t (track s (tracked_operation t services s name) services)
unfolding tracked_service tracked_operation track
track-IsBounded t services service name b =
    let s : String =
      if ltb t.max_services (length services) then overflow_service_name else service in
    let ops : Operations = operations_of services s in
    let o : String = if ltb t.max_operations (length ops) then overflow_operation else name in
    record {
      services_fit =
          Fits-insert t.max_services overflow_service_name service (insert o tt ops) services
            b.services_fit;
      operations_fit =
          All-insert (Fits t.max_operations overflow_operation) s (insert o tt ops) services
            b.operations_fit
            (Fits-insert t.max_operations overflow_operation name tt ops
              (operations_of-Fits t services s b));
    }

module _ {V : Type 0} (v : Conventions V) (t : Tracking) (delta : Bool)
    (dims : List (Dimension V)) where
  -- The services that are tracked after the keys of some spans were built, each for a service and a
  -- resource.
  unfoldable pub track_spans : List (String × Span V × Attributes V) → Services → Services
  track_spans [] services = services
  track_spans ((service, span, resource) ∷ spans) services =
      track_spans spans (build_metric_key v t delta service span dims resource services).1

  build_metric_key-IsBounded :
      (service : String) (span : Span V) (resource : Attributes V) (services : Services)
      → IsBounded t services
      → IsBounded t (build_metric_key v t delta service span dims resource services).1
  unfolding build_metric_key
  build_metric_key-IsBounded service span resource services b =
      track-IsBounded t services service span.name b

  track_spans-IsBounded :
      (spans : List (String × Span V × Attributes V)) (services : Services)
      → IsBounded t services
      → IsBounded t (track_spans spans services)
  unfolding track_spans
  track_spans-IsBounded [] services b = b
  track_spans-IsBounded ((service, span, resource) ∷ spans) services b =
      track_spans-IsBounded spans _ (build_metric_key-IsBounded service span resource services b)

  new-IsBounded : IsBounded t []
  new-IsBounded = record { services_fit = inl (omega arith); operations_fit = tt }

Fits-le : (n : ℕ) (ops : Operations) → Fits n overflow_operation ops → length ops ≤ n + 2
Fits-le n ops (inl room) = omega arith
Fits-le n ops (inr full) = omega arith

All-Fits-le :
    (n : ℕ) (services : Services)
    → All (λ (p : String × Operations). Fits n overflow_operation p.1) services
    → All (λ (p : String × Operations). length p.1 ≤ n + 2) services
All-Fits-le n [] all = tt
All-Fits-le n ((s, ops) ∷ services) all = (Fits-le n ops all.0, All-Fits-le n services all.1)

Fits-services-le :
    (n : ℕ) (services : Services) → Fits n overflow_service_name services → length services ≤ n + 2
Fits-services-le n services (inl room) = omega arith
Fits-services-le n services (inr full) = omega arith

-- Whatever spans come, at most two services more than configured are tracked, and at most two
-- operations more than configured for each of them: one that is taken in at the bound, and the one of
-- the overflow.
pub track_spans-length :
    {V : Type 0} (v : Conventions V) (t : Tracking) (delta : Bool) (dims : List (Dimension V))
    (spans : List (String × Span V × Attributes V))
    → (length (track_spans v t delta dims spans []) ≤ t.max_services + 2)
      × All
          (λ (p : String × Operations). length p.1 ≤ t.max_operations + 2)
          (track_spans v t delta dims spans [])
track_spans-length v t delta dims spans =
    let b = track_spans-IsBounded v t delta dims spans [] (new-IsBounded v t delta dims) in
    (
      Fits-services-le t.max_services _ b.services_fit,
      All-Fits-le t.max_operations _ b.operations_fit,
    )
