-- ===== src/SpanMetrics/Key.antt =====
-- The keys of the span metrics, and the values of dimensions
-- (processor/signozspanmetricsprocessor/processor.go). A value of an attribute is one of the pdata
-- library, with its `AsString` and `NewValueStr`; the names that the conventions package gives to
-- attributes are a record, and so is the text of a time bucket. `attrsCardinality`, which is only
-- logged, is left out.
use Prim.Native.Nat.{ℕ}
use Prim.Native.String.{String, ◌++◌}
use mathlib.Core.Bool.{Bool, true, false}
use mathlib.Core.List.{List, [], ◌∷◌}
use mathlib.Core.Option.{Option, none, some}
use otel_collector.Common.Dict.{lookup, insert}
use otel_collector.Common.Lists.{length}
use otel_collector.Common.Tests.{if◌then◌else◌, ltb, ◌==◌, comparable_string}
pub mod Custom
pub mod Labels
pub mod Bounded
pub mod Overflow

pub data SpanKind : Type 0 where
  unspecified internal server client producer consumer unknown_kind : SpanKind

unfoldable pub span_kind_str : SpanKind → String
span_kind_str unspecified = "SPAN_KIND_UNSPECIFIED"
span_kind_str internal = "SPAN_KIND_INTERNAL"
span_kind_str server = "SPAN_KIND_SERVER"
span_kind_str client = "SPAN_KIND_CLIENT"
span_kind_str producer = "SPAN_KIND_PRODUCER"
span_kind_str consumer = "SPAN_KIND_CONSUMER"
span_kind_str unknown_kind = ""

pub data StatusCode : Type 0 where
  code_unset code_ok code_error unknown_code : StatusCode

unfoldable pub status_code_str : StatusCode → String
status_code_str code_unset = "STATUS_CODE_UNSET"
status_code_str code_ok = "STATUS_CODE_OK"
status_code_str code_error = "STATUS_CODE_ERROR"
status_code_str unknown_code = ""

abbrev pub Attributes : Type 0 → Type 0
Attributes V = List (String × V)

-- What the processor reads of a span.
pub record Span (V : Type 0) : Type 0 where
  pub name : String
  pub kind : SpanKind
  pub status : StatusCode
  pub attributes : Attributes V
  pub start_timestamp : ℕ
  pub end_timestamp : ℕ
  pub trace_id : ℕ
  pub span_id : ℕ

pub record Dimension (V : Type 0) : Type 0 where
  pub name : String
  pub default : Option V

-- What other packages give: names of attributes, texts and values.
pub record Conventions (V : Type 0) : Type 0 where
  pub service_name_key : String
  pub http_status_code : String
  pub as_string : V → String
  pub value_str : String → V
  pub time_bucket : ℕ → String

-- The operations seen of a service, and the services.
abbrev pub Operations : Type 0
Operations = List (String × Unit {0})

abbrev pub Services : Type 0
Services = List (String × Operations)

pub record Tracking : Type 0 where
  pub max_services : ℕ
  pub max_operations : ℕ

abbrev pub overflow_service_name : String
overflow_service_name = "overflow_service"

abbrev pub overflow_operation : String
overflow_operation = "overflow_operation"

abbrev pub metric_key_separator : String
metric_key_separator = "\0"

abbrev pub resource_prefix : String
resource_prefix = "resource_"

unfoldable pub operations_of : Services → String → Operations
operations_of services service = elim (lookup service services) [ none ↦ [] | some ops ↦ ops ]

module _ (t : Tracking) (services : Services) where
  -- The names that a span goes by: those of the overflow where there are too many.
  unfoldable pub tracked_service : String → String
  tracked_service service =
      if ltb t.max_services (length services) then overflow_service_name else service

  unfoldable pub tracked_operation : String → String → String
  unfolding operations_of
  tracked_operation service name =
      if ltb t.max_operations (length (operations_of services service))
      then overflow_operation
      else name

-- `serviceToOperations[service][name] = struct{}{}`
unfoldable pub track : String → String → Services → Services
unfolding operations_of
track service name services =
    insert service (insert name tt (operations_of services service)) services

unfoldable pub concat_dimension_value : String → String → Bool → String
concat_dimension_value dest value prefix_sep =
    (if prefix_sep then dest ++ metric_key_separator else dest) ++ value

module _ {V : Type 0} (v : Conventions V) where
  -- The value of a resource or the default.
  unfoldable pub resource_or_default : Dimension V → Attributes V → Option V
  resource_or_default d resource = elim (lookup d.name resource) [
    | some a ↦ some a
    | none ↦ d.default
  ]

  -- The renamed attribute of an HTTP status, if the dimension is that one.
  unfoldable pub stable_status : Dimension V → Attributes V → Option V
  stable_status d attributes =
      if d.name == v.http_status_code then lookup "http.response.status_code" attributes else none

  unfoldable pub get_dimension_value : Dimension V → Attributes V → Attributes V → Option V
  unfolding resource_or_default stable_status
  get_dimension_value d attributes resource = elim (lookup d.name attributes) [
    | some a ↦ some a
    | none ↦ elim (stable_status d attributes) [
      | some a ↦ some a
      | none ↦ resource_or_default d resource
    ]
  ]

  abbrev is_there : Option V → Bool
  is_there none = false
  is_there (some a) = true

  -- The value, and whether the resource has the attribute too.
  unfoldable pub get_dimension_value_with_resource :
      Dimension V → Attributes V → Attributes V → Option V × Bool
  unfolding stable_status
  get_dimension_value_with_resource d attributes resource = elim (lookup d.name attributes) [
    | some a ↦ (some a, is_there (lookup d.name resource))
    | none ↦ elim (stable_status d attributes) [
      | some a ↦ (some a, false)
      | none ↦ elim (lookup d.name resource) [ some a ↦ (some a, true) | none ↦ (d.default, false) ]
    ]
  ]

  -- One optional dimension in a key: nothing is written for one that has no value.
  unfoldable pub concat_dimension : String → Option V → String
  unfolding concat_dimension_value
  concat_dimension dest none = dest
  concat_dimension dest (some a) = concat_dimension_value dest (v.as_string a) true

  unfoldable pub concat_dimensions : String → Span V → List (Dimension V) → Attributes V → String
  unfolding concat_dimension
  concat_dimensions dest span [] resource = dest
  concat_dimensions dest span (d ∷ dims) resource =
      concat_dimensions (concat_dimension dest (get_dimension_value d span.attributes resource))
        span dims resource

  -- The dimensions that every key has.
  unfoldable pub concat_names : String → String → String → Span V → String
  unfolding concat_dimension_value span_kind_str status_code_str
  concat_names dest service name span =
      concat_dimension_value
        (concat_dimension_value
          (concat_dimension_value (concat_dimension_value dest service false) name true)
          (span_kind_str span.kind) true)
        (status_code_str span.status) true

  unfoldable pub build_key :
      Tracking
      → String
      → String
      → Span V
      → List (Dimension V)
      → Attributes V
      → Services
      → String × Services
  unfolding concat_names concat_dimensions
  build_key t dest service span dims resource services =
      let service' = tracked_service t services service in
      let name' = tracked_operation t services service' span.name in
      (
        concat_dimensions (concat_names dest service' name' span) span dims resource,
        track service' name' services,
      )

  -- The key buffer before the names: a time bucket in delta temporality.
  unfoldable pub key_prefix : Bool → Span V → String
  key_prefix delta span =
      if delta then v.time_bucket span.start_timestamp ++ metric_key_separator else ""

  unfoldable pub build_metric_key :
      Tracking
      → Bool
      → String
      → Span V
      → List (Dimension V)
      → Attributes V
      → Services
      → String × Services
  unfolding build_key key_prefix
  build_metric_key t delta service span dims resource services =
      build_key t (key_prefix delta span) service span dims resource services
