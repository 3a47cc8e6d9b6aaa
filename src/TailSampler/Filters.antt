-- ===== src/TailSampler/Filters.antt =====
-- The stateless policy evaluators
-- (processor/signoztailsampler/internal/sampling/{always_sample,never_sample,numeric_tag_filter,
-- string_tag_filter,status_code,span_count_sampler,probabilistic}.go).
-- `received_batches` is read under the trace's lock, in one step here. Debug logging is left out.
-- A percentage is a float64: `Percentage` holds what the code reads of it.
pub mod Match
use Prim.Native.Char.{code}
use Prim.Native.Nat.{ℕ, zero, suc, ◌*◌, ◌/◌, ◌%◌, ◌^◌, bit_xor}
use Prim.Native.String.{String}
use mathlib.Core.Bool.{Bool, true, false, not, ◌&&◌}
use mathlib.Core.List.{List, [], ◌∷◌, ◌++◌}
use mathlib.Core.Option.{Option, none, some}
use otel_collector.Common.Dict.{lookup, insert}
use otel_collector.Common.Int.{ℤ, int_leb}
use otel_collector.Common.Tests.{if◌then◌else◌, leb, ◌==◌, comparable_string}
use otel_collector.TailSampler.Scan.{
  has_resource_or_span_with_condition, invert_has_resource_or_span_with_condition,
  has_span_with_condition,
}
use otel_collector.TailSampler.Trace.{
  sampled, not_sampled, StatusCode, code_unset, code_ok, code_error, TraceId, Attributes, Span,
  Evaluator,
}

unfoldable pub always_sample : Evaluator
always_sample trace_id trace = (sampled, none)

unfoldable pub never_sample : Evaluator
never_sample trace_id trace = (not_sampled, none)

pub record NumericAttributeFilter : Type 0 where
  pub key : String
  pub min_value : ℤ
  pub max_value : ℤ

-- The callback of the numeric filter.
unfoldable pub numeric_span_matches : NumericAttributeFilter → Span → Bool
numeric_span_matches naf span = elim (span.attributes naf.key) [
  | some v ↦ int_leb naf.min_value v.int && int_leb v.int naf.max_value
  | none ↦ false
]

unfoldable pub numeric_evaluate : NumericAttributeFilter → Evaluator
numeric_evaluate naf trace_id trace =
    (has_span_with_condition trace.received_batches (numeric_span_matches naf), none)

pub record StringAttributeFilter : Type 0 where
  pub key : String
  pub matcher : String → Bool
  pub invert_match : Bool

-- The keys of `valuesMap`: each value but the empty text.
unfoldable pub values_map : List String → List (String × Unit {0})
values_map [] = []
values_map (value ∷ values) =
    let rest = values_map values in if value == "" then rest else insert value tt rest

-- The matcher of a filter without regular expressions.
unfoldable pub exact_matcher : List String → String → Bool
exact_matcher values to_match = elim (lookup to_match (values_map values)) [
  | some _ ↦ true
  | none ↦ false
]

-- The four callbacks of the string filter.
unfoldable pub resource_matches : StringAttributeFilter → Attributes → Bool
resource_matches saf resource = elim (resource saf.key) [
  | some v ↦ if saf.matcher v.str then true else false
  | none ↦ false
]

unfoldable pub span_matches : StringAttributeFilter → Span → Bool
span_matches saf span = elim (span.attributes saf.key) [
  | some v ↦ if not (v.str == "") then (if saf.matcher v.str then true else false) else false
  | none ↦ false
]

unfoldable pub resource_passes : StringAttributeFilter → Attributes → Bool
resource_passes saf resource = elim (resource saf.key) [
  | some v ↦ if saf.matcher v.str then false else true
  | none ↦ true
]

unfoldable pub span_passes : StringAttributeFilter → Span → Bool
span_passes saf span = elim (span.attributes saf.key) [
  | some v ↦ if not (v.str == "") then (if saf.matcher v.str then false else true) else true
  | none ↦ true
]

unfoldable pub string_evaluate : StringAttributeFilter → Evaluator
string_evaluate saf trace_id trace =
    if saf.invert_match
    then (
      invert_has_resource_or_span_with_condition trace.received_batches (resource_passes saf)
          (span_passes saf),
      none,
    )
    else (
      has_resource_or_span_with_condition trace.received_batches (resource_matches saf)
          (span_matches saf),
      none,
    )

-- The names of status codes in a configuration; an unknown name is an error.
unfoldable pub parse_status_code : String → Option StatusCode
parse_status_code s =
    if s == "OK"
    then some code_ok
    else if s == "ERROR"
    then some code_error
    else if s == "UNSET"
    then some code_unset
    else none

unfoldable pub parse_status_codes : List String → Option (List StatusCode)
unfolding parse_status_code
parse_status_codes [] = some []
parse_status_codes (s ∷ ss) = elim (parse_status_code s) [
  | none ↦ none
  | some c ↦ elim (parse_status_codes ss) [ none ↦ none | some cs ↦ some (c ∷ cs) ]
]

-- `NewStatusCodeFilter`: `none` is the error.
unfoldable pub new_status_code_filter : List String → Option (List StatusCode)
unfolding parse_status_codes
new_status_code_filter [] = none
new_status_code_filter (s ∷ ss) = parse_status_codes (s ∷ ss)

abbrev pub status_eqb : StatusCode → StatusCode → Bool
status_eqb code_unset code_unset = true
status_eqb code_ok code_ok = true
status_eqb code_error code_error = true
status_eqb _ _ = false

unfoldable pub status_matches : List StatusCode → Span → Bool
status_matches [] span = false
status_matches (c ∷ cs) span = if status_eqb span.status c then true else status_matches cs span

unfoldable pub status_code_evaluate : List StatusCode → Evaluator
status_code_evaluate codes trace_id trace =
    (has_span_with_condition trace.received_batches (status_matches codes), none)

-- `minSpans` is an int32 and `SpanCount` an int64; both are compared as int64.
unfoldable pub span_count_evaluate : ℤ → Evaluator
span_count_evaluate min_spans trace_id trace =
    if int_leb min_spans trace.span_count then (sampled, none) else (not_sampled, none)

-- The 16 bytes of a trace id, most significant first.
unfoldable pub big_endian : ℕ → ℕ → List ℕ
big_endian zero n = []
big_endian (suc k) n = big_endian k (n / 256) ++ (n % 256) ∷ []

abbrev pub fnv_prime : ℕ
fnv_prime = 1099511628211

-- FNV-1a: one byte after another into a running hash.
unfoldable pub fnv_write : ℕ → List ℕ → ℕ
fnv_write h [] = h
fnv_write h (b ∷ bs) = fnv_write ((bit_xor h b * fnv_prime) % 2 ^ 64) bs

-- The bytes of an ASCII text.
abbrev pub bytes : String → List ℕ
bytes String.[] = []
bytes (String.◌∷◌ c s) = code c ∷ bytes s

unfoldable pub hash_trace_id : String → TraceId → ℕ
unfolding big_endian fnv_write
hash_trace_id salt b = fnv_write (fnv_write 14695981039346656037 (bytes salt)) (big_endian 16 b)

-- What the code reads of a percentage: whether it is 0, whether it is 100, and
-- `calculateThreshold(samplingPercentage / 100)`.
pub record Percentage : Type 0 where
  pub is_zero : Bool
  pub is_hundred : Bool
  pub threshold : ℕ

pub record ProbabilisticSampler : Type 0 where
  pub threshold : ℕ
  pub hash_salt : String

unfoldable pub new_probabilistic_sampler : String → Percentage → ProbabilisticSampler
new_probabilistic_sampler hash_salt p = record {
  threshold = p.threshold;
  hash_salt = if hash_salt == "" then "default-hash-seed" else hash_salt;
}

unfoldable pub probabilistic_evaluate : ProbabilisticSampler → Evaluator
probabilistic_evaluate s trace_id trace =
    if leb (hash_trace_id s.hash_salt trace_id) s.threshold
    then (sampled, none)
    else (not_sampled, none)
