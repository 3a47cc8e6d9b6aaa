-- ===== src/SpanMetrics/Tests.antt =====
-- Runs of the span metrics processor, with a cache that has room for one key.
use Prim.Native.Nat.{ℕ, ◌+◌, ◌≤◌, ◌<◌, ◌^◌}
use Prim.Native.String.{String}
use mathlib.Core.Bool.{true, false}
use mathlib.Core.List.{List, [], ◌∷◌}
use mathlib.Core.Option.{Option, none, some}
use mathlib.Core.Path.{◌≡◌, refl}
use native.Mathlib.Omega.{arith}
use text.Mathlib.TextEquality.{eq_iff}
use otel_collector.Common.Dict.{lookup}
use otel_collector.Common.Lists.{All, length}
use otel_collector.Common.Tests.{
  if◌then◌else◌, leb, ◌==◌, Comparable, comparable_string, comparable_nat,
}
use otel_collector.SpanMetrics.Address.{
  RemoteKeys, first_address, with_port, get_peer_address, get_remote_address,
}
use otel_collector.SpanMetrics.Address.Transport.{get_remote_address-peer}
use otel_collector.SpanMetrics.Cache.{Lru, IsLru, dropped, Cache}
use otel_collector.SpanMetrics.Cache.Retained.{
  find, Access, read, write, run, run_unbounded, run-run_unbounded,
}
use otel_collector.SpanMetrics.Histogram.{Floats, new_histogram, observe}
use otel_collector.SpanMetrics.Histogram.Counts.{IsValid, new_histogram-IsValid, observe-IsValid}
use otel_collector.SpanMetrics.Key.{
  client, code_ok, Span, Attributes, Dimension, Conventions, Tracking, Operations, Services,
  build_metric_key, overflow_service_name, get_dimension_value, span_kind_str, status_code_str,
}
use otel_collector.SpanMetrics.Key.Labels.{build_dimension_kvs}
use otel_collector.SpanMetrics.Key.Bounded.{track_spans, track_spans-length}
use otel_collector.SpanMetrics.Key.Overflow.{
  AreApart, build_dimension_kvs-build_metric_key, build_metric_key-meet,
}
use otel_collector.SpanMetrics.Processor.{Library, Config}
use otel_collector.SpanMetrics.Processor.Traffic.{
  Metrics, Event, traces, tick, new_processor, run as run_events,
}
use otel_collector.SpanMetrics.Processor.Traffic.Aggregated.{spans_in_events, ticks}
use otel_collector.SpanMetrics.Processor.Traffic.Total.{IsExported}
mod Traffic

module _ {K V : Type 0} ⦃c : Comparable K⦄ where
  pub slot_peek : K → Option (K × V) → Option V
  slot_peek key none = none
  slot_peek key (some (k, v)) = if k == key then some v else none

  pub slot_out : K → Option (K × V) → Option (K × V)
  slot_out key none = none
  slot_out key (some (k, v)) = if key == k then none else some (k, v)

  abbrev pub slot_all : Option (K × V) → List (K × V)
  slot_all none = []
  slot_all (some p) = p ∷ []

  abbrev pub one_slot : Lru K V
  one_slot = record {
    State = Option (K × V);
    peek = slot_peek;
    touch = λ k s. s;
    put = λ k v s. (some (k, v), slot_out k s);
    drop_all = λ s. (none, slot_all s);
  }

  slot_peek-put :
      (k j : K) (v : V) (s : Option (K × V))
      → slot_peek j (some (k, v))
        ≡ (if k == j then some v else if dropped (slot_out k s) j then none else slot_peek j s)
  unfolding slot_peek slot_out
  slot_peek-put k j v none = refl
  slot_peek-put k j v (some (e, w)) = ground (arith, c.same_iff k j, c.same_iff k e, c.same_iff e j)

  slot_out-peek :
      (k e : K) (w : V) (s : Option (K × V)) → slot_out k s ≡ some (e, w) → slot_peek e s ≡ some w
  unfolding slot_peek slot_out
  slot_out-peek k e w none out = absurd (ground (arith, out))
  slot_out-peek k e w (some (j, u)) out = ground (arith, out, c.same_iff k j, c.same_iff j e)

  slot_out-other :
      (k e : K) (w : V) (s : Option (K × V)) → slot_out k s ≡ some (e, w) → (k == e) ≡ false
  unfolding slot_out
  slot_out-other k e w none out = absurd (ground (arith, out))
  slot_out-other k e w (some (j, u)) out = ground (arith, out, c.same_iff k j, c.same_iff k e)

  pub one_slot-IsLru : IsLru one_slot
  one_slot-IsLru = record {
    peek-touch = λ k j s. refl;
    peek-put = slot_peek-put;
    dropped_value = λ k e v w s. slot_out-peek k e w s;
    dropped_other = λ k e v w s. slot_out-other k e w s;
  }

abbrev small : Lru String ℕ
small = one_slot

abbrev empty_cache : Cache small
empty_cache = record { lru = none; evicted_items = [] }

find-empty : (k : String) → find small k empty_cache ≡ lookup k []
unfolding find slot_peek
find-empty k = refl

abbrev accesses : List (Access String ℕ)
accesses = write "a" 1 ∷ write "b" 2 ∷ read "a" ∷ read "b" ∷ []

run-run_unbounded_example : run small accesses empty_cache ≡ run_unbounded accesses []
run-run_unbounded_example =
    run-run_unbounded small accesses empty_cache [] one_slot-IsLru find-empty

abbrev pub milliseconds : Floats
milliseconds = record {
  Float = ℕ;
  zero_float = 0;
  add_float = λ x y. x + y;
  at_most = leb;
  millis = λ n. n;
}

abbrev pub bounds : List ℕ
bounds = 2 ∷ 8 ∷ []

abbrev pub conventions : Conventions String
conventions = record {
  service_name_key = "service.name";
  http_status_code = "http.status_code";
  as_string = λ s. s;
  value_str = λ s. s;
  time_bucket = λ n. "0";
}

abbrev pub span : String → Attributes String → Span String
span name attributes = record {
  name = name;
  kind = client;
  status = code_ok;
  attributes = attributes;
  start_timestamp = 1;
  end_timestamp = 6;
  trace_id = 7;
  span_id = 9;
}

abbrev pub one_of_each : Tracking
one_of_each = record { max_services = 1; max_operations = 1 }

abbrev spans : List (String × Span String × Attributes String)
spans =
    ("a", span "f" [], [])
    ∷ ("b", span "f" [], [])
    ∷ ("c", span "f" [], [])
    ∷ ("c", span "g" [], [])
    ∷ []

track_spans-length_example :
    (length (track_spans conventions one_of_each false [] spans []) ≤ 1 + 2)
    × All
        (λ (p : String × Operations). length p.1 ≤ 1 + 2)
        (track_spans conventions one_of_each false [] spans [])
track_spans-length_example = track_spans-length conventions one_of_each false [] spans

abbrev service_a : Services
service_a = ("a", ("f", tt) ∷ []) ∷ []

conventions-AreApart : AreApart conventions
conventions-AreApart = record {
  not_operation = λ e. absurd (ground (arith, (eq_iff "service.name" "operation").1 e));
  not_kind = λ e. absurd (ground (arith, (eq_iff "service.name" "span.kind").1 e));
  not_status = λ e. absurd (ground (arith, (eq_iff "service.name" "status.code").1 e));
}

build_dimension_kvs-build_metric_key_example :
    let built = build_metric_key conventions one_of_each false "b" (span "f" []) [] [] service_a in
    (built.0 ≡ (build_metric_key conventions one_of_each false "b" (span "f" []) [] [] []).0)
    × (lookup "service.name"
          (build_dimension_kvs conventions one_of_each "b" (span "f" []) [] [] built.1)
        ≡ some overflow_service_name)
build_dimension_kvs-build_metric_key_example =
    build_dimension_kvs-build_metric_key conventions one_of_each false "b" (span "f" []) [] []
      service_a conventions-AreApart tt refl (unfold lookup in refl)

abbrev pub dimension : String → Dimension String
dimension name = record { name = name; default = none }

abbrev pub with_x : Span String
with_x = span "f" (("x", "1") ∷ [])

abbrev pub with_y : Span String
with_y = span "f" (("y", "1") ∷ [])

build_metric_key-meet_example :
    (build_metric_key conventions one_of_each false "a" with_x
      (dimension "x" ∷ dimension "y" ∷ [])
      []
      []).0
    ≡ (build_metric_key conventions one_of_each false "a" with_y
        (dimension "x" ∷ dimension "y" ∷ [])
        []
        []).0
unfolding get_dimension_value lookup
build_metric_key-meet_example =
    build_metric_key-meet conventions one_of_each "a" with_x with_y (dimension "x") (dimension "y")
      [] [] "1" refl refl refl (unfold get_dimension_value in refl)
      (unfold get_dimension_value in refl) (unfold get_dimension_value in refl)
      (unfold get_dimension_value in refl)

abbrev pub remote_keys : RemoteKeys String
remote_keys = record {
  net_peer_name = "net.peer.name";
  net_peer_port = "net.peer.port";
  net_peer_ip = "net.peer.ip";
  rpc_system = "rpc.system";
  rpc_service = "rpc.service";
  rpc_method = "rpc.method";
  http_host = "http.host";
  net_transport = "net.transport";
  http_url = "http.url";
  peer_service = "peer.service";
  str = λ s. s;
  url_host = λ s. some s;
}

abbrev pub over_pipe : Attributes String
over_pipe = ("net.transport", "pipe") ∷ ("net.peer.name", "here") ∷ []

peer-over_pipe : get_peer_address remote_keys over_pipe ≡ some "here"
unfolding get_peer_address
peer-over_pipe = unfold first_address with_port lookup in refl

get_remote_address-peer_example : get_remote_address remote_keys over_pipe ≡ some "here"
get_remote_address-peer_example =
    get_remote_address-peer remote_keys over_pipe (unfold lookup in refl) (unfold lookup in refl)
      peer-over_pipe
