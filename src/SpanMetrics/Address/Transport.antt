-- ===== src/SpanMetrics/Address/Transport.antt =====
-- The peer address and the transport of a call
-- (processor/signozspanmetricsprocessor/processor.go: getRemoteAddress).
use Prim.Native.String.{String}
use mathlib.Core.Bool.{false, ◌&&◌}
use mathlib.Core.Logic.{inl, inr}
use mathlib.Core.Option.{none, some}
use mathlib.Core.Path.{◌≡◌, refl}
use native.Mathlib.Omega.{arith}
use text.Mathlib.TextEquality.{eq_iff}
use otel_collector.Common.Dict.{lookup}
use otel_collector.Common.Tests.{Option-cases, Bool-cases, ◌==◌, comparable_string}
use otel_collector.SpanMetrics.Address.{
  RemoteKeys, get_peer_address, is_local, host_address, get_remote_address,
}
use otel_collector.SpanMetrics.Key.{Attributes}

one_text : (s : String) → ((s == "unix") && (s == "pipe")) ≡ false
one_text s = elim (Bool-cases (s == "unix")) [
  | inr other ↦ ground (arith, other)
  | inl unix ↦ rw ((eq_iff s "unix").0 unix) refl
]

module _ {V : Type 0} (k : RemoteKeys V) (attrs : Attributes V) where
  is_local-false : is_local k attrs ≡ false
  unfolding is_local
  is_local-false = elim (Option-cases (lookup k.net_transport attrs)) [
    | inl none_there ↦ rw (none_there, is_local) refl
    | inr (a, there) ↦ rw (there, is_local) (one_text (k.str a))
  ]

  -- A span with a peer address, and neither an RPC system nor an HTTP host, has that address for its
  -- remote one, whatever its transport is, "unix" and "pipe" included.
  pub get_remote_address-peer :
      {a : String}
      → lookup k.rpc_system attrs ≡ none
      → lookup k.http_host attrs ≡ none
      → get_peer_address k attrs ≡ some a
      → get_remote_address k attrs ≡ some a
  unfolding get_remote_address
  get_remote_address-peer {a} no_rpc no_host peer =
      rw (no_rpc, get_remote_address)
        (rw (no_host, host_address)
          (rw (peer, host_address) (rw (is_local-false, host_address) refl)))
