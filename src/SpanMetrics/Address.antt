-- ===== src/SpanMetrics/Address.antt =====
-- The address that a span calls (processor/signozspanmetricsprocessor/processor.go: getRemoteAddress).
-- Names of attributes that the conventions package gives are a record, and `Str` of a value and the
-- host of `url.Parse` are functions; `none` is an error.
use Prim.Native.String.{String, ◌++◌}
use mathlib.Core.Bool.{Bool, false, ◌&&◌, ◌||◌}
use mathlib.Core.List.{List, [], ◌∷◌}
use mathlib.Core.Option.{Option, none, some}
use text.Mathlib.Text.{starts_with}
use otel_collector.Common.Dict.{lookup}
use otel_collector.Common.Tests.{if◌then◌else◌, ◌==◌, comparable_string}
use otel_collector.SpanMetrics.Key.{Attributes}
pub mod Transport

pub record RemoteKeys (V : Type 0) : Type 0 where
  pub net_peer_name : String
  pub net_peer_port : String
  pub net_peer_ip : String
  pub rpc_system : String
  pub rpc_service : String
  pub rpc_method : String
  pub http_host : String
  pub net_transport : String
  pub http_url : String
  pub peer_service : String
  pub str : V → String
  pub url_host : String → Option String

module _ {V : Type 0} (k : RemoteKeys V) (attrs : Attributes V) where
  -- An address with its port, if there is one.
  unfoldable pub with_port : V → String → String
  with_port a port_key = elim (lookup port_key attrs) [
    | none ↦ k.str a
    | some port ↦ k.str a ++ (":" ++ k.str port)
  ]

  -- The attributes of an address and of its port, the first that is there.
  unfoldable pub first_address : List (String × String) → Option String
  unfolding with_port
  first_address [] = none
  first_address ((key, port_key) ∷ pairs) = elim (lookup key attrs) [
    | some a ↦ some (with_port a port_key)
    | none ↦ first_address pairs
  ]

  unfoldable pub get_peer_address : Option String
  unfolding first_address
  get_peer_address = first_address (
      (k.net_peer_name, k.net_peer_port)
      ∷ ("server.address", "server.port")
      ∷ (k.net_peer_ip, k.net_peer_port)
      ∷ ("net.sock.peer.addr", "net.sock.peer.port")
      ∷ ("network.peer.address", "network.peer.port")
      ∷ [])

  -- The text of an attribute, or nothing.
  unfoldable pub text_of : String → String → String
  text_of before key = elim (lookup key attrs) [ none ↦ "" | some a ↦ before ++ k.str a ]

  unfoldable pub rpc_address : Option String
  unfolding text_of get_peer_address
  rpc_address =
      let addr = text_of "" k.rpc_service ++ text_of "/" k.rpc_method in
      if addr == "" then get_peer_address else some addr

  -- The test of the transport, as it stands.
  unfoldable pub is_local : Bool
  is_local = elim (lookup k.net_transport attrs) [
    | none ↦ false
    | some a ↦ (k.str a == "unix") && (k.str a == "pipe")
  ]

  unfoldable pub url_address : V → Option String
  url_address a =
      let url = k.str a in
      k.url_host
        (if starts_with url "http://" || starts_with url "https://" then url else "http://" ++ url)

  unfoldable pub service_address : Option String
  service_address = elim (lookup k.peer_service attrs) [ none ↦ none | some a ↦ some (k.str a) ]

  unfoldable pub fallback_address : Option String
  unfolding url_address service_address
  fallback_address = elim (lookup k.http_url attrs) [
    | some a ↦ url_address a
    | none ↦ elim (lookup "url.full" attrs) [ some a ↦ url_address a | none ↦ service_address ]
  ]

  unfoldable pub host_address : Option String
  unfolding get_peer_address is_local fallback_address
  host_address = elim (lookup k.http_host attrs) [
    | some a ↦ some (k.str a)
    | none ↦ elim get_peer_address [
      | some a ↦ if is_local then none else some a
      | none ↦ fallback_address
    ]
  ]

  unfoldable pub get_remote_address : Option String
  unfolding rpc_address host_address
  get_remote_address = elim (lookup k.rpc_system attrs) [
    | some a ↦ rpc_address
    | none ↦ host_address
  ]
