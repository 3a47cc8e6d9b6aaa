-- ===== src/Stanza/Value.antt =====
-- The Go values that an entry holds: maps from texts to values, and what is no map.
-- Maps are values here, so that two places which share one Go map are not told from two copies.
use Prim.Native.Nat.{ℕ}
use Prim.Native.String.{String}
use mathlib.Core.Bool.{Bool, true, false}
use mathlib.Core.List.{List, [], ◌∷◌}
use mathlib.Core.Option.{Option, none, some}
use mathlib.Core.Path.{◌≡◌, refl}
use native.Mathlib.Omega.{arith}
use otel_collector.Common.Tests.{if◌then◌else◌, ◌==◌, comparable_string, Comparable}
pub mod Laws

mutual
  -- `nil` is the untyped nil, `nil_map` a map that was never made; `other` is any value that is no
  -- map, text or byte slice, by a code of its own.
  pub data Value : Type 0 where
    nil nil_map : Value
    string : String → Value
    bytes : String → Value
    other : ℕ → Value
    map_of : Fields → Value

  pub data Fields : Type 0 where
    empty : Fields
    entry : String → Value → Fields → Fields

-- `v, ok := m[key]`
unfoldable pub get : String → Fields → Option Value
get key empty = none
get key (entry here value rest) = if here == key then some value else get key rest

-- `m[key] = v`
unfoldable pub put : String → Value → Fields → Fields
put key value empty = entry key value empty
put key value (entry here old rest) =
    if here == key then entry here value rest else entry here old (put key value rest)

-- `delete(m, key)`
unfoldable pub delete : String → Fields → Fields
delete key empty = empty
delete key (entry here old rest) =
    let rest' = delete key rest in if here == key then rest' else entry here old rest'

-- `for k, v := range values { m[k] = v }`
unfoldable pub put_all : Fields → Fields → Fields
put_all empty m = m
put_all (entry key value values) m = put_all values (put key value m)
