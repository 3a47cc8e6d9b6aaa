-- ===== src/Stanza/Body.antt =====
-- Fields of an entry's body (processor/signozlogspipelineprocessor/stanza/entry/body_field.go, and
-- getNestedMap of field.go). `json.Unmarshal` is a parameter: `none` is its error, and `some none`
-- the text `null`, which leaves the map nil. An outer `none` of a method is a panic: a write to a nil
-- map, or a type assertion that fails. The body is a text, bytes, a map or another value.
use Prim.Native.String.{String}
use mathlib.Core.Bool.{Bool, true, false, ◌&&◌}
use mathlib.Core.List.{List, [], ◌∷◌, ◌++◌}
use mathlib.Core.Option.{Option, none, some}
use otel_collector.Common.Tests.{if◌then◌else◌}
use otel_collector.Stanza.Value.{
  Value, Fields, nil, nil_map, string, bytes, other, map_of, empty, entry, get, put, delete,
  put_all,
}
pub mod Access
pub mod Stale
pub mod Total

-- What the body fields read and write of an entry; nil attributes are `none`.
pub record Entry : Type 0 where
  pub body : Value
  pub attributes : Option Fields

abbrev pub cached_body_json_key : String
cached_body_json_key = "__signozlogspipelineprocessor_internal__parsedBodyJson"

unfoldable pub parent : List String → List String
parent [] = []
parent (key ∷ []) = []
parent (key ∷ key' ∷ keys) = key ∷ parent (key' ∷ keys)

unfoldable pub child : List String → String → List String
child keys key = keys ++ key ∷ []

-- The bytes of a body that may be JSON.
abbrev pub body_bytes : Value → Option String
body_bytes (bytes s) = some s
body_bytes (string s) = some s
body_bytes _ = none

abbrev pub made_attributes : Entry → Fields
made_attributes e = elim e.attributes [ none ↦ empty | some m ↦ m ]

module _ (unmarshal : String → Option (Option Fields)) where
  -- A body that is not a map and has not been parsed before; the attributes are there.
  unfoldable pub parse_and_cache : Entry → Fields → Option Fields × Entry
  parse_and_cache e attributes = elim (body_bytes e.body) [
    | none ↦ (none, record e { attributes = some attributes })
    | some s ↦ elim (unmarshal s) [
      | none ↦ (none, record e { attributes = some attributes })
      | some none ↦
          (none, record e { attributes = some (put cached_body_json_key nil_map attributes) })
      | some (some m) ↦
          (some m, record e { attributes = some (put cached_body_json_key (map_of m) attributes) })
    ]
  ]

  unfoldable pub parse_cached : Entry → Fields → Option (Option Fields × Entry)
  parse_cached e attributes = elim (get cached_body_json_key attributes) [
    | none ↦ some (parse_and_cache e attributes)
    | some v ↦ elim v [
      | map_of m ↦ some (some m, record e { attributes = some attributes })
      | nil_map ↦ some (none, record e { attributes = some attributes })
      | _ ↦ none
    ]
  ]

  unfoldable pub parse_body_json : Entry → Option (Option Fields × Entry)
  parse_body_json e = elim e.body [
    | map_of m ↦ some (some m, e)
    | nil_map ↦ some (none, e)
    | _ ↦ parse_cached e (made_attributes e)
  ]

-- The loop of `Get`.
unfoldable pub follow : List String → Value → Option Value
follow [] value = some value
follow (key ∷ keys) (map_of m) = elim (get key m) [ none ↦ none | some v ↦ follow keys v ]
follow (key ∷ keys) _ = none

module _ (unmarshal : String → Option (Option Fields)) where
  -- The value found, if any, and the entry, which may have the parsed body cached.
  unfoldable pub body_get : List String → Entry → Option (Option Value × Entry)
  body_get [] e = some (some e.body, e)
  body_get (key ∷ keys) e = elim (parse_body_json unmarshal e) [
    | none ↦ none
    | some (body_json, e') ↦ elim body_json [
      | some m ↦ some (follow (key ∷ keys) (map_of m), e')
      | none ↦ some (follow (key ∷ keys) e'.body, e')
    ]
  ]

-- `getNestedMap`: the map at a key, which is made if there is none; `none` is a nil map.
unfoldable pub get_nested_map : Fields → String → Option Fields
get_nested_map m key = elim (get key m) [
  | none ↦ some empty
  | some v ↦ elim v [ map_of n ↦ some n | nil_map ↦ none | _ ↦ some empty ]
]

-- The loop of `Set` below a map.
unfoldable pub set_in : List String → Value → Fields → Option Fields
set_in [] value m = some m
set_in (key ∷ []) value m = some (put key value m)
set_in (key ∷ key' ∷ keys) value m = elim (get_nested_map m key) [
  | none ↦ none
  | some n ↦ elim (set_in (key' ∷ keys) value n) [
    | none ↦ none
    | some n' ↦ some (put key (map_of n') m)
  ]
]

-- A merge into a nil map panics unless there is nothing to write.
abbrev pub is_no_write : List String → Fields → Bool
is_no_write [] empty = true
is_no_write _ _ = false

unfoldable pub merge_in : List String → Fields → Fields → Option Fields
merge_in [] values m = some (put_all values m)
merge_in (key ∷ keys) values m = elim (get_nested_map m key) [
  | none ↦ if is_no_write keys values then some m else none
  | some n ↦ elim (merge_in keys values n) [ none ↦ none | some n' ↦ some (put key (map_of n') m) ]
]

-- The map that a method writes to: the body if it is one, or a new map; `none` is a nil map.
abbrev pub body_map : Value → Option Fields
body_map (map_of m) = some m
body_map nil_map = none
body_map _ = some empty

unfoldable pub merge : List String → Fields → Entry → Option Entry
merge keys values e = elim (body_map e.body) [
  | none ↦ if is_no_write keys values then some e else none
  | some m ↦ elim (merge_in keys values m) [
    | none ↦ none
    | some m' ↦ some (record e { body = map_of m' })
  ]
]

-- `Set` of a value that is no map.
unfoldable pub set_value : List String → Value → Entry → Option Entry
set_value [] value e = some (record e { body = value })
set_value (key ∷ keys) value e = elim (body_map e.body) [
  | none ↦ none
  | some m ↦ elim (set_in (key ∷ keys) value m) [
    | none ↦ none
    | some m' ↦ some (record e { body = map_of m' })
  ]
]

unfoldable pub body_set : List String → Value → Entry → Option Entry
body_set keys (map_of values) e = merge keys values e
body_set keys nil_map e = merge keys empty e
body_set keys value e = set_value keys value e

-- The loop of `Delete`: the value that was deleted, and what is left.
unfoldable pub delete_in : List String → Value → Option (Value × Value)
delete_in (key ∷ []) (map_of m) = elim (get key m) [
  | none ↦ none
  | some v ↦ some (v, map_of (delete key m))
]
delete_in (key ∷ key' ∷ keys) (map_of m) = elim (get key m) [
  | none ↦ none
  | some v ↦ elim (delete_in (key' ∷ keys) v) [
    | none ↦ none
    | some (old, v') ↦ some (old, map_of (put key v' m))
  ]
]
delete_in _ _ = none

unfoldable pub body_delete : List String → Entry → Option Value × Entry
body_delete [] e = (some e.body, record e { body = nil })
body_delete (key ∷ keys) e = elim (delete_in (key ∷ keys) e.body) [
  | none ↦ (none, e)
  | some (old, body') ↦ (some old, record e { body = body' })
]
