-- ===== src/Flatten/Tests.antt =====
-- Flattening of concrete values (utils/flatten/flatten_test.go).
use Prim.Native.Nat.{ℕ, ◌+◌}
use mathlib.Core.List.{[], ◌∷◌}
use mathlib.Core.Option.{some}
use mathlib.Core.Path.{◌≡◌, refl}
use otel_collector.Common.Dict.{lookup, insert}
use otel_collector.Common.Int.{ℤ, pos}
use otel_collector.Common.Texts.{Text, ascii, comparable_text}
use otel_collector.Flatten.{
  Members, Formats, int_value, other_value, object, array, scalar, no_members, member, no_elements,
  element, flat_float, flat_text, flatten_json,
}
use otel_collector.Flatten.Leaves.{last_leaf, member_leaves, lookup-flatten_json}

-- Integers stand for floats, and the indices are single digits.
abbrev formats : Formats ℤ ℕ Text
formats = record {
  float_of_int = λ i. i;
  float_of_float32 = λ n. pos n;
  decimal = λ i. (b'0' + i) ∷ [];
  sprintf = λ s. s;
}

-- {"user": {"name": "Alice", "age": 30}, "items": [{"price": 10}, {"price": 20}], "user.age": 31}
abbrev user : Members ℤ ℕ Text
user =
    member (ascii "user")
      (object (
        member (ascii "name") (scalar (other_value (ascii "Alice")))
          (member (ascii "age") (scalar (int_value (pos 30))) no_members)))
      (member (ascii "items")
        (array (
          element (object (member (ascii "price") (scalar (int_value (pos 10))) no_members)) (
            element (object (member (ascii "price") (scalar (int_value (pos 20))) no_members))
              no_elements)))
        (member (ascii "user.age") (scalar (int_value (pos 31))) no_members))

flatten_json-user :
    flatten_json formats user []
    ≡ (ascii "user.name", flat_text (ascii "Alice"))
      ∷ (ascii "user.age", flat_float (pos 31))
      ∷ (ascii "items.0.price", flat_float (pos 10))
      ∷ (ascii "items.1.price", flat_float (pos 20))
      ∷ []
unfolding flatten_json insert
flatten_json-user = refl

-- Two paths with one key: the value that is ranged over last stays.
lookup-flatten_json_example :
    lookup (ascii "user.age") (flatten_json formats user []) ≡ some (flat_float (pos 31))
unfolding last_leaf member_leaves
lookup-flatten_json_example = lookup-flatten_json formats (ascii "user.age") [] user
