-- ===== src/Flatten.antt =====
-- Flattening of JSON (utils/flatten/flatten.go).
-- A map is an association list in the order in which it is ranged over. F are the float64s, S the
-- float32s, and O the other values: texts, nil, and the integers that the switch does not name.
pub mod Leaves
pub mod Tests
use Prim.Native.Nat.{ℕ, ◌+◌}
use mathlib.Core.Bool.{Bool}
use mathlib.Core.List.{List, [], ◌∷◌, ◌++◌}
use otel_collector.Common.Dict.{insert}
use otel_collector.Common.Int.{ℤ}
use otel_collector.Common.Texts.{Text, comparable_text}

module _ (F S O : Type 0) where
  pub data Scalar : Type 0 where
    int_value : ℤ → Scalar
    float32_value : S → Scalar
    float64_value : F → Scalar
    bool_value : Bool → Scalar
    other_value : O → Scalar

  mutual
    pub data Json : Type 0 where
      object : Members → Json
      array : Elements → Json
      scalar : Scalar → Json

    pub data Members : Type 0 where
      no_members : Members
      member : Text → Json → Members → Members

    pub data Elements : Type 0 where
      no_elements : Elements
      element : Json → Elements → Elements

  -- What the map that is returned holds.
  pub data Flat : Type 0 where
    flat_float : F → Flat
    flat_bool : Bool → Flat
    flat_text : Text → Flat

  -- Conversions of Go, and fmt.Sprintf with %d and with %v.
  pub record Formats : Type 0 where
    pub float_of_int : ℤ → F
    pub float_of_float32 : S → F
    pub decimal : ℕ → Text
    pub sprintf : O → Text

-- `fullKey`
unfoldable pub full_key : Text → Text → Text
full_key [] key = key
full_key (b ∷ prefix) key = b ∷ prefix ++ b'.' ∷ key

module _ {F S O : Type 0} (f : Formats F S O) where
  unfoldable pub flat_of : Scalar F S O → Flat F S O
  flat_of (int_value i) = flat_float (f.float_of_int i)
  flat_of (float32_value x) = flat_float (f.float_of_float32 x)
  flat_of (float64_value x) = flat_float x
  flat_of (bool_value b) = flat_bool b
  flat_of (other_value o) = flat_text (f.sprintf o)

  -- `for k, v := range subResult { result[k] = v }`
  unfoldable pub put_all :
      List (Text × Flat F S O) → List (Text × Flat F S O) → List (Text × Flat F S O)
  put_all [] result = result
  put_all ((k, v) ∷ sub) result = put_all sub (insert k v result)

  unfoldable mutual
    unfolding full_key put_all flat_of

    -- The switch on one value.
    pub add_value : Json F S O → Text → List (Text × Flat F S O) → List (Text × Flat F S O)
    add_value (object ms) full result = put_all (add_members ms full []) result
    add_value (array es) full result = add_elements es full 0 result
    add_value (scalar s) full result = insert full (flat_of s) result

    -- The loop over a map.
    pub add_members : Members F S O → Text → List (Text × Flat F S O) → List (Text × Flat F S O)
    add_members no_members prefix result = result
    add_members (member key value ms) prefix result =
        add_members ms prefix (add_value value (full_key prefix key) result)

    -- The loop over a slice, from an index on: each element is flattened as a map of its own.
    pub add_elements :
        Elements F S O → Text → ℕ → List (Text × Flat F S O) → List (Text × Flat F S O)
    add_elements no_elements full i result = result
    add_elements (element value es) full i result =
        add_elements es full (i + 1)
          (put_all (add_value value (full_key full (f.decimal i)) []) result)

  unfoldable pub flatten_json : Members F S O → Text → List (Text × Flat F S O)
  unfolding add_members
  flatten_json ms prefix = add_members ms prefix []
