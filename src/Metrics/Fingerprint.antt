-- ===== src/Metrics/Fingerprint.antt =====
-- The fingerprint of attributes
-- (internal/common/fingerprint: attribute.go, fingerprint.go, hash.go), a 64-bit FNV-1a hash.
-- Go's maps are association lists in order of insertion.
pub mod Order
use Prim.Native.Nat.{ℕ, ◌*◌, ◌%◌, ◌^◌, bit_xor}
use mathlib.Core.List.{List, [], ◌∷◌}
use mathlib.Core.Option.{Option, none, some}
use otel_collector.Common.Dict.{keys, lookup, insert}
use otel_collector.Common.Texts.{Text, ascii, comparable_text, sort_strings}
use otel_collector.Metrics.{ValueType, empty_type, str_type, Platform}

pub record AttributeValue : Type 0 where
  pub data_type : ValueType
  pub val : Text

abbrev pub Attributes : Type 0
Attributes = List (Text × AttributeValue)

module _ {V F : Type 0} (p : Platform V F) where
  -- Adds what the map of a point, scope or resource holds.
  unfoldable pub range_attributes : List (Text × V) → Attributes → Attributes
  range_attributes [] found = found
  range_attributes ((k, v) ∷ attrs) found =
      range_attributes attrs
        (insert k (record { data_type = p.value_type v; val = p.as_string v }) found)

  unfoldable pub new_attributes_from_pcommon_map : List (Text × V) → Attributes
  unfolding range_attributes
  new_attributes_from_pcommon_map attrs = range_attributes attrs []

unfoldable pub add_extras : List (Text × Text) → Attributes → Attributes
add_extras [] found = found
add_extras ((k, v) ∷ extras) found =
    add_extras extras (insert k (record { data_type = str_type; val = v }) found)

abbrev pub initial_offset : ℕ
initial_offset = 14695981039346656037

abbrev pub prime64 : ℕ
prime64 = 1099511628211

abbrev pub separator_byte : ℕ
separator_byte = 255

unfoldable pub hash_add_byte : ℕ → ℕ → ℕ
hash_add_byte h b = (bit_xor h b * prime64) % 2 ^ 64

unfoldable pub hash_add : ℕ → Text → ℕ
unfolding hash_add_byte
hash_add h [] = h
hash_add h (b ∷ s) = hash_add (hash_add_byte h b) s

pub data FingerprintType : Type 0 where
  resource_fingerprint scope_fingerprint point_fingerprint : FingerprintType

abbrev pub fingerprint_type_string : FingerprintType → Text
fingerprint_type_string resource_fingerprint = ascii "resource"
fingerprint_type_string scope_fingerprint = ascii "scope"
fingerprint_type_string point_fingerprint = ascii "point"

pub record Fingerprint : Type 0 where
  pub attributes : Attributes
  pub hash : ℕ
  pub typ : FingerprintType

-- `attributes[k].Val`, which is empty for a key that is not there.
unfoldable pub val_of : Attributes → Text → Text
val_of attributes k = elim (lookup k attributes) [ none ↦ [] | some v ↦ v.val ]

-- The loop over the sorted keys.
unfoldable pub hash_keys : Attributes → List Text → ℕ → ℕ
unfolding hash_add hash_add_byte val_of
hash_keys attributes [] h = h
hash_keys attributes (k ∷ ks) h =
    let h1 = hash_add_byte (hash_add h k) separator_byte in
    hash_keys attributes ks (hash_add_byte (hash_add h1 (val_of attributes k)) separator_byte)

module _ {V F : Type 0} (p : Platform V F) where
  unfoldable pub new_fingerprint :
      FingerprintType → ℕ → List (Text × V) → List (Text × Text) → Fingerprint
  unfolding new_attributes_from_pcommon_map add_extras hash_keys sort_strings
  new_fingerprint typ offset attrs extras =
      let attributes = add_extras extras (new_attributes_from_pcommon_map p attrs) in
      record {
        attributes = attributes;
        hash = hash_keys attributes (sort_strings (keys attributes)) offset;
        typ = typ;
      }

abbrev pub vals : Attributes → List (Text × Text)
vals [] = []
vals ((k, v) ∷ attributes) = (k, v.val) ∷ vals attributes

abbrev pub attributes_as_map : Fingerprint → List (Text × Text)
attributes_as_map f = vals f.attributes

unfoldable pub hash_with_name : Fingerprint → Text → ℕ
unfolding hash_add hash_add_byte
hash_with_name f name =
    hash_add (hash_add_byte (hash_add f.hash (ascii "__name__")) separator_byte) name
