-- ===== src/Metrics/Labels.antt =====
-- The labels of a series as a JSON text (internal/common/fingerprint/label.go).
pub mod Named
pub mod Read
pub mod RoundTrip
use Prim.Native.Nat.{ℕ}
use mathlib.Core.List.{List, [], ◌∷◌, ◌++◌}
use mathlib.Core.Option.{none, some}
use otel_collector.Common.Dict.{keys, lookup, insert}
use otel_collector.Common.Tests.{if◌then◌else◌, nat_eqb}
use otel_collector.Common.Texts.{Text, ascii, comparable_text, sort_strings}

abbrev pub Labels : Type 0
Labels = List (Text × Text)

-- `attrs[k] = v` for each key of a map.
unfoldable pub put_all : Labels → Labels → Labels
put_all [] attrs = attrs
put_all ((k, v) ∷ m) attrs = put_all m (insert k v attrs)

unfoldable pub merge_labels : List Labels → Labels → Labels
unfolding put_all
merge_labels [] attrs = attrs
merge_labels (m ∷ ms) attrs = merge_labels ms (put_all m attrs)

-- The bytes of one byte of a value.
unfoldable pub escape_byte : ℕ → Text
escape_byte c =
    if nat_eqb c b'\\'
    then b'\\' ∷ c ∷ []
    else if nat_eqb c b'"'
    then b'\\' ∷ c ∷ []
    else if nat_eqb c 10
    then b'\\' ∷ b'n' ∷ []
    else if nat_eqb c 13
    then b'\\' ∷ b'r' ∷ []
    else if nat_eqb c 9
    then b'\\' ∷ b't' ∷ []
    else c ∷ []

unfoldable pub escape : Text → Text
unfolding escape_byte
escape [] = []
escape (c ∷ s) = escape_byte c ++ escape s

-- `attrs[name]`, which is empty for a name that is not there.
unfoldable pub label_value : Labels → Text → Text
label_value attrs name = elim (lookup name attrs) [ none ↦ [] | some v ↦ v ]

-- What the loop appends for the keys.
unfoldable pub marshal_keys : Labels → List Text → Text
unfolding escape label_value
marshal_keys attrs [] = []
marshal_keys attrs (name ∷ names) =
    b'"'
    ∷ (name
        ++ (b'"'
            ∷ b':'
            ∷ b'"'
            ∷ (escape (label_value attrs name) ++ (b'"' ∷ b',' ∷ marshal_keys attrs names))))

-- `b[len(b)-1] = c`
unfoldable pub set_last : ℕ → Text → Text
set_last c [] = []
set_last c (a ∷ []) = c ∷ []
set_last c (a ∷ b ∷ s) = a ∷ set_last c (b ∷ s)

unfoldable pub marshal_labels : Labels → Text
unfolding marshal_keys set_last sort_strings
marshal_labels [] = b'{' ∷ b'}' ∷ []
marshal_labels (a ∷ attrs) =
    set_last b'}' (b'{' ∷ marshal_keys (a ∷ attrs) (sort_strings (keys (a ∷ attrs))))

unfoldable pub new_labels_as_json_string : Text → List Labels → Text
unfolding merge_labels marshal_labels
new_labels_as_json_string name ms =
    marshal_labels (insert (ascii "__name__") name (merge_labels ms []))
