-- ===== src/Stanza/Tests.antt =====
-- Runs of the field paths and of the body fields.
use Prim.Native.String.{String}
use mathlib.Core.Bool.{true}
use mathlib.Core.List.{[], ◌∷◌}
use mathlib.Core.Option.{Option, none, some}
use mathlib.Core.Path.{◌≡◌, refl}
use native.Mathlib.Omega.{arith}
use text.Mathlib.TextEquality.{eq_iff}
use otel_collector.Stanza.Body.{
  Entry, parse_and_cache, parse_cached, parse_body_json, body_get, body_set, follow, set_value,
  set_in, get_nested_map,
}
use otel_collector.Stanza.Body.Access.{body_get-body_set}
use otel_collector.Stanza.Body.Stale.{text_entry, keeping, body_get-body_set_stale}
use otel_collector.Stanza.Body.Total.{made, body_set-made}
use otel_collector.Stanza.Path.{Text, Prefixes, ok, from_json_dot, to_json_dot}
use otel_collector.Stanza.Path.RoundTrip.{ArePrefixes, from_json_dot-to_json_dot}
use otel_collector.Stanza.Value.{Fields, string, other, map_of, empty, entry, get, put}

-- `body`, `attributes`, `resource`
abbrev prefixes : Prefixes
prefixes = record {
  attributes_prefix = b'a' ∷ b't' ∷ [];
  resource_prefix = b'r' ∷ b'e' ∷ [];
  body_prefix = b'b' ∷ b'o' ∷ [];
}

abbrev dotted_key : Text
dotted_key = b'x' ∷ b'.' ∷ b'y' ∷ []

prefixes-ArePrefixes : ArePrefixes prefixes
prefixes-ArePrefixes = record {
  nonempty = λ e. ground (arith, e);
  plain = omega arith;
  no_dot = refl;
  not_attributes = refl;
  not_resource = refl;
}

from_json_dot-to_json_dot_example :
    from_json_dot (to_json_dot (b'b' ∷ b'o' ∷ []) (dotted_key ∷ (b'z' ∷ []) ∷ []))
    ≡ ok ((b'b' ∷ b'o' ∷ []) ∷ dotted_key ∷ (b'z' ∷ []) ∷ [])
from_json_dot-to_json_dot_example =
    from_json_dot-to_json_dot b'b' (b'o' ∷ []) (dotted_key ∷ (b'z' ∷ []) ∷ []) (omega arith) refl
      (omega arith)

-- A body `{"a": {"b": "old"}, "n": 7}`.
abbrev nested : Fields
nested = entry "a" (map_of (entry "b" (string "old") empty)) (entry "n" (other 7) empty)

abbrev nested_entry : Entry
nested_entry = record { body = map_of nested; attributes = none }

abbrev written_entry : Entry
written_entry = record {
  body = map_of (entry "a" (map_of (entry "b" (string "new") empty)) (entry "n" (other 7) empty));
  attributes = none;
}

-- The parser of a library that knows one text.
abbrev known_json : String → Option (Option Fields)
known_json s = some (some nested)

nested_set : body_set ("a" ∷ "b" ∷ []) (string "new") nested_entry ≡ some written_entry
unfolding body_set set_value set_in get_nested_map get put
nested_set = refl

body_get-body_set_example :
    body_get known_json ("a" ∷ "b" ∷ []) written_entry ≡ some (some (string "new"), written_entry)
body_get-body_set_example =
    body_get-body_set known_json "a" ("b" ∷ []) (string "new") nested_entry refl nested_set

a_ne_n : ◌≡◌ {A = String} "a" "n" → ⊥
a_ne_n e = ground (arith, (eq_iff "a" "n").1 e)

body_set-made_example :
    (e' : Entry) × (body_set ("n" ∷ "m" ∷ []) (string "deep") nested_entry ≡ some e')
    × (made e'.body ≡ true)
body_set-made_example =
    body_set-made ("n" ∷ "m" ∷ []) (string "deep") nested_entry (unfold made in refl)
      (unfold made in refl)

abbrev first_text : Entry
first_text = text_entry "{..}" none

abbrev read_text : Entry
read_text = text_entry "{..}" (some (keeping nested first_text))

abbrev second_text : Entry
second_text = text_entry "{}" (some (keeping nested first_text))

first_read : body_get known_json ("n" ∷ []) first_text ≡ some (some (other 7), read_text)
unfolding body_get parse_body_json parse_cached parse_and_cache get put follow
first_read = refl

second_set : body_set [] (string "{}") read_text ≡ some second_text
unfolding body_set set_value
second_set = refl

fresh_text : get "__signozlogspipelineprocessor_internal__parsedBodyJson" empty ≡ none
unfolding get
fresh_text = refl

body_get-body_set_stale_example :
    (second_text.body ≡ string "{}")
    × (body_get known_json ("a" ∷ []) second_text
        ≡ some (follow ("a" ∷ []) (map_of nested), second_text))
body_get-body_set_stale_example =
    body_get-body_set_stale known_json "n" "a" [] [] "{..}" "{}" nested none fresh_text refl
      first_read second_set
