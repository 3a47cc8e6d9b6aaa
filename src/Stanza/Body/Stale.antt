-- ===== src/Stanza/Body/Stale.antt =====
-- The parsed body that an entry keeps (processor/signozlogspipelineprocessor/stanza/entry/body_field.go:
-- Get, Set, ParseBodyJson).
use Prim.Native.String.{String}
use mathlib.Core.List.{List, [], ◌∷◌}
use mathlib.Core.Option.{Option, none, some}
use mathlib.Core.Path.{◌≡◌, refl, ap}
use native.Mathlib.Omega.{arith}
use text.Mathlib.TextPositions.{eq_refl}
use otel_collector.Common.Tests.{comparable_string}
use otel_collector.Stanza.Body.{
  Entry, cached_body_json_key, made_attributes, parse_and_cache, parse_cached, parse_body_json,
  follow, body_get, body_set, set_value,
}
use otel_collector.Stanza.Value.{Value, Fields, string, map_of, get, put}
use otel_collector.Stanza.Value.Laws.{get-put}

-- An entry whose body is a text.
abbrev pub text_entry : String → Option Fields → Entry
text_entry s attributes = record { body = string s; attributes = attributes }

-- The parsed body that an entry keeps, if any.
abbrev pub kept_body : Entry → Option Value
kept_body e = get cached_body_json_key (made_attributes e)

-- The attributes with a parsed body kept.
abbrev pub keeping : Fields → Entry → Fields
keeping m e = put cached_body_json_key (map_of m) (made_attributes e)

module _ (unmarshal : String → Option (Option Fields)) where
  parse_and_cache-parses :
      (s : String) (m attributes : Fields) (a : Option Fields)
      → unmarshal s ≡ some (some m)
      → parse_and_cache unmarshal (text_entry s a) attributes
        ≡ (some m, text_entry s (some (put cached_body_json_key (map_of m) attributes)))
  unfolding parse_and_cache
  parse_and_cache-parses s m attributes a parsed = rw (parsed, parse_and_cache) refl

  parse_body_json-parses :
      (s : String) (m : Fields) (a : Option Fields)
      → kept_body (text_entry s a) ≡ none
      → unmarshal s ≡ some (some m)
      → parse_body_json unmarshal (text_entry s a)
        ≡ some (some m, text_entry s (some (keeping m (text_entry s a))))
  unfolding parse_body_json parse_cached
  parse_body_json-parses s m a fresh parsed =
      rw (fresh, parse_body_json, parse_cached)
        (ap some (parse_and_cache-parses s m (made_attributes (text_entry s a)) a parsed))

  body_get-parses :
      (key : String) (keys : List String) (s : String) (m : Fields) (a : Option Fields)
      → kept_body (text_entry s a) ≡ none
      → unmarshal s ≡ some (some m)
      → body_get unmarshal (key ∷ keys) (text_entry s a)
        ≡ some (follow (key ∷ keys) (map_of m), text_entry s (some (keeping m (text_entry s a))))
  unfolding body_get
  body_get-parses key keys s m a fresh parsed =
      rw (parse_body_json-parses s m a fresh parsed, body_get) refl

  body_get-kept :
      (key : String) (keys : List String) (t : String) (m kept : Fields)
      → get cached_body_json_key kept ≡ some (map_of m)
      → body_get unmarshal (key ∷ keys) (text_entry t (some kept))
        ≡ some (follow (key ∷ keys) (map_of m), text_entry t (some kept))
  unfolding body_get parse_body_json parse_cached
  body_get-kept key keys t m kept e = rw (e, body_get, parse_body_json, parse_cached) refl

  -- Once a path below a text body was read that parses to a map, the body may be set to any other
  -- text: a path below it is still looked up in the map that the first text held.
  pub body_get-body_set_stale :
      (key read : String) (keys reads : List String) (s t : String) (m : Fields) (a : Option Fields)
      {v : Option Value} {e e' : Entry}
      → kept_body (text_entry s a) ≡ none
      → unmarshal s ≡ some (some m)
      → body_get unmarshal (key ∷ keys) (text_entry s a) ≡ some (v, e)
      → body_set [] (string t) e ≡ some e'
      → (e'.body ≡ string t)
        × (body_get unmarshal (read ∷ reads) e' ≡ some (follow (read ∷ reads) (map_of m), e'))
  unfolding body_set set_value
  body_get-body_set_stale key read keys reads s t m a {v} {e} {e'} fresh parsed got set =
      let first = body_get-parses key keys s m a fresh parsed in
      let kept : e ≡ text_entry s (some (keeping m (text_entry s a))) =
        ground (arith, first, got) in
      let written : e' ≡ text_entry t (some (keeping m (text_entry s a))) =
        ground (arith, kept, set) in
      let found =
        get-put (made_attributes (text_entry s a)) cached_body_json_key cached_body_json_key
          (map_of m) in
      rw written (
        refl,
        body_get-kept read reads t m (keeping m (text_entry s a))
            (ground (arith, found, eq_refl cached_body_json_key)),
      )
