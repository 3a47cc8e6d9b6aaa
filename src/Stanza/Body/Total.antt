-- ===== src/Stanza/Body/Total.antt =====
-- The panics of a write below the body (processor/signozlogspipelineprocessor/stanza/entry/body_field.go:
-- Set, Merge).
use Prim.Native.String.{String}
use mathlib.Core.Bool.{Bool, true, false, ◌&&◌}
use mathlib.Core.List.{List, [], ◌∷◌}
use mathlib.Core.Logic.{inl, inr}
use mathlib.Core.Option.{some}
use mathlib.Core.Path.{◌≡◌, refl}
use native.Mathlib.Omega.{arith}
use otel_collector.Common.Tests.{Option-cases}
use otel_collector.Stanza.Body.{
  Entry, get_nested_map, set_in, set_value, body_set, body_map, merge, merge_in,
}
use otel_collector.Stanza.Value.{
  Value, Fields, nil, nil_map, string, bytes, other, map_of, empty, entry, get, put, put_all,
}

-- No map in a value, at any depth, is nil.
unfoldable mutual
  pub made : Value → Bool
  made nil_map = false
  made (map_of m) = all_made m
  made nil = true
  made (string s) = true
  made (bytes s) = true
  made (other n) = true

  pub all_made : Fields → Bool
  all_made empty = true
  all_made (entry key value m) = let rest = all_made m in made value && rest

get-made :
    (key : String) (m : Fields) (v : Value) → all_made m ≡ true → get key m ≡ some v → made v ≡ true
unfolding made get
get-made key empty v h e = absurd (ground (arith, e))
get-made key (entry here value m) v h e = ground (arith, h, e, get-made key m v)

put-made :
    (key : String) (value : Value) (m : Fields)
    → made value ≡ true
    → all_made m ≡ true
    → all_made (put key value m) ≡ true
unfolding made put
put-made key value empty h k = ground arith
put-made key value (entry here old m) h k = ground (arith, put-made key value m)

put_map-made :
    (key : String) (n m : Fields)
    → all_made n ≡ true
    → all_made m ≡ true
    → all_made (put key (map_of n) m) ≡ true
put_map-made key n m h k = put-made key (map_of n) m (unfold made in h) k

put_all-made :
    (values m : Fields)
    → all_made values ≡ true
    → all_made m ≡ true
    → all_made (put_all values m) ≡ true
unfolding made put_all
put_all-made empty m h k = k
put_all-made (entry key value values) m h k =
    put_all-made values (put key value m) (ground arith) (put-made key value m (ground arith) k)

-- What a value at a key gives for the nested map.
nested-made :
    (m : Fields) (key : String) (v : Value)
    → made v ≡ true
    → get key m ≡ some v
    → (n : Fields) × (get_nested_map m key ≡ some n) × (all_made n ≡ true)
unfolding get_nested_map made
nested-made m key (map_of n) h e = (n, rw (e, get_nested_map) refl, h)
nested-made m key nil_map h e = absurd (ground arith)
nested-made m key nil h e = (empty, rw (e, get_nested_map) refl, refl)
nested-made m key (string s) h e = (empty, rw (e, get_nested_map) refl, refl)
nested-made m key (bytes s) h e = (empty, rw (e, get_nested_map) refl, refl)
nested-made m key (other n) h e = (empty, rw (e, get_nested_map) refl, refl)

get_nested_map-made :
    (m : Fields) (key : String)
    → all_made m ≡ true
    → (n : Fields) × (get_nested_map m key ≡ some n) × (all_made n ≡ true)
unfolding get_nested_map made
get_nested_map-made m key h = elim (Option-cases (get key m)) [
  | inl absent ↦ (empty, rw (absent, get_nested_map) refl, refl)
  | inr (v, found) ↦ nested-made m key v (get-made key m v h found) found
]

set_in-made :
    (keys : List String) (value : Value) (m : Fields)
    → made value ≡ true
    → all_made m ≡ true
    → (m' : Fields) × (set_in keys value m ≡ some m') × (all_made m' ≡ true)
unfolding set_in
set_in-made [] value m h k = (m, refl, k)
set_in-made (key ∷ []) value m h k = (put key value m, refl, put-made key value m h k)
set_in-made (key ∷ key' ∷ keys) value m h k =
    let (n, en, kn) = get_nested_map-made m key k in
    let (n', en', kn') = set_in-made (key' ∷ keys) value n h kn in
    (put key (map_of n') m, rw (en, set_in) (rw (en', set_in) refl), put_map-made key n' m kn' k)

merge_in-made :
    (keys : List String) (values m : Fields)
    → all_made values ≡ true
    → all_made m ≡ true
    → (m' : Fields) × (merge_in keys values m ≡ some m') × (all_made m' ≡ true)
unfolding merge_in
merge_in-made [] values m h k = (put_all values m, refl, put_all-made values m h k)
merge_in-made (key ∷ keys) values m h k =
    let (n, en, kn) = get_nested_map-made m key k in
    let (n', en', kn') = merge_in-made keys values n h kn in
    (
      put key (map_of n') m,
      rw (en, merge_in) (rw (en', merge_in) refl),
      put_map-made key n' m kn' k,
    )

body_map-made :
    (body : Value)
    → made body ≡ true
    → (m : Fields) × (body_map body ≡ some m) × (all_made m ≡ true)
unfolding made
body_map-made (map_of m) h = (m, refl, h)
body_map-made nil_map h = absurd (ground arith)
body_map-made nil h = (empty, refl, refl)
body_map-made (string s) h = (empty, refl, refl)
body_map-made (bytes s) h = (empty, refl, refl)
body_map-made (other n) h = (empty, refl, refl)

set_value-made :
    (keys : List String) (value : Value) (e : Entry)
    → made value ≡ true
    → made e.body ≡ true
    → (e' : Entry) × (set_value keys value e ≡ some e') × (made e'.body ≡ true)
unfolding set_value
set_value-made [] value e h k = (record e { body = value }, refl, h)
set_value-made (key ∷ keys) value e h k =
    let (m, em, km) = body_map-made e.body k in
    let (m', em', km') = set_in-made (key ∷ keys) value m h km in
    (
      record e { body = map_of m' },
      rw (em, set_value) (rw (em', set_value) refl),
      unfold made in km',
    )

-- A write of any value to any path of the body does not panic and leaves no nil map in the body, at
-- any depth, if neither the value nor the body has one.
pub body_set-made :
    (keys : List String) (value : Value) (e : Entry)
    → made value ≡ true
    → made e.body ≡ true
    → (e' : Entry) × (body_set keys value e ≡ some e') × (made e'.body ≡ true)
unfolding body_set
body_set-made keys (map_of values) e h k =
    let (m, em, km) = body_map-made e.body k in
    let (m', em', km') = merge_in-made keys values m (unfold made in h) km in
    unfold merge in
    (record e { body = map_of m' }, rw (em, merge) (rw (em', merge) refl), unfold made in km')
body_set-made keys nil_map e h k = absurd (unfold made in ground arith)
body_set-made keys nil e h k = set_value-made keys nil e h k
body_set-made keys (string s) e h k = set_value-made keys (string s) e h k
body_set-made keys (bytes s) e h k = set_value-made keys (bytes s) e h k
body_set-made keys (other n) e h k = set_value-made keys (other n) e h k
