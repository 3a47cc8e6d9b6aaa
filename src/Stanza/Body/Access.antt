-- ===== src/Stanza/Body/Access.antt =====
-- What is read after a write or a deletion, at the same path and at others
-- (processor/signozlogspipelineprocessor/stanza/entry/body_field.go: Get, Set, Delete).
use Prim.Native.String.{String}
use mathlib.Core.Bool.{Bool, true, false}
use mathlib.Core.List.{List, [], ◌∷◌}
use mathlib.Core.Logic.{◌≢◌, ◌⊎◌, inl, inr}
use mathlib.Core.Option.{Option, none, some}
use mathlib.Core.Path.{◌≡◌, refl, sym, ◌∙◌}
use native.Mathlib.Omega.{arith}
use text.Mathlib.TextEquality.{eq_iff}
use text.Mathlib.TextPositions.{eq_refl}
use otel_collector.Common.Tests.{Option-cases, comparable_string}
use otel_collector.Stanza.Body.{
  Entry, parse_body_json, follow, body_get, get_nested_map, set_in, set_value, body_set, delete_in,
  body_delete, body_map,
}
use otel_collector.Stanza.Value.{Value, Fields, nil, nil_map, string, bytes, other, map_of, get}
use otel_collector.Stanza.Value.Laws.{get-put, get-delete}

abbrev pub is_map : Value → Bool
is_map (map_of m) = true
is_map nil_map = true
is_map _ = false

-- Two paths part at some key.
abbrev pub Part : List String → List String → Type 0
Part (j ∷ js) (k ∷ ks) = (j ≢ k) ⊎ ((j ≡ k) × Part js ks)
Part _ _ = ⊥

follow-set_in :
    (key : String) (keys : List String) (value : Value) (m : Fields) {m' : Fields}
    → set_in (key ∷ keys) value m ≡ some m'
    → follow (key ∷ keys) (map_of m') ≡ some value
unfolding set_in follow
follow-set_in key [] value m {m'} e = ground (arith, get-put m key key value, eq_refl key)
follow-set_in key (key' ∷ keys) value m {m'} e = elim (Option-cases (get_nested_map m key)) [
  | inl bad ↦ absurd (ground arith)
  | inr (n, en) ↦ elim (Option-cases (set_in (key' ∷ keys) value n)) [
    | inl bad ↦ absurd (ground arith)
    | inr (n', en') ↦ ground (
      arith,
      e,
      en,
      en',
      get-put m key key (map_of n'),
      eq_refl key,
      follow-set_in key' keys value n en',
    )
  ]
]

-- The nested map holds what the value at the key did.
follow-get_nested_map :
    (m : Fields) (key : String) {n : Fields} (k : String) (ks : List String)
    → get_nested_map m key ≡ some n
    → follow (key ∷ k ∷ ks) (map_of m) ≡ follow (k ∷ ks) (map_of n)
unfolding get_nested_map follow get
follow-get_nested_map m key {n} k ks e = ground (arith, e)

-- A write to one path changes no other path that parts from it.
follow-set_in_apart :
    (keys others : List String) (value : Value) (m : Fields) {m' : Fields}
    → Part keys others
    → set_in keys value m ≡ some m'
    → follow others (map_of m') ≡ follow others (map_of m)
unfolding set_in follow
follow-set_in_apart [] others value m p e = elim p [ ]
follow-set_in_apart (j ∷ js) [] value m p e = elim p [ ]
follow-set_in_apart (j ∷ []) (k ∷ ks) value m (inr p) e = absurd p.1
follow-set_in_apart (j ∷ []) (k ∷ ks) value m (inl ne) e =
    ground (arith, e, ne, get-put m j k value, eq_iff j k)
follow-set_in_apart (j ∷ j' ∷ js) (k ∷ []) value m (inr p) e = absurd p.1
follow-set_in_apart (j ∷ j' ∷ js) (k ∷ ks) value m {m'} (inl ne) e =
    elim (Option-cases (get_nested_map m j)) [
      | inl bad ↦ absurd (ground arith)
      | inr (n, en) ↦ elim (Option-cases (set_in (j' ∷ js) value n)) [
        | inl bad ↦ absurd (ground arith)
        | inr (n', en') ↦ ground (arith, e, en, en', ne, get-put m j k (map_of n'), eq_iff j k)
      ]
    ]
follow-set_in_apart (j ∷ j' ∷ js) (k ∷ k' ∷ ks) value m {m'} (inr (same_key, part)) e =
    elim (Option-cases (get_nested_map m j)) [
      | inl bad ↦ absurd (ground arith)
      | inr (n, en) ↦ elim (Option-cases (set_in (j' ∷ js) value n)) [
        | inl bad ↦ absurd (ground arith)
        | inr (n', en') ↦
            let below = follow-set_in_apart (j' ∷ js) (k' ∷ ks) value n part en' in
            let before = follow-get_nested_map m j k' ks en in
            rw (← same_key)
              (ground (arith, e, en, en', get-put m j j (map_of n'), eq_refl j, below, before))
      ]
    ]

-- Deleting finds what was at the path.
delete_in-follow :
    (keys : List String) (key : String) (v : Value) {old left : Value}
    → delete_in (key ∷ keys) v ≡ some (old, left)
    → (follow (key ∷ keys) v ≡ some old) × (follow (key ∷ keys) left ≡ none)
unfolding delete_in follow
delete_in-follow [] key (map_of m) {old} {left} e =
    ground (arith, e, get-delete m key key, eq_refl key)
delete_in-follow (key' ∷ keys) key (map_of m) {old} {left} e = elim (Option-cases (get key m)) [
  | inl bad ↦ absurd (ground arith)
  | inr (v, ev) ↦ elim (Option-cases (delete_in (key' ∷ keys) v)) [
    | inl bad ↦ absurd (ground arith)
    | inr ((old', v'), ev') ↦
        let below = delete_in-follow keys key' v ev' in
        ground (arith, e, ev, ev', below.0, below.1, get-put m key key v', eq_refl key)
  ]
]
delete_in-follow [] key nil e = absurd (ground arith)
delete_in-follow [] key nil_map e = absurd (ground arith)
delete_in-follow [] key (string s) e = absurd (ground arith)
delete_in-follow [] key (bytes s) e = absurd (ground arith)
delete_in-follow [] key (other n) e = absurd (ground arith)
delete_in-follow (key' ∷ keys) key nil e = absurd (ground arith)
delete_in-follow (key' ∷ keys) key nil_map e = absurd (ground arith)
delete_in-follow (key' ∷ keys) key (string s) e = absurd (ground arith)
delete_in-follow (key' ∷ keys) key (bytes s) e = absurd (ground arith)
delete_in-follow (key' ∷ keys) key (other n) e = absurd (ground arith)

-- Deleting changes nothing exactly if nothing is at the path.
delete_in-none :
    (keys : List String) (key : String) (v : Value)
    → delete_in (key ∷ keys) v ≡ none
    → follow (key ∷ keys) v ≡ none
unfolding delete_in follow
delete_in-none [] key (map_of m) e = ground arith
delete_in-none (key' ∷ keys) key (map_of m) e = elim (Option-cases (get key m)) [
  | inl absent ↦ ground arith
  | inr (v, ev) ↦ elim (Option-cases (delete_in (key' ∷ keys) v)) [
    | inl bad ↦ ground (arith, ev, delete_in-none keys key' v bad)
    | inr (p, ep) ↦ absurd (ground arith)
  ]
]
delete_in-none _ key nil e = refl
delete_in-none _ key nil_map e = refl
delete_in-none _ key (string s) e = refl
delete_in-none _ key (bytes s) e = refl
delete_in-none _ key (other n) e = refl

pub body_set_flat :
    (keys : List String) (value : Value) (e : Entry)
    → is_map value ≡ false
    → body_set keys value e ≡ set_value keys value e
unfolding body_set
body_set_flat keys (map_of m) e flat = absurd (ground arith)
body_set_flat keys nil_map e flat = absurd (ground arith)
body_set_flat keys nil e flat = refl
body_set_flat keys (string s) e flat = refl
body_set_flat keys (bytes s) e flat = refl
body_set_flat keys (other n) e flat = refl

-- A write below the body goes to its map, or to a new one.
set_into_map :
    (key : String) (keys : List String) (value : Value) (e : Entry) {e' : Entry}
    → is_map value ≡ false
    → body_set (key ∷ keys) value e ≡ some e'
    → (m : Fields) × (m' : Fields) × (body_map e.body ≡ some m)
      × (set_in (key ∷ keys) value m ≡ some m')
      × (e' ≡ record e { body = map_of m' })
unfolding set_value
set_into_map key keys value e {e'} flat eq =
    let plain = sym (body_set_flat (key ∷ keys) value e flat) ∙ eq in
    elim (Option-cases (body_map e.body)) [
      | inl bad ↦ absurd (ground arith)
      | inr (m, em) ↦ elim (Option-cases (set_in (key ∷ keys) value m)) [
        | inl bad ↦ absurd (ground arith)
        | inr (m', em') ↦ (m, m', em, em', ground (arith, plain, em, em'))
      ]
    ]

-- After a write of a value that is no map to a path below the body, the same path reads that value,
-- whatever the parser is, and the read changes nothing.
pub body_get-body_set :
    (unmarshal : String → Option (Option Fields)) (key : String) (keys : List String)
    (value : Value) (e : Entry) {e' : Entry}
    → is_map value ≡ false
    → body_set (key ∷ keys) value e ≡ some e'
    → body_get unmarshal (key ∷ keys) e' ≡ some (some value, e')
unfolding body_get parse_body_json
body_get-body_set unmarshal key keys value e {e'} flat eq =
    let (m, m', em, es, ee) = set_into_map key keys value e flat eq in
    rw ee (ground (arith, follow-set_in key keys value m es))

-- A write of a value that is no map to a path of a map body leaves what every path reads that parts
-- from it.
pub body_get-body_set_apart :
    (unmarshal : String → Option (Option Fields)) (key read : String) (keys reads : List String)
    (value : Value) (e : Entry) {e' : Entry} (m : Fields)
    → is_map value ≡ false
    → e.body ≡ map_of m
    → Part (key ∷ keys) (read ∷ reads)
    → body_set (key ∷ keys) value e ≡ some e'
    → body_get unmarshal (read ∷ reads) e' ≡ some (follow (read ∷ reads) (map_of m), e')
unfolding body_get parse_body_json
body_get-body_set_apart unmarshal key read keys reads value e m flat body p eq =
    let (n, n', em, es, ee) = set_into_map key keys value e flat eq in
    let same : m ≡ n = ground (arith, body, em) in
    let frame = follow-set_in_apart (key ∷ keys) (read ∷ reads) value n p es in
    rw ee (rw same (ground (arith, frame)))

-- Deleting a path below the body gives what was there, after which nothing is there; if nothing was
-- there, the entry stays as it is.
pub body_delete-follow :
    (key : String) (keys : List String) (e : Entry)
    → ((follow (key ∷ keys) e.body ≡ none) × (body_delete (key ∷ keys) e ≡ (none, e)))
      ⊎ ((old : Value) × (follow (key ∷ keys) e.body ≡ some old)
          × ((body_delete (key ∷ keys) e).0 ≡ some old)
          × (follow (key ∷ keys) (body_delete (key ∷ keys) e).1.body ≡ none))
unfolding body_delete
body_delete-follow key keys e = elim (Option-cases (delete_in (key ∷ keys) e.body)) [
  | inl absent ↦
      let nothing = delete_in-none keys key e.body absent in inl (nothing, ground (arith, absent))
  | inr ((old, left), found) ↦
      let at_path = delete_in-follow keys key e.body found in
      inr (old, at_path.0, ground (arith, found), ground (arith, found, at_path.1))
]
