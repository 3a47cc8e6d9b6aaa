-- ===== src/Flatten/Leaves.antt =====
-- Flattening against the list of the leaves (utils/flatten/flatten.go).
use Prim.Native.Nat.{ℕ, ◌+◌}
use mathlib.Core.List.{List, [], ◌∷◌, ◌++◌}
use mathlib.Core.Logic.{inl, inr}
use mathlib.Core.Option.{Option, none, some}
use mathlib.Core.Path.{◌≡◌, refl, sym, ap, subst, ◌∙◌}
use otel_collector.Common.Dict.{lookup, insert, IsDistinct, lookup-insert}
use otel_collector.Common.Dict.Keys.{insert-IsDistinct}
use otel_collector.Common.Tests.{if◌then◌else◌, ◌==◌, Bool-cases}
use otel_collector.Common.Texts.{Text, comparable_text, text_eqb, text_eqb_iff}
use otel_collector.Flatten.{
  Scalar, Json, Members, Elements, Flat, Formats, object, array, scalar, no_members, member,
  no_elements, element, full_key, flat_of, put_all, add_value, add_members, add_elements,
  flatten_json,
}

-- The keys of a path after a prefix, with dots between them; an empty prefix counts for nothing.
unfoldable pub joined : Text → List Text → Text
joined prefix [] = prefix
joined [] (key ∷ path) = joined key path
joined (b ∷ prefix) (key ∷ path) = joined ((b ∷ prefix) ++ b'.' ∷ key) path

joined-full_key :
    (prefix key : Text) (path : List Text)
    → joined prefix (key ∷ path) ≡ joined (full_key prefix key) path
unfolding joined full_key
joined-full_key [] key path = refl
joined-full_key (b ∷ prefix) key path = refl

module _ {F S O : Type 0} (f : Formats F S O) where
  -- Each path with a key before it.
  unfoldable pub below : Text → List (List Text × Scalar F S O) → List (List Text × Scalar F S O)
  below key [] = []
  below key ((path, s) ∷ rest) = (key ∷ path, s) ∷ below key rest

  unfoldable mutual
    unfolding below

    -- The scalars of a value with their paths, from left to right.
    pub leaves : Json F S O → List (List Text × Scalar F S O)
    leaves (object ms) = member_leaves ms
    leaves (array es) = element_leaves 0 es
    leaves (scalar s) = ([], s) ∷ []

    pub member_leaves : Members F S O → List (List Text × Scalar F S O)
    member_leaves no_members = []
    member_leaves (member key value ms) = below key (leaves value) ++ member_leaves ms

    pub element_leaves : ℕ → Elements F S O → List (List Text × Scalar F S O)
    element_leaves i no_elements = []
    element_leaves i (element value es) =
        below (f.decimal i) (leaves value) ++ element_leaves (i + 1) es

  -- What the last leaf whose joined path is the key says, or else what was there.
  unfoldable pub last_leaf :
      Text → Text → List (List Text × Scalar F S O) → Option (Flat F S O) → Option (Flat F S O)
  unfolding joined flat_of
  last_leaf key prefix [] old = old
  last_leaf key prefix ((path, s) ∷ rest) old =
      last_leaf key prefix rest (if joined prefix path == key then some (flat_of f s) else old)

  last_leaf-append :
      (key prefix : Text) (xs ys : List (List Text × Scalar F S O)) (old : Option (Flat F S O))
      → last_leaf key prefix (xs ++ ys) old ≡ last_leaf key prefix ys (last_leaf key prefix xs old)
  unfolding last_leaf
  last_leaf-append key prefix [] ys old = refl
  last_leaf-append key prefix ((path, s) ∷ xs) ys old = last_leaf-append key prefix xs ys _

  last_leaf-below :
      (key prefix k : Text) (xs : List (List Text × Scalar F S O)) (old : Option (Flat F S O))
      → last_leaf key prefix (below k xs) old ≡ last_leaf key (full_key prefix k) xs old
  unfolding last_leaf below
  last_leaf-below key prefix k [] old = refl
  last_leaf-below key prefix k ((path, s) ∷ xs) old =
      rw (last_leaf, joined-full_key prefix k path) (last_leaf-below key prefix k xs _)

  abbrev over : Option (Flat F S O) → Option (Flat F S O) → Option (Flat F S O)
  over none old = old
  over (some v) old = some v

  last_leaf-over :
      (key prefix : Text) (xs : List (List Text × Scalar F S O)) (new old : Option (Flat F S O))
      → last_leaf key prefix xs (over new old) ≡ over (last_leaf key prefix xs new) old
  unfolding last_leaf
  last_leaf-over key prefix [] new old = refl
  last_leaf-over key prefix ((path, s) ∷ xs) new old =
      elim (Bool-cases (joined prefix path == key)) [
        | inl e ↦ rw e (last_leaf-over key prefix xs (some (flat_of f s)) old)
        | inr e ↦ rw e (last_leaf-over key prefix xs new old)
      ]

  lookup-put_all :
      (key : Text) (sub result : List (Text × Flat F S O))
      → IsDistinct sub
      → lookup key (put_all f sub result) ≡ over (lookup key sub) (lookup key result)
  unfolding put_all lookup
  lookup-put_all key [] result d = refl
  lookup-put_all key ((k, v) ∷ sub) result d =
      lookup-put_all key sub (insert k v result) d.1
      ∙ rw (lookup-insert result k key v) (elim (Bool-cases (text_eqb k key)) [
        | inl e ↦ rw (e, subst (λ j. lookup j sub ≡ none) ((text_eqb_iff k key).0 e) d.0) refl
        | inr e ↦ rw e refl
      ])

  put_all-IsDistinct :
      (sub result : List (Text × Flat F S O))
      → IsDistinct result
      → IsDistinct (put_all f sub result)
  unfolding put_all
  put_all-IsDistinct [] result d = d
  put_all-IsDistinct ((k, v) ∷ sub) result d =
      put_all-IsDistinct sub (insert k v result) (insert-IsDistinct k v result d)

  mutual
    unfolding add_value

    add_value-IsDistinct :
        (value : Json F S O) (full : Text) (result : List (Text × Flat F S O))
        → IsDistinct result
        → IsDistinct (add_value f value full result)
    add_value-IsDistinct (object ms) full result d =
        put_all-IsDistinct (add_members f ms full []) result d
    add_value-IsDistinct (array es) full result d = add_elements-IsDistinct es full 0 result d
    add_value-IsDistinct (scalar s) full result d = insert-IsDistinct full (flat_of f s) result d

    add_members-IsDistinct :
        (ms : Members F S O) (prefix : Text) (result : List (Text × Flat F S O))
        → IsDistinct result
        → IsDistinct (add_members f ms prefix result)
    add_members-IsDistinct no_members prefix result d = d
    add_members-IsDistinct (member key value ms) prefix result d =
        add_members-IsDistinct ms prefix _
          (add_value-IsDistinct value (full_key prefix key) result d)

    add_elements-IsDistinct :
        (es : Elements F S O) (full : Text) (i : ℕ) (result : List (Text × Flat F S O))
        → IsDistinct result
        → IsDistinct (add_elements f es full i result)
    add_elements-IsDistinct no_elements full i result d = d
    add_elements-IsDistinct (element value es) full i result d =
        add_elements-IsDistinct es full (i + 1) _
          (put_all-IsDistinct (add_value f value (full_key full (f.decimal i)) []) result d)

  -- A map that was made from nothing is put over what there is.
  lookup-put_all_leaves :
      (key prefix : Text) (xs : List (List Text × Scalar F S O))
      (sub result : List (Text × Flat F S O))
      → IsDistinct sub
      → lookup key sub ≡ last_leaf key prefix xs none
      → lookup key (put_all f sub result) ≡ last_leaf key prefix xs (lookup key result)
  lookup-put_all_leaves key prefix xs sub result d h =
      lookup-put_all key sub result d
      ∙ ap (λ o. over o (lookup key result)) h
      ∙ sym (last_leaf-over key prefix xs none (lookup key result))

  mutual
    unfolding add_value leaves last_leaf joined lookup

    lookup-add_value :
        (key full : Text) (value : Json F S O) (result : List (Text × Flat F S O))
        → lookup key (add_value f value full result)
          ≡ last_leaf key full (leaves value) (lookup key result)
    lookup-add_value key full (object ms) result =
        lookup-put_all_leaves key full (member_leaves ms) (add_members f ms full []) result
          (add_members-IsDistinct ms full [] tt) (lookup-add_members key full ms [])
    lookup-add_value key full (array es) result = lookup-add_elements key full 0 es result
    lookup-add_value key full (scalar s) result = lookup-insert result full key (flat_of f s)

    lookup-add_members :
        (key prefix : Text) (ms : Members F S O) (result : List (Text × Flat F S O))
        → lookup key (add_members f ms prefix result)
          ≡ last_leaf key prefix (member_leaves ms) (lookup key result)
    lookup-add_members key prefix no_members result = refl
    lookup-add_members key prefix (member k value ms) result =
        lookup-add_members key prefix ms (add_value f value (full_key prefix k) result)
        ∙ ap (last_leaf key prefix (member_leaves ms)) (
            lookup-add_value key (full_key prefix k) value result
            ∙ sym (last_leaf-below key prefix k (leaves value) (lookup key result)))
        ∙ sym (
            last_leaf-append key prefix (below k (leaves value)) (member_leaves ms)
              (lookup key result))

    lookup-add_elements :
        (key full : Text) (i : ℕ) (es : Elements F S O) (result : List (Text × Flat F S O))
        → lookup key (add_elements f es full i result)
          ≡ last_leaf key full (element_leaves i es) (lookup key result)
    lookup-add_elements key full i no_elements result = refl
    lookup-add_elements key full i (element value es) result =
        let k = f.decimal i in
        let sub = add_value f value (full_key full k) [] in
        lookup-add_elements key full (i + 1) es (put_all f sub result)
        ∙ ap (last_leaf key full (element_leaves (i + 1) es)) (
            lookup-put_all_leaves key (full_key full k) (leaves value) sub result
              (add_value-IsDistinct value (full_key full k) [] tt)
              (lookup-add_value key (full_key full k) value [])
            ∙ sym (last_leaf-below key full k (leaves value) (lookup key result)))
        ∙ sym (
            last_leaf-append key full (below k (leaves value)) (element_leaves (i + 1) es)
              (lookup key result))

  -- What FlattenJSON gives for a key is the scalar of the last leaf, in the order in which the maps
  -- and slices are ranged over, whose path below the prefix joins to that key with dots, and nothing
  -- if there is no such leaf.
  pub lookup-flatten_json :
      (key prefix : Text) (ms : Members F S O)
      → lookup key (flatten_json f ms prefix) ≡ last_leaf key prefix (member_leaves ms) none
  unfolding flatten_json lookup
  lookup-flatten_json key prefix ms = lookup-add_members key prefix ms []
