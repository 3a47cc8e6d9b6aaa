-- ===== src/Metrics/Fingerprint/Order.antt =====
-- What the hash of attributes does not depend on (internal/common/fingerprint/fingerprint.go).
use Prim.Native.Nat.{ℕ}
use mathlib.Core.List.{List, [], ◌∷◌}
use mathlib.Core.List.Permᴰ.{Permᴰ, nil, cons, swap, trans}
use mathlib.Core.Bool.{false}
use mathlib.Core.Logic.{inl, inr}
use mathlib.Core.Option.{Option, none, some}
use mathlib.Core.Path.{◌≡◌, refl, sym, ap, subst, ◌∙◌}
use native.Mathlib.Omega.{arith}
use otel_collector.Common.Dict.{lookup, insert, keys, IsDistinct, lookup-insert}
use otel_collector.Common.Dict.Keys.{keys-insert_new, keys-insert_old, Perm-IsDistinct}
use otel_collector.Common.Tests.{◌==◌, Option-cases}
use otel_collector.Common.Texts.{Text, comparable_text, sorted_insert, sort_strings}
use otel_collector.Common.Texts.Order.{sorted_insert_comm, sort_strings-append}
use otel_collector.Metrics.{Platform, str_type}
use otel_collector.Metrics.Fingerprint.{
  AttributeValue, Attributes, range_attributes, new_attributes_from_pcommon_map, add_extras, val_of,
  hash_keys, FingerprintType, new_fingerprint,
}

-- Two maps with the same keys and values.
record Alike (m n : Attributes) : Type 0 where
  lookups : (k : Text) → lookup k m ≡ lookup k n
  sorted : sort_strings (keys m) ≡ sort_strings (keys n)

-- The sorted keys of a map, and one more key.
sorted_with : {A : Type 0} → Option A → Text → List Text → List Text
sorted_with none k ks = sorted_insert k ks
sorted_with (some v) k ks = ks

sorted_keys-insert :
    (k : Text) (v : AttributeValue) (m : Attributes)
    → sort_strings (keys (insert k v m)) ≡ sorted_with (lookup k m) k (sort_strings (keys m))
unfolding sorted_with
sorted_keys-insert k v m = elim (Option-cases (lookup k m)) [
  | inl new ↦ rw (new, keys-insert_new k v m new, sort_strings-append k (keys m)) refl
  | inr (old, is) ↦ rw (is, keys-insert_old k v old m is) refl
]

insert-Alike :
    (k : Text) (v : AttributeValue) {m n : Attributes}
    → Alike m n
    → Alike (insert k v m) (insert k v n)
insert-Alike k v {m} {n} e = record {
  lookups = λ j. rw (lookup-insert m k j v, lookup-insert n k j v, e.lookups j) refl;
  sorted = rw (sorted_keys-insert k v m, sorted_keys-insert k v n, e.lookups k, e.sorted) refl;
}

-- Two keys go into the order in either order.
sorted_with_comm :
    {A : Type 0} (f g : Option A) (j k : Text) (ks : List Text)
    → sorted_with f j (sorted_with g k ks) ≡ sorted_with g k (sorted_with f j ks)
unfolding sorted_with
sorted_with_comm none none j k ks = sorted_insert_comm j k ks
sorted_with_comm none (some b) j k ks = refl
sorted_with_comm (some a) g j k ks = refl

apart_sym : (j k : Text) → (j == k) ≡ false → (k == j) ≡ false
apart_sym j k h = ground (arith, comparable_text.same_iff j k, comparable_text.same_iff k j)

insert-insert-Alike :
    (j k : Text) (v w : AttributeValue) (m : Attributes)
    → (j == k) ≡ false
    → Alike (insert j v (insert k w m)) (insert k w (insert j v m))
insert-insert-Alike j k v w m apart = record {
  lookups = λ i. ground (
    arith,
    lookup-insert (insert k w m) j i v,
    lookup-insert (insert j v m) k i w,
    lookup-insert m k i w,
    lookup-insert m j i v,
    comparable_text.same_iff j i,
    comparable_text.same_iff k i,
    comparable_text.same_iff j k,
  );
  sorted =
      rw
        (
          sorted_keys-insert j v (insert k w m),
          sorted_keys-insert k w m,
          sorted_keys-insert k w (insert j v m),
          sorted_keys-insert j v m,
          lookup-insert m k j w,
          lookup-insert m j k v,
          apart,
          apart_sym j k apart,
        )
        (sorted_with_comm (lookup j m) (lookup k m) j k (sort_strings (keys m)));
}

-- What the two loops that fill a map share.
insert_each : {A : Type 0} → (A → AttributeValue) → List (Text × A) → Attributes → Attributes
insert_each f [] m = m
insert_each f (x ∷ xs) m = insert_each f xs (insert x.0 (f x.1) m)

Alike-trans : {l m n : Attributes} → Alike l m → Alike m n → Alike l n
Alike-trans d e = record { lookups = λ k. d.lookups k ∙ e.lookups k; sorted = d.sorted ∙ e.sorted }

first_apart :
    {A : Type 0} (k : Text) (x : Text × A) (m : List (Text × A))
    → lookup k (x ∷ m) ≡ none
    → (x.0 == k) ≡ false
unfolding lookup
first_apart k x m h = ground (arith, comparable_text.same_iff x.0 k)

module _ {A : Type 0} (f : A → AttributeValue) where
  insert_each-Alike :
      (xs : List (Text × A)) {m n : Attributes}
      → Alike m n
      → Alike (insert_each f xs m) (insert_each f xs n)
  unfolding insert_each
  insert_each-Alike [] e = e
  insert_each-Alike (x ∷ xs) e = insert_each-Alike xs (insert-Alike x.0 (f x.1) e)

  -- The order of the entries makes no difference.
  insert_each-Perm :
      (xs ys : List (Text × A)) {m n : Attributes}
      → Permᴰ xs ys
      → IsDistinct xs
      → Alike m n
      → Alike (insert_each f xs m) (insert_each f ys n)
  unfolding insert_each
  insert_each-Perm xs ys nil d e = e
  insert_each-Perm _ _ {m} {n} (cons {a = a} {b = b} {l₁ = xs} {l₂ = ys} same r) d e =
      insert_each-Perm xs ys r d.1 (
        subst (λ z. Alike (insert a.0 (f a.1) m) (insert z.0 (f z.1) n)) same
          (insert-Alike a.0 (f a.1) e))
  insert_each-Perm _ _ {m} {n} (swap {a = a} {b = b} {a' = a'} {b' = b'} {l = xs} x y) d e =
      subst (λ z. Alike (insert_each f (a ∷ b ∷ xs) m) (insert_each f (z ∷ b' ∷ xs) n)) y
        (subst (λ z. Alike (insert_each f (a ∷ b ∷ xs) m) (insert_each f (b ∷ z ∷ xs) n)) x
          (insert_each-Alike xs (
            Alike-trans (insert-Alike b.0 (f b.1) (insert-Alike a.0 (f a.1) e))
              (insert-insert-Alike b.0 a.0 (f b.1) (f a.1) n (first_apart a.0 b xs d.0)))))
  insert_each-Perm xs zs {m} {n} (trans {l₂ = ys} r s) d e =
      Alike-trans (insert_each-Perm xs ys r d e) (
        insert_each-Perm ys zs s (Perm-IsDistinct xs ys r d)
          (record { lookups = λ k. refl; sorted = refl }))

of_extra : Text → AttributeValue
of_extra v = record { data_type = str_type; val = v }

add_extras-insert_each :
    (extras : List (Text × Text)) (m : Attributes)
    → add_extras extras m ≡ insert_each of_extra extras m
unfolding add_extras insert_each of_extra
add_extras-insert_each [] m = refl
add_extras-insert_each (x ∷ extras) m = add_extras-insert_each extras _

val_of-Alike : {m n : Attributes} (k : Text) → Alike m n → val_of m k ≡ val_of n k
unfolding val_of
val_of-Alike k e = rw (val_of, e.lookups k) refl

hash_keys-Alike :
    {m n : Attributes} (ks : List Text) (h : ℕ) → Alike m n → hash_keys m ks h ≡ hash_keys n ks h
unfolding hash_keys
hash_keys-Alike [] h e = refl
hash_keys-Alike (k ∷ ks) h e = rw (hash_keys, val_of-Alike k e) (hash_keys-Alike ks _ e)

module _ {V F : Type 0} (p : Platform V F) where
  of_value : V → AttributeValue
  of_value v = record { data_type = p.value_type v; val = p.as_string v }

  range_attributes-insert_each :
      (attrs : List (Text × V)) (m : Attributes)
      → range_attributes p attrs m ≡ insert_each of_value attrs m
  unfolding range_attributes insert_each of_value
  range_attributes-insert_each [] m = refl
  range_attributes-insert_each (x ∷ attrs) m = range_attributes-insert_each attrs _

  filled : List (Text × V) → List (Text × Text) → Attributes
  filled attrs extras = insert_each of_extra extras (insert_each of_value attrs [])

  new_fingerprint-filled :
      (typ : FingerprintType) (offset : ℕ) (attrs : List (Text × V)) (extras : List (Text × Text))
      → (new_fingerprint p typ offset attrs extras).hash
        ≡ hash_keys (filled attrs extras) (sort_strings (keys (filled attrs extras))) offset
  unfolding new_fingerprint new_attributes_from_pcommon_map filled
  new_fingerprint-filled typ offset attrs extras =
      ap (λ m. hash_keys m (sort_strings (keys m)) offset)
        (add_extras-insert_each extras _
          ∙ ap (insert_each of_extra extras) (range_attributes-insert_each attrs []))

  -- The hash of a fingerprint is the same in whatever order Go ranges over the attributes and the
  -- extra labels, if no key stands twice in either.
  pub new_fingerprint-Perm :
      (typ : FingerprintType) (offset : ℕ) (attrs attrs' : List (Text × V))
      (extras extras' : List (Text × Text))
      → Permᴰ attrs attrs'
      → IsDistinct attrs
      → Permᴰ extras extras'
      → IsDistinct extras
      → (new_fingerprint p typ offset attrs extras).hash
        ≡ (new_fingerprint p typ offset attrs' extras').hash
  unfolding filled
  new_fingerprint-Perm typ offset attrs attrs' extras extras' r d r' d' =
      let same =
        insert_each-Perm of_value attrs attrs' r d
          (record { lookups = λ k. refl; sorted = refl }) in
      let alike = insert_each-Perm of_extra extras extras' r' d' same in
      new_fingerprint-filled typ offset attrs extras
      ∙ hash_keys-Alike _ offset alike
      ∙ ap (λ ks. hash_keys (filled attrs' extras') ks offset) alike.sorted
      ∙ sym (new_fingerprint-filled typ offset attrs' extras')
