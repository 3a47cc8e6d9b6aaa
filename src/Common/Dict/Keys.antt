-- ===== src/Common/Dict/Keys.antt =====
-- The keys of a map under its operations.
use Prim.Native.Nat.{suc, ◌≤◌}
use mathlib.Core.List.{List, [], ◌∷◌, ◌++◌}
use mathlib.Core.List.Permᴰ.{Permᴰ, nil, cons, swap, trans}
use mathlib.Core.Option.{none, some, map}
use mathlib.Core.Logic.{◌≢◌, inl, inr}
use mathlib.Core.Path.{◌≡◌, refl, ap, subst}
use native.Mathlib.Omega.{arith}
use otel_collector.Common.Dict.{
  lookup, insert, remove, modify, keys, IsDistinct, lookup-insert, lookup-remove,
}
use otel_collector.Common.Lists.{length, All}
use otel_collector.Common.Tests.{if◌then◌else◌, Bool-cases, Comparable, ◌==◌}

module _ {ℓ κ} {K : Type ℓ} {V : Type κ} ⦃c : Comparable K⦄ where
  pub length-keys : (m : List (K × V)) → length (keys m) ≡ length m
  length-keys [] = refl
  length-keys (x ∷ m) = omega (arith, length-keys m)

  pub keys-insert_new :
      (k : K) (v : V) (m : List (K × V))
      → lookup k m ≡ none
      → keys (insert k v m) ≡ keys m ++ k ∷ []
  unfolding lookup insert
  keys-insert_new k v [] h = refl
  keys-insert_new k v ((j, w) ∷ m) h = ground (arith, keys-insert_new k v m)

  pub lookup-modify :
      (k j : K) (f : V → V) (m : List (K × V))
      → lookup j (modify k f m) ≡ (if k == j then map f (lookup j m) else lookup j m)
  unfolding lookup modify
  lookup-modify k j f [] = ground arith
  lookup-modify k j f ((i, w) ∷ m) =
      ground (arith, c.same_iff k j, c.same_iff i k, c.same_iff i j, lookup-modify k j f m)

  pub keys-modify : (k : K) (f : V → V) (m : List (K × V)) → keys (modify k f m) ≡ keys m
  unfolding modify
  keys-modify k f [] = refl
  keys-modify k f ((j, w) ∷ m) = ground (arith, keys-modify k f m)

  pub insert_new-IsDistinct :
      (k : K) (v : V) (m : List (K × V))
      → lookup k m ≡ none
      → IsDistinct m
      → IsDistinct (insert k v m)
  unfolding lookup insert
  insert_new-IsDistinct k v [] h d = (refl, tt)
  insert_new-IsDistinct k v ((j, w) ∷ m) h d =
      ground
        (arith, c.same_iff j k, c.same_iff k j, lookup-insert m k j v, insert_new-IsDistinct k v m)

  lookup-modify-none :
      (k j : K) (f : V → V) (m : List (K × V)) → lookup j m ≡ none → lookup j (modify k f m) ≡ none
  lookup-modify-none k j f m h = ground (arith, lookup-modify k j f m)

  pub modify-IsDistinct :
      (k : K) (f : V → V) (m : List (K × V)) → IsDistinct m → IsDistinct (modify k f m)
  unfolding modify
  modify-IsDistinct k f [] d = d
  modify-IsDistinct k f ((j, w) ∷ m) d =
      ground (arith, lookup-modify-none k j f m, modify-IsDistinct k f m)

  pub remove_absent : (k : K) (m : List (K × V)) → lookup k m ≡ none → remove k m ≡ m
  unfolding lookup remove
  remove_absent k [] h = refl
  remove_absent k ((j, w) ∷ m) h = ground (arith, remove_absent k m)

  -- The oldest entry of a map without repetitions.
  pub remove_first :
      (k : K) (v : V) (m : List (K × V)) → lookup k m ≡ none → remove k ((k, v) ∷ m) ≡ m
  unfolding remove
  remove_first k v m h = ground (arith, c.same_iff k k, remove_absent k m h)

  pub lookup_first : (k : K) (v : V) (m : List (K × V)) → lookup k ((k, v) ∷ m) ≡ some v
  unfolding lookup
  lookup_first k v m = ground (arith, c.same_iff k k)

  remove-lookup-none :
      (k j : K) (m : List (K × V)) → lookup j m ≡ none → lookup j (remove k m) ≡ none
  remove-lookup-none k j m h = ground (arith, lookup-remove m k j)

  pub remove-IsDistinct : (k : K) (m : List (K × V)) → IsDistinct m → IsDistinct (remove k m)
  unfolding remove
  remove-IsDistinct k [] d = d
  remove-IsDistinct k ((j, w) ∷ m) d =
      ground (arith, remove-lookup-none k j m, remove-IsDistinct k m)

  -- Of a map without repetitions, at most one entry is removed.
  pub length-remove :
      (k : K) (m : List (K × V)) → IsDistinct m → length m ≤ suc (length (remove k m))
  unfolding remove
  length-remove k [] d = omega arith
  length-remove k ((j, w) ∷ m) d =
      ground (arith, remove_absent j m, length-remove k m, c.same_iff j k)

  pub insert-IsDistinct :
      (k : K) (v : V) (m : List (K × V)) → IsDistinct m → IsDistinct (insert k v m)
  unfolding insert lookup
  insert-IsDistinct k v [] d = (refl, tt)
  insert-IsDistinct k v ((j, w) ∷ m) d =
      ground (arith, c.same_iff j k, c.same_iff k j, lookup-insert m k j v, insert-IsDistinct k v m)

  pub length-insert_new :
      (k : K) (v : V) (m : List (K × V))
      → lookup k m ≡ none
      → length (insert k v m) ≡ suc (length m)
  unfolding insert lookup
  length-insert_new k v [] h = refl
  length-insert_new k v ((j, w) ∷ m) h = ground (arith, length-insert_new k v m)

  pub length-insert_old :
      (k : K) (v : V) (m : List (K × V)) → lookup k m ≢ none → length (insert k v m) ≡ length m
  unfolding insert lookup
  length-insert_old k v [] h = absurd (h refl)
  length-insert_old k v ((j, w) ∷ m) h = ground (arith, length-insert_old k v m)

  -- A test of the values of a map holds after an insert if it holds of the new value.
  pub All-insert {μ} :
      (P : V → Type μ) (k : K) (v : V) (m : List (K × V))
      → All (λ (p : K × V). P p.1) m
      → P v
      → All (λ (p : K × V). P p.1) (insert k v m)
  unfolding insert
  All-insert P k v [] all h = (h, tt)
  All-insert P k v ((j, w) ∷ m) all h = elim (Bool-cases (j == k)) [
    | inl same ↦ rw (same, insert) (h, all.1)
    | inr other ↦ rw (other, insert) (all.0, All-insert P k v m all.1 h)
  ]

  pub All-lookup {μ} :
      (P : V → Type μ) (k : K) (m : List (K × V)) {v : V}
      → All (λ (p : K × V). P p.1) m
      → lookup k m ≡ some v
      → P v
  unfolding lookup
  All-lookup P k [] all h = absurd (ground (arith, h))
  All-lookup P k ((j, w) ∷ m) {v} all h = elim (Bool-cases (j == k)) [
    | inl same ↦ let e : w ≡ v = ground (arith, same, h) in subst P e all.0
    | inr other ↦ All-lookup P k m all.1 (ground (arith, other, h))
  ]

  pub keys-insert_old :
      (k : K) (v old : V) (m : List (K × V)) → lookup k m ≡ some old → keys (insert k v m) ≡ keys m
  unfolding lookup insert
  keys-insert_old k v old [] h = ground (arith, h)
  keys-insert_old k v old ((j, w) ∷ m) h = ground (arith, keys-insert_old k v old m)

  -- The same keys are there in any order.
  pub lookup-Perm-none :
      (k : K) (m n : List (K × V)) → Permᴰ m n → lookup k m ≡ none → lookup k n ≡ none
  unfolding lookup
  lookup-Perm-none k m n nil h = h
  lookup-Perm-none k _ _ (cons {a = a} {b = b} {l₁ = l₁} {l₂ = l₂} e r) h =
      let same : a.0 ≡ b.0 = ap (λ x. x.0) e in
      ground (arith, same, lookup-Perm-none k l₁ l₂ r, c.same_iff a.0 k, c.same_iff b.0 k)
  lookup-Perm-none k _ _ (swap {a = a} {b = b} {a' = a'} {b' = b'} d e) h =
      let first : a.0 ≡ b'.0 = ap (λ x. x.0) d in
      let second : b.0 ≡ a'.0 = ap (λ x. x.0) e in
      ground (
        arith,
        first,
        second,
        c.same_iff a.0 k,
        c.same_iff b.0 k,
        c.same_iff a'.0 k,
        c.same_iff b'.0 k,
      )
  lookup-Perm-none k m n (trans {l₂ = l} r s) h =
      lookup-Perm-none k l n s (lookup-Perm-none k m l r h)

  swap-IsDistinct :
      (a b : K × V) (m : List (K × V)) → IsDistinct (a ∷ b ∷ m) → IsDistinct (b ∷ a ∷ m)
  unfolding lookup
  swap-IsDistinct a b m d = ground (arith, c.same_iff a.0 b.0, c.same_iff b.0 a.0)

  pub Perm-IsDistinct : (m n : List (K × V)) → Permᴰ m n → IsDistinct m → IsDistinct n
  Perm-IsDistinct m n nil d = d
  Perm-IsDistinct _ _ (cons {a = a} {b = b} {l₁ = l₁} {l₂ = l₂} e r) d = (
    lookup-Perm-none b.0 l₁ l₂ r (subst (λ x. lookup x.0 l₁ ≡ none) e d.0),
    Perm-IsDistinct l₁ l₂ r d.1,
  )
  Perm-IsDistinct _ _ (swap {a = a} {b = b} {a' = a'} {b' = b'} {l = l} x y) d =
      subst (λ z. IsDistinct (z ∷ b' ∷ l)) y
        (subst (λ z. IsDistinct (b ∷ z ∷ l)) x (swap-IsDistinct a b l d))
  Perm-IsDistinct m n (trans {l₂ = l} r s) d = Perm-IsDistinct l n s (Perm-IsDistinct m l r d)
