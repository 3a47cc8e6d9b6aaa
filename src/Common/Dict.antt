-- ===== src/Common/Dict.antt =====
-- Go's maps as association lists in order of first insertion.
pub mod Keys
use mathlib.Core.List.{List, [], ◌∷◌}
use mathlib.Core.Option.{Option, none, some}
use mathlib.Core.Path.{◌≡◌, refl}
use native.Mathlib.Omega.{arith}
use otel_collector.Common.Tests.{if◌then◌else◌, Comparable, ◌==◌}

module _ {ℓ κ} {K : Type ℓ} {V : Type κ} ⦃c : Comparable K⦄ where
  -- `v, ok := m[k]`
  unfoldable pub lookup : K → List (K × V) → Option V
  lookup key [] = none
  lookup key ((here, value) ∷ rest) = if here == key then some value else lookup key rest

  -- `m[k] = v`
  unfoldable pub insert : K → V → List (K × V) → List (K × V)
  insert key value [] = (key, value) ∷ []
  insert key value ((here, old) ∷ rest) =
      if here == key then (here, value) ∷ rest else (here, old) ∷ insert key value rest

  -- `delete(m, k)`
  unfoldable pub remove : K → List (K × V) → List (K × V)
  remove k [] = []
  remove k ((j, w) ∷ m) = let rest = remove k m in if j == k then rest else (j, w) ∷ rest

  -- A write through the pointer that the map holds for a key: a missing key changes nothing.
  unfoldable pub modify : K → (V → V) → List (K × V) → List (K × V)
  modify k f [] = []
  modify k f ((j, w) ∷ m) = if j == k then (j, f w) ∷ m else (j, w) ∷ modify k f m

  abbrev pub keys : List (K × V) → List K
  keys [] = []
  keys ((j, w) ∷ m) = j ∷ keys m

  -- No key stands twice.
  abbrev pub IsDistinct : List (K × V) → Type κ
  IsDistinct [] = Unit
  IsDistinct ((j, w) ∷ m) = (lookup j m ≡ none) × IsDistinct m

  -- A later read of the key that was written gives the value, and of any other key what it gave.
  pub lookup-insert :
      (m : List (K × V)) (written read : K) (value : V)
      → lookup read (insert written value m)
        ≡ (if written == read then some value else lookup read m)
  unfolding insert lookup
  lookup-insert [] written read value = refl
  lookup-insert ((here, old) ∷ rest) written read value = ground (
    arith,
    lookup-insert rest written read value,
    c.same_iff here read,
    c.same_iff here written,
    c.same_iff written read,
  )

  pub lookup-remove :
      (m : List (K × V)) (gone read : K)
      → lookup read (remove gone m) ≡ (if gone == read then none else lookup read m)
  unfolding remove lookup
  lookup-remove [] gone read = ground arith
  lookup-remove ((here, old) ∷ rest) gone read = ground (
    arith,
    lookup-remove rest gone read,
    c.same_iff here read,
    c.same_iff here gone,
    c.same_iff gone read,
  )
