-- ===== src/Metrics/Labels/Named.antt =====
-- Labels with their values in the order of their names, and which of them a JSON text can hold
-- (internal/common/fingerprint/label.go: marshalLabels).
use Prim.Native.Nat.{ℕ}
use mathlib.Core.Bool.{Bool, true, false, not, ◌&&◌, ◌||◌}
use mathlib.Core.List.{List, [], ◌∷◌}
use mathlib.Core.Logic.{inl, inr}
use mathlib.Core.Option.{none, some}
use mathlib.Core.Path.{◌≡◌, refl, ap}
use native.Mathlib.Omega.{arith}
use otel_collector.Common.Dict.{keys, lookup}
use otel_collector.Common.Dict.Keys.{All-lookup}
use otel_collector.Common.Lists.{any, All}
use otel_collector.Common.Tests.{if◌then◌else◌, nat_eqb, leb, Bool-cases, Option-cases}
use otel_collector.Common.Texts.{Text, comparable_text, text_eqb, text_eqb_iff}
use otel_collector.Metrics.Labels.{Labels, label_value}

-- A name of bytes that need no escape in JSON.
abbrev pub is_plain : ℕ → Bool
is_plain c = leb 32 c && not (nat_eqb c b'"') && not (nat_eqb c b'\\')

abbrev pub IsPlainName : Text → Type 0
IsPlainName name = All (λ c. is_plain c ≡ true) name

-- A value whose control bytes are tabs, line feeds and carriage returns.
abbrev pub is_text_byte : ℕ → Bool
is_text_byte c = leb 32 c || nat_eqb c 9 || nat_eqb c 10 || nat_eqb c 13

abbrev pub IsTextValue : Text → Type 0
IsTextValue value = All (λ c. is_text_byte c ≡ true) value

-- The names with their values, in their order.
unfoldable pub named : Labels → List Text → Labels
named attrs [] = []
named attrs (name ∷ names) = (name, label_value attrs name) ∷ named attrs names

pub keys-named : (attrs : Labels) (names : List Text) → keys (named attrs names) ≡ names
unfolding named
keys-named attrs [] = refl
keys-named attrs (name ∷ names) = ap (λ ns. name ∷ ns) (keys-named attrs names)

pub lookup-named :
    (attrs : Labels) (names : List Text) (n : Text)
    → lookup n (named attrs names)
      ≡ (if any (λ k. text_eqb k n) names then some (label_value attrs n) else none)
unfolding lookup named
lookup-named attrs [] n = refl
lookup-named attrs (name ∷ names) n = elim (Bool-cases (text_eqb name n)) [
  | inl same ↦
      rw (same, lookup) (ap (λ k. some (label_value attrs k)) ((text_eqb_iff name n).0 same))
  | inr other ↦ rw (other, lookup) (lookup-named attrs names n)
]

any-keys :
    (attrs : Labels) (n : Text)
    → any (λ k. text_eqb k n) (keys attrs)
      ≡ (elim (lookup n attrs) [ none ↦ false | some v ↦ true ])
unfolding lookup
any-keys [] n = refl
any-keys ((k, v) ∷ attrs) n = ground (arith, any-keys attrs n)

pub any-lookup :
    (attrs : Labels) (n : Text)
    → (if any (λ k. text_eqb k n) (keys attrs) then some (label_value attrs n) else none)
      ≡ lookup n attrs
unfolding label_value
any-lookup attrs n = rw (any-keys attrs n) (elim (Option-cases (lookup n attrs)) [
  | inl absent ↦ rw absent refl
  | inr (v, found) ↦ rw (label_value, found) refl
])

pub label_value-IsTextValue :
    (attrs : Labels) (name : Text)
    → All (λ (p : Text × Text). IsTextValue p.1) attrs
    → IsTextValue (label_value attrs name)
unfolding label_value
label_value-IsTextValue attrs name text = elim (Option-cases (lookup name attrs)) [
  | inl absent ↦ rw (label_value, absent) tt
  | inr (v, found) ↦ rw (label_value, found) (All-lookup IsTextValue name attrs text found)
]
