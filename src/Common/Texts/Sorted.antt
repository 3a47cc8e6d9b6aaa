-- ===== src/Common/Texts/Sorted.antt =====
-- What sorting texts keeps, and that it sorts.
use Prim.Native.Nat.{suc}
use mathlib.Core.Bool.{Bool, false, ◌||◌}
use mathlib.Core.List.{List, [], ◌∷◌}
use mathlib.Core.Logic.{inl, inr}
use mathlib.Core.Path.{◌≡◌, refl, ap, subst, ◌∙◌}
use native.Mathlib.Omega.{arith}
use otel_collector.Common.Lists.{length, any, All}
use otel_collector.Common.Tests.{if◌then◌else◌, Bool-cases}
use otel_collector.Common.Texts.{Text, text_ltb, sorted_insert, sort_strings}
use otel_collector.Common.Texts.Order.{ltb_asym}

All-sorted_insert :
    (P : Text → Type 0) (s : Text) (ts : List Text) → P s → All P ts → All P (sorted_insert s ts)
unfolding sorted_insert
All-sorted_insert P s [] p ps = (p, ps)
All-sorted_insert P s (t ∷ ts) p ps = elim (Bool-cases (text_ltb t s)) [
  | inl e ↦ rw e (ps.0, All-sorted_insert P s ts p ps.1)
  | inr e ↦ rw e (p, ps)
]

pub All-sort_strings : (P : Text → Type 0) (ts : List Text) → All P ts → All P (sort_strings ts)
unfolding sort_strings
All-sort_strings P [] ps = ps
All-sort_strings P (t ∷ ts) ps =
    All-sorted_insert P t (sort_strings ts) ps.0 (All-sort_strings P ts ps.1)

pub sorted_insert-first :
    (s : Text) (ts : List Text) → (t : Text) × (ts' : List Text) × (sorted_insert s ts ≡ t ∷ ts')
unfolding sorted_insert
sorted_insert-first s [] = (s, [], refl)
sorted_insert-first s (t ∷ ts) = elim (Bool-cases (text_ltb t s)) [
  | inl e ↦ rw e (t, sorted_insert s ts, refl)
  | inr e ↦ rw e (s, t ∷ ts, refl)
]

-- No text stands before a smaller one.
abbrev pub IsSorted : List Text → Type 0
IsSorted [] = Unit
IsSorted (s ∷ []) = Unit
IsSorted (s ∷ t ∷ ts) = (text_ltb t s ≡ false) × IsSorted (t ∷ ts)

sorted_insert-IsSorted : (s : Text) (ts : List Text) → IsSorted ts → IsSorted (sorted_insert s ts)
unfolding sorted_insert
sorted_insert-IsSorted s [] h = tt
sorted_insert-IsSorted s (t ∷ []) h = elim (Bool-cases (text_ltb t s)) [
  | inl e ↦ rw e (ltb_asym t s e, tt)
  | inr e ↦ rw e (e, tt)
]
sorted_insert-IsSorted s (t ∷ u ∷ ts) h =
    let rest = sorted_insert-IsSorted s (u ∷ ts) h.1 in
    elim (Bool-cases (text_ltb t s)) [
      | inr e ↦ rw e (e, h)
      | inl e ↦ elim (Bool-cases (text_ltb u s)) [
        | inl e' ↦
            rw (e, e')
              (
                h.0,
                subst (λ b. IsSorted (if b then u ∷ sorted_insert s ts else s ∷ u ∷ ts)) e' rest,
              )
        | inr e' ↦ rw (e, e') (ltb_asym t s e, (e', h.1))
      ]
    ]

pub sort_strings-IsSorted : (ts : List Text) → IsSorted (sort_strings ts)
unfolding sort_strings
sort_strings-IsSorted [] = tt
sort_strings-IsSorted (t ∷ ts) =
    sorted_insert-IsSorted t (sort_strings ts) (sort_strings-IsSorted ts)

any-sorted_insert :
    (p : Text → Bool) (s : Text) (ts : List Text) → any p (sorted_insert s ts) ≡ (p s || any p ts)
unfolding sorted_insert
any-sorted_insert p s [] = refl
any-sorted_insert p s (t ∷ ts) = ground (arith, any-sorted_insert p s ts)

pub any-sort_strings : (p : Text → Bool) (ts : List Text) → any p (sort_strings ts) ≡ any p ts
unfolding sort_strings
any-sort_strings p [] = refl
any-sort_strings p (t ∷ ts) =
    any-sorted_insert p t (sort_strings ts) ∙ ap (λ b. p t || b) (any-sort_strings p ts)

length-sorted_insert : (s : Text) (ts : List Text) → length (sorted_insert s ts) ≡ suc (length ts)
unfolding sorted_insert
length-sorted_insert s [] = refl
length-sorted_insert s (t ∷ ts) = ground (arith, length-sorted_insert s ts)

pub length-sort_strings : (ts : List Text) → length (sort_strings ts) ≡ length ts
unfolding sort_strings
length-sort_strings [] = refl
length-sort_strings (t ∷ ts) =
    length-sorted_insert t (sort_strings ts) ∙ ap (λ n. suc n) (length-sort_strings ts)
