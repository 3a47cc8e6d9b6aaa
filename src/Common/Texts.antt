-- ===== src/Common/Texts.antt =====
-- Go's strings as lists of bytes: equality, the byte-wise order, and sorting by it.
pub mod Order
pub mod Sorted
use Prim.Native.Char.{code}
use Prim.Native.Nat.{ℕ}
use Prim.Native.String as S
use Prim.Native.String.{String}
use mathlib.Core.Bool.{Bool, true, false, ◌&&◌}
use mathlib.Core.List.{List, [], ◌∷◌}
use mathlib.Core.Logic.{◌↔◌}
use mathlib.Core.Path.{◌≡◌, refl}
use native.Mathlib.Omega.{arith}
use otel_collector.Common.Tests.{ltb, nat_eqb, nat_eqb_iff, if◌then◌else◌, Comparable}

abbrev pub Text : Type 0
Text = List ℕ

-- The bytes of an ASCII text, which are its code points.
abbrev pub ascii : String → Text
ascii S.[] = []
ascii (S.◌∷◌ c s) = code c ∷ ascii s

abbrev pub text_eqb : Text → Text → Bool
text_eqb [] [] = true
text_eqb [] (b ∷ t) = false
text_eqb (a ∷ s) [] = false
text_eqb (a ∷ s) (b ∷ t) = nat_eqb a b && text_eqb s t

pub text_eqb_iff : (s t : Text) → (text_eqb s t ≡ true) ↔ (s ≡ t)
text_eqb_iff [] [] = ground arith
text_eqb_iff [] (b ∷ t) = ground arith
text_eqb_iff (a ∷ s) [] = ground arith
text_eqb_iff (a ∷ s) (b ∷ t) = ground (arith, nat_eqb_iff a b, text_eqb_iff s t)

instance abbrev pub comparable_text : Comparable Text
comparable_text = record { same_iff = text_eqb_iff; same = text_eqb }

-- `s < t`
unfoldable pub text_ltb : Text → Text → Bool
text_ltb [] [] = false
text_ltb [] (b ∷ t) = true
text_ltb (a ∷ s) [] = false
text_ltb (a ∷ s) (b ∷ t) = if ltb a b then true else if ltb b a then false else text_ltb s t

-- What `sort.Strings` gives on distinct texts.
unfoldable pub sorted_insert : Text → List Text → List Text
sorted_insert s [] = s ∷ []
sorted_insert s (t ∷ ts) = if text_ltb t s then t ∷ sorted_insert s ts else s ∷ t ∷ ts

unfoldable pub sort_strings : List Text → List Text
sort_strings [] = []
sort_strings (s ∷ ts) = sorted_insert s (sort_strings ts)

-- `strings.HasPrefix(s, prefix)`
abbrev pub has_prefix : Text → Text → Bool
has_prefix s [] = true
has_prefix [] (b ∷ p) = false
has_prefix (a ∷ s) (b ∷ p) = nat_eqb a b && has_prefix s p
