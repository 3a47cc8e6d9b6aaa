-- ===== src/Common/Texts/Order.antt =====
-- The order of texts, and what sorting does not depend on.
use mathlib.Core.Bool.{true, false}
use mathlib.Core.List.{List, [], ◌∷◌, ◌++◌}
use mathlib.Core.Path.{◌≡◌, refl}
use native.Mathlib.Omega.{arith}
use otel_collector.Common.Texts.{Text, text_ltb, sorted_insert, sort_strings}

ltb_connex : (s t : Text) → text_ltb s t ≡ false → text_ltb t s ≡ false → s ≡ t
unfolding text_ltb
ltb_connex [] [] p q = refl
ltb_connex [] (b ∷ t) p q = ground arith
ltb_connex (a ∷ s) [] p q = ground arith
ltb_connex (a ∷ s) (b ∷ t) p q = ground (arith, ltb_connex s t)

pub ltb_asym : (s t : Text) → text_ltb s t ≡ true → text_ltb t s ≡ false
unfolding text_ltb
ltb_asym [] [] p = ground arith
ltb_asym [] (b ∷ t) p = refl
ltb_asym (a ∷ s) [] p = ground arith
ltb_asym (a ∷ s) (b ∷ t) p = ground (arith, ltb_asym s t)

ltb_trans : (s t u : Text) → text_ltb s t ≡ true → text_ltb t u ≡ true → text_ltb s u ≡ true
unfolding text_ltb
ltb_trans [] [] u p q = ground arith
ltb_trans [] (b ∷ t) [] p q = ground arith
ltb_trans [] (b ∷ t) (c ∷ u) p q = refl
ltb_trans (a ∷ s) [] u p q = ground arith
ltb_trans (a ∷ s) (b ∷ t) [] p q = ground arith
ltb_trans (a ∷ s) (b ∷ t) (c ∷ u) p q = ground (arith, ltb_trans s t u)

pub sorted_insert_comm :
    (a b : Text) (l : List Text)
    → sorted_insert a (sorted_insert b l) ≡ sorted_insert b (sorted_insert a l)
unfolding sorted_insert
sorted_insert_comm a b [] = ground (arith, ltb_connex a b, ltb_asym a b, ltb_asym b a)
sorted_insert_comm a b (c ∷ l) = ground (
  arith,
  sorted_insert_comm a b l,
  ltb_connex a b,
  ltb_asym a b,
  ltb_asym b a,
  ltb_trans a c b,
  ltb_trans b c a,
  ltb_connex a c,
  ltb_connex b c,
)

-- A text at the end is sorted in like one at the front.
pub sort_strings-append :
    (s : Text) (ts : List Text) → sort_strings (ts ++ s ∷ []) ≡ sorted_insert s (sort_strings ts)
unfolding sort_strings sorted_insert
sort_strings-append s [] = refl
sort_strings-append s (t ∷ ts) =
    rw (sort_strings-append s ts) (sorted_insert_comm t s (sort_strings ts))
