-- ===== src/Fingerprint/Labels.antt =====
-- Which labels a fingerprint is made of (utils/fingerprint/fingerprint.go: Identifier, Synonyms).
use Prim.Native.String.{String}
use mathlib.Core.Bool.{Bool, true, false, ◌||◌}
use mathlib.Core.List.{List, [], ◌∷◌}
use mathlib.Core.Logic.{◌⊎◌, inl, inr}
use mathlib.Core.Path.{◌≡◌, refl}
use native.Mathlib.Omega.{arith}
use otel_collector.Common.Tests.{Bool-cases, comparable_string}
use otel_collector.Fingerprint.{
  DimensionHierarchyNode, DimensionHierarchyNodes, node, no_more, more, or_else, contains, synonyms,
  sub_synonyms,
}

-- A label of a hierarchy, at any depth.
unfoldable mutual
  pub has_label : String → DimensionHierarchyNode → Bool
  has_label label (node labels subs) =
      let below = have_label label subs in contains labels label || below

  pub have_label : String → DimensionHierarchyNodes → Bool
  have_label label no_more = false
  have_label label (more s subs) = let rest = have_label label subs in has_label label s || rest

contains-empty : (label : String) → contains [] label ≡ false
unfolding contains
contains-empty label = refl

-- A list of names is empty or holds the label.
abbrev Own : String → List String → Type 0
Own label names = (names ≡ []) ⊎ (contains names label ≡ true)

Own-or_else :
    (label : String) (names others : List String)
    → Own label names
    → Own label others
    → Own label (or_else names others)
Own-or_else label [] others own own' = own'
Own-or_else label (l ∷ names) others own own' = own

contains-or_else :
    (label : String) (names others : List String)
    → Own label names
    → contains (or_else names others) label ≡ (contains names label || contains others label)
unfolding contains
contains-or_else label [] others own = refl
contains-or_else label (l ∷ names) others (inl e) = absurd (ground (arith, e))
contains-or_else label (l ∷ names) others (inr e) = ground (arith, e)

contains-or_else_some :
    (l : String) (names others : List String)
    → contains (or_else names others) l ≡ true
    → (contains names l || contains others l) ≡ true
unfolding contains
contains-or_else_some l [] others e = e
contains-or_else_some l (n ∷ names) others e = ground (arith, e)

mutual
  unfolding synonyms

  synonyms-Own : (label : String) (t : DimensionHierarchyNode) → Own label (synonyms label t)
  synonyms-Own label (node labels subs) = elim (Bool-cases (contains labels label)) [
    | inl yes_here ↦ rw yes_here (inr yes_here)
    | inr not_here ↦ rw not_here (sub_synonyms-Own label subs)
  ]

  sub_synonyms-Own :
      (label : String) (subs : DimensionHierarchyNodes) → Own label (sub_synonyms label subs)
  sub_synonyms-Own label no_more = inl refl
  sub_synonyms-Own label (more s subs) =
      Own-or_else label _ _ (synonyms-Own label s) (sub_synonyms-Own label subs)

mutual
  unfolding synonyms has_label

  contains-synonyms :
      (label : String) (t : DimensionHierarchyNode)
      → contains (synonyms label t) label ≡ has_label label t
  contains-synonyms label (node labels subs) = ground (arith, contains-sub_synonyms label subs)

  contains-sub_synonyms :
      (label : String) (subs : DimensionHierarchyNodes)
      → contains (sub_synonyms label subs) label ≡ have_label label subs
  contains-sub_synonyms label no_more = contains-empty label
  contains-sub_synonyms label (more s subs) = ground (
    arith,
    contains-or_else label (synonyms label s) (sub_synonyms label subs) (synonyms-Own label s),
    contains-synonyms label s,
    contains-sub_synonyms label subs,
  )

mutual
  unfolding synonyms has_label

  synonyms-known :
      (label l : String) (t : DimensionHierarchyNode)
      → contains (synonyms label t) l ≡ true
      → has_label l t ≡ true
  synonyms-known label l (node labels subs) e = elim (Bool-cases (contains labels label)) [
    | inl yes_here ↦ ground (arith, e, yes_here)
    | inr not_here ↦ ground (arith, e, not_here, sub_synonyms-known label l subs)
  ]

  sub_synonyms-known :
      (label l : String) (subs : DimensionHierarchyNodes)
      → contains (sub_synonyms label subs) l ≡ true
      → have_label l subs ≡ true
  sub_synonyms-known label l no_more e = absurd (ground (arith, e, contains-empty l))
  sub_synonyms-known label l (more s subs) e = ground (
    arith,
    contains-or_else_some l (synonyms label s) (sub_synonyms label subs) e,
    synonyms-known label l s,
    sub_synonyms-known label l subs,
  )

-- The synonyms of a label hold the label if the hierarchy has it, at any depth, and are none if it
-- has not; and each of them is a label of the hierarchy.
pub synonyms_lem :
    (label l : String) (t : DimensionHierarchyNode)
    → (contains (synonyms label t) label ≡ has_label label t)
      × ((synonyms label t ≡ []) ⊎ (has_label label t ≡ true))
      × ((contains (synonyms label t) l ≡ false) ⊎ (has_label l t ≡ true))
synonyms_lem label l t = (
  contains-synonyms label t,
  elim (synonyms-Own label t) [
    | inl e ↦ inl e
    | inr e ↦ inr (ground (arith, e, contains-synonyms label t))
  ],
  elim (Bool-cases (contains (synonyms label t) l)) [
    | inl e ↦ inr (synonyms-known label l t e)
    | inr e ↦ inl e
  ],
)
