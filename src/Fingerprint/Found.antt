-- ===== src/Fingerprint/Found.antt =====
-- What the identifier of a resource is made of (utils/fingerprint/fingerprint.go: Identifier).
use Prim.Native.String.{String}
use mathlib.Core.Bool.{Bool, true, false, ◌||◌}
use mathlib.Core.List.{List, [], ◌∷◌, ◌++◌}
use mathlib.Core.Option.{none, some}
use mathlib.Core.Path.{◌≡◌, refl, sym, ◌∙◌}
use native.Mathlib.Omega.{arith}
use otel_collector.Common.Lists.{any}
use otel_collector.Common.Tests.{if◌then◌else◌, comparable_string}
use otel_collector.Fingerprint.{
  DimensionHierarchyNode, DimensionHierarchyNodes, node, no_more, more, IdLabelValue, value_of,
  first_label, or_else, identifier, sub_labels,
}

-- Every label of a hierarchy, at any depth.
unfoldable mutual
  pub labels_of : DimensionHierarchyNode → List String
  labels_of (node labels subs) = labels ++ labels_below subs

  pub labels_below : DimensionHierarchyNodes → List String
  labels_below no_more = []
  labels_below (more s subs) = labels_of s ++ labels_below subs

any-append {ℓ} :
    {A : Type ℓ} (p : A → Bool) (xs ys : List A) → any p (xs ++ ys) ≡ (any p xs || any p ys)
any-append p [] ys = refl
any-append p (x ∷ xs) ys = ground (arith, any-append p xs ys)

module _ {ℓ} {A : Type ℓ} (attributes : List (String × A)) where
  -- Whether the resource has a label.
  abbrev pub has_value : String → Bool
  has_value l = elim (value_of attributes l) [ none ↦ false | some v ↦ true ]

  -- The labels that the resource has, in the order of a list, with their values.
  unfoldable pub all_pairs : List String → List (IdLabelValue A)
  all_pairs [] = []
  all_pairs (l ∷ labels) =
      let rest = all_pairs labels in
      elim (value_of attributes l) [ none ↦ rest | some v ↦ (l, v) ∷ rest ]

  -- At most one member, the first.
  unfoldable pub at_most_one : List (IdLabelValue A) → List (IdLabelValue A)
  at_most_one [] = []
  at_most_one (x ∷ xs) = x ∷ []

  -- Of each node the first label that the resource has, and below it those of the first subhierarchy
  -- of which the resource has a label at any depth.
  unfoldable mutual
    unfolding all_pairs at_most_one

    pub first_pairs : DimensionHierarchyNode → List (IdLabelValue A)
    first_pairs (node labels subs) = at_most_one (all_pairs labels) ++ first_pairs_below subs

    pub first_pairs_below : DimensionHierarchyNodes → List (IdLabelValue A)
    first_pairs_below no_more = []
    first_pairs_below (more s subs) =
        let here = first_pairs s in
        let rest = first_pairs_below subs in if any has_value (labels_of s) then here else rest

  abbrev is_nonempty : List (IdLabelValue A) → Bool
  is_nonempty [] = false
  is_nonempty (x ∷ xs) = true

  first_label-all_pairs :
      (labels : List String) → first_label attributes labels ≡ at_most_one (all_pairs labels)
  unfolding first_label all_pairs at_most_one
  first_label-all_pairs [] = refl
  first_label-all_pairs (l ∷ labels) = ground (arith, first_label-all_pairs labels)

  is_nonempty-append :
      (xs ys : List (IdLabelValue A)) → is_nonempty (xs ++ ys) ≡ (is_nonempty xs || is_nonempty ys)
  is_nonempty-append [] ys = refl
  is_nonempty-append (x ∷ xs) ys = refl

  is_nonempty-or_else :
      (xs ys : List (IdLabelValue A))
      → is_nonempty (or_else xs ys) ≡ (is_nonempty xs || is_nonempty ys)
  is_nonempty-or_else [] ys = refl
  is_nonempty-or_else (x ∷ xs) ys = refl

  is_nonempty-first_label :
      (labels : List String) → is_nonempty (first_label attributes labels) ≡ any has_value labels
  unfolding first_label
  is_nonempty-first_label [] = refl
  is_nonempty-first_label (l ∷ labels) = ground (arith, is_nonempty-first_label labels)

  mutual
    unfolding identifier labels_of

    is_nonempty-identifier :
        (t : DimensionHierarchyNode)
        → is_nonempty (identifier attributes t) ≡ any has_value (labels_of t)
    is_nonempty-identifier (node labels subs) =
        is_nonempty-append (first_label attributes labels) (sub_labels attributes subs)
        ∙ rw (is_nonempty-first_label labels, is_nonempty-sub_labels subs)
            (sym (any-append has_value labels (labels_below subs)))

    is_nonempty-sub_labels :
        (subs : DimensionHierarchyNodes)
        → is_nonempty (sub_labels attributes subs) ≡ any has_value (labels_below subs)
    is_nonempty-sub_labels no_more = refl
    is_nonempty-sub_labels (more s subs) =
        is_nonempty-or_else (identifier attributes s) (sub_labels attributes subs)
        ∙ rw (is_nonempty-identifier s, is_nonempty-sub_labels subs)
            (sym (any-append has_value (labels_of s) (labels_below subs)))

  or_else-is_nonempty :
      (xs ys : List (IdLabelValue A)) → or_else xs ys ≡ (if is_nonempty xs then xs else ys)
  or_else-is_nonempty [] ys = refl
  or_else-is_nonempty (x ∷ xs) ys = refl

  mutual
    unfolding identifier first_pairs

    identifier_first : (t : DimensionHierarchyNode) → identifier attributes t ≡ first_pairs t
    identifier_first (node labels subs) =
        rw (first_label-all_pairs labels, sub_labels_first subs) refl

    sub_labels_first :
        (subs : DimensionHierarchyNodes) → sub_labels attributes subs ≡ first_pairs_below subs
    sub_labels_first no_more = refl
    sub_labels_first (more s subs) =
        or_else-is_nonempty (identifier attributes s) (sub_labels attributes subs)
        ∙ rw (is_nonempty-identifier s, identifier_first s, sub_labels_first subs) refl

-- The identifier of a resource holds, from the root of the hierarchy down, the first label of each
-- node that the resource has, with its value, if it has any; below a node it goes on with the first
-- subhierarchy of which the resource has a label at any depth, and with no other.
pub identifier-first_pairs {ℓ} :
    {A : Type ℓ} (attributes : List (String × A)) (t : DimensionHierarchyNode)
    → identifier attributes t ≡ first_pairs attributes t
identifier-first_pairs attributes t = identifier_first attributes t
