-- ===== src/Fingerprint.antt =====
-- The dimension hierarchy and the fingerprint of a resource (utils/fingerprint/fingerprint.go). A map
-- of attributes is an association list with texts for values. What `FingerprintHash` and `Sprintf`
-- of a value print is a parameter.
use Prim.Native.String.{String}
use mathlib.Core.Bool.{Bool, true, false}
use mathlib.Core.List.{List, [], ◌∷◌, ◌++◌}
use mathlib.Core.Option.{Option, none, some}
use otel_collector.Common.Tests.{if◌then◌else◌, ◌==◌, comparable_string}
pub mod Found
pub mod Labels
pub mod Resource
mod Tests

mutual
  pub data DimensionHierarchyNode : Type 0 where
    node : List String → DimensionHierarchyNodes → DimensionHierarchyNode

  pub data DimensionHierarchyNodes : Type 0 where
    no_more : DimensionHierarchyNodes
    more : DimensionHierarchyNode → DimensionHierarchyNodes → DimensionHierarchyNodes

-- A label and its value.
abbrev pub IdLabelValue {ℓ} : Type ℓ → Type ℓ
IdLabelValue A = String × A

-- `attributes[label]`
unfoldable pub value_of {ℓ} : {A : Type ℓ} → List (String × A) → String → Option A
value_of [] label = none
value_of ((l, v) ∷ attributes) label = if l == label then some v else value_of attributes label

-- The first of the labels that is there, with its value.
unfoldable pub first_label {ℓ} :
    {A : Type ℓ} → List (String × A) → List String → List (IdLabelValue A)
first_label attributes [] = []
first_label attributes (l ∷ labels) = elim (value_of attributes l) [
  | some v ↦ (l, v) ∷ []
  | none ↦ first_label attributes labels
]

-- A list, or another one if it is empty.
abbrev pub or_else {ℓ} : {A : Type ℓ} → List A → List A → List A
or_else [] other = other
or_else (x ∷ xs) other = x ∷ xs

unfoldable mutual
  pub identifier {ℓ} :
      {A : Type ℓ} → List (String × A) → DimensionHierarchyNode → List (IdLabelValue A)
  identifier attributes (node labels subs) =
      first_label attributes labels ++ sub_labels attributes subs

  -- The loop over the subhierarchies: the first that names anything.
  pub sub_labels {ℓ} :
      {A : Type ℓ} → List (String × A) → DimensionHierarchyNodes → List (IdLabelValue A)
  sub_labels attributes no_more = []
  sub_labels attributes (more s subs) =
      or_else (identifier attributes s) (sub_labels attributes subs)

-- `slices.Contains(labels, label)`
unfoldable pub contains : List String → String → Bool
contains [] label = false
contains (l ∷ labels) label = if l == label then true else contains labels label

unfoldable mutual
  -- An empty list stands for nil, which a caller tells apart by its length only.
  pub synonyms : String → DimensionHierarchyNode → List String
  synonyms label (node labels subs) =
      let below = sub_synonyms label subs in if contains labels label then labels else below

  pub sub_synonyms : String → DimensionHierarchyNodes → List String
  sub_synonyms label no_more = []
  sub_synonyms label (more s subs) = or_else (synonyms label s) (sub_synonyms label subs)
