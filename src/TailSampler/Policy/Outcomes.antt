-- ===== src/TailSampler/Policy/Outcomes.antt =====
-- What a list of verdicts comes to, and when an operator is "and"
-- (processor/signoztailsampler/evaluator.go, Evaluate).
use Prim.Native.Nat.{ℕ, ◌+◌, ◌≤◌}
use Prim.Native.String.{String}
use mathlib.Core.Bool.{Bool, true, false, ◌&&◌, ◌||◌}
use mathlib.Core.List.{List, [], ◌∷◌}
use mathlib.Core.Option.{Option, none, some}
use mathlib.Core.Path.{◌≡◌, refl}
use native.Mathlib.Omega.{arith}
use otel_collector.Common.Tests.{if◌then◌else◌, nat_eqb}
use otel_collector.TailSampler.Filters.{bytes}
use otel_collector.TailSampler.Policy.{
  lower, is_and_bytes, is_and, is_result, is_sampled, is_not_sampled,
}
use otel_collector.TailSampler.Trace.{
  Decision, unspecified, pending, sampled, not_sampled, dropped, error, invert_sampled,
  invert_not_sampled, no_result, Outcome,
}

-- Some filter matches, or refuses.
unfoldable pub has_sampled : List Decision → Bool
has_sampled [] = false
has_sampled (sampled ∷ ds) = true
has_sampled (_ ∷ ds) = has_sampled ds

unfoldable pub has_refusal : List Decision → Bool
has_refusal [] = false
has_refusal (not_sampled ∷ ds) = true
has_refusal (_ ∷ ds) = has_refusal ds

-- "and" in letters of either case.
unfoldable pub spells_and : List ℕ → Bool
spells_and (x ∷ y ∷ z ∷ []) =
    (nat_eqb x 97 || nat_eqb x 65)
    && (nat_eqb y 110 || nat_eqb y 78)
    && (nat_eqb z 100 || nat_eqb z 68)
spells_and _ = false

-- The first decision without an error that is not no_result, or else another outcome.
unfoldable pub first_result : List Outcome → Outcome → Outcome
first_result [] own = own
first_result ((decision, some e) ∷ os) own = first_result os own
first_result ((no_result, none) ∷ os) own = first_result os own
first_result ((decision, none) ∷ os) own = (decision, none)

pub is_sampled-cons :
    (d : Decision) (ds : List Decision) → (is_sampled d || has_sampled ds) ≡ has_sampled (d ∷ ds)
unfolding has_sampled
is_sampled-cons unspecified ds = refl
is_sampled-cons pending ds = refl
is_sampled-cons sampled ds = refl
is_sampled-cons not_sampled ds = refl
is_sampled-cons dropped ds = refl
is_sampled-cons error ds = refl
is_sampled-cons invert_sampled ds = refl
is_sampled-cons invert_not_sampled ds = refl
is_sampled-cons no_result ds = refl

pub is_not_sampled-cons :
    (d : Decision) (ds : List Decision)
    → (is_not_sampled d || has_refusal ds) ≡ has_refusal (d ∷ ds)
unfolding has_refusal
is_not_sampled-cons unspecified ds = refl
is_not_sampled-cons pending ds = refl
is_not_sampled-cons sampled ds = refl
is_not_sampled-cons not_sampled ds = refl
is_not_sampled-cons dropped ds = refl
is_not_sampled-cons error ds = refl
is_not_sampled-cons invert_sampled ds = refl
is_not_sampled-cons invert_not_sampled ds = refl
is_not_sampled-cons no_result ds = refl

pub first_result-cons :
    (d : Decision) (err : Option String) (os : List Outcome) (own : Outcome)
    → (elim err [
      | some e ↦ first_result os own
      | none ↦ if is_result d then (d, none) else first_result os own
    ])
      ≡ first_result ((d, err) ∷ os) own
unfolding first_result
first_result-cons d (some e) os own = refl
first_result-cons unspecified none os own = refl
first_result-cons pending none os own = refl
first_result-cons sampled none os own = refl
first_result-cons not_sampled none os own = refl
first_result-cons dropped none os own = refl
first_result-cons error none os own = refl
first_result-cons invert_sampled none os own = refl
first_result-cons invert_not_sampled none os own = refl
first_result-cons no_result none os own = refl

-- A letter is the lower case of itself and of its capital, which stands 32 before it.
nat_eqb-lower :
    (c u : ℕ) → 65 ≤ u → u ≤ 90 → nat_eqb (lower c) (u + 32) ≡ (nat_eqb c (u + 32) || nat_eqb c u)
unfolding lower
nat_eqb-lower c u lo hi = ground arith

is_and_bytes-spells_and : (s : List ℕ) → is_and_bytes s ≡ spells_and s
unfolding is_and_bytes spells_and
is_and_bytes-spells_and [] = refl
is_and_bytes-spells_and (x ∷ []) = refl
is_and_bytes-spells_and (x ∷ y ∷ []) = refl
is_and_bytes-spells_and (x ∷ y ∷ z ∷ []) =
    rw
      (
        nat_eqb-lower x 65 (omega arith) (omega arith),
        nat_eqb-lower y 78 (omega arith) (omega arith),
        nat_eqb-lower z 68 (omega arith) (omega arith),
      )
      refl
is_and_bytes-spells_and (x ∷ y ∷ z ∷ w ∷ s) = refl

pub is_and-spells_and : (s : String) → is_and s ≡ spells_and (bytes s)
unfolding is_and
is_and-spells_and s = is_and_bytes-spells_and (bytes s)
