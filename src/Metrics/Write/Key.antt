-- ===== src/Metrics/Write/Key.antt =====
-- The keys of the cache of series (exporter/signozclickhousemetrics/exporter.go: makeCacheKey).
use Prim.Native.Nat.{ℕ, zero, suc, ◌+◌, ◌-◌, ◌*◌, ◌/◌, ◌%◌, ◌^◌, ◌<◌}
use mathlib.Core.Bool.{false}
use mathlib.Core.List.{[], ◌∷◌, ◌++◌}
use mathlib.Core.Logic.{inl, inr}
use mathlib.Core.Path.{◌≡◌, refl, ap, sym, ◌∙◌}
use native.Mathlib.Nat.{pow-suc}
use native.Mathlib.Omega.{arith}
use otel_collector.Common.Tests.{if◌then◌else◌, ltb, nat_eqb, ltb→lt, Bool-cases}
use otel_collector.Common.Texts.{Text}
use otel_collector.Metrics.Write.{format_digits, format_uint, make_cache_key}

-- Reads the digits up to a colon, and gives the number and what follows the colon.
read_number : ℕ → Text → ℕ × Text
read_number n [] = (n, [])
read_number n (c ∷ s) =
    let rest = read_number (n * 10 + (c - 48)) s in if nat_eqb c b':' then (n, s) else rest

digit_is_read :
    (n d : ℕ) (s : Text) → d < 10 → read_number n ((48 + d) ∷ s) ≡ read_number (n * 10 + d) s
unfolding read_number
digit_is_read n d s h = rw (no_colon, digit) refl
  where
    no_colon : nat_eqb (48 + d) b':' ≡ false
    no_colon = ground arith

    digit : 48 + d - 48 ≡ d
    digit = omega arith

format_digits-append :
    (fuel n : ℕ) (s t : Text) → format_digits fuel n s ++ t ≡ format_digits fuel n (s ++ t)
unfolding format_digits
format_digits-append zero n s t = refl
format_digits-append (suc fuel) n s t = elim (Bool-cases (ltb n 10)) [
  | inl small ↦ rw (format_digits, small) refl
  | inr big ↦ rw (format_digits, big) (format_digits-append fuel (n / 10) ((48 + n % 10) ∷ s) t)
]

read_number-format_digits :
    (fuel n : ℕ) (s : Text)
    → n < 10 ^ fuel
    → read_number 0 (format_digits fuel n s) ≡ read_number n s
unfolding format_digits
read_number-format_digits zero n s h = ap (λ m. read_number m s) (omega arith)
read_number-format_digits (suc fuel) n s h = elim (Bool-cases (ltb n 10)) [
  | inl small ↦
      rw (format_digits, small)
        (digit_is_read 0 n s (ltb→lt n 10 small) ∙ ap (λ m. read_number m s) (omega arith))
  | inr big ↦
      rw (format_digits, big)
        (read_number-format_digits fuel (n / 10) ((48 + n % 10) ∷ s)
            (omega (arith, pow-suc 10 fuel))
          ∙ digit_is_read (n / 10) (n % 10) s (omega arith)
          ∙ ap (λ m. read_number m s) (omega arith))
]

read_number-make_cache_key :
    (a b : ℕ) → a < 2 ^ 64 → read_number 0 (make_cache_key a b) ≡ (a, format_uint b)
unfolding make_cache_key format_uint
read_number-make_cache_key a b h =
    ap (read_number 0) (format_digits-append 20 a [] _)
    ∙ read_number-format_digits 20 a _ (omega arith)
    ∙ (unfold read_number in refl)

-- Two keys are the same only for the same fingerprint and the same hour.
pub make_cache_key-injective :
    (a b c d : ℕ)
    → a < 2 ^ 64
    → b < 2 ^ 64
    → c < 2 ^ 64
    → d < 2 ^ 64
    → make_cache_key a b ≡ make_cache_key c d
    → (a ≡ c) × (b ≡ d)
unfolding format_uint format_digits read_number
make_cache_key-injective a b c d ha hb hc hd e =
    let first =
      sym (read_number-make_cache_key a b ha)
      ∙ ap (read_number 0) e
      ∙ read_number-make_cache_key c d hc in
    let second =
      sym (read_number-format_digits 20 b [] (omega arith))
      ∙ ap (λ k. read_number 0 k.1) first
      ∙ read_number-format_digits 20 d [] (omega arith) in
    (ap (λ k. k.0) first, ap (λ k. k.0) second)
