-- ===== src/KeyCheck.antt =====
-- Which keys of attributes are random (pkg/keycheck).
pub mod Segments
pub mod Tests
use Prim.Native.Nat.{ℕ, suc, ◌*◌}
use mathlib.Core.Bool.{Bool, true, false, ◌&&◌, ◌||◌, not}
use mathlib.Core.List.{List, [], ◌∷◌, ◌++◌}
use otel_collector.Common.Lists.{length, any, all}
use otel_collector.Common.Tests.{if◌then◌else◌, nat_eqb, ltb, leb}
use otel_collector.Common.Texts.{Text, ascii}

-- What Go's libraries answer: the runes that a range over a string gives, the classes of unicode,
-- and whether a compiled expression matches.
pub record Patterns : Type 0 where
  pub runes : Text → List ℕ
  pub is_letter : ℕ → Bool
  pub is_lower : ℕ → Bool
  pub uuid_regex : Text → Bool
  pub hex_regex : Text → Bool
  pub base64_regex : Text → Bool
  pub timestamp_regex : Text → Bool

abbrev pub max_key_length : ℕ
max_key_length = 256

abbrev pub short_key_length : ℕ
short_key_length = 15

abbrev pub medium_key_length : ℕ
medium_key_length = 25

unfoldable pub is_empty : Text → Bool
is_empty [] = true
is_empty (b ∷ s) = false

-- `strings.ContainsAny(s, symbols)`, for symbols of one byte.
unfoldable pub contains_any : Text → Text → Bool
contains_any symbols s = any (λ b. any (nat_eqb b) symbols) s

-- `lo <= c && c <= hi`
unfoldable pub between : ℕ → ℕ → ℕ → Bool
between lo hi c = leb lo c && leb c hi

unfoldable pub is_ulid_rune : ℕ → Bool
unfolding between contains_any
is_ulid_rune c =
    (between b'A' b'Z' c || between b'0' b'9' c) && not (any (nat_eqb c) (ascii "ILOU"))

module _ (p : Patterns) where
  unfoldable pub is_ulid : Text → Bool
  unfolding is_ulid_rune
  is_ulid s = nat_eqb (length s) 26 && all is_ulid_rune (p.runes s)

  unfoldable pub contains_non_alpha : Text → Bool
  contains_non_alpha s = any (λ r. not (p.is_letter r)) (p.runes s)

  unfoldable pub is_base64_string : Text → Bool
  unfolding contains_non_alpha
  is_base64_string s = contains_non_alpha s && p.base64_regex s

  unfoldable pub is_random_segment : Text → Bool
  unfolding is_base64_string is_ulid
  is_random_segment s =
      ltb max_key_length (length s)
      || (p.uuid_regex s
          || (p.hex_regex s || (is_base64_string s || (p.timestamp_regex s || is_ulid s))))

  -- What the loop still answers, with `key[start:i]` and `key[i:]`.
  unfoldable pub segments_from : Text → Text → Bool
  unfolding is_empty is_random_segment
  segments_from segment [] = not (is_empty segment) && is_random_segment segment
  segments_from segment (b ∷ key) =
      let next = segments_from [] key in
      let more = segments_from (segment ++ b ∷ []) key in
      if nat_eqb b b'.'
      then (if is_empty segment then next else if is_random_segment segment then true else next)
      else more

  unfoldable pub process_key_segments : Text → Bool
  unfolding segments_from
  process_key_segments key = segments_from [] key

  unfoldable pub is_alpha_lower : Text → Bool
  is_alpha_lower s = all (λ r. p.is_lower r || p.is_letter r) (p.runes s)

  unfoldable pub count_letters : List ℕ → ℕ
  count_letters [] = 0
  count_letters (r ∷ rs) = if p.is_letter r then suc (count_letters rs) else count_letters rs

  -- The quotient over 0.7, in whole numbers: it is asked for at most 25 bytes, where the float64s
  -- compare like the numbers they stand for.
  unfoldable pub is_mostly_letters : Text → Bool
  unfolding count_letters
  is_mostly_letters s = ltb (7 * length s) (10 * count_letters (p.runes s))

  unfoldable pub is_random_key : Text → Bool
  unfolding is_alpha_lower is_mostly_letters contains_any process_key_segments
  is_random_key key =
      if ltb max_key_length (length key)
      then true
      else if leb (length key) short_key_length && is_alpha_lower key
      then false
      else if leb (length key) medium_key_length
          && (contains_any (ascii "_-") key && is_mostly_letters key)
      then false
      else process_key_segments key

  unfoldable pub contains_digits : Text → Bool
  unfolding between
  contains_digits s = any (between b'0' b'9') (p.runes s)

  -- The symbols are `_.:@-`.
  unfoldable pub has_non_allowed_symbols : Text → Bool
  unfolding between
  has_non_allowed_symbols s =
      any
        (λ c. not (
          between b'a' b'z' c
          || (between b'A' b'Z' c || (between b'0' b'9' c || any (nat_eqb c) (ascii "_.:@-")))))
        (p.runes s)

  unfoldable pub is_cardinal : Text → Bool
  unfolding contains_digits has_non_allowed_symbols process_key_segments
  is_cardinal key =
      if contains_digits key
      then true
      else if has_non_allowed_symbols key
      then true
      else process_key_segments key

unfoldable pub is_backtick_required : Text → Bool
unfolding contains_any
is_backtick_required key = contains_any (ascii ":@-") key
