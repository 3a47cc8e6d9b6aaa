-- ===== src/KeyCheck/Tests.antt =====
-- Keys and their segments (pkg/keycheck/keycheck_test.go).
use mathlib.Core.Bool.{true, false, ◌||◌}
use mathlib.Core.List.{[], ◌∷◌}
use mathlib.Core.Path.{◌≡◌, refl}
use otel_collector.Common.Lists.{length}
use otel_collector.Common.Tests.{nat_eqb}
use otel_collector.Common.Texts.{ascii}
use otel_collector.KeyCheck.{
  Patterns, between, is_empty, is_random_segment, process_key_segments, is_random_key, is_cardinal,
}
use otel_collector.KeyCheck.Segments.{dotted, process_key_segments-dotted}

-- ASCII, with 13 bytes of any kind for a timestamp, and no other expression.
abbrev ascii_patterns : Patterns
ascii_patterns = record {
  runes = λ s. s;
  is_letter = λ r. between 65 90 r || between 97 122 r;
  is_lower = between 97 122;
  uuid_regex = λ s. false;
  hex_regex = λ s. false;
  base64_regex = λ s. false;
  timestamp_regex = λ s. nat_eqb (length s) 13;
}

-- A key of capitals is taken for one of small letters.
is_random_key-capitals : is_random_key ascii_patterns (ascii "ABCDEFGHIJKLM") ≡ false
unfolding is_random_key between
is_random_key-capitals = refl

is_random_key-timestamp : is_random_key ascii_patterns (ascii "a.1700000000000") ≡ true
unfolding is_random_key between
is_random_key-timestamp = refl

is_cardinal-digits : is_cardinal ascii_patterns (ascii "user.1") ≡ true
unfolding is_cardinal
is_cardinal-digits = refl

process_key_segments-dotted_example :
    process_key_segments ascii_patterns (ascii "a..1700000000000") ≡ true
unfolding is_random_segment is_empty dotted between
process_key_segments-dotted_example =
    process_key_segments-dotted ascii_patterns (ascii "a") ([] ∷ ascii "1700000000000" ∷ [])
      (refl, tt)
      (
        tt,
        (
          (
            refl,
            (
              refl,
              (
                refl,
                (refl, (refl, (refl, (refl, (refl, (refl, (refl, (refl, (refl, (refl, tt)))))))))),
              ),
            ),
          ),
          tt,
        ),
      )
