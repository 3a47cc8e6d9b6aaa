-- ===== src/KeyCheck/Segments.antt =====
-- The segments of a key (pkg/keycheck/keycheck.go: processKeySegments).
use mathlib.Core.Bool.{false, ◌&&◌, not}
use mathlib.Core.List.{List, [], ◌∷◌, ◌++◌, append-nil, append_assoc}
use mathlib.Core.Path.{◌≡◌, refl, sym, ap, ◌∙◌}
use native.Mathlib.Omega.{arith}
use otel_collector.Common.Lists.{any, All}
use otel_collector.Common.Tests.{nat_eqb}
use otel_collector.Common.Texts.{Text}
use otel_collector.KeyCheck.{
  Patterns, is_empty, is_random_segment, segments_from, process_key_segments,
}

abbrev pub HasNoDot : Text → Type 0
HasNoDot s = All (λ b. nat_eqb b b'.' ≡ false) s

-- A segment and others, with dots between them.
unfoldable pub dotted : Text → List Text → Text
dotted s [] = s
dotted s (t ∷ ts) = s ++ b'.' ∷ dotted t ts

module _ (p : Patterns) where
  segments_from-append :
      (start s rest : Text)
      → HasNoDot s
      → segments_from p start (s ++ rest) ≡ segments_from p (start ++ s) rest
  unfolding segments_from
  segments_from-append start [] rest h = rw (append-nil start) refl
  segments_from-append start (b ∷ s) rest h =
      rw (segments_from, h.0)
        (segments_from-append (start ++ b ∷ []) s rest h.1
          ∙ ap (λ t. segments_from p t rest) (append_assoc start (b ∷ []) s))

  segments_from-dotted :
      (s : Text) (ts : List Text)
      → HasNoDot s
      → All HasNoDot ts
      → segments_from p [] (dotted s ts)
        ≡ any (λ t. not (is_empty t) && is_random_segment p t) (s ∷ ts)
  unfolding segments_from dotted
  segments_from-dotted s [] h hs =
      ap (segments_from p []) (sym (append-nil s)) ∙ segments_from-append [] s [] h ∙ ground arith
  segments_from-dotted s (t ∷ ts) h hs =
      segments_from-append [] s (b'.' ∷ dotted t ts) h
      ∙ rw (segments_from-dotted t ts hs.0 hs.1) (ground arith)

  -- A key of any number of segments without dots, with dots between them, is random for its segments
  -- if and only if one of them is not empty and looks random.
  pub process_key_segments-dotted :
      (s : Text) (ts : List Text)
      → HasNoDot s
      → All HasNoDot ts
      → process_key_segments p (dotted s ts)
        ≡ any (λ t. not (is_empty t) && is_random_segment p t) (s ∷ ts)
  unfolding process_key_segments
  process_key_segments-dotted = segments_from-dotted
