-- ===== src/Metrics/Labels/RoundTrip.antt =====
-- Printing labels and reading them (internal/common/fingerprint/label.go: marshalLabels).
use Prim.Native.Nat.{ℕ}
use mathlib.Core.Bool.{true}
use mathlib.Core.List.{List, [], ◌∷◌, ◌++◌, append-nil, append_assoc}
use mathlib.Core.Option.{Option, none, some}
use mathlib.Core.Path.{◌≡◌, refl, sym, ap, subst, ◌∙◌}
use native.Mathlib.Omega.{arith}
use otel_collector.Common.Dict.{keys, lookup}
use otel_collector.Common.Dict.Keys.{length-keys}
use otel_collector.Common.Lists.{length, All}
use otel_collector.Common.Tests.{if◌then◌else◌}
use otel_collector.Common.Texts.{Text, comparable_text, text_eqb, sort_strings}
use otel_collector.Common.Texts.Sorted.{
  IsSorted, All-sort_strings, sorted_insert-first, sort_strings-IsSorted, any-sort_strings,
  length-sort_strings,
}
use otel_collector.Metrics.Labels.{
  Labels, escape_byte, escape, label_value, marshal_keys, set_last, marshal_labels,
}
use otel_collector.Metrics.Labels.Named.{
  is_plain, IsPlainName, is_text_byte, IsTextValue, named, keys-named, lookup-named, any-lookup,
  label_value-IsTextValue,
}
use otel_collector.Metrics.Labels.Read.{
  Reader, in_name, in_value, after_value, read_byte, read_bytes, result, read_labels,
}

read_bytes-append :
    (s t : Text) (r : Reader) → read_bytes (s ++ t) r ≡ read_bytes t (read_bytes s r)
unfolding read_bytes
read_bytes-append [] t r = refl
read_bytes-append (c ∷ s) t r = read_bytes-append s t _

read_byte-in_name :
    (c : ℕ) (n v : Text) (ps : Labels)
    → is_plain c ≡ true
    → read_byte c in_name n v ps
      ≡ record { phase = in_name; name = n ++ c ∷ []; value = v; pairs = ps }
unfolding read_byte
read_byte-in_name c n v ps h = ground arith

read_name :
    (name rest n v : Text) (ps : Labels)
    → IsPlainName name
    → read_bytes (name ++ rest) (record { phase = in_name; name = n; value = v; pairs = ps })
      ≡ read_bytes rest (record { phase = in_name; name = n ++ name; value = v; pairs = ps })
unfolding read_bytes
read_name [] rest n v ps h = rw (append-nil n) refl
read_name (c ∷ name) rest n v ps h =
    ap (read_bytes (name ++ rest)) (read_byte-in_name c n v ps h.0)
    ∙ read_name name rest (n ++ c ∷ []) v ps h.1
    ∙ ap (λ m. read_bytes rest (record { phase = in_name; name = m; value = v; pairs = ps }))
        (append_assoc n (c ∷ []) name)

read_escape_byte :
    (c : ℕ) (rest n v : Text) (ps : Labels)
    → is_text_byte c ≡ true
    → read_bytes
        (escape_byte c ++ rest)
        (record { phase = in_value; name = n; value = v; pairs = ps })
      ≡ read_bytes rest (record { phase = in_value; name = n; value = v ++ c ∷ []; pairs = ps })
unfolding read_bytes read_byte escape_byte
read_escape_byte c rest n v ps h = ground arith

read_escape :
    (s rest n v : Text) (ps : Labels)
    → IsTextValue s
    → read_bytes (escape s ++ rest) (record { phase = in_value; name = n; value = v; pairs = ps })
      ≡ read_bytes rest (record { phase = in_value; name = n; value = v ++ s; pairs = ps })
unfolding escape
read_escape [] rest n v ps h = rw (append-nil v) refl
read_escape (c ∷ s) rest n v ps h =
    rw
      (
        append_assoc (escape_byte c) (escape s) rest,
        read_escape_byte c (escape s ++ rest) n v ps h.0,
        read_escape s rest n (v ++ c ∷ []) ps h.1,
        append_assoc v (c ∷ []) s,
      )
      refl

-- What stands after the opening quote of a name, up to the value's closing quote.
abbrev quoted : Text → Text → Text → Text
quoted name value rest = name ++ (b'"' ∷ b':' ∷ b'"' ∷ (escape value ++ b'"' ∷ rest))

read_quoted :
    (name value rest v : Text) (ps : Labels)
    → IsPlainName name
    → IsTextValue value
    → read_bytes
        (quoted name value rest)
        (record { phase = in_name; name = []; value = v; pairs = ps })
      ≡ read_bytes rest (record {
        phase = after_value;
        name = name;
        value = value;
        pairs = ps ++ (name, value) ∷ [];
      })
unfolding read_bytes read_byte
read_quoted name value rest v ps h text =
    read_name name (b'"' ∷ b':' ∷ b'"' ∷ (escape value ++ b'"' ∷ rest)) [] v ps h
    ∙ read_escape value (b'"' ∷ rest) name [] ps text

set_last-append : (d y : ℕ) (xs ys : Text) → set_last d (xs ++ y ∷ ys) ≡ xs ++ set_last d (y ∷ ys)
unfolding set_last
set_last-append d y [] ys = refl
set_last-append d y (x ∷ []) ys = refl
set_last-append d y (x ∷ x' ∷ xs) ys = ap (λ t. x ∷ t) (set_last-append d y (x' ∷ xs) ys)

set_last-quoted :
    (d a y : ℕ) (name value ys : Text)
    → set_last d (a ∷ b'"' ∷ quoted name value (y ∷ ys))
      ≡ a ∷ b'"' ∷ quoted name value (set_last d (y ∷ ys))
unfolding set_last
set_last-quoted d a y name value ys =
    set_last-append d b'"' (a ∷ b'"' ∷ name) (b':' ∷ b'"' ∷ (escape value ++ b'"' ∷ y ∷ ys))
    ∙ ap (λ t. a ∷ b'"' ∷ (name ++ t))
        (set_last-append d b'"' (b'"' ∷ b':' ∷ b'"' ∷ escape value) (y ∷ ys))

-- What stands after the last value of some of the names.
abbrev closing : Labels → List Text → Text
closing attrs [] = b'}' ∷ []
closing attrs (name ∷ names) =
    b',' ∷ b'"' ∷ quoted name (label_value attrs name) (closing attrs names)

set_last-closing :
    (attrs : Labels) (names : List Text)
    → set_last b'}' (b',' ∷ marshal_keys attrs names) ≡ closing attrs names
unfolding set_last marshal_keys
set_last-closing attrs [] = refl
set_last-closing attrs (name ∷ names) =
    set_last-quoted b'}' b',' b',' name (label_value attrs name) (marshal_keys attrs names)
    ∙ ap (λ t. b',' ∷ b'"' ∷ quoted name (label_value attrs name) t) (set_last-closing attrs names)

abbrev read_result : Text → Reader → Option Labels
read_result s r = let r' = read_bytes s r in result r'.phase r'.pairs

read_closing :
    (attrs : Labels) (names : List Text) (n v : Text) (ps : Labels)
    → All IsPlainName names
    → All (λ (p : Text × Text). IsTextValue p.1) attrs
    → read_result
        (closing attrs names)
        (record { phase = after_value; name = n; value = v; pairs = ps })
      ≡ some (ps ++ named attrs names)
unfolding read_bytes read_byte named
read_closing attrs [] n v ps h text = rw (append-nil ps) refl
read_closing attrs (name ∷ names) n v ps h text =
    ap (λ r. result r.phase r.pairs)
      (read_quoted name (label_value attrs name) (closing attrs names) v ps h.0
        (label_value-IsTextValue attrs name text))
    ∙ read_closing attrs names name (label_value attrs name)
        (ps ++ (name, label_value attrs name) ∷ []) h.1 text
    ∙ ap some (append_assoc ps ((name, label_value attrs name) ∷ []) (named attrs names))

-- What the reader makes of the printed names, when there are some.
read_names :
    (attrs : Labels) (name : Text) (names : List Text)
    → All IsPlainName (name ∷ names)
    → All (λ (p : Text × Text). IsTextValue p.1) attrs
    → read_labels (set_last b'}' (b'{' ∷ marshal_keys attrs (name ∷ names)))
      ≡ some (named attrs (name ∷ names))
unfolding read_labels read_bytes read_byte marshal_keys named
read_names attrs name names h text =
    let value = label_value attrs name in
    ap read_labels (
      set_last-quoted b'}' b'{' b',' name value (marshal_keys attrs names)
      ∙ ap (λ t. b'{' ∷ b'"' ∷ quoted name value t) (set_last-closing attrs names))
    ∙ ap (λ r. result r.phase r.pairs)
        (read_quoted name value (closing attrs names) [] [] h.0
          (label_value-IsTextValue attrs name text))
    ∙ read_closing attrs names name value ((name, value) ∷ []) h.1 text

read_labels-named :
    (attrs : Labels)
    → All IsPlainName (keys attrs)
    → All (λ (p : Text × Text). IsTextValue p.1) attrs
    → read_labels (marshal_labels attrs) ≡ some (named attrs (sort_strings (keys attrs)))
unfolding marshal_labels sort_strings named read_labels read_bytes read_byte
read_labels-named [] h text = refl
read_labels-named (a ∷ attrs) h text =
    let names = sort_strings (keys (a ∷ attrs)) in
    let plain : All IsPlainName names = All-sort_strings IsPlainName (keys (a ∷ attrs)) h in
    let (first, rest, e) = sorted_insert-first a.0 (sort_strings (keys attrs)) in
    ap (λ ns. read_labels (set_last b'}' (b'{' ∷ marshal_keys (a ∷ attrs) ns))) e
    ∙ read_names (a ∷ attrs) first rest (subst (All IsPlainName) e plain) text
    ∙ ap (λ ns. some (named (a ∷ attrs) ns)) (sym e)

-- Labels that marshalLabels prints and a reader of JSON reads come back with the same value for
-- every name, as many of them, and in the order of their names, if no byte of a name is below 32, a
-- quote or a backslash, and the bytes below 32 of the values are tabs, line feeds and carriage
-- returns.
pub read_labels-marshal_labels :
    (attrs : Labels)
    → All IsPlainName (keys attrs)
    → All (λ (p : Text × Text). IsTextValue p.1) attrs
    → (found : Labels) × (read_labels (marshal_labels attrs) ≡ some found)
      × ((name : Text) → lookup name found ≡ lookup name attrs)
      × (length found ≡ length attrs)
      × IsSorted (keys found)
read_labels-marshal_labels attrs h text =
    let names = sort_strings (keys attrs) in
    (
      named attrs names,
      read_labels-named attrs h text,
      λ name.
          lookup-named attrs names name
          ∙ ap (λ b. if b then some (label_value attrs name) else none)
              (any-sort_strings (λ k. text_eqb k name) (keys attrs))
          ∙ any-lookup attrs name,
      sym (length-keys (named attrs names))
          ∙ ap length (keys-named attrs names)
          ∙ length-sort_strings (keys attrs)
          ∙ length-keys attrs,
      subst IsSorted (sym (keys-named attrs names)) (sort_strings-IsSorted (keys attrs)),
    )
