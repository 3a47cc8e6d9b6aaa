-- ===== src/Stanza/Path/RoundTrip.antt =====
-- Printing a path and reading it
-- (processor/signozlogspipelineprocessor/stanza/entry/field.go: toJSONDot, then fromJSONDot).
use Prim.Native.Nat.{ℕ}
use mathlib.Core.Bool.{Bool, true, false}
use mathlib.Core.List.{List, [], ◌∷◌, ◌++◌, append_assoc, append-nil}
use mathlib.Core.Logic.{◌≢◌, inl, inr}
use mathlib.Core.Path.{◌≡◌, refl, ◌∙◌, subst}
use native.Mathlib.Omega.{arith}
use otel_collector.Common.Lists.{All}
use otel_collector.Common.Tests.{if◌then◌else◌, Bool-cases}
use otel_collector.Stanza.Path.{
  Text, SplitState, in_bracket, in_quote, out_bracket, in_unbracketed_token, ok, Split, step,
  finish, finish_fields, split_from, from_json_dot, has_dot, contains_dots, bracketed, dotted,
  to_json_dot, text_eqb, Prefixes, new_field, body_field_string, field, body_field,
}

-- Neither a bracket nor a quote, which the printer does not escape.
abbrev pub IsPlain : Text → Type 0
IsPlain = All (λ c. (c ≢ b'[') × (c ≢ b'\''))

abbrev at : SplitState → ℕ → Text → List Text → Split
at state q token fields = record { state = state; quote_char = q; token = token; fields = fields }

token_run :
    (k : Text) (q : ℕ) (token : Text) (fields : List Text) (rest : Text)
    → IsPlain k
    → has_dot k ≡ false
    → split_from (at in_unbracketed_token q token fields) (k ++ rest)
      ≡ split_from (at in_unbracketed_token q (token ++ k) fields) rest
unfolding split_from step
token_run [] q token fields rest h d = rw (append-nil token)
token_run (c ∷ k) q token fields rest h d =
    ground
      (arith, h.0, token_run k q (token ++ c ∷ []) fields rest h.1, append_assoc token (c ∷ []) k)

quote_run :
    (k : Text) (token : Text) (fields : List Text) (rest : Text)
    → IsPlain k
    → split_from (at in_quote b'\'' token fields) (k ++ rest)
      ≡ split_from (at in_quote b'\'' (token ++ k) fields) rest
unfolding split_from step
quote_run [] token fields rest h = rw (append-nil token)
quote_run (c ∷ k) token fields rest h =
    ground
      (arith, h.0, quote_run k (token ++ c ∷ []) fields rest h.1, append_assoc token (c ∷ []) k)

-- One key in brackets, from the bracket on.
bracket_run :
    (key : Text) (q : ℕ) (token : Text) (fields : List Text) (rest : Text)
    → IsPlain key
    → split_from (at in_bracket q token fields) (b'\'' ∷ (key ++ (b'\'' ∷ b']' ∷ rest)))
      ≡ split_from (at out_bracket b'\'' key (fields ++ key ∷ [])) rest
unfolding split_from step
bracket_run key q token fields rest h = quote_run key [] fields (b'\'' ∷ b']' ∷ rest) h

bracketed_run :
    (keys : List Text) (q : ℕ) (token : Text) (fields : List Text)
    → All IsPlain keys
    → split_from (at out_bracket q token fields) (bracketed keys) ≡ finish_fields (fields ++ keys)
unfolding split_from step bracketed finish
bracketed_run [] q token fields h = rw (append-nil fields)
bracketed_run (key ∷ keys) q token fields h =
    bracket_run key q token fields (bracketed keys) h.0
    ∙ (bracketed_run keys b'\'' key (fields ++ key ∷ []) h.1 ∙ rw (append_assoc fields))

dotted_run :
    (keys : List Text) (q : ℕ) (token : Text) (fields : List Text)
    → All IsPlain keys
    → contains_dots keys ≡ false
    → split_from (at in_unbracketed_token q token fields) (dotted keys)
      ≡ finish_fields (fields ++ token ∷ keys)
unfolding split_from step dotted finish
dotted_run [] q token fields h d = refl
dotted_run (key ∷ keys) q token fields h d =
    token_run key q [] (fields ++ token ∷ []) (dotted keys) h.0 (ground arith)
    ∙ (dotted_run keys q key (fields ++ token ∷ []) h.1 (ground arith) ∙ rw (append_assoc fields))

keys_run :
    (key : Text) (keys : List Text) (prefix : Text)
    → All IsPlain (key ∷ keys)
    → split_from
        (at in_unbracketed_token 0 prefix [])
        (if contains_dots (key ∷ keys) then bracketed (key ∷ keys) else dotted (key ∷ keys))
      ≡ ok (prefix ∷ key ∷ keys)
keys_run key keys prefix h = elim (Bool-cases (contains_dots (key ∷ keys))) [
  | inl dots ↦ rw dots (
      unfold split_from step bracketed finish_fields in
      (bracket_run key 0 prefix (prefix ∷ []) (bracketed keys) h.0
        ∙ bracketed_run keys b'\'' key (prefix ∷ key ∷ []) h.1))
  | inr plain ↦ rw plain (unfold finish_fields in dotted_run (key ∷ keys) 0 prefix [] h plain)
]

prefix_run :
    (c : ℕ) (prefix rest : Text)
    → IsPlain (c ∷ prefix)
    → has_dot (c ∷ prefix) ≡ false
    → from_json_dot ((c ∷ prefix) ++ rest)
      ≡ split_from (at in_unbracketed_token 0 (c ∷ prefix) []) rest
unfolding from_json_dot split_from step
prefix_run c prefix rest p d =
    ground (arith, p.0, token_run prefix 0 (c ∷ []) [] rest p.1 (ground arith))

-- Printing a path and reading it back gives the prefix and the keys, for a prefix that is not empty
-- and has no dot, and for a prefix and keys without `[` and `'`; keys may hold dots or be empty.
pub from_json_dot-to_json_dot :
    (c : ℕ) (prefix : Text) (keys : List Text)
    → IsPlain (c ∷ prefix)
    → has_dot (c ∷ prefix) ≡ false
    → All IsPlain keys
    → from_json_dot (to_json_dot (c ∷ prefix) keys) ≡ ok ((c ∷ prefix) ∷ keys)
from_json_dot-to_json_dot c prefix [] p d h =
    let end = prefix_run c prefix [] p d in
    unfold to_json_dot in
    (rw (← append-nil (c ∷ prefix))
      (end ∙ (unfold split_from finish finish_fields in rw (append-nil prefix))))
from_json_dot-to_json_dot c prefix (key ∷ keys) p d h =
    unfold to_json_dot in (prefix_run c prefix _ p d ∙ keys_run key keys (c ∷ prefix) h)

text_eqb_refl : (t : Text) → text_eqb t t ≡ true
text_eqb_refl [] = refl
text_eqb_refl (c ∷ t) = ground (arith, text_eqb_refl t)

-- What the printed form of a body field relies on in the library's prefixes.
pub record ArePrefixes (p : Prefixes) : Type 0 where
  pub nonempty : p.body_prefix ≢ []
  pub plain : IsPlain p.body_prefix
  pub no_dot : has_dot p.body_prefix ≡ false
  pub not_attributes : text_eqb p.body_prefix p.attributes_prefix ≡ false
  pub not_resource : text_eqb p.body_prefix p.resource_prefix ≡ false

-- A body field is read back from its own text, rootable or not, if its keys hold no `[` and no `'`.
pub new_field-body_field_string :
    (p : Prefixes) (keys : List Text) (rootable : Bool)
    → ArePrefixes p
    → All IsPlain keys
    → new_field p (body_field_string p keys) rootable ≡ field (body_field keys)
unfolding new_field body_field_string
new_field-body_field_string p keys rootable a h = go p.body_prefix refl
  where
    go :
        (b : Text)
        → p.body_prefix ≡ b
        → new_field p (body_field_string p keys) rootable ≡ field (body_field keys)
    go [] e = absurd (a.nonempty e)
    go (c ∷ b) e =
        let plain : IsPlain (c ∷ b) = subst IsPlain e a.plain in
        let printed : from_json_dot (to_json_dot p.body_prefix keys) ≡ ok (p.body_prefix ∷ keys) =
          rw e (
            from_json_dot-to_json_dot c b keys plain (subst (λ t. has_dot t ≡ false) e a.no_dot)
              h) in
        ground (arith, printed, a.not_attributes, a.not_resource, text_eqb_refl p.body_prefix)
