-- ===== src/Stanza/Path.antt =====
-- Field paths in JSON dot notation
-- (processor/signozlogspipelineprocessor/stanza/entry/field.go: fromJSONDot, toJSONDot, newField).
-- A text is the list of its code points. The token that starts at `tokenStart` is kept as a list.
pub mod RoundTrip
use Prim.Native.Nat.{ℕ}
use mathlib.Core.Bool.{Bool, true, false, ◌||◌, ◌&&◌, not}
use mathlib.Core.List.{List, [], ◌∷◌, ◌++◌}
use otel_collector.Common.Lists.{any}
use otel_collector.Common.Tests.{if◌then◌else◌, nat_eqb}

abbrev pub Text : Type 0
Text = List ℕ

pub data SplitState : Type 0 where
  begin in_bracket in_quote out_quote out_bracket in_unbracketed_token : SplitState

pub data SplitError : Type 0 where
  brackets_need_quotes after_quote after_bracket : SplitError
  unclosed_bracket unclosed_double_quote unclosed_single_quote no_fields : SplitError

pub data SplitResult : Type 0 where
  ok : List Text → SplitResult
  err : SplitError → SplitResult

-- The variables of the loop.
pub record Split : Type 0 where
  pub state : SplitState
  pub quote_char : ℕ
  pub token : Text
  pub fields : List Text

-- What one character does: a new state, or an error that ends the function.
pub data Step : Type 0 where
  next : Split → Step
  fail : SplitError → Step

unfoldable pub step : SplitState → ℕ → Split → Step
step begin c s =
    if nat_eqb c b'['
    then next (record s { state = in_bracket })
    else next (record s { state = in_unbracketed_token; token = c ∷ [] })
step in_bracket c s =
    if not (nat_eqb c b'\'' || nat_eqb c b'"')
    then fail brackets_need_quotes
    else next (record s { state = in_quote; quote_char = c; token = [] })
step in_quote c s =
    if nat_eqb c s.quote_char
    then next (record s { state = out_quote; fields = s.fields ++ s.token ∷ [] })
    else next (record s { token = s.token ++ c ∷ [] })
step out_quote c s =
    if not (nat_eqb c b']') then fail after_quote else next (record s { state = out_bracket })
step out_bracket c s =
    if nat_eqb c b'.'
    then next (record s { state = in_unbracketed_token; token = [] })
    else if nat_eqb c b'['
    then next (record s { state = in_bracket })
    else fail after_bracket
step in_unbracketed_token c s =
    if nat_eqb c b'.'
    then next (record s { fields = s.fields ++ s.token ∷ []; token = [] })
    else if nat_eqb c b'['
    then next (record s { state = in_bracket; fields = s.fields ++ s.token ∷ [] })
    else next (record s { token = s.token ++ c ∷ [] })

-- What follows the loop.
unfoldable pub finish_fields : List Text → SplitResult
finish_fields [] = err no_fields
finish_fields (f ∷ fs) = ok (f ∷ fs)

unfoldable pub finish : SplitState → Split → SplitResult
unfolding finish_fields
finish in_bracket s = err unclosed_bracket
finish out_quote s = err unclosed_bracket
finish in_quote s =
    if nat_eqb s.quote_char b'"' then err unclosed_double_quote else err unclosed_single_quote
finish in_unbracketed_token s = finish_fields (s.fields ++ s.token ∷ [])
finish begin s = finish_fields s.fields
finish out_bracket s = finish_fields s.fields

unfoldable pub split_from : Split → Text → SplitResult
split_from s [] = finish s.state s
split_from s (c ∷ cs) = elim (step s.state c s) [ next s' ↦ split_from s' cs | fail e ↦ err e ]

abbrev start : Split
start = record { state = begin; quote_char = 0; token = []; fields = [] }

unfoldable pub from_json_dot : Text → SplitResult
from_json_dot s = split_from start s

-- `strings.Contains(key, ".")`
abbrev pub has_dot : Text → Bool
has_dot = any (λ c. nat_eqb c b'.')

abbrev pub contains_dots : List Text → Bool
contains_dots = any has_dot

unfoldable pub bracketed : List Text → Text
bracketed [] = []
bracketed (key ∷ keys) = b'[' ∷ b'\'' ∷ (key ++ (b'\'' ∷ b']' ∷ bracketed keys))

-- Each key behind a dot; the code writes the first dot before the loop.
unfoldable pub dotted : List Text → Text
dotted [] = []
dotted (key ∷ keys) = b'.' ∷ (key ++ dotted keys)

unfoldable pub to_json_dot : Text → List Text → Text
unfolding bracketed dotted
to_json_dot prefix [] = prefix
to_json_dot prefix (key ∷ keys) =
    prefix ++ (if contains_dots (key ∷ keys) then bracketed (key ∷ keys) else dotted (key ∷ keys))

-- A field by its kind: of the attributes, the resource or the body.
pub data Field : Type 0 where
  attribute_field resource_field body_field : List Text → Field

pub data FieldResult : Type 0 where
  field : Field → FieldResult
  splitting : SplitError → FieldResult
  attributes_without_subfield resource_without_subfield unrecognized_prefix : FieldResult

-- The three prefixes are constants of the stanza library.
pub record Prefixes : Type 0 where
  pub attributes_prefix : Text
  pub resource_prefix : Text
  pub body_prefix : Text

abbrev pub text_eqb : Text → Text → Bool
text_eqb [] [] = true
text_eqb (c ∷ s) (d ∷ t) = nat_eqb c d && text_eqb s t
text_eqb _ _ = false

abbrev pub is_empty {ℓ} : {A : Type ℓ} → List A → Bool
is_empty [] = true
is_empty _ = false

module _ (p : Prefixes) where
  unfoldable pub field_of_keys : Bool → Text → List Text → FieldResult
  field_of_keys rootable first keys =
      if text_eqb first p.attributes_prefix
      then (if not rootable && is_empty keys
          then attributes_without_subfield
          else field (attribute_field keys))
      else if text_eqb first p.resource_prefix
      then (if not rootable && is_empty keys
          then resource_without_subfield
          else field (resource_field keys))
      else if text_eqb first p.body_prefix
      then field (body_field keys)
      else unrecognized_prefix

  unfoldable pub new_field : Text → Bool → FieldResult
  unfolding field_of_keys
  new_field s rootable = elim (from_json_dot s) [
    | err e ↦ splitting e
    | ok keys ↦ elim keys [
      | [] ↦ unrecognized_prefix
      | first ∷ rest ↦ field_of_keys rootable first rest
    ]
  ]

  -- `String()` of a body field, and of the library's other two in the same notation.
  unfoldable pub body_field_string : List Text → Text
  body_field_string keys = to_json_dot p.body_prefix keys
