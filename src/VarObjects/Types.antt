-- ===== src/VarObjects/Types.antt =====
-- Type strings of the debugger: `classifyType` of src/varObjects.ts.
use vscode_cann_debugger.Base.{
  ℕ, Bool, false, not, ◌&&◌, ◌||◌, Option, none, some, List, [], ◌∷◌, Text, codes, ◌==◌,
  if◌then◌else◌, is_digit, is_space, trim, number_from, reverse, past, starts_word, length, zero,
  suc, ◌===◌, or_whole, is_present, span, has_word,
}

pub record TypeShape : Type 0 where
  pub is_pointer : Bool
  pub is_array : Bool
  pub is_aggregate : Bool
  pub array_length : Option ℕ

-- The digits of `[\s*(\d*)\s*]\s*$` in a text read backwards, in their own order.
opening : Text → Text → Option Text
opening ds [] = none
opening ds (c ∷ t) = if c == b'[' then some (reverse ds) else none

bracket_digits : Text → Option Text
unfolding opening span is_space is_digit
bracket_digits [] = none
bracket_digits (c ∷ t) =
    let (ds, rest) = span is_digit (span is_space t).1 in
    if c == b']' then opening ds (span is_space rest).1 else none

unfoldable pub array_digits : Text → Option Text
unfolding bracket_digits span is_space
array_digits t = bracket_digits (span is_space (reverse t)).1

ends_in_star : Text → Bool
ends_in_star [] = false
ends_in_star (c ∷ t) = c == b'*'

-- `/\*\s*(const|volatile)?\s*$/`
unfoldable pub is_pointer_type : Text → Bool
unfolding ends_in_star span past is_space
is_pointer_type t =
    let back = (span is_space (reverse t)).1 in
    let bare =
      or_whole (past (reverse (codes "const")) back)
        (or_whole (past (reverse (codes "volatile")) back) back) in
    ends_in_star (span is_space bare).1

-- The text behind a qualifier and the white space that must follow it.
abbrev behind_spaces : Text → Option Text → Text
behind_spaces t none = t
behind_spaces t (some []) = t
behind_spaces t (some (c ∷ rest)) = if is_space c then (span is_space rest).1 else t

unfoldable pub drop_qualifier : Text → Text
unfolding past span is_space
drop_qualifier t = behind_spaces t (
    if is_present (past (codes "const") t)
    then past (codes "const") t
    else past (codes "volatile") t)

-- The leading qualifiers dropped one by one until nothing changes. Each round drops a character, so
-- the length of the text and one is fuel enough.
unfoldable pub drop_qualifiers : ℕ → Text → Text
unfolding drop_qualifier ◌===◌
drop_qualifiers zero t = t
drop_qualifiers (suc f) t =
    let next = drop_qualifier t in
    let rest = drop_qualifiers f next in if next === t then next else rest

abbrev record_words : List Text
record_words = codes "struct" ∷ codes "class" ∷ codes "union" ∷ []

abbrev memory_words : List Text
memory_words = codes "__gm__" ∷ codes "__ubuf__" ∷ codes "__cbuf__" ∷ []

unfoldable pub is_aggregate_type : Text → Bool
unfolding drop_qualifiers starts_word has_word
is_aggregate_type t =
    starts_word (drop_qualifiers (suc (length t)) t) record_words || has_word memory_words false t

abbrev number_if : Text → Option ℕ
number_if [] = none
number_if (c ∷ ds) = some (number_from 0 (c ∷ ds))

length_in : Option Text → Option ℕ
unfolding number_from
length_in none = none
length_in (some ds) = number_if ds

unfoldable pub shape_of : Text → TypeShape
unfolding array_digits is_pointer_type is_aggregate_type length_in
shape_of t =
    let array = is_present (array_digits t) in
    let pointer = not array && is_pointer_type t in
    record {
      is_pointer = pointer;
      is_array = array;
      is_aggregate = not pointer && not array && is_aggregate_type t;
      array_length = length_in (array_digits t);
    }

-- `classifyType`
unfoldable pub classify_type : Text → TypeShape
unfolding shape_of trim
classify_type type = shape_of (trim type)
