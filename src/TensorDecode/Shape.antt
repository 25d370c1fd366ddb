-- ===== src/TensorDecode/Shape.antt =====
-- Windows and shapes of src/tensorDecode.ts: `parseByteCount`, `parseShape`, `shapeElements` and
-- `gridShape`.
pub mod Printed
pub mod Reads
use vscode_cann_debugger.Base.{
  ℕ, zero, suc, ◌+◌, ◌-◌, ◌*◌, Bool, true, false, not, ◌&&◌, ◌||◌, Option, none, some, List, [],
  ◌∷◌, ◌++◌, Text, codes, leb, ltb, ◌==◌, if◌then◌else◌, is_digit, is_space, trim, number_from,
  past, or_whole,
}
use vscode_cann_debugger.Mi.Number.{whole, span_hex, hex_number}
use vscode_cann_debugger.Mi.Line.{span_digits}

-- `MAX_SCRIPT_BYTES`
abbrev pub max_script_bytes : ℕ
max_script_bytes = 1048576

-- `Number.MAX_SAFE_INTEGER`
abbrev pub max_safe_integer : ℕ
max_safe_integer = 9007199254740991

-- All of the text is digits: their value.
number_in : Text × Text → (Text → ℕ) → Option ℕ
number_in ([], rest) value = none
number_in (c ∷ ds, []) value = some (value (c ∷ ds))
number_in (c ∷ ds, d ∷ rest) value = none

-- `/^(0[xX][0-9a-fA-F]+|\d+)$/` and `Number` of the text.
typed_number : Text → Option ℕ
unfolding number_in span_hex span_digits hex_number number_from
typed_number (z ∷ x ∷ t) =
    if z == b'0' && (x == b'x' || x == b'X')
    then number_in (span_hex t) (hex_number 0)
    else number_in (span_digits (z ∷ x ∷ t)) (number_from 0)
typed_number t = number_in (span_digits t) (number_from 0)

usable : Option ℕ → ℕ → Option ℕ
usable none bound = none
usable (some n) bound = if n == 0 || ltb bound n then none else some n

-- `parseByteCount`; the bound is below the safe integers.
unfoldable pub parse_byte_count : Text → Option ℕ
unfolding typed_number usable trim
parse_byte_count text = usable (typed_number (trim text)) max_script_bytes

-- Where the expression of `parseShape` stands: before the first digit, in a dimension, in white
-- space behind one, or behind a mark.
pub data Place : Type 0 where
  start dimension gap mark : Place

-- `x`, `X`, `*` or a comma.
unfoldable pub is_mark : ℕ → Bool
is_mark c = c == b'x' || c == b'X' || c == b'*' || c == b','

-- The place behind a character that is no digit.
unfoldable pub place_behind : Place → ℕ → Option Place
unfolding is_mark is_space
place_behind start c = none
place_behind dimension c = if is_mark c then some mark else if is_space c then some gap else none
place_behind gap c = if is_mark c then some mark else if is_space c then some gap else none
place_behind mark c = if is_space c then some mark else none

onto_first : ℕ → Option (List Text) → Option (List Text)
onto_first c none = none
onto_first c (some []) = none
onto_first c (some (run ∷ runs)) = some ((c ∷ run) ∷ runs)

-- A run ends where a dimension is left.
end_run : Place → Option (List Text) → Option (List Text)
end_run dimension (some runs) = some ([] ∷ runs)
end_run place runs = runs

-- The runs from a character on: a digit belongs to the first one.
collected : Bool → ℕ → Place → Option (List Text) → Option (List Text)
unfolding onto_first end_run
collected true c place runs = onto_first c runs
collected false c place runs = end_run place runs

turn : Place → ℕ → Option Place
unfolding is_digit place_behind
turn place c = if is_digit c then some dimension else place_behind place c

beyond : Place → ℕ → Option Place → (Place → Option (List Text)) → Option (List Text)
unfolding collected is_digit
beyond place c none rest = none
beyond place c (some next) rest = collected (is_digit c) c place (rest next)

-- The runs of digits of `/^\d+(?:\s*[x*,\s]\s*\d+)*$/i`, the first of them cut where the text
-- starts; `none` where the expression does not match.
unfoldable pub shape_parts : Place → Text → Option (List Text)
unfolding beyond turn
shape_parts dimension [] = some ([] ∷ [])
shape_parts place [] = none
shape_parts place (c ∷ t) = beyond place c (turn place c) (λ next. shape_parts next t)

-- A dimension; zero and numbers that are not safe are none.
unfoldable pub dimension_of : Text → Option ℕ
unfolding usable number_from
dimension_of part = usable (some (number_from 0 part)) max_safe_integer

cons_dimension : Option ℕ → Option (List ℕ) → Option (List ℕ)
cons_dimension (some d) (some ds) = some (d ∷ ds)
cons_dimension d ds = none

dimensions : List Text → Option (List ℕ)
unfolding cons_dimension dimension_of
dimensions [] = some []
dimensions (part ∷ parts) = cons_dimension (dimension_of part) (dimensions parts)

all_dimensions : Option (List Text) → Option (List ℕ)
unfolding dimensions
all_dimensions none = none
all_dimensions (some parts) = dimensions parts

-- `parseShape`
unfoldable pub parse_shape : Text → Option (List ℕ)
unfolding all_dimensions shape_parts trim
parse_shape text = all_dimensions (shape_parts start (trim text))

-- `shapeElements`: the product, exact in the program below 2 ^ 53.
unfoldable pub elements_from : ℕ → List ℕ → ℕ
elements_from total [] = total
elements_from total (d ∷ ds) = elements_from (total * d) ds

unfoldable pub shape_elements : List ℕ → ℕ
unfolding elements_from
shape_elements shape = elements_from 1 shape

pub record GridShape : Type 0 where
  pub rows : ℕ
  pub columns : ℕ

-- `shape[shape.length - 1]` and `shape.slice(0, -1)` of a shape that is not empty.
last_of : ℕ → List ℕ → ℕ
last_of d [] = d
last_of d (e ∷ shape) = last_of e shape

all_but_last : ℕ → List ℕ → List ℕ
all_but_last d [] = []
all_but_last d (e ∷ shape) = d ∷ all_but_last e shape

-- `gridShape`
unfoldable pub grid_shape : List ℕ → GridShape
unfolding shape_elements last_of all_but_last
grid_shape [] = record { rows = 0; columns = 0 }
grid_shape (d ∷ shape) = record {
  rows = shape_elements (all_but_last d shape);
  columns = last_of d shape;
}
