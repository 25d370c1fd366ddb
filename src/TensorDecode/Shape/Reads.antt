-- ===== src/TensorDecode/Shape/Reads.antt =====
-- What `parseShape` of src/tensorDecode.ts reads, and the grid that `gridShape` makes of it.
use vscode_cann_debugger.Base.{
  ℕ, ◌*◌, ◌≤◌, true, false, some, List, [], ◌∷◌, ◌++◌, append_assoc, Text, is_digit, is_space, trim,
  trim_start, trim_end, trim_start-solid, trim_end-solid, trim_end-append, decimal,
  decimal-IsDigits, number_from-decimal, IsDigits, All, ◌≡◌, ◌≢◌, refl, ap, sym, ◌∙◌, subst, arith,
}
use vscode_cann_debugger.TensorDecode.Shape.{
  max_safe_integer, usable, start, dimension, shape_parts, dimension_of, cons_dimension, dimensions,
  all_dimensions, parse_shape, elements_from, shape_elements, last_of, all_but_last, grid_shape,
}
use vscode_cann_debugger.TensorDecode.Shape.Printed.{
  Separator, separator, AreSeparators, written, runs_of, StartsDigit, digit-parts,
  written-StartsDigit, written-parts,
}

abbrev pub others : List (Separator × ℕ) → List ℕ
others [] = []
others ((s, e) ∷ rest) = e ∷ others rest

-- A dimension that the program takes.
abbrev pub IsDimension : ℕ → Type 0
IsDimension d = (1 ≤ d) × (d ≤ max_safe_integer)

abbrev pub AreDimensions : List (Separator × ℕ) → Type 0
AreDimensions [] = Unit
AreDimensions ((s, e) ∷ rest) = IsDimension e × AreDimensions rest

usable_lem : (d bound : ℕ) → 1 ≤ d → d ≤ bound → usable (some d) bound ≡ some d
unfolding usable
usable_lem d bound h k = ground arith

dimension_of-decimal : (d : ℕ) → IsDimension d → dimension_of (decimal d) ≡ some d
unfolding dimension_of
dimension_of-decimal d (h, k) = rw (number_from-decimal d) (usable_lem d max_safe_integer h k)

dimensions-runs_of :
    (rest : List (Separator × ℕ)) (d : ℕ)
    → IsDimension d
    → AreDimensions rest
    → dimensions (runs_of d rest) ≡ some (d ∷ others rest)
unfolding dimensions runs_of cons_dimension
dimensions-runs_of [] d h k = rw (dimension_of-decimal d h)
dimensions-runs_of ((s, e) ∷ rest) d h (k, ks) =
    rw (dimension_of-decimal d h) (rw (dimensions-runs_of rest e k ks))

digit_no_space : (c : ℕ) → is_digit c ≡ true → is_space c ≡ false
unfolding is_space is_digit
digit_no_space c h = ground arith

digits_no_space : (ds : Text) → IsDigits ds → All (λ c. is_space c ≡ false) ds
digits_no_space [] h = tt
digits_no_space (c ∷ ds) (h, k) = (digit_no_space c h, digits_no_space ds k)

trim_start-StartsDigit : (t : Text) → StartsDigit t → trim_start t ≡ t
trim_start-StartsDigit [] h = elim h [ ]
trim_start-StartsDigit (c ∷ t) h = trim_start-solid c t (digit_no_space c h)

trim_end-decimal : (d : ℕ) → trim_end (decimal d) ≡ decimal d
trim_end-decimal d = trim_end-solid (decimal d) (digits_no_space (decimal d) (decimal-IsDigits d))

written-ne-nil : (d : ℕ) (rest : List (Separator × ℕ)) → written d rest ≢ []
written-ne-nil d rest = λ e. subst StartsDigit e (written-StartsDigit d rest)

trim_end-written :
    (rest : List (Separator × ℕ)) (d : ℕ) → trim_end (written d rest) ≡ written d rest
trim_end-written [] d = trim_end-decimal d
trim_end-written ((s, e) ∷ rest) d =
    ap trim_end (sym (append_assoc (decimal d) (separator s) (written e rest)))
    ∙ trim_end-append (decimal d ++ separator s) (written e rest) (written-ne-nil e rest)
        (trim_end-written rest e)
    ∙ append_assoc (decimal d) (separator s) (written e rest)

elements_from-last :
    (shape : List ℕ) (total d : ℕ)
    → elements_from total (all_but_last d shape) * last_of d shape ≡ elements_from total (d ∷ shape)
unfolding elements_from all_but_last last_of
elements_from-last [] total d = refl
elements_from-last (e ∷ shape) total d = elements_from-last shape (total * d) e

-- The grid of a shape that is not empty has as many cells as the tensor has elements.
grid_shape-elements :
    (d : ℕ) (shape : List ℕ)
    → (grid_shape (d ∷ shape)).rows * (grid_shape (d ∷ shape)).columns ≡ shape_elements (d ∷ shape)
unfolding grid_shape shape_elements
grid_shape-elements d shape = elements_from-last shape 1 d

shape-read :
    (d : ℕ) (rest : List (Separator × ℕ))
    → AreSeparators rest
    → IsDimension d
    → AreDimensions rest
    → parse_shape (written d rest) ≡ some (d ∷ others rest)
unfolding parse_shape all_dimensions trim
shape-read d rest hs h hd =
    ap (λ t. all_dimensions (shape_parts start t))
      (ap trim_end (trim_start-StartsDigit (written d rest) (written-StartsDigit d rest))
        ∙ trim_end-written rest d)
    ∙ ap all_dimensions (
        digit-parts start (written d rest) (written-StartsDigit d rest)
        ∙ sym (digit-parts dimension (written d rest) (written-StartsDigit d rest))
        ∙ written-parts rest d hs)
    ∙ dimensions-runs_of rest d h hd

-- A shape of any number of dimensions, each from 1 to 2^53 - 1 and written in decimal, with any
-- separator between two of them (white space, or one of `x`, `X`, `*` and the comma with any white
-- space around it), is read as exactly these dimensions, and its grid has as many cells as the
-- tensor has elements.
pub parse_shape-written :
    (d : ℕ) (rest : List (Separator × ℕ))
    → AreSeparators rest
    → IsDimension d
    → AreDimensions rest
    → (parse_shape (written d rest) ≡ some (d ∷ others rest))
      × ((grid_shape (d ∷ others rest)).rows * (grid_shape (d ∷ others rest)).columns
          ≡ shape_elements (d ∷ others rest))
parse_shape-written d rest hs h hd =
    (shape-read d rest hs h hd, grid_shape-elements d (others rest))
