-- ===== src/TensorDecode/Tests.antt =====
-- Concrete runs of the theorems on src/tensorDecode.ts.
use vscode_cann_debugger.Base.{
  ℕ, ◌+◌, ◌*◌, ◌/◌, none, some, List, [], ◌∷◌, codes, ◌≡◌, refl, arith, ℤ, pos, negsuc, ltb, ◌==◌,
  if◌then◌else◌, length, min, map, is_space, is_word, at_word_end,
}
use vscode_cann_debugger.TensorDecode.Shape.{
  is_mark, parse_byte_count, parse_shape, grid_shape, shape_elements,
}
use vscode_cann_debugger.TensorDecode.Shape.Printed.{Separator, spaces, marked, written}
use vscode_cann_debugger.TensorDecode.Shape.Reads.{others, parse_shape-written}
use vscode_cann_debugger.TensorDecode.Elements.{
  dtype_info, Numbers, float16, int16, element_of, decode_tensor,
}
use vscode_cann_debugger.TensorDecode.Elements.Window.{pieces, decode_tensor-pieces}
use vscode_cann_debugger.TensorDecode.Elements.Integers.{
  le_bytes, twos_complement, short, element_of-twos_complement,
}
use vscode_cann_debugger.TensorDecode.Summary.{Arithmetic}
use vscode_cann_debugger.TensorDecode.Format.{trim_trailing_zeros}
use vscode_cann_debugger.TensorDecode.Guess.{guess_dtype}

too_large : parse_byte_count (codes " 0x100001 ") ≡ none
unfolding parse_byte_count is_space
too_large = refl

half_typed : parse_shape (codes "16x") ≡ none
unfolding parse_shape is_space
half_typed = refl

guessed : guess_dtype (codes "__gm__ const half *") ≡ some float16
unfolding guess_dtype is_space is_word at_word_end
guessed = refl

abbrev stacked : List (Separator × ℕ)
stacked = (marked (32 ∷ []) b'X' [], 3) ∷ (spaces 32 [], 4) ∷ []

parse_shape-written_example :
    (parse_shape (written 2 stacked) ≡ some (2 ∷ others stacked))
    × ((grid_shape (2 ∷ others stacked)).rows * (grid_shape (2 ∷ others stacked)).columns
        ≡ shape_elements (2 ∷ others stacked))
unfolding is_space is_mark
parse_shape-written_example =
    parse_shape-written 2 stacked (((refl, tt), refl, tt), ((refl, tt), tt)) (omega arith)
      (omega arith)

-- Numbers as the texts of what made them.
abbrev traced : Numbers
traced = record {
  Number = ℤ;
  integer = λ z. z;
  scaled = λ sign mantissa exponent. pos mantissa;
  infinity = λ sign. negsuc 0;
  not_a_number = negsuc 1;
  float_of = λ bytes. pos 1;
  double_of = λ bytes. pos 2;
}

decode_tensor-pieces_example :
    decode_tensor traced (1 ∷ 0 ∷ 255 ∷ 255 ∷ 7 ∷ []) int16 9
    ≡ some (
        map (element_of traced int16) (
          pieces
            (dtype_info int16).size
            (min 9 (length {A = ℕ} (1 ∷ 0 ∷ 255 ∷ 255 ∷ 7 ∷ []) / (dtype_info int16).size))
            (1 ∷ 0 ∷ 255 ∷ 255 ∷ 7 ∷ [])))
decode_tensor-pieces_example = decode_tensor-pieces traced (1 ∷ 0 ∷ 255 ∷ 255 ∷ 7 ∷ []) int16 9

element_of-twos_complement_example :
    element_of traced int16 (le_bytes 2 (twos_complement 0x8000 (negsuc 1))) ≡ negsuc 1
element_of-twos_complement_example =
    element_of-twos_complement traced short (negsuc 1) (omega arith)

-- Whole numbers from 0, of which 0 is NaN and 1 is infinite.
abbrev whole_numbers : Arithmetic
whole_numbers = record {
  Number = ℕ;
  is_nan = λ n. n == 0;
  is_finite = λ n. ltb 1 n;
  less = ltb;
  plus = λ m n. m + n;
  divide = λ m n. m / n;
  zero_number = 0;
  infinite_number = λ negative. if negative then 0 else 1000;
}

trimmed_zeros : trim_trailing_zeros (codes "12.5000") ≡ codes "12.5"
unfolding trim_trailing_zeros
trimmed_zeros = refl

whole_trimmed : trim_trailing_zeros (codes "100.0000") ≡ codes "100"
unfolding trim_trailing_zeros
whole_trimmed = refl
