-- ===== src/TensorDecode/Format.antt =====
-- `formatValue` of src/tensorDecode.ts, and the tests on data types. How a double is written in
-- decimal is a parameter.
use vscode_cann_debugger.Base.{
  ℕ, Bool, false, not, ◌||◌, [], ◌∷◌, Text, codes, ◌==◌, ◌===◌, if◌then◌else◌, reverse, span,
}
use vscode_cann_debugger.TensorDecode.Elements.{TensorDtype, dtype_info}

-- The operations of JavaScript numbers that the presentation uses: `toFixed(4)`, `toExponential(3)`
-- and `String`, and the tests `>`, `=== 0` and the range of the plain notation.
pub record Writing : Type 1 where
  pub Number : Type 0
  pub is_nan : Number → Bool
  pub is_finite : Number → Bool
  pub is_positive : Number → Bool
  pub is_zero : Number → Bool
  pub is_plain : Number → Bool
  pub to_fixed : Number → Text
  pub to_exponential : Number → Text
  pub to_text : Number → Text

includes : ℕ → Text → Bool
includes c [] = false
includes c (d ∷ t) = d == c || includes c t

drop_point : Text → Text
drop_point [] = []
drop_point (c ∷ t) = if c == b'.' then t else c ∷ t

-- `replace(/\.?0+$/, '')` of a text read backwards, of which the zeros are taken.
zeros_dropped : Text → Text × Text → Text
unfolding drop_point
zeros_dropped text ([], rest) = text
zeros_dropped text (c ∷ run, rest) = reverse (drop_point rest)

-- `trimTrailingZeros`
unfoldable pub trim_trailing_zeros : Text → Text
unfolding includes zeros_dropped span
trim_trailing_zeros text =
    if includes b'.' text then zeros_dropped text (span (λ c. c == b'0') (reverse text)) else text

-- `formatValue`
unfoldable pub format_value : (w : Writing) → w.Number → TensorDtype → Text
unfolding trim_trailing_zeros dtype_info
format_value w value dtype =
    if w.is_nan value
    then codes "NaN"
    else if not (w.is_finite value)
    then (if w.is_positive value then codes "inf" else codes "-inf")
    else if not (dtype_info dtype).float
    then w.to_text value
    else if w.is_zero value
    then codes "0"
    else if w.is_plain value
    then trim_trailing_zeros (w.to_fixed value)
    else w.to_exponential value

-- `isRawDType`, of a text.
unfoldable pub is_raw_dtype : Text → Bool
unfolding ◌===◌
is_raw_dtype value = value === codes "script" || value === codes "struct"
