-- ===== src/Mi/Number.antt =====
-- Numbers in MI replies: `miNumber` of src/mi/miParser.ts, and the integers that
-- src/varObjects.ts reads as BigInt. A fraction or an exponent is no number of the model.
pub mod Hex
use vscode_cann_debugger.Base.{
  ℕ, zero, suc, ◌+◌, ◌-◌, ◌*◌, ◌/◌, ◌%◌, Bool, true, false, ◌&&◌, ◌||◌, Option, none, some, List,
  [], ◌∷◌, ◌++◌, Text, codes, trim, is_digit, number_from, ltb, ◌==◌, if◌then◌else◌, ℤ, pos, negsuc,
}
use vscode_cann_debugger.Mi.Value.{MiValue, mi_string}
use vscode_cann_debugger.Mi.CString.{hex_digit}
use vscode_cann_debugger.Mi.Line.{span_digits}

abbrev pub digit_value : Option ℕ → ℕ
digit_value none = 0
digit_value (some d) = d

-- `BigInt` of hexadecimal digits, read on from `acc`.
unfoldable pub hex_number : ℕ → Text → ℕ
unfolding hex_digit
hex_number acc [] = acc
hex_number acc (c ∷ t) = hex_number (acc * 16 + digit_value (hex_digit c)) t

abbrev is_value : Option ℕ → Bool
is_value none = false
is_value (some d) = true

-- The leading hexadecimal digits and what stands behind them.
unfoldable pub span_hex : Text → Text × Text
unfolding hex_digit
span_hex [] = ([], [])
span_hex (c ∷ t) =
    let (ds, rest) = span_hex t in if is_value (hex_digit c) then (c ∷ ds, rest) else ([], c ∷ t)

-- -n
abbrev pub minus : ℕ → ℤ
minus zero = pos 0
minus (suc n) = negsuc n

-- The digits behind `0x`; none where the text has no such start.
unfoldable pub hex_part : Text → Text
unfolding span_hex
hex_part (z ∷ x ∷ t) = if z == b'0' && x == b'x' then (span_hex t).0 else []
hex_part _ = []

abbrev pub number_if_any : Text → (ℕ → ℤ) → Option ℤ
number_if_any [] sign = none
number_if_any (c ∷ t) sign = some (sign (number_from 0 (c ∷ t)))

unfoldable pub signed : Text → Option ℤ
unfolding span_digits number_from
signed [] = none
signed (c ∷ t) =
    if c == b'-'
    then number_if_any (span_digits t).0 minus
    else number_if_any (span_digits (c ∷ t)).0 pos

abbrev pub hex_or : Text → Option ℤ → Option ℤ
hex_or [] otherwise = otherwise
hex_or (c ∷ t) otherwise = some (pos (hex_number 0 (c ∷ t)))

-- `/^(0x[0-9a-fA-F]+|-?\d+)/` and `BigInt` of what it takes.
unfoldable pub leading_integer : Text → Option ℤ
unfolding hex_part signed hex_number
leading_integer t = hex_or (hex_part t) (signed t)

abbrev is_empty : Text → Bool
is_empty [] = true
is_empty (c ∷ t) = false

-- The whole text is digits of the base.
unfoldable pub whole : Text × Text → (ℕ → ℤ) → (Text → ℕ) → Option ℤ
whole ([], behind) sign value = none
whole (c ∷ ds, behind) sign value = if is_empty behind then some (sign (value (c ∷ ds))) else none

-- `Number` of a trimmed text, where it is an integer or no number at all.
number_of_trimmed : Text → Option ℤ
unfolding whole span_digits span_hex number_from hex_number
number_of_trimmed [] = some (pos 0)
number_of_trimmed (c ∷ []) = whole (span_digits (c ∷ [])) pos (number_from 0)
number_of_trimmed (c ∷ d ∷ t) =
    if c == b'0' && (d == b'x' || d == b'X')
    then whole (span_hex t) pos (hex_number 0)
    else if c == b'-'
    then whole (span_digits (d ∷ t)) minus (number_from 0)
    else if c == b'+'
    then whole (span_digits (d ∷ t)) pos (number_from 0)
    else whole (span_digits (c ∷ d ∷ t)) pos (number_from 0)

abbrev or_else : Option ℤ → ℤ → ℤ
or_else none n = n
or_else (some m) n = m

number_or : Text → ℤ → ℤ
unfolding span_hex hex_number number_of_trimmed trim
number_or [] fallback = fallback
number_or (c ∷ []) fallback = or_else (number_of_trimmed (trim (c ∷ []))) fallback
number_or (c ∷ d ∷ t) fallback =
    if c == b'0' && (d == b'x' || d == b'X')
    then or_else (hex_or (span_hex t).0 none) fallback
    else or_else (number_of_trimmed (trim (c ∷ d ∷ t))) fallback

-- `miNumber`
unfoldable pub mi_number : Option MiValue → ℤ → ℤ
unfolding number_or mi_string
mi_number v fallback = number_or (mi_string v []) fallback

-- The digits of `n` in base 16, in front of `behind`; `n + 1` is fuel enough.
abbrev pub hex_unit : ℕ → ℕ
hex_unit d = if ltb d 10 then b'0' + d else b'a' + (d - 10)

unfoldable pub hex_onto : ℕ → ℕ → Text → Text
hex_onto zero n behind = behind
hex_onto (suc f) n behind =
    let more = hex_onto f (n / 16) (hex_unit (n % 16) ∷ behind) in
    if ltb n 16 then hex_unit n ∷ behind else more

-- `n.toString(16)`
unfoldable pub hexadecimal : ℕ → Text
unfolding hex_onto
hexadecimal n = hex_onto (suc n) n []

-- `n.toString(16)` of an integer.
unfoldable pub hexadecimal_ℤ : ℤ → Text
unfolding hexadecimal
hexadecimal_ℤ (pos n) = hexadecimal n
hexadecimal_ℤ (negsuc n) = b'-' ∷ hexadecimal (suc n)
