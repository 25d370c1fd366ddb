-- ===== src/Mi/CString.antt =====
-- C-string literals of MI: `parseCString` of src/mi/miParser.ts and `quoteMiString` of
-- src/mi/miConnection.ts. The position in the input is the text that is left.
pub mod Fuel
pub mod Spelling
use vscode_cann_debugger.Base.{
  ℕ, zero, suc, ◌+◌, ◌-◌, ◌*◌, Bool, ◌&&◌, List, [], ◌∷◌, ◌++◌, Text, codes, Option, none, some,
  length, leb, ◌==◌, if◌then◌else◌,
}
use vscode_cann_debugger.Mi.Result.{Result, ok, failed, out_of_fuel, ◌>>=◌}

-- A method of `Parser` returns its value and the text that is left.
abbrev pub Reading {ℓ} : Type ℓ → Type ℓ
Reading A = Result (A × Text)

unfoldable pub expect : ℕ → Text → Result Text
expect ch [] = failed
expect ch (c ∷ rest) = if c == ch then ok rest else failed

-- The value of a hexadecimal digit: `/[0-9a-fA-F]/` and `parseInt(…, 16)`.
unfoldable pub hex_digit : ℕ → Option ℕ
hex_digit c =
    if leb b'0' c && leb c b'9'
    then some (c - b'0')
    else if leb b'a' c && leb c b'f'
    then some (c - b'a' + 10)
    else if leb b'A' c && leb c b'F'
    then some (c - b'A' + 10)
    else none

unfoldable pub octal_digit : ℕ → Option ℕ
octal_digit c = if leb b'0' c && leb c b'7' then some (c - b'0') else none

-- Up to `n` digits in base `radix`: their number, their value after `acc`, and the text behind.
unfoldable pub digits : (ℕ → Option ℕ) → ℕ → ℕ → ℕ → Text → ℕ × ℕ × Text
digits digit radix zero acc ts = (0, acc, ts)
digits digit radix (suc n) acc [] = (0, acc, [])
digits digit radix (suc n) acc (c ∷ ts) = elim (digit c) [
  | none ↦ (0, acc, c ∷ ts)
  | some d ↦ let (k, v, rest) = digits digit radix n (acc * radix + d) ts in (suc k, v, rest)
]

-- The escapes that stand for one code unit by a letter.
unfoldable pub letter_escape : ℕ → Option ℕ
letter_escape e =
    if e == b'n'
    then some 10
    else if e == b't'
    then some 9
    else if e == b'r'
    then some 13
    else if e == b'a'
    then some 7
    else if e == b'b'
    then some 8
    else if e == b'f'
    then some 12
    else if e == b'v'
    then some 11
    else if e == b'e'
    then some 27
    else if e == b'\\'
    then some b'\\'
    else if e == b'"'
    then some b'"'
    else if e == b'\''
    then some b'\''
    else none

-- `case 'x'`: with no digit behind it the letter stands for itself.
unfoldable pub hex_escape : Text → ℕ × Text
hex_escape rest =
    let (k, v, left) = digits hex_digit 16 2 0 rest in ((if k == 0 then b'x' else v), left)

-- The `default` case: `d` is the value of the letter if it is an octal digit.
unfoldable pub octal_escape : Option ℕ → ℕ → Text → ℕ × Text
octal_escape (some d) e rest = let (_, v, left) = digits octal_digit 8 2 d rest in (v, left)
octal_escape none e rest = (e, rest)

unfoldable pub numeric_escape : Option ℕ → ℕ → Text → ℕ × Text
unfolding hex_escape octal_escape
numeric_escape (some c) e rest = (c, rest)
numeric_escape none e rest =
    if e == b'x' then hex_escape rest else octal_escape (octal_digit e) e rest

-- The code unit that the escape letter `e` and the text behind it append, and the text left.
unfoldable pub unescape : ℕ → Text → ℕ × Text
unescape e rest = numeric_escape (letter_escape e) e rest

-- The loop of `parseCString`. An unterminated literal gives what was read.
unfoldable pub cstring_loop : ℕ → Text → Text → Reading Text
cstring_loop zero out ts = out_of_fuel
cstring_loop (suc f) out [] = ok (out, [])
cstring_loop (suc f) out (c ∷ ts) =
    let plain = cstring_loop f (out ++ c ∷ []) ts in
    let escaped = elim ts as (λ _. Reading Text) [
      | [] ↦ ok (out, [])
      | e ∷ rest ↦ let (u, left) = unescape e rest in cstring_loop f (out ++ u ∷ []) left
    ] in
    if c == b'"' then ok (out, ts) else if c == b'\\' then escaped else plain

unfoldable pub parse_cstring : Text → Reading Text
parse_cstring ts = expect b'"' ts >>= λ rest. cstring_loop (suc (length rest)) [] rest

-- `text.replace(/c/g, by)` for one code unit `c`.
unfoldable pub replace_unit : ℕ → Text → Text → Text
replace_unit c by [] = []
replace_unit c by (x ∷ text) =
    if x == c then by ++ replace_unit c by text else x ∷ replace_unit c by text

-- `quoteMiString`: backslashes are doubled first, then quotes are escaped.
unfoldable pub quote_mi_string : Text → Text
unfolding replace_unit
quote_mi_string text =
    let doubled = replace_unit b'\\' (codes "\\\\") text in
    b'"' ∷ (replace_unit b'"' (codes "\\\"") doubled ++ b'"' ∷ [])
