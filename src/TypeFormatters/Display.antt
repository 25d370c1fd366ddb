-- ===== src/TypeFormatters/Display.antt =====
-- Text of src/typeFormatters.ts: `decodeText`, `quoteText` and `escapeCString`. A text is its UTF-16
-- code units; a surrogate pair is escaped by no rule, like each of its halves.
pub mod Escapes
use vscode_cann_debugger.Base.{
  ℕ, zero, suc, ◌+◌, Bool, true, false, ◌||◌, List, [], ◌∷◌, ◌++◌, Text, codes, decimal, length,
  ltb, ◌==◌, ◌===◌, if◌then◌else◌,
}
use vscode_cann_debugger.Mi.Number.{hexadecimal}
use vscode_cann_debugger.Registers.{pad_start}

-- UTF-8 in Node's Buffer: `toString('utf8')` and `Buffer.from(text, 'utf8')`.
pub record Utf8 : Type 0 where
  pub decode : List ℕ → Text
  pub encode : Text → List ℕ

-- `decodeText`; in latin1 every byte is the code unit of the same number.
unfoldable pub decode_text : Utf8 → List ℕ → Text
unfolding ◌===◌
decode_text utf8 bytes =
    let text = utf8.decode bytes in if utf8.encode text === bytes then text else bytes

-- `\x` and two digits.
unfoldable pub hex_escaped : ℕ → Text
unfolding pad_start hexadecimal
hex_escaped code = b'\\' ∷ b'x' ∷ pad_start 2 (hexadecimal code)

unfoldable pub escape_unit : ℕ → Text
unfolding hex_escaped
escape_unit c =
    if c == b'\\'
    then codes "\\\\"
    else if c == b'"'
    then codes "\\\""
    else if c == 10
    then codes "\\n"
    else if c == 13
    then codes "\\r"
    else if c == 9
    then codes "\\t"
    else if ltb c 0x20 || c == 0x7f
    then hex_escaped c
    else c ∷ []

-- `escapeCString`
unfoldable pub escape_cstring : Text → Text
unfolding escape_unit
escape_cstring [] = []
escape_cstring (c ∷ text) = escape_unit c ++ escape_cstring text

unfoldable pub omission : ℕ → ℕ → Text
unfolding decimal
omission size zero = []
omission size (suc n) = codes "... (" ++ (decimal (size + suc n) ++ codes " chars)")

-- `quoteText`
unfoldable pub quote_text : Text → ℕ → Text
unfolding escape_cstring omission
quote_text text omitted = b'"' ∷ (escape_cstring text ++ b'"' ∷ omission (length text) omitted)
