-- ===== src/TypeFormatters/Display/Escapes.antt =====
-- What `quoteText` of src/typeFormatters.ts shows is a c-string of MI, and reads back as the text.
use vscode_cann_debugger.Base.{
  ℕ, zero, suc, ◌/◌, ◌%◌, ◌<◌, ◌≤◌, ◌||◌, [], ◌∷◌, ◌++◌, ◌≡◌, refl, ap, ◌∙◌, arith, Text, map,
  length, ltb, ◌==◌, if◌then◌else◌, Bool-cases, inl, inr,
}
use vscode_cann_debugger.Mi.Result.{ok}
use vscode_cann_debugger.Mi.CString.{parse_cstring}
use vscode_cann_debugger.Mi.CString.Spelling.{
  Spells, EndsAt, Piece, plain, control, hex, newline, tab, return, backslash, quote, IsPiece,
  spell, spell_all, meaning, parse_cstring-spell_all,
}
use vscode_cann_debugger.Mi.Number.{hexadecimal, hex_onto, hex_unit}
use vscode_cann_debugger.Registers.{pad_start}
use vscode_cann_debugger.TypeFormatters.Display.{
  hex_escaped, escape_unit, escape_cstring, omission, quote_text,
}

hex_onto-two :
    (f n : ℕ)
    → 16 ≤ n
    → n < 256
    → hex_onto (suc (suc f)) n [] ≡ hex_unit (n / 16) ∷ hex_unit (n % 16) ∷ []
unfolding hex_onto
hex_onto-two f n h k = ground arith

hexadecimal-two :
    (n : ℕ) → 16 ≤ n → n < 256 → hexadecimal n ≡ hex_unit (n / 16) ∷ hex_unit (n % 16) ∷ []
unfolding hexadecimal
hexadecimal-two zero h k = absurd (omega arith)
hexadecimal-two (suc n) h k = hex_onto-two n (suc n) h k

hexadecimal-one : (n : ℕ) → n < 16 → hexadecimal n ≡ hex_unit n ∷ []
unfolding hexadecimal hex_onto
hexadecimal-one n h = ground arith

hex_escaped-spell : (c : ℕ) → c < 256 → hex_escaped c ≡ spell (hex (c / 16) (c % 16))
unfolding hex_escaped pad_start
hex_escaped-spell c h = elim (Bool-cases (ltb c 16)) [
  | inl small ↦ rw (hexadecimal-one c (ground arith)) (ground arith)
  | inr big ↦ rw (hexadecimal-two c (ground arith) h) (ground arith)
]

abbrev escape_piece : ℕ → Piece
escape_piece c =
    if c == b'\\'
    then control backslash
    else if c == b'"'
    then control quote
    else if c == 10
    then control newline
    else if c == 13
    then control return
    else if c == 9
    then control tab
    else if ltb c 0x20 || c == 0x7f
    then hex (c / 16) (c % 16)
    else plain c

escape_unit-spell : (c : ℕ) → escape_unit c ≡ spell (escape_piece c)
unfolding escape_unit
escape_unit-spell c = ground (arith, hex_escaped-spell c)

escape_piece-IsPiece : (c : ℕ) → IsPiece (escape_piece c)
escape_piece-IsPiece c = ground arith

meaning-escape_piece : (c : ℕ) → meaning (escape_piece c) ≡ c
meaning-escape_piece c = ground arith

escape_cstring-spell_all : (text : Text) → escape_cstring text ≡ spell_all (map escape_piece text)
unfolding escape_cstring
escape_cstring-spell_all [] = refl
escape_cstring-spell_all (c ∷ text) =
    ap (λ t. escape_unit c ++ t) (escape_cstring-spell_all text)
    ∙ ap (λ t. t ++ spell_all (map escape_piece text)) (escape_unit-spell c)

escape_piece-EndsAt : (c : ℕ) (t : Text) → EndsAt (escape_piece c) t
escape_piece-EndsAt c t = ground arith

Spells-escape_piece : (text : Text) → Spells (map escape_piece text)
Spells-escape_piece [] = tt
Spells-escape_piece (c ∷ text) =
    (escape_piece-IsPiece c, escape_piece-EndsAt c _, Spells-escape_piece text)

map-meaning-escape_piece : (text : Text) → map meaning (map escape_piece text) ≡ text
map-meaning-escape_piece [] = refl
map-meaning-escape_piece (c ∷ text) = cc (meaning-escape_piece c, map-meaning-escape_piece text)

-- What `quoteText` shows of a text, whatever control characters, quotes and backslashes it holds,
-- starts with a c-string that `parseCString` reads as this text, and only the note of what
-- was left out stands behind it.
pub parse_cstring-quote_text :
    (text : Text) (omitted : ℕ)
    → parse_cstring (quote_text text omitted) ≡ ok (text, omission (length text) omitted)
unfolding quote_text
parse_cstring-quote_text text omitted = rw (escape_cstring-spell_all text) (
    parse_cstring-spell_all (map escape_piece text) (omission (length text) omitted)
      (Spells-escape_piece text)
    ∙ rw map-meaning-escape_piece)
