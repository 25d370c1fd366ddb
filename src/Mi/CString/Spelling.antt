-- ===== src/Mi/CString/Spelling.antt =====
-- The c-strings of the GDB/MI grammar, and that `parseCString` reads each one as the text that it
-- spells, those that `quoteMiString` writes among them.
pub mod Pieces
pub mod Escapes
pub use Pieces.*
use mathlib.Core.List.{map}
use vscode_cann_debugger.Base.{
  Bool, true, ◌⊎◌, inl, inr, ℕ, zero, suc, ◌+◌, ◌*◌, ◌≤◌, ◌<◌, List, [], ◌∷◌, ◌++◌, append_assoc,
  ◌≡◌, ◌≢◌, refl, ◌∙◌, arith, Text, codes, Option, some, none, length, All, ltb, ◌==◌,
  if◌then◌else◌, false, append-nil,
}
use vscode_cann_debugger.Mi.Result.{ok}
use vscode_cann_debugger.Mi.CString.{
  digits, hex_digit, octal_digit, letter_escape, hex_escape, octal_escape, numeric_escape, unescape,
  cstring_loop, expect, parse_cstring, replace_unit, quote_mi_string,
}
use vscode_cann_debugger.Mi.CString.Spelling.Escapes.{
  EndsAt-append, unescape-octal, unescape-hex, unescape-two_octal, unescape-one_octal,
  unescape-one_hex, unescape-bare_x, unescape-other, unescape-control,
}

cstring_loop-spell :
    (p : Piece) (f : ℕ) (out rest : Text)
    → IsPiece p
    → EndsAt p rest
    → cstring_loop (suc f) out (spell p ++ rest) ≡ cstring_loop f (out ++ meaning p ∷ []) rest
unfolding cstring_loop
cstring_loop-spell (plain c) f out rest (q, b) s = ground arith
cstring_loop-spell (control k) f out rest h s = rw unescape-control
cstring_loop-spell (octal a b c) f out rest (ha, hb, hc) s = rw (unescape-octal a b c rest ha hb hc)
cstring_loop-spell (two_octal a b) f out rest (ha, hb) s = rw (unescape-two_octal a b rest ha hb s)
cstring_loop-spell (one_octal a) f out rest ha s = rw (unescape-one_octal a rest ha s)
cstring_loop-spell (two_hex a b) f out rest (ha, hb) s = rw (unescape-hex a b rest ha hb)
cstring_loop-spell (one_hex a) f out rest ha s = rw (unescape-one_hex a rest ha s)
cstring_loop-spell bare_x f out rest h s = rw (unescape-bare_x rest s)
cstring_loop-spell (other c) f out rest h s = rw (unescape-other c rest h)

cstring_loop-spell_all :
    (ps : List Piece) (f : ℕ) (out rest : Text)
    → Spells ps
    → length ps < f
    → cstring_loop f out (spell_all ps ++ b'"' ∷ rest) ≡ ok (out ++ map meaning ps, rest)
unfolding cstring_loop
cstring_loop-spell_all ps zero out rest h l = absurd (omega arith)
cstring_loop-spell_all [] (suc f) out rest h l = rw append-nil
cstring_loop-spell_all (p ∷ ps) (suc f) out rest h l = rw append_assoc (
    cstring_loop-spell p f out (spell_all ps ++ b'"' ∷ rest) h.0
      (EndsAt-append p (spell_all ps) rest h.1)
    ∙ cstring_loop-spell_all ps f (out ++ meaning p ∷ []) rest h.2 (omega arith)
    ∙ rw append_assoc)

length-spell_all : (ps : List Piece) (rest : Text) → length ps ≤ length (spell_all ps ++ rest)
length-spell_all [] rest = omega arith
length-spell_all (plain c ∷ ps) rest = omega (arith, length-spell_all ps rest)
length-spell_all (control k ∷ ps) rest = omega (arith, length-spell_all ps rest)
length-spell_all (octal a b c ∷ ps) rest = omega (arith, length-spell_all ps rest)
length-spell_all (two_octal a b ∷ ps) rest = omega (arith, length-spell_all ps rest)
length-spell_all (one_octal a ∷ ps) rest = omega (arith, length-spell_all ps rest)
length-spell_all (two_hex a b ∷ ps) rest = omega (arith, length-spell_all ps rest)
length-spell_all (one_hex a ∷ ps) rest = omega (arith, length-spell_all ps rest)
length-spell_all (bare_x ∷ ps) rest = omega (arith, length-spell_all ps rest)
length-spell_all (other c ∷ ps) rest = omega (arith, length-spell_all ps rest)

-- A literal of any characters and escapes reads as the text that it spells, and the text behind its
-- closing quote is left: escapes by a letter, by one to three octal digits or one or two
-- hexadecimal ones in either case, and letters that are no escape. An escape with fewer digits
-- than it may have must not be followed by a digit.
pub parse_cstring-spell_all :
    (ps : List Piece) (rest : Text)
    → Spells ps
    → parse_cstring (b'"' ∷ (spell_all ps ++ b'"' ∷ rest)) ≡ ok (map meaning ps, rest)
unfolding parse_cstring expect
parse_cstring-spell_all ps rest h =
    cstring_loop-spell_all ps _ [] rest h (omega (arith, length-spell_all ps (b'"' ∷ rest)))

abbrev quoted_piece : ℕ → Piece
quoted_piece c =
    if c == b'\\' then control backslash else if c == b'"' then control quote else plain c

quoted_piece-IsPiece : (c : ℕ) → IsPiece (quoted_piece c)
quoted_piece-IsPiece c = ground arith

meaning-quoted_piece : (c : ℕ) → meaning (quoted_piece c) ≡ c
meaning-quoted_piece c = ground arith

map-meaning-quoted_piece : (text : Text) → map meaning (map quoted_piece text) ≡ text
map-meaning-quoted_piece [] = refl
map-meaning-quoted_piece (c ∷ text) = cc (meaning-quoted_piece c, map-meaning-quoted_piece text)

replace-quoted_piece :
    (text : Text)
    → replace_unit b'"' (codes "\\\"") (replace_unit b'\\' (codes "\\\\") text)
      ≡ spell_all (map quoted_piece text)
unfolding replace_unit
replace-quoted_piece [] = refl
replace-quoted_piece (c ∷ text) = ground (arith, replace-quoted_piece text)

quoted_piece-EndsAt : (c : ℕ) (t : Text) → EndsAt (quoted_piece c) t
quoted_piece-EndsAt c t = ground arith

Spells-quoted_piece : (text : Text) → Spells (map quoted_piece text)
Spells-quoted_piece [] = tt
Spells-quoted_piece (c ∷ text) =
    (quoted_piece-IsPiece c, quoted_piece-EndsAt c _, Spells-quoted_piece text)

quote_mi_string-spell_all :
    (text : Text) → quote_mi_string text ≡ b'"' ∷ (spell_all (map quoted_piece text) ++ b'"' ∷ [])
unfolding quote_mi_string
quote_mi_string-spell_all text = rw replace-quoted_piece

-- `parseCString` undoes `quoteMiString` on every text, whatever quotes, backslashes, line ends and
-- other code units it holds, and stops behind the closing quote.
pub parse_cstring-quote_mi_string :
    (text rest : Text) → parse_cstring (quote_mi_string text ++ rest) ≡ ok (text, rest)
parse_cstring-quote_mi_string text rest = rw (quote_mi_string-spell_all text) (
    rw append_assoc (
      parse_cstring-spell_all (map quoted_piece text) rest (Spells-quoted_piece text)
      ∙ rw map-meaning-quoted_piece))
