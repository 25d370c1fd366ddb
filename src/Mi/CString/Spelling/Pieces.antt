-- ===== src/Mi/CString/Spelling/Pieces.antt =====
-- The c-strings of MI: what `parseCString` of src/mi/miParser.ts is held to.
use vscode_cann_debugger.Base.{
  Bool, ◌⊎◌, ℕ, ◌+◌, ◌*◌, ◌<◌, List, [], ◌∷◌, ◌++◌, ◌≢◌, Text, codes, All, ltb, if◌then◌else◌,
  false,
}

pub data Control : Type 0 where
  newline tab return bell backspace form_feed vertical_tab escape : Control
  backslash quote apostrophe : Control

abbrev pub letter : Control → ℕ
letter newline = b'n'
letter tab = b't'
letter return = b'r'
letter bell = b'a'
letter backspace = b'b'
letter form_feed = b'f'
letter vertical_tab = b'v'
letter escape = b'e'
letter backslash = b'\\'
letter quote = b'"'
letter apostrophe = b'\''

abbrev pub unit : Control → ℕ
unit newline = 10
unit tab = 9
unit return = 13
unit bell = 7
unit backspace = 8
unit form_feed = 12
unit vertical_tab = 11
unit escape = 27
unit backslash = b'\\'
unit quote = b'"'
unit apostrophe = b'\''

-- A hexadecimal digit and whether it is written in upper case.
abbrev pub HexDigit : Type 0
HexDigit = ℕ × Bool

-- One code unit of a literal: itself, a letter escape, up to three octal or two hexadecimal digits,
-- the letter x with no digit behind it, or another letter, which stands for itself.
pub data Piece : Type 0 where
  plain : ℕ → Piece
  control : Control → Piece
  octal : ℕ → ℕ → ℕ → Piece
  two_octal : ℕ → ℕ → Piece
  one_octal : ℕ → Piece
  two_hex : HexDigit → HexDigit → Piece
  one_hex : HexDigit → Piece
  bare_x : Piece
  other : ℕ → Piece

abbrev pub hex : ℕ → ℕ → Piece
hex a b = two_hex (a, false) (b, false)

abbrev pub IsPiece : Piece → Type 0
IsPiece (plain c) = (c ≢ b'"') × (c ≢ b'\\')
IsPiece (control k) = Unit
IsPiece (octal a b c) = (a < 8) × (b < 8) × (c < 8)
IsPiece (two_octal a b) = (a < 8) × (b < 8)
IsPiece (one_octal a) = a < 8
IsPiece (two_hex a b) = (a.0 < 16) × (b.0 < 16)
IsPiece (one_hex a) = a.0 < 16
IsPiece bare_x = Unit
IsPiece (other c) = ((c < b'0') ⊎ (b'7' < c)) × All (λ d. c ≢ d) (codes "xntrabfve\\\"'")

-- A text that does not go on with an octal or with a hexadecimal digit.
abbrev pub NotOctal : Text → Type 0
NotOctal [] = Unit
NotOctal (c ∷ t) = (c < b'0') ⊎ (b'7' < c)

abbrev pub NotHex : Text → Type 0
NotHex [] = Unit
NotHex (c ∷ t) = (c < b'0') ⊎ ((b'9' < c) × (c < b'A')) ⊎ ((b'F' < c) × (c < b'a')) ⊎ (b'f' < c)

-- An escape with fewer digits than it may have ends where no digit follows.
abbrev pub EndsAt : Piece → Text → Type 0
EndsAt (plain c) t = Unit
EndsAt (control k) t = Unit
EndsAt (octal a b c) t = Unit
EndsAt (two_octal a b) t = NotOctal t
EndsAt (one_octal a) t = NotOctal t
EndsAt (two_hex a b) t = Unit
EndsAt (one_hex a) t = NotHex t
EndsAt bare_x t = NotHex t
EndsAt (other c) t = Unit

abbrev pub hex_char : HexDigit → ℕ
hex_char (d, upper) = if ltb d 10 then b'0' + d else if upper then d + 55 else d + 87

abbrev pub spell : Piece → Text
spell (plain c) = c ∷ []
spell (control k) = b'\\' ∷ letter k ∷ []
spell (octal a b c) = b'\\' ∷ (b'0' + a) ∷ (b'0' + b) ∷ (b'0' + c) ∷ []
spell (two_octal a b) = b'\\' ∷ (b'0' + a) ∷ (b'0' + b) ∷ []
spell (one_octal a) = b'\\' ∷ (b'0' + a) ∷ []
spell (two_hex a b) = b'\\' ∷ b'x' ∷ hex_char a ∷ hex_char b ∷ []
spell (one_hex a) = b'\\' ∷ b'x' ∷ hex_char a ∷ []
spell bare_x = b'\\' ∷ b'x' ∷ []
spell (other c) = b'\\' ∷ c ∷ []

abbrev pub meaning : Piece → ℕ
meaning (plain c) = c
meaning (control k) = unit k
meaning (octal a b c) = (a * 8 + b) * 8 + c
meaning (two_octal a b) = a * 8 + b
meaning (one_octal a) = a
meaning (two_hex a b) = a.0 * 16 + b.0
meaning (one_hex a) = a.0
meaning bare_x = b'x'
meaning (other c) = c

abbrev pub spell_all : List Piece → Text
spell_all [] = []
spell_all (p ∷ ps) = spell p ++ spell_all ps

-- A list of pieces that is read piece by piece.
abbrev pub Spells : List Piece → Type 0
Spells [] = Unit
Spells (p ∷ ps) = IsPiece p × EndsAt p (spell_all ps) × Spells ps
