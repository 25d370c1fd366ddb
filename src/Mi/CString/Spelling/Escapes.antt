-- ===== src/Mi/CString/Spelling/Escapes.antt =====
-- How the escapes of a c-string are read: `parseCString` of src/mi/miParser.ts.
use vscode_cann_debugger.Base.{
  true, inl, ℕ, zero, suc, ◌+◌, ◌*◌, ◌<◌, [], ◌∷◌, ◌++◌, ◌≡◌, refl, ◌∙◌, arith, Text, Option, some,
  none, ◌==◌, false,
}
use vscode_cann_debugger.Mi.CString.{
  digits, hex_digit, octal_digit, letter_escape, hex_escape, octal_escape, numeric_escape, unescape,
}
use vscode_cann_debugger.Mi.CString.Spelling.Pieces.{
  Control, newline, letter, unit, HexDigit, Piece, two_octal, one_octal, one_hex, bare_x, other,
  IsPiece, NotOctal, NotHex, EndsAt, hex_char,
}

pub EndsAt-append : (p : Piece) (t rest : Text) → EndsAt p t → EndsAt p (t ++ b'"' ∷ rest)
EndsAt-append (two_octal a b) [] rest h = inl (omega arith)
EndsAt-append (two_octal a b) (c ∷ t) rest h = h
EndsAt-append (one_octal a) [] rest h = inl (omega arith)
EndsAt-append (one_octal a) (c ∷ t) rest h = h
EndsAt-append (one_hex a) [] rest h = ground arith
EndsAt-append (one_hex a) (c ∷ t) rest h = h
EndsAt-append bare_x [] rest h = ground arith
EndsAt-append bare_x (c ∷ t) rest h = h
EndsAt-append _ t rest h = tt

-- A text that does not go on with a digit as the program reads it.
abbrev Stops : (ℕ → Option ℕ) → Text → Type 0
Stops digit [] = Unit
Stops digit (c ∷ t) = digit c ≡ none

NotOctal-Stops : (t : Text) → NotOctal t → Stops octal_digit t
unfolding octal_digit
NotOctal-Stops [] h = tt
NotOctal-Stops (c ∷ t) h = ground arith

NotHex-Stops : (t : Text) → NotHex t → Stops hex_digit t
unfolding hex_digit
NotHex-Stops [] h = tt
NotHex-Stops (c ∷ t) h = ground arith

digits_none :
    (digit : ℕ → Option ℕ) (radix acc n : ℕ) (ts : Text)
    → Stops digit ts
    → digits digit radix n acc ts ≡ (0, acc, ts)
unfolding digits
digits_none digit radix acc zero ts h = refl
digits_none digit radix acc (suc n) [] h = refl
digits_none digit radix acc (suc n) (c ∷ ts) h = rw (h, digits) refl

digits_one :
    (digit : ℕ → Option ℕ) (radix acc b : ℕ) (ts : Text) {x : ℕ}
    → digit b ≡ some x
    → Stops digit ts
    → digits digit radix 2 acc (b ∷ ts) ≡ (1, acc * radix + x, ts)
unfolding digits
digits_one digit radix acc b ts {x} p s =
    ground (arith, digits_none digit radix (acc * radix + x) 1 ts s)

octal_digit-char : (d : ℕ) → d < 8 → octal_digit (b'0' + d) ≡ some d
unfolding octal_digit
octal_digit-char d h = ground arith

hex_digit-hex_char : (d : HexDigit) → d.0 < 16 → hex_digit (hex_char d) ≡ some d.0
unfolding hex_digit
hex_digit-hex_char (d, true) h = ground arith
hex_digit-hex_char (d, false) h = ground arith

letter_escape-digit : (d : ℕ) → d < 8 → letter_escape (b'0' + d) ≡ none
unfolding letter_escape
letter_escape-digit d h = ground arith

pub unescape-control : (k : Control) (rest : Text) → unescape (letter k) rest ≡ (unit k, rest)
unfolding unescape numeric_escape letter_escape
unescape-control newline rest = refl
unescape-control _ rest = refl

digits_two :
    (digit : ℕ → Option ℕ) (radix acc b c : ℕ) (ts : Text) {x y : ℕ}
    → digit b ≡ some x
    → digit c ≡ some y
    → digits digit radix 2 acc (b ∷ c ∷ ts) ≡ (2, (acc * radix + x) * radix + y, ts)
unfolding digits
digits_two digit radix acc b c ts p q = ground arith

not_x : (d : ℕ) → d < 8 → ((b'0' + d) == b'x') ≡ false
not_x d h = ground arith

pub unescape-octal :
    (a b c : ℕ) (rest : Text)
    → a < 8
    → b < 8
    → c < 8
    → unescape (b'0' + a) ((b'0' + b) ∷ (b'0' + c) ∷ rest) ≡ ((a * 8 + b) * 8 + c, rest)
unfolding unescape numeric_escape octal_escape digits
unescape-octal a b c rest ha hb hc = rw (letter_escape-digit a ha) (
    rw (not_x a ha) (
      rw (octal_digit-char a ha, octal_escape)
        (rw (digits_two octal_digit 8 a _ _ rest (octal_digit-char b hb) (octal_digit-char c hc)))))

-- Fewer octal digits.
unescape-leading_octal :
    (a : ℕ) (ts : Text) → a < 8 → unescape (b'0' + a) ts ≡ octal_escape (some a) (b'0' + a) ts
unfolding unescape numeric_escape
unescape-leading_octal a ts ha =
    rw (letter_escape-digit a ha) (rw (not_x a ha) (rw (octal_digit-char a ha) refl))

pub unescape-two_octal :
    (a b : ℕ) (rest : Text)
    → a < 8
    → b < 8
    → NotOctal rest
    → unescape (b'0' + a) ((b'0' + b) ∷ rest) ≡ (a * 8 + b, rest)
unfolding octal_escape
unescape-two_octal a b rest ha hb s =
    unescape-leading_octal a _ ha
    ∙ rw (digits_one octal_digit 8 a _ rest (octal_digit-char b hb) (NotOctal-Stops rest s)) refl

pub unescape-one_octal :
    (a : ℕ) (rest : Text) → a < 8 → NotOctal rest → unescape (b'0' + a) rest ≡ (a, rest)
unfolding octal_escape
unescape-one_octal a rest ha s =
    unescape-leading_octal a rest ha
    ∙ rw (digits_none octal_digit 8 a 2 rest (NotOctal-Stops rest s)) refl

pub unescape-one_hex :
    (a : HexDigit) (rest : Text)
    → a.0 < 16
    → NotHex rest
    → unescape b'x' (hex_char a ∷ rest) ≡ (a.0, rest)
unfolding unescape numeric_escape hex_escape letter_escape
unescape-one_hex a rest ha s =
    rw (digits_one hex_digit 16 0 _ rest (hex_digit-hex_char a ha) (NotHex-Stops rest s))
      (ground arith)

pub unescape-bare_x : (rest : Text) → NotHex rest → unescape b'x' rest ≡ (b'x', rest)
unfolding unescape numeric_escape hex_escape letter_escape
unescape-bare_x rest s = rw (digits_none hex_digit 16 0 2 rest (NotHex-Stops rest s)) refl

pub unescape-other : (c : ℕ) (rest : Text) → IsPiece (other c) → unescape c rest ≡ (c, rest)
unfolding unescape numeric_escape letter_escape octal_digit octal_escape
unescape-other c rest h = ground arith

pub unescape-hex :
    (a b : HexDigit) (rest : Text)
    → a.0 < 16
    → b.0 < 16
    → unescape b'x' (hex_char a ∷ hex_char b ∷ rest) ≡ (a.0 * 16 + b.0, rest)
unfolding unescape numeric_escape hex_escape letter_escape digits
unescape-hex a b rest ha hb =
    rw (digits_two hex_digit 16 0 _ _ rest (hex_digit-hex_char a ha) (hex_digit-hex_char b hb))
      (ground arith)
