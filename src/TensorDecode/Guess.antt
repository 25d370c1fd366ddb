-- ===== src/TensorDecode/Guess.antt =====
-- `guessDType` of src/tensorDecode.ts: the element type behind the C type of a variable.
use vscode_cann_debugger.Base.{
  ℕ, zero, suc, ◌+◌, ◌-◌, Bool, false, ◌&&◌, ◌||◌, Option, none, some, List, [], ◌∷◌, Text, codes,
  ◌===◌, ◌==◌, if◌then◌else◌, length, is_digit, is_space, trim, past, span, is_word, ends_word,
}
use vscode_cann_debugger.Registers.{lower_case}
use vscode_cann_debugger.TensorDecode.Elements.{
  TensorDtype, float16, bfloat16, float32, float64, int8, uint8, int16, uint16, int32, uint32,
}

-- The qualifiers and markers that are dropped.
abbrev dropped_words : List Text
dropped_words =
    codes "const"
    ∷ codes "volatile"
    ∷ codes "__gm__"
    ∷ codes "__ubuf__"
    ∷ codes "__cbuf__"
    ∷ codes "__ca__"
    ∷ codes "__cb__"
    ∷ codes "__cc__"
    ∷ []

-- The length of the word among `ws` that the text starts with, `\b` behind it; 0 if there is none.
word_length : List Text → Text → ℕ
unfolding past
word_length [] t = 0
word_length (w ∷ ws) t = if ends_word (past w t) then length w else word_length ws t

abbrev kept : ℕ → ℕ → Text → Text
kept zero c rest = c ∷ rest
kept (suc k) c rest = rest

-- What is left of a match behind its first character.
abbrev remaining : ℕ → ℕ → ℕ
remaining zero found = found - 1
remaining (suc skip) found = skip

-- `replace(/\b(…)\b/g, '')`: `skip` characters belong to a match that has begun, and `inside` says
-- that the character before is a `\w`.
drop_words : ℕ → Bool → Text → Text
unfolding word_length is_word
drop_words skip inside [] = []
drop_words skip inside (c ∷ t) =
    let found = if inside then 0 else word_length dropped_words (c ∷ t) in
    kept (if skip == 0 then found else skip) c (drop_words (remaining skip found) (is_word c) t)

is_closed : Text → Bool
is_closed [] = false
is_closed (c ∷ t) = c == b']'

-- The length of `\[\s*\d*\s*\]` at the start, 0 if there is none.
bracket_length : Text → ℕ
unfolding span is_space is_digit is_closed
bracket_length [] = 0
bracket_length (c ∷ t) =
    let (a, behind_a) = span is_space t in
    let (b, behind_b) = span is_digit behind_a in
    let (d, behind_d) = span is_space behind_b in
    if c == b'[' && is_closed behind_d then length a + length b + length d + 2 else 0

decoration_length : Text → ℕ
unfolding bracket_length
decoration_length [] = 0
decoration_length (c ∷ t) = if c == b'*' || c == b'&' then 1 else bracket_length (c ∷ t)

-- `replace(/[*&]|\[\s*\d*\s*\]/g, '')`
drop_decorations : ℕ → Text → Text
unfolding decoration_length
drop_decorations skip [] = []
drop_decorations skip (c ∷ t) =
    let found = decoration_length (c ∷ t) in
    kept (if skip == 0 then found else skip) c (drop_decorations (remaining skip found) t)

unfoldable pub bare_type : Text → Text
unfolding drop_words drop_decorations trim lower_case
bare_type type = lower_case (trim (drop_decorations 0 (drop_words 0 false type)))

-- The cases of the switch, in order.
abbrev spellings : List (TensorDtype × List Text)
spellings =
    (float16, codes "half" ∷ codes "__fp16" ∷ codes "float16_t" ∷ codes "fp16" ∷ [])
    ∷ (bfloat16, codes "bfloat16_t" ∷ codes "__bf16" ∷ codes "bf16" ∷ [])
    ∷ (float32, codes "float" ∷ codes "float32_t" ∷ [])
    ∷ (float64, codes "double" ∷ [])
    ∷ (int8, codes "int8_t" ∷ codes "signed char" ∷ codes "char" ∷ [])
    ∷ (uint8, codes "uint8_t" ∷ codes "unsigned char" ∷ [])
    ∷ (int16, codes "int16_t" ∷ codes "short" ∷ codes "short int" ∷ [])
    ∷ (uint16, codes "uint16_t" ∷ codes "unsigned short" ∷ codes "short unsigned int" ∷ [])
    ∷ (int32, codes "int32_t" ∷ codes "int" ∷ [])
    ∷ (uint32, codes "uint32_t" ∷ codes "unsigned int" ∷ codes "unsigned" ∷ [])
    ∷ []

is_among : Text → List Text → Bool
unfolding ◌===◌
is_among t [] = false
is_among t (w ∷ ws) = t === w || is_among t ws

dtype_among : List (TensorDtype × List Text) → Text → Option TensorDtype
unfolding is_among
dtype_among [] t = none
dtype_among ((dtype, ws) ∷ rest) t = if is_among t ws then some dtype else dtype_among rest t

-- `guessDType`; an absent type is the empty text.
unfoldable pub guess_dtype : Text → Option TensorDtype
unfolding bare_type dtype_among
guess_dtype type = dtype_among spellings (bare_type type)
